-- ===== src/Shell/Args/Samples.antt =====
-- A line of two words.
use loom_bootloader.Base.{ℕ, zero, suc, List, [], ◌∷◌, Bool, true, ◌⊎◌, refl, arith, length}
use loom_bootloader.Base.Split.{pieces}
use loom_bootloader.Shell.{Buffer}
use loom_bootloader.Shell.Args.{exec_args}
use loom_bootloader.Shell.Args.Words.{Refused, Cut, exec_args-Cut}

abbrev line : List ℕ
line = 108 ∷ 115 ∷ 32 ∷ 32 ∷ 98 ∷ []

abbrev at : List ℕ → Buffer
at [] i = 0
at (c ∷ cs) zero = c
at (c ∷ cs) (suc i) = at cs i

abbrev heap : ℕ → Bool
heap n = true

exec_args-Cut_example :
    Refused heap (length (pieces 32 line)) (exec_args heap 6 (at line))
    ⊎ Cut (at line) 0 line (record { args = []; argvc = 0; bytes = 0 }) (exec_args heap 6 (at line))
exec_args-Cut_example =
    exec_args-Cut heap 6 (at line) line
      (
        refl,
        omega arith,
        (refl, omega arith, (refl, omega arith, (refl, omega arith, (refl, omega arith, refl)))),
      )
      (omega arith) (omega arith)
