-- ===== src/Shell/Args.antt =====
-- src/core/shell.c, `shellParseArg` and the loop of `shellExecCommand`: a line is cut into the
-- arguments of a command, in its own buffer.
pub mod Scan
pub mod Found
pub mod Words
mod Samples
use loom_bootloader.Base.{
  ℕ, zero, suc, ◌+◌, ◌-◌, ◌*◌, List, [], ◌∷◌, ◌++◌, Bool, Option, none, some, Exec, ok, panic, hang,
  ◌>>=◌, ◌==◌, if◌then◌else◌, length, usize,
}
use loom_bootloader.Memory.{store}
use loom_bootloader.Shell.{Buffer}

-- The loop: `runpos` and `runlen` behind the first word from `runpos` on.
pub parse_loop : (fuel runpos runlen : ℕ) → Buffer → Exec (ℕ × ℕ)
parse_loop zero p n b = hang
parse_loop (suc k) p n b =
    let past_space = parse_loop k (p + 1) n b in
    let past_char = parse_loop k (p + 1) (n + 1) b in
    if b p == 0
    then ok (p, n)
    else if b p == 32
    then (if n == 0 then past_space else ok (p, n))
    else past_char

-- The index of the argument, none at the end; `pos`; and the buffer.
abbrev pub found_arg : (pos : ℕ) → Buffer → ℕ × ℕ → Option ℕ × ℕ × Buffer
found_arg pos b (p, n) =
    if n == 0
    then (none, pos, b)
    else if b p == 0
    then (some (p - n), p, b)
    else (some (p - n), p + 1, store p 0 b)

pub parse_arg : (fuel pos : ℕ) → Buffer → Exec (Option ℕ × ℕ × Buffer)
parse_arg k pos b = do run ← parse_loop k pos 0 b; ok (found_arg pos b run)

-- `argv` with its capacity `argvc`, and the bytes of the block that it points to.
pub record Argv : Type 0 where
  pub args : List ℕ
  pub argvc : ℕ
  pub bytes : ℕ

-- `realloc` tells whether the heap has room for so many bytes; pointers have four.
pub make_room : (realloc : ℕ → Bool) → Argv → Exec Argv
make_room realloc v =
    let more = if v.argvc == 0 then 1 else usize (v.argvc * 2) in
    if length v.args == v.argvc
    then (if realloc (usize (more * 4))
        then ok (record v { argvc = more; bytes = usize (more * 4) })
        else panic)
    else ok v

-- `argv[argc++] = arg`
abbrev pub add_arg : ℕ → Argv → Argv
add_arg arg v = record v { args = v.args ++ arg ∷ [] }

-- Another argument, or the end.
pub with_arg :
    (realloc : ℕ → Bool)
    → Option ℕ × ℕ × Buffer
    → Argv
    → (ℕ → Argv → Buffer → Exec (Argv × Buffer))
    → Exec (Argv × Buffer)
with_arg realloc (none, pos, b) v rest = ok (v, b)
with_arg realloc (some arg, pos, b) v rest = do
  v1 ← make_room realloc v
  rest pos (add_arg arg v1) b

-- The loop of `shellExecCommand`; each word has `word_fuel`.
pub args_loop : (realloc : ℕ → Bool) (fuel word_fuel pos : ℕ) → Argv → Buffer → Exec (Argv × Buffer)
args_loop realloc zero k pos v b = hang
args_loop realloc (suc l) k pos v b = do
  r ← parse_arg k pos b
  with_arg realloc r v (args_loop realloc l k)

pub exec_args : (realloc : ℕ → Bool) (fuel : ℕ) → Buffer → Exec (Argv × Buffer)
exec_args realloc fuel b =
    args_loop realloc fuel fuel 0 (record { args = []; argvc = 0; bytes = 0 }) b
