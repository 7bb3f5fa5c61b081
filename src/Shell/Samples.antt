-- ===== src/Shell/Samples.antt =====
-- Typing `ba`, the cursor moved left between the two keys and back afterwards: the line is `ab`.
use loom_bootloader.Base.{◌≡◌, List, [], ◌∷◌, refl}
use loom_bootloader.Shell.{
  Buffer, Key, shift_up, insert_char, press_other, write_key_code, exec_keys, shell_init,
}
use loom_bootloader.Shell.Line.{Shows}
use loom_bootloader.Shell.Edit.{empty_line, edit_all, exec_keys-Shows}
use loom_bootloader.Shell.Bounds.{InBounds, exec_keys-InBounds}

abbrev keys : List Key
keys = Key.other 98 ∷ Key.left ∷ Key.other 97 ∷ Key.right ∷ Key.backspace ∷ []

abbrev stale : Buffer
stale j = 120

abbrev no_command : Buffer → Buffer
no_command b = b

exec_keys-Shows_example :
    Shows (exec_keys no_command keys (shell_init stale)) (edit_all keys empty_line)
exec_keys-Shows_example = exec_keys-Shows no_command keys stale

exec_keys-InBounds_example : InBounds stale (exec_keys no_command keys (shell_init stale))
exec_keys-InBounds_example = exec_keys-InBounds no_command stale keys (λ c j h. refl)

-- The byte behind a character typed at the end keeps what was there.
unterminated : (exec_keys no_command (Key.other 98 ∷ []) (shell_init stale)).buf 1 ≡ 120
unfolding exec_keys write_key_code press_other insert_char shell_init
unterminated = refl

-- So does the byte behind a line extended after an insertion in its middle.
unterminated_later :
    (exec_keys no_command
        (Key.other 98 ∷ Key.other 98 ∷ Key.left ∷ Key.other 97 ∷ Key.right ∷ Key.other 99 ∷ [])
        (shell_init stale)).buf
      4
    ≡ 120
unfolding exec_keys write_key_code press_other insert_char shell_init shift_up
unterminated_later = refl
