-- ===== src/Keycode/Samples.antt =====
-- The key A with the left shift key.
use loom_bootloader.Base.{◌≡◌, refl, arith}
use loom_bootloader.Keycode.{table_of, key_code_to_char}
use loom_bootloader.Keycode.Letters.{key_code_to_char-letter}

key_code_to_char-letter_example : key_code_to_char 2 1 ≡ 65
key_code_to_char-letter_example = key_code_to_char-letter 2 1 (omega arith) (omega arith)

-- Caps lock does not change a digit.
digit : key_code_to_char 32 28 ≡ 49
unfolding key_code_to_char table_of
digit = refl
