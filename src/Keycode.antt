-- ===== src/Keycode.antt =====
-- src/core/keycode.c: the character of a key under the modifiers that are held.
pub mod Letters
mod Samples
use loom_bootloader.Base.{
  ℕ, ◌+◌, ◌%◌, List, [], ◌∷◌, ◌++◌, get_or, replicate, Bool, ◌||◌, ◌&&◌, ◌==◌, leb, if◌then◌else◌,
  has_flag,
}

-- The two tables, by key: letters, digits, punctuation, then the other keys.
abbrev pub keycode_to_ascii : List ℕ
keycode_to_ascii =
    0
    ∷ 97
    ∷ 98
    ∷ 99
    ∷ 100
    ∷ 101
    ∷ 102
    ∷ 103
    ∷ 104
    ∷ 105
    ∷ 106
    ∷ 107
    ∷ 108
    ∷ 109
    ∷ 110
    ∷ 111
    ∷ 112
    ∷ 113
    ∷ 114
    ∷ 115
    ∷ 116
    ∷ 117
    ∷ 118
    ∷ 119
    ∷ 120
    ∷ 121
    ∷ 122
    ∷ 48
    ∷ 49
    ∷ 50
    ∷ 51
    ∷ 52
    ∷ 53
    ∷ 54
    ∷ 55
    ∷ 56
    ∷ 57
    ∷ 96
    ∷ 45
    ∷ 61
    ∷ 91
    ∷ 93
    ∷ 92
    ∷ 59
    ∷ 39
    ∷ 44
    ∷ 46
    ∷ 47
    ∷ 0
    ∷ 9
    ∷ 8
    ∷ 0
    ∷ 10
    ∷ 0
    ∷ 0
    ∷ 0
    ∷ 0
    ∷ 0
    ∷ 32
    ∷ replicate 69 0

abbrev pub keycode_to_ascii_alt : List ℕ
keycode_to_ascii_alt =
    0
    ∷ 65
    ∷ 66
    ∷ 67
    ∷ 68
    ∷ 69
    ∷ 70
    ∷ 71
    ∷ 72
    ∷ 73
    ∷ 74
    ∷ 75
    ∷ 76
    ∷ 77
    ∷ 78
    ∷ 79
    ∷ 80
    ∷ 81
    ∷ 82
    ∷ 83
    ∷ 84
    ∷ 85
    ∷ 86
    ∷ 87
    ∷ 88
    ∷ 89
    ∷ 90
    ∷ 41
    ∷ 33
    ∷ 64
    ∷ 35
    ∷ 36
    ∷ 37
    ∷ 94
    ∷ 38
    ∷ 42
    ∷ 40
    ∷ 126
    ∷ 95
    ∷ 43
    ∷ 123
    ∷ 125
    ∷ 124
    ∷ 58
    ∷ 34
    ∷ 60
    ∷ 62
    ∷ 63
    ∷ replicate 80 0

abbrev pub is_alpha : ℕ → Bool
is_alpha k = leb 1 k && leb k 26

abbrev pub is_digit : ℕ → Bool
is_digit k = leb 27 k && leb k 36

-- The keys whose character a shift key changes: letters, digits, and 37 to 47, the punctuation.
abbrev pub has_alt : ℕ → Bool
has_alt k =
    is_alpha k
    || is_digit k
    || k == 37
    || k == 38
    || k == 39
    || k == 40
    || k == 41
    || k == 42
    || k == 43
    || k == 44
    || k == 45
    || k == 46
    || k == 47

-- `buf`, which picks the table.
pub table_of : (mods keycode : ℕ) → ℕ
table_of mods k =
    let b = if has_flag mods 2 || has_flag mods 4 then 1 else 0 in
    if has_alt k then (if is_alpha k && has_flag mods 32 then (b + 1) % 2 else b) else 0

-- The tables have 128 entries; a keycode from 128 on is outside them, and gives 0 here.
pub key_code_to_char : (mods keycode : ℕ) → ℕ
key_code_to_char mods k =
    if table_of mods k == 0 then get_or keycode_to_ascii k 0 else get_or keycode_to_ascii_alt k 0
