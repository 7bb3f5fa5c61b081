-- ===== src/Shell/Edit.antt =====
-- The editor is the usual one on lines: each key does to the buffer what it does to the line.
use loom_bootloader.Base.{
  ℕ, suc, ◌+◌, ◌-◌, ◌<◌, ◌≡◌, List, [], ◌∷◌, length, ◌||◌, ◌==◌, leb, if◌then◌else◌, arith, refl,
  true, false, inl, inr, Bool, Bool-cases, ap, sym,
}
use loom_bootloader.Memory.{store}
use loom_bootloader.Shell.{
  Buffer, Shell, Key, cap, shift_down, shift_up, press_backspace, insert_char, press_other,
  write_key_code, exec_keys, shell_init,
}
use loom_bootloader.Shell.Line.{
  Line, Before, After, Shows, Before-length, After-length, Before-frame, After-up, After-down,
  shift_down-below, shift_down-inside, shift_up-below, shift_up-inside,
}

abbrev pub empty_line : Line
empty_line = record { before = []; after = [] }

-- A character that is typed: not 0, a tab or a carriage return, and only while there is room.
abbrev pub type_char : ℕ → Line → Line
type_char ch l =
    if leb 4094 (length l.before + length l.after) || (ch == 0 || ch == 9 || ch == 13)
    then l
    else record l { before = ch ∷ l.before }

abbrev pub delete_before : List ℕ → List ℕ
delete_before [] = []
delete_before (x ∷ xs) = xs

abbrev pub move_left : List ℕ → List ℕ → Line
move_left [] ys = record { before = []; after = ys }
move_left (x ∷ xs) ys = record { before = xs; after = x ∷ ys }

abbrev pub move_right : List ℕ → List ℕ → Line
move_right xs [] = record { before = xs; after = [] }
move_right xs (y ∷ ys) = record { before = y ∷ xs; after = ys }

-- What a key does to a line.
pub edit : Key → Line → Line
edit Key.backspace l = record l { before = delete_before l.before }
edit Key.enter l = empty_line
edit Key.left l = move_left l.before l.after
edit Key.right l = move_right l.before l.after
edit (Key.other ch) l = type_char ch l

pub edit_all : List Key → Line → Line
edit_all [] l = l
edit_all (k ∷ ks) l = edit_all ks (edit k l)

is_zero : (c : ℕ) → c ≡ 0 → (c == 0) ≡ true
is_zero c h = ground arith

is_positive : (c : ℕ) → 0 < c → (c == 0) ≡ false
is_positive c h = ground arith

backspace-Shows :
    (s : Shell) (xs ys : List ℕ)
    → Before s.buf s.cursor xs
    → After s.buf s.cursor s.len ys
    → Shows (press_backspace s) (record { before = delete_before xs; after = ys })
unfolding press_backspace Shows Before
backspace-Shows s [] ys h k = rw (is_zero s.cursor h) (h, k)
backspace-Shows s (x ∷ xs) ys (pos, e, h) k = elim (Bool-cases (s.cursor == s.len)) [
  | inl at_end ↦
      rw (is_positive s.cursor pos, at_end)
        (
          Before-frame s.buf (store (s.len - 1) 0 s.buf) (s.cursor - 1) (s.cursor - 1) xs refl
              (λ j lt. ground arith) h,
          After-down s.buf (store (s.len - 1) 0 s.buf) (s.cursor - 1) (s.len - 1) s.cursor s.len ys
              (omega arith) (ground arith) (λ j le lt. ground arith) k,
        )
  | inr inside ↦
      let b = shift_down ((s.len - 1) - (s.cursor - 1)) (s.cursor - 1) s.buf in
      let end = After-length s.buf s.cursor s.len ys k in
      rw (is_positive s.cursor pos, inside)
        (
          Before-frame s.buf (store (s.len - 1) 0 b) (s.cursor - 1) (s.cursor - 1) xs refl
              (λ j lt.
                ground (
                  arith,
                  shift_down-below ((s.len - 1) - (s.cursor - 1)) (s.cursor - 1) s.buf j lt,
                ))
              h,
          After-down s.buf (store (s.len - 1) 0 b) (s.cursor - 1) (s.len - 1) s.cursor s.len ys
              (omega arith) (omega arith)
              (λ j le lt. ground (
                arith,
                shift_down-inside ((s.len - 1) - (s.cursor - 1)) (s.cursor - 1) s.buf j le
                    (omega arith),
              ))
              k,
        )
]

insert_char-at_end :
    (ch : ℕ) (s : Shell)
    → s.cursor ≡ s.len
    → insert_char ch s ≡ record {
      len = s.len + 1;
      cursor = s.cursor + 1;
      buf = store (s.len + 1 + 1) 0 (store s.len ch s.buf);
    }
unfolding insert_char
insert_char-at_end ch s h = ground arith

insert_char-inside :
    (ch : ℕ) (s : Shell)
    → s.cursor < s.len
    → insert_char ch s ≡ record {
      len = s.len + 1;
      cursor = s.cursor + 1;
      buf = store (s.len + 1) 0 (store s.cursor ch (shift_up (s.len - 1) s.cursor s.buf));
    }
unfolding insert_char
insert_char-inside ch s h = ground arith

Shows-at : {s : Shell} (s' : Shell) (l : Line) → s' ≡ s → Shows s l → Shows s' l
Shows-at s' l q h = rw q h

insert_char-Shows :
    (s : Shell) (ch : ℕ) (xs ys : List ℕ)
    → Before s.buf s.cursor xs
    → After s.buf s.cursor s.len ys
    → Shows (insert_char ch s) (record { before = ch ∷ xs; after = ys })
unfolding Shows Before After
insert_char-Shows s ch xs [] h k =
    Shows-at (insert_char ch s) (record { before = ch ∷ xs; after = [] })
      (insert_char-at_end ch s k)
      (
        (
          omega arith,
          ground arith,
          Before-frame s.buf (store (s.len + 1 + 1) 0 (store s.len ch s.buf)) s.cursor
              (s.cursor + 1 - 1) xs (omega arith) (λ j lt. ground arith) h,
        ),
        omega arith,
      )
insert_char-Shows s ch xs (y ∷ ys) h (lt, v, k) =
    let b = shift_up (s.len - 1) s.cursor s.buf in
    Shows-at (insert_char ch s) (record { before = ch ∷ xs; after = y ∷ ys })
      (insert_char-inside ch s lt)
      (
        (
          omega arith,
          ground arith,
          Before-frame s.buf (store (s.len + 1) 0 (store s.cursor ch b)) s.cursor (s.cursor + 1 - 1)
              xs (omega arith)
              (λ j m. ground (arith, shift_up-below (s.len - 1) s.cursor s.buf j (omega arith))) h,
        ),
        After-up s.buf (store (s.len + 1) 0 (store s.cursor ch b)) s.cursor s.len (s.cursor + 1)
            (s.len + 1) (y ∷ ys) refl refl
            (λ j le m.
              ground (arith, shift_up-inside (s.len - 1) s.cursor s.buf j le (omega arith)))
            (lt, v, k),
      )

After-at : (b : Buffer) (c c' e : ℕ) (xs : List ℕ) → c' ≡ c → After b c e xs → After b c' e xs
After-at b c c' e xs q h = rw q h

Before-at : (b : Buffer) (c c' : ℕ) (xs : List ℕ) → c' ≡ c → Before b c xs → Before b c' xs
Before-at b c c' xs q h = rw q h

left_stays :
    (exec : Buffer → Buffer) (s : Shell) → s.cursor ≡ 0 → write_key_code exec Key.left s ≡ s
unfolding write_key_code
left_stays exec s h = ground arith

right_stays :
    (exec : Buffer → Buffer) (s : Shell) → s.cursor ≡ s.len → write_key_code exec Key.right s ≡ s
unfolding write_key_code
right_stays exec s h = ground arith

press_left :
    (exec : Buffer → Buffer) (s : Shell)
    → 0 < s.cursor
    → write_key_code exec Key.left s ≡ record s { cursor = s.cursor - 1 }
unfolding write_key_code
press_left exec s h = ground arith

left-Shows :
    (exec : Buffer → Buffer) (s : Shell) (xs ys : List ℕ)
    → Before s.buf s.cursor xs
    → After s.buf s.cursor s.len ys
    → Shows (write_key_code exec Key.left s) (move_left xs ys)
unfolding Shows Before After
left-Shows exec s [] ys h k = rw (left_stays exec s h) (h, k)
left-Shows exec s (x ∷ xs) ys (pos, e, h) k =
    let end = After-length s.buf s.cursor s.len ys k in
    Shows-at (write_key_code exec Key.left s) (record { before = xs; after = x ∷ ys })
      (press_left exec s pos)
      (h, (omega arith, e, After-at s.buf s.cursor (suc (s.cursor - 1)) s.len ys (omega arith) k))

press_right :
    (exec : Buffer → Buffer) (s : Shell)
    → s.cursor < s.len
    → write_key_code exec Key.right s ≡ record s { cursor = s.cursor + 1 }
unfolding write_key_code
press_right exec s h = ground arith

right-Shows :
    (exec : Buffer → Buffer) (s : Shell) (xs ys : List ℕ)
    → Before s.buf s.cursor xs
    → After s.buf s.cursor s.len ys
    → Shows (write_key_code exec Key.right s) (move_right xs ys)
unfolding Shows Before After
right-Shows exec s xs [] h k = rw (right_stays exec s k) (h, k)
right-Shows exec s xs (y ∷ ys) h (lt, v, k) =
    Shows-at (write_key_code exec Key.right s) (record { before = y ∷ xs; after = ys })
      (press_right exec s lt)
      (
        (
          omega arith,
          cc (v, ap s.buf {x = s.cursor + 1 - 1} {y = s.cursor} (omega arith)),
          Before-at s.buf s.cursor (s.cursor + 1 - 1) xs (omega arith) h,
        ),
        After-at s.buf (suc s.cursor) (s.cursor + 1) s.len ys (omega arith) k,
      )

pub Shows-length :
    (s : Shell) (l : Line)
    → Shows s l
    → (s.cursor ≡ length l.before) × (s.len ≡ length l.before + length l.after)
unfolding Shows
Shows-length s l (h, k) =
    let c = Before-length s.buf s.cursor l.before h in
    (c, omega (arith, c, After-length s.buf s.cursor s.len l.after k))

insert_line :
    (s : Shell) (ch : ℕ) (l : Line)
    → Shows s l
    → Shows (insert_char ch s) (record l { before = ch ∷ l.before })
unfolding Shows
insert_line s ch l (h, k) = insert_char-Shows s ch l.before l.after h k

same_room :
    (s : Shell) (l : Line)
    → Shows s l
    → (t : Bool) → leb (cap - 2) s.len ≡ t
    → leb 4094 (length l.before + length l.after) ≡ t
same_room s l h t e = let (_, n) = Shows-length s l h in rw (sym n) e

other-Shows :
    (s : Shell) (ch : ℕ) (l : Line) → Shows s l → Shows (press_other ch s) (type_char ch l)
unfolding press_other
other-Shows s ch l h = elim (Bool-cases (leb (cap - 2) s.len)) [
  | inl full ↦ rw (full, same_room s l h true full) h
  | inr room ↦ elim (Bool-cases (ch == 0 || ch == 9 || ch == 13)) [
    | inl blank ↦ rw (room, same_room s l h false room, blank) h
    | inr char ↦ rw (room, same_room s l h false room, char) (insert_line s ch l h)
  ]
]

-- A key that is pressed changes the shell's line as it changes a line of an editor.
pub write_key_code-Shows :
    (exec : Buffer → Buffer) (k : Key) (s : Shell) (l : Line)
    → Shows s l
    → Shows (write_key_code exec k s) (edit k l)
unfolding Shows write_key_code edit Before After
write_key_code-Shows exec Key.backspace s l (h, k) = backspace-Shows s l.before l.after h k
write_key_code-Shows exec Key.enter s l h = (refl, refl)
write_key_code-Shows exec Key.left s l (h, k) = left-Shows exec s l.before l.after h k
write_key_code-Shows exec Key.right s l (h, k) = right-Shows exec s l.before l.after h k
write_key_code-Shows exec (Key.other ch) s l h = other-Shows s ch l h

init_empty : (b : Buffer) → Shows (shell_init b) empty_line
unfolding Shows shell_init Before After
init_empty b = (refl, refl)

exec_keys-from :
    (exec : Buffer → Buffer) (ks : List Key) (s : Shell) (l : Line)
    → Shows s l
    → Shows (exec_keys exec ks s) (edit_all ks l)
unfolding exec_keys edit_all
exec_keys-from exec [] s l h = h
exec_keys-from exec (k ∷ ks) s l h =
    exec_keys-from exec ks (write_key_code exec k s) (edit k l) (write_key_code-Shows exec k s l h)

-- However the keys are pressed, the shell's buffer holds, before and after the cursor, what an
-- editor of lines shows after the same keys.
pub exec_keys-Shows :
    (exec : Buffer → Buffer) (ks : List Key) (b : Buffer)
    → Shows (exec_keys exec ks (shell_init b)) (edit_all ks empty_line)
exec_keys-Shows exec ks b = exec_keys-from exec ks (shell_init b) empty_line (init_empty b)
