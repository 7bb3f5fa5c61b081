-- ===== src/Shell/Bounds.antt =====
-- The editor stays inside its buffer.
use loom_bootloader.Base.{
  ℕ, zero, suc, ◌+◌, ◌-◌, ◌≤◌, ◌<◌, ◌≡◌, List, [], ◌∷◌, ◌||◌, ◌==◌, leb, arith, refl, inl, inr,
  Bool-cases,
}
use loom_bootloader.Memory.{store}
use loom_bootloader.Shell.{
  Buffer, Shell, Key, cap, shift_down, press_backspace, insert_char, press_other, write_key_code,
  exec_keys, shell_init,
}
use loom_bootloader.Shell.Line.{shift_up-above}

-- The cursor stands in the line, the line and its terminator fit the buffer, and the bytes behind
-- the buffer are those of `b`.
pub record InBounds (b : Buffer) (s : Shell) : Type 0 where
  pub cursor_le : s.cursor ≤ s.len
  pub room : s.len ≤ cap - 2
  pub outside : (j : ℕ) → cap ≤ j → s.buf j ≡ b j

shift_down-above : (n i : ℕ) (b : Buffer) (j : ℕ) → i + n ≤ j → shift_down n i b j ≡ b j
unfolding shift_down
shift_down-above zero i b j h = refl
shift_down-above (suc n) i b j h =
    ground (arith, shift_down-above n (suc i) (store i (b (suc i)) b) j (omega arith))

backspace-InBounds : (b : Buffer) (s : Shell) → InBounds b s → InBounds b (press_backspace s)
unfolding press_backspace
backspace-InBounds b s h =
    let le = h.cursor_le in
    let top = h.room in
    record {
      cursor_le = ground arith;
      room = ground arith;
      outside = λ j k. ground (
        arith,
        h.outside j k,
        shift_down-above ((s.len - 1) - (s.cursor - 1)) (s.cursor - 1) s.buf j (omega arith),
      );
    }

insert_char-InBounds :
    (b : Buffer) (s : Shell) (ch : ℕ)
    → InBounds b s
    → s.len < cap - 2
    → InBounds b (insert_char ch s)
unfolding insert_char
insert_char-InBounds b s ch h lt =
    let le = h.cursor_le in
    record {
      cursor_le = ground arith;
      room = ground arith;
      outside = λ j k. elim (Bool-cases (s.cursor == s.len)) [
        | inl e ↦ ground (arith, h.outside j k)
        | inr e ↦ ground (
          arith,
          h.outside j k,
          shift_up-above (s.len - 1) s.cursor s.buf j (ground arith) (ground arith),
        )
      ];
    }

other-InBounds : (b : Buffer) (s : Shell) (ch : ℕ) → InBounds b s → InBounds b (press_other ch s)
unfolding press_other
other-InBounds b s ch h = elim (Bool-cases (leb (cap - 2) s.len)) [
  | inl full ↦ rw full h
  | inr room ↦ elim (Bool-cases (ch == 0 || ch == 9 || ch == 13)) [
    | inl blank ↦ rw (room, blank) h
    | inr char ↦ rw (room, char) (insert_char-InBounds b s ch h (ground arith))
  ]
]

-- What a key does: the command that enter runs may write to the buffer only.
write_key_code-InBounds :
    (exec : Buffer → Buffer) (b : Buffer) (k : Key) (s : Shell)
    → ((c : Buffer) (j : ℕ) → cap ≤ j → exec c j ≡ c j)
    → InBounds b s
    → InBounds b (write_key_code exec k s)
unfolding write_key_code
write_key_code-InBounds exec b Key.backspace s f h = backspace-InBounds b s h
write_key_code-InBounds exec b Key.enter s f h = record {
  cursor_le = omega arith;
  room = omega arith;
  outside = λ j k. ground (arith, f s.buf j k, h.outside j k);
}
write_key_code-InBounds exec b Key.left s f h =
    let le = h.cursor_le in
    record {
      cursor_le = ground arith;
      room = ground (arith, h.room);
      outside = λ j k. ground (arith, h.outside j k);
    }
write_key_code-InBounds exec b Key.right s f h =
    let le = h.cursor_le in
    record {
      cursor_le = ground arith;
      room = ground (arith, h.room);
      outside = λ j k. ground (arith, h.outside j k);
    }
write_key_code-InBounds exec b (Key.other ch) s f h = other-InBounds b s ch h

exec_keys-from :
    (exec : Buffer → Buffer) (b : Buffer) (ks : List Key) (s : Shell)
    → ((c : Buffer) (j : ℕ) → cap ≤ j → exec c j ≡ c j)
    → InBounds b s
    → InBounds b (exec_keys exec ks s)
unfolding exec_keys
exec_keys-from exec b [] s f h = h
exec_keys-from exec b (k ∷ ks) s f h =
    exec_keys-from exec b ks (write_key_code exec k s) f (write_key_code-InBounds exec b k s f h)

-- However the keys are pressed, the cursor stays in the line, the line leaves two bytes of the
-- buffer free, and no byte behind the buffer is written, if the commands that enter runs write
-- none.
pub exec_keys-InBounds :
    (exec : Buffer → Buffer) (b : Buffer) (ks : List Key)
    → ((c : Buffer) (j : ℕ) → cap ≤ j → exec c j ≡ c j)
    → InBounds b (exec_keys exec ks (shell_init b))
unfolding shell_init
exec_keys-InBounds exec b ks f =
    exec_keys-from exec b ks (shell_init b) f
      (record { cursor_le = omega arith; room = omega arith; outside = λ j k. ground arith })
