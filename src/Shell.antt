-- ===== src/Shell.antt =====
-- src/core/shell.c: the line editor. The prompt and the echo go to the consoles and change nothing
-- here.
pub mod Line
pub mod Edit
pub mod Bounds
pub mod Args
mod Samples
use loom_bootloader.Base.{
  ℕ, zero, suc, ◌+◌, ◌-◌, List, [], ◌∷◌, Bool, ◌||◌, ◌==◌, ltb, leb, if◌then◌else◌,
}
use loom_bootloader.Memory.{store}

-- `CAP`, the size of the buffer.
abbrev pub cap : ℕ
cap = 4096

-- The buffer, its bytes by index.
abbrev pub Buffer : Type 0
Buffer = ℕ → ℕ

pub record Shell : Type 0 where
  pub len : ℕ
  pub cursor : ℕ
  pub buf : Buffer

-- A key that is pressed; any other key than the four with its character, 0 where it has none.
pub data Key : Type 0 where
  backspace enter left right : Key
  other : ℕ → Key

-- `n` times `buf[i] = buf[i + 1]`, upwards from `i`.
pub shift_down : (n i : ℕ) → Buffer → Buffer
shift_down zero i b = b
shift_down (suc n) i b = shift_down n (suc i) (store i (b (suc i)) b)

-- `buf[i + 1] = buf[i]`, downwards from `i` to the cursor.
pub shift_up : (i cursor : ℕ) → Buffer → Buffer
shift_up zero c b = if leb c 0 then store 1 (b 0) b else b
shift_up (suc i) c b =
    let rest = shift_up i c (store (suc (suc i)) (b (suc i)) b) in if leb c (suc i) then rest else b

pub press_backspace : Shell → Shell
press_backspace s =
    if s.cursor == 0
    then s
    else if s.cursor == s.len
    then record { len = s.len - 1; cursor = s.cursor - 1; buf = store (s.len - 1) 0 s.buf }
    else record {
      len = s.len - 1;
      cursor = s.cursor - 1;
      buf = store (s.len - 1) 0 (shift_down ((s.len - 1) - (s.cursor - 1)) (s.cursor - 1) s.buf);
    }

pub insert_char : ℕ → Shell → Shell
insert_char ch s =
    if s.cursor == s.len
    then record {
      len = s.len + 1;
      cursor = s.cursor + 1;
      buf = store (s.len + 1 + 1) 0 (store s.len ch s.buf);
    }
    else record {
      len = s.len + 1;
      cursor = s.cursor + 1;
      buf = store (s.len + 1) 0 (store s.cursor ch (shift_up (s.len - 1) s.cursor s.buf));
    }

pub press_other : ℕ → Shell → Shell
press_other ch s =
    if leb (cap - 2) s.len
    then s
    else if ch == 0 || ch == 9 || ch == 13
    then s
    else insert_char ch s

-- `exec` is the effect of `shellExecCommand` on the buffer.
pub write_key_code : (Buffer → Buffer) → Key → Shell → Shell
write_key_code exec Key.backspace s = press_backspace s
write_key_code exec Key.enter s = record { len = 0; cursor = 0; buf = store 0 0 (exec s.buf) }
write_key_code exec Key.left s = if s.cursor == 0 then s else record s { cursor = s.cursor - 1 }
write_key_code exec Key.right s =
    if ltb s.cursor s.len then record s { cursor = s.cursor + 1 } else s
write_key_code exec (Key.other ch) s = press_other ch s

-- The loop of `loomShellExec`, over the keys that are pressed.
pub exec_keys : (Buffer → Buffer) → List Key → Shell → Shell
exec_keys exec [] s = s
exec_keys exec (k ∷ ks) s = exec_keys exec ks (write_key_code exec k s)

-- The state in which the loop starts, on the memory allocated.
pub shell_init : Buffer → Shell
shell_init b = record { len = 0; cursor = 0; buf = store 0 0 b }
