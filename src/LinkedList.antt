-- ===== src/LinkedList.antt =====
-- src/core/list.c and include/loom/list.h: circular lists through nodes that stand in other objects.
-- The store keeps the two fields of a node apart; `none` is a failed assertion, which panics.
pub mod Chain
pub mod Apart
pub mod Insert
pub mod Remove
pub mod Replace
mod Samples
use loom_bootloader.Base.{ℕ, Bool, true, false, ◌||◌, Option, none, some, ◌==◌, if◌then◌else◌}

pub record Links : Type 0 where
  pub prev : ℕ → ℕ
  pub next : ℕ → ℕ

abbrev pub null : ℕ
null = 0

abbrev pub update : (ℕ → ℕ) → ℕ → ℕ → ℕ → ℕ
update f p v q = if q == p then v else f q

-- `p->prev = v` and `p->next = v`
abbrev pub set_prev : ℕ → ℕ → Links → Links
set_prev p v m = record m { prev = update m.prev p v }

abbrev pub set_next : ℕ → ℕ → Links → Links
set_next p v m = record m { next = update m.next p v }

-- LOOM_LIST_HEAD: an empty list's head points at itself.
pub list_head : ℕ → Links → Links
list_head head m = set_next head head (set_prev head head m)

-- The assertions on a node that stands in a list.
abbrev pub is_unlinked : ℕ → Links → Bool
is_unlinked p m = p == null || m.prev p == null || m.next p == null

abbrev pub insert_after : ℕ → ℕ → Links → Links
insert_after head node m =
    let m1 = set_prev node head m in
    let m2 = set_next node (m1.next head) m1 in
    let m3 = set_prev (m2.next head) node m2 in set_next head node m3

abbrev pub insert_before : ℕ → ℕ → Links → Links
insert_before head node m =
    let m1 = set_prev node (m.prev head) m in
    let m2 = set_next node head m1 in
    let m3 = set_next (m2.prev head) node m2 in set_prev head node m3

abbrev pub unlink : ℕ → Links → Links
unlink node m =
    let m1 = set_next (m.prev node) (m.next node) m in set_prev (m1.next node) (m1.prev node) m1

pub prepend : (head node : ℕ) → Links → Option Links
prepend head node m =
    if is_unlinked head m || node == null then none else some (insert_after head node m)

pub append : (head node : ℕ) → Links → Option Links
append head node m =
    if is_unlinked head m || node == null then none else some (insert_before head node m)

pub remove : (node : ℕ) → Links → Option Links
remove node m = if is_unlinked node m then none else some (list_head node (unlink node m))

abbrev pub relink : (oldnode newnode : ℕ) → Links → Links
relink old new m =
    let m1 = set_prev new (m.prev old) m in
    let m2 = set_next new (m1.next old) m1 in
    let m3 = set_next (m2.prev old) new m2 in set_prev (m3.next old) new m3

pub replace : (oldnode newnode : ℕ) → Links → Option Links
replace old new m =
    if is_unlinked old m || new == null then none else some (list_head old (relink old new m))

-- The second assertion of the true branch: both fields of an empty head point at it.
pub is_empty : (head : ℕ) → Links → Option Bool
is_empty head m =
    if is_unlinked head m
    then none
    else if m.prev head == head
    then (if m.next head == head then some true else none)
    else some false
