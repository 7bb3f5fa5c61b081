-- ===== src/LinkedList/Samples.antt =====
-- The list theorems on a list of two nodes at 2 and 3, with its head at 1.
use loom_bootloader.Base.{◌≡◌, ◌==◌, [], ◌∷◌, some, arith, refl, if◌then◌else◌}
use loom_bootloader.LinkedList.{Links, prepend, append, remove, replace}
use loom_bootloader.LinkedList.Chain.{IsList}
use loom_bootloader.LinkedList.Insert.{prepend-IsList, append-IsList}
use loom_bootloader.LinkedList.Remove.{remove-IsList}
use loom_bootloader.LinkedList.Replace.{replace-IsList}

abbrev two : Links
two = record {
  prev = λ p. if p == 1 then 3 else if p == 2 then 1 else if p == 3 then 2 else 0;
  next = λ p. if p == 1 then 2 else if p == 2 then 3 else if p == 3 then 1 else 0;
}

two-IsList : IsList two 1 (2 ∷ 3 ∷ [])
two-IsList = record {
  chain = (refl, refl, (refl, refl, (refl, refl)));
  distinct = omega arith;
  allocated = omega arith;
}

prepend-IsList_example : (m : Links) × (prepend 1 7 two ≡ some m) × IsList m 1 (7 ∷ 2 ∷ 3 ∷ [])
prepend-IsList_example = prepend-IsList two 1 7 (2 ∷ 3 ∷ []) two-IsList (omega arith)

append-IsList_example : (m : Links) × (append 1 7 two ≡ some m) × IsList m 1 (2 ∷ 3 ∷ 7 ∷ [])
append-IsList_example = append-IsList two 1 7 (2 ∷ 3 ∷ []) two-IsList (omega arith)

remove-IsList_example : (m : Links) × (remove 2 two ≡ some m) × IsList m 1 (3 ∷ []) × IsList m 2 []
remove-IsList_example = remove-IsList two 1 2 [] (3 ∷ []) two-IsList

replace-IsList_example :
    (m : Links) × (replace 2 7 two ≡ some m) × IsList m 1 (7 ∷ 3 ∷ []) × IsList m 2 []
replace-IsList_example = replace-IsList two 1 2 7 [] (3 ∷ []) two-IsList (omega arith)
