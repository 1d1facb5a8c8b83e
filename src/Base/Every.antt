-- ===== src/Base/Every.antt =====
-- A predicate on every element of a list.
use mathlib.Core.List.{List, [], ◌∷◌, ◌++◌}

module _ {ℓ κ} {A : Type ℓ} where
  abbrev pub All : (holds : A → Type κ) (list : List A) → Type κ
  All holds [] = Unit
  All holds (first ∷ others) = holds first × All holds others

  module _ (holds : A → Type κ) (second : List A) (both : All holds second) where
    pub All-append : (list : List A) → All holds list → All holds (list ++ second)
    All-append [] h = both
    All-append (first ∷ others) (here, there) = (here, All-append others there)
