-- ===== src/Base/Sort.antt =====
-- `sort.Strings`: insertion sort, since every sort of texts gives the same list.
use mathlib.Core.Path.{◌≡◌, refl}
use mathlib.Core.Bool.{Bool, ◌||◌}
use mathlib.Core.List.{List, [], ◌∷◌}
use native.Mathlib.Omega.{arith}
use microbe.Base.Tests.{if◌then◌else◌}
use microbe.Base.Texts.{Text, text_eq, text_lt}
use microbe.Base.Lists.{contains}

module _ {A : Type 0} (less : A → A → Bool) where
  unfoldable pub insert_sorted : A → List A → List A
  insert_sorted x [] = x ∷ []
  insert_sorted x (y ∷ ys) =
      let rest = insert_sorted x ys in if less y x then y ∷ rest else x ∷ y ∷ ys

  unfoldable pub sort : List A → List A
  unfolding insert_sorted
  sort [] = []
  sort (x ∷ xs) = insert_sorted x (sort xs)

unfoldable pub sort_texts : List Text → List Text
unfolding sort
sort_texts = sort text_lt

contains-insert_sorted :
    (x y : Text) (ys : List Text)
    → contains x (insert_sorted text_lt y ys) ≡ (text_eq x y || contains x ys)
unfolding insert_sorted
contains-insert_sorted x y [] = refl
contains-insert_sorted x y (z ∷ zs) = ground (arith, contains-insert_sorted x y zs)

-- Sorting keeps the members.
pub contains-sort_texts : (x : Text) (xs : List Text) → contains x (sort_texts xs) ≡ contains x xs
unfolding sort_texts
contains-sort_texts x [] = refl
contains-sort_texts x (y ∷ ys) =
    ground (arith, contains-insert_sorted x y (sort text_lt ys), contains-sort_texts x ys)
