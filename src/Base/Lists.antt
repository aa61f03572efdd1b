-- ===== src/Base/Lists.antt =====
-- Lists measured and indexed by native numbers, under the library's names.
use Prim.Native.Nat.{ℕ, zero, suc, ◌+◌, ◌-◌, ◌≤◌, ◌<◌, min}
use mathlib.Core.Path.{◌≡◌, refl, ap}
use mathlib.Core.Logic.{◌≢◌}
use mathlib.Core.Bool.{Bool, true, false}
use mathlib.Core.List.{List, [], ◌∷◌, ◌++◌}
use mathlib.Core.Option.{Option, none, some}
use native.Mathlib.Omega.{arith}
use cc_infer.Base.Tests.{if◌then◌else◌, ◌==◌}

module _ {ℓ} {A : Type ℓ} where
  abbrev pub length : List A → ℕ
  length [] = 0
  length (x ∷ xs) = suc (length xs)

  abbrev pub get_elem? : List A → ℕ → Option A
  get_elem? [] i = none
  get_elem? (x ∷ xs) zero = some x
  get_elem? (x ∷ xs) (suc i) = get_elem? xs i

  abbrev pub take : ℕ → List A → List A
  take zero xs = []
  take (suc n) [] = []
  take (suc n) (x ∷ xs) = x ∷ take n xs

  abbrev pub drop : ℕ → List A → List A
  drop zero xs = xs
  drop (suc n) [] = []
  drop (suc n) (x ∷ xs) = drop n xs

  abbrev pub last? : List A → Option A
  last? [] = none
  last? (x ∷ []) = some x
  last? (x ∷ y ∷ xs) = last? (y ∷ xs)

  -- All but the last element.
  abbrev pub init_list : List A → List A
  init_list [] = []
  init_list (x ∷ []) = []
  init_list (x ∷ y ∷ xs) = x ∷ init_list (y ∷ xs)

  abbrev pub is_empty : List A → Bool
  is_empty [] = true
  is_empty (x ∷ xs) = false

  pub length-append : (xs ys : List A) → length (xs ++ ys) ≡ length xs + length ys
  length-append [] ys = omega arith
  length-append (x ∷ xs) ys = omega (arith, length-append xs ys)

  pub take-append-drop : (n : ℕ) (xs : List A) → take n xs ++ drop n xs ≡ xs
  take-append-drop zero xs = refl
  take-append-drop (suc n) [] = refl
  take-append-drop (suc n) (x ∷ xs) = ap (◌∷◌ x) (take-append-drop n xs)

  pub length-take : (n : ℕ) (xs : List A) → length (take n xs) ≡ min n (length xs)
  length-take zero xs = omega arith
  length-take (suc n) [] = omega arith
  length-take (suc n) (x ∷ xs) = omega (arith, length-take n xs)

  pub length-drop : (n : ℕ) (xs : List A) → length (drop n xs) ≡ length xs - n
  length-drop zero xs = omega arith
  length-drop (suc n) [] = omega arith
  length-drop (suc n) (x ∷ xs) = omega (arith, length-drop n xs)

module _ {ℓ} {A : Type ℓ} where
  pub take_append : (n : ℕ) (xs ys : List A) → n ≤ length xs → take n (xs ++ ys) ≡ take n xs
  take_append zero xs ys h = refl
  take_append (suc n) [] ys h = elim h [ ]
  take_append (suc n) (x ∷ xs) ys h = ap (◌∷◌ x) (take_append n xs ys (omega arith))

  pub drop_append : (n : ℕ) (xs ys : List A) → n ≤ length xs → drop n (xs ++ ys) ≡ drop n xs ++ ys
  drop_append zero xs ys h = refl
  drop_append (suc n) [] ys h = elim h [ ]
  drop_append (suc n) (x ∷ xs) ys h = drop_append n xs ys (omega arith)

  pub take_all : (n : ℕ) (xs : List A) → length xs ≤ n → take n xs ≡ xs
  take_all zero [] h = refl
  take_all zero (x ∷ xs) h = absurd (omega arith)
  take_all (suc n) [] h = refl
  take_all (suc n) (x ∷ xs) h = ap (◌∷◌ x) (take_all n xs (omega arith))

  pub drop_all : (n : ℕ) (xs : List A) → length xs ≤ n → drop n xs ≡ []
  drop_all zero [] h = refl
  drop_all zero (x ∷ xs) h = absurd (omega arith)
  drop_all (suc n) [] h = refl
  drop_all (suc n) (x ∷ xs) h = drop_all n xs (omega arith)

-- How often a number stands in a list.
abbrev pub count : ℕ → List ℕ → ℕ
count a [] = 0
count a (x ∷ xs) = (if a == x then 1 else 0) + count a xs

abbrev pub elem : ℕ → List ℕ → Bool
elem a [] = false
elem a (x ∷ xs) = if a == x then true else elem a xs

-- Takes out the first occurrence.
abbrev pub erase_first : ℕ → List ℕ → List ℕ
erase_first a [] = []
erase_first a (x ∷ xs) = if a == x then xs else x ∷ erase_first a xs

module _ (id : ℕ) (more : List ℕ) where
  count_before : (ids : List ℕ) → count id (ids ++ more) ≡ count id ids + count id more
  count_before [] = omega arith
  count_before (first ∷ rest) = omega (arith, count_before rest)

-- The list that is extended comes between the number and the extension.
pub count-append :
    (id : ℕ) (ids more : List ℕ) → count id (ids ++ more) ≡ count id ids + count id more
count-append id ids more = count_before id more ids

pub count-erase_first_ne : (a b : ℕ) (xs : List ℕ) → a ≢ b → count a (erase_first b xs) ≡ count a xs
count-erase_first_ne a b [] h = refl
count-erase_first_ne a b (x ∷ xs) h = ground (arith, count-erase_first_ne a b xs h)

pub count-erase_first_self : (a : ℕ) (xs : List ℕ) → count a (erase_first a xs) ≡ count a xs - 1
count-erase_first_self a [] = omega arith
count-erase_first_self a (x ∷ xs) = ground (arith, count-erase_first_self a xs)

pub elem_of_count : (a : ℕ) (xs : List ℕ) → 0 < count a xs → elem a xs ≡ true
elem_of_count a [] h = absurd (omega arith)
elem_of_count a (x ∷ xs) h = ground (arith, elem_of_count a xs)

pub count_of_elem : (a : ℕ) (xs : List ℕ) → elem a xs ≡ true → 0 < count a xs
count_of_elem a [] h = cc
count_of_elem a (x ∷ xs) h = ground (arith, count_of_elem a xs)

pub count_of_not_elem : (a : ℕ) (xs : List ℕ) → elem a xs ≡ false → count a xs ≡ 0
count_of_not_elem a [] h = refl
count_of_not_elem a (x ∷ xs) h = ground (arith, count_of_not_elem a xs)
