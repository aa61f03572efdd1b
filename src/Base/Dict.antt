-- ===== src/Base/Dict.antt =====
-- Equality tests as an interface, and dictionaries as lists of entries.
use Prim.Native.Nat.{ℕ}
use mathlib.Core.Path.{◌≡◌, refl, sym, subst}
use mathlib.Core.Logic.{◌↔◌, inl, inr}
use mathlib.Core.Bool.{Bool, true, false, ◌&&◌}
use mathlib.Core.Option.{Option, none, some}
use mathlib.Core.List.{List, [], ◌∷◌}
use native.Mathlib.Omega.{arith}
use cc_infer.Base.Tests.{if◌then◌else◌, ◌==◌, ==_iff, Bool-cases}
use cc_infer.Base.Int.{ℤ, pos, negsuc}

-- `same` decides the equality of keys.
pub record Key {ℓ} (K : Type ℓ) : Type ℓ where
  pub same : K → K → Bool
  pub same_iff : (a b : K) → (same a b ≡ true) ↔ (a ≡ b)

instance abbrev pub nat_key : Key ℕ
nat_key = record { same = ◌==◌; same_iff = ==_iff }

abbrev pub same_int : ℤ → ℤ → Bool
same_int (pos a) (pos b) = a == b
same_int (negsuc a) (negsuc b) = a == b
same_int (pos a) (negsuc b) = false
same_int (negsuc a) (pos b) = false

pub same_int_iff : (a b : ℤ) → (same_int a b ≡ true) ↔ (a ≡ b)
same_int_iff (pos a) (pos b) = ground arith
same_int_iff (negsuc a) (negsuc b) = ground arith
same_int_iff (pos a) (negsuc b) = ground arith
same_int_iff (negsuc a) (pos b) = ground arith

instance abbrev pub int_key : Key ℤ
int_key = record { same = same_int; same_iff = same_int_iff }

abbrev pub same_list : List ℕ → List ℕ → Bool
same_list [] [] = true
same_list (x ∷ xs) (y ∷ ys) = (x == y) && same_list xs ys
same_list [] (y ∷ ys) = false
same_list (x ∷ xs) [] = false

pub same_list_iff : (xs ys : List ℕ) → (same_list xs ys ≡ true) ↔ (xs ≡ ys)
same_list_iff [] [] = ground arith
same_list_iff (x ∷ xs) (y ∷ ys) = ground (arith, same_list_iff xs ys)
same_list_iff [] (y ∷ ys) = ground arith
same_list_iff (x ∷ xs) [] = ground arith

instance abbrev pub list_key : Key (List ℕ)
list_key = record { same = same_list; same_iff = same_list_iff }

abbrev pub same_pair {ℓ κ} :
    {A : Type ℓ} {B : Type κ} ⦃a : Key A⦄ ⦃b : Key B⦄ → A × B → A × B → Bool
same_pair ⦃a⦄ ⦃b⦄ (x, y) (x', y') = a.same x x' && b.same y y'

pub same_pair_iff {ℓ κ} :
    {A : Type ℓ} {B : Type κ} ⦃a : Key A⦄ ⦃b : Key B⦄ (p q : A × B)
    → (same_pair p q ≡ true) ↔ (p ≡ q)
same_pair_iff ⦃a⦄ ⦃b⦄ (x, y) (x', y') = ground (arith, a.same_iff x x', b.same_iff y y')

instance abbrev pub pair_key {ℓ κ} : {A : Type ℓ} {B : Type κ} ⦃a : Key A⦄ ⦃b : Key B⦄ → Key (A × B)
pair_key = record { same = same_pair; same_iff = same_pair_iff }

abbrev pub Dict {ℓ κ} : Type ℓ → Type κ → Type (ℓ ⊔ κ)
Dict K V = List (K × V)

module _ {ℓ κ} {K : Type ℓ} {V : Type κ} ⦃key : Key K⦄ where
  -- The value of the first entry for the key.
  unfoldable pub find : K → Dict K V → Option V
  find k [] = none
  find k ((j, v) ∷ d) = if key.same j k then some v else find k d

  -- `d[k] = v`: the entry for the key changes, or a new one is made.
  unfoldable pub put : K → V → Dict K V → Dict K V
  put k v [] = (k, v) ∷ []
  put k v ((j, w) ∷ d) = if key.same j k then (j, v) ∷ d else (j, w) ∷ put k v d

  pub find-put :
      (k j : K) (v : V) (d : Dict K V)
      → find j (put k v d) ≡ (if key.same k j then some v else find j d)
  unfolding find put
  find-put k j v [] = refl
  find-put k j v ((i, w) ∷ d) =
      ground (arith, key.same_iff i k, key.same_iff i j, key.same_iff k j, find-put k j v d)

  pub find-put_self : (k : K) (v : V) (d : Dict K V) → find k (put k v d) ≡ some v
  find-put_self k v d = ground (arith, find-put k k v d, key.same_iff k k)

-- Every entry has the property.
pub data Entries {ℓ κ μ} {K : Type ℓ} {V : Type κ} (P : K → V → Type μ)
    : Dict K V → Type (ℓ ⊔ κ ⊔ μ) where
  no_entry : Entries P []
  entry : {k : K} {v : V} {d : Dict K V} → P k v → Entries P d → Entries P ((k, v) ∷ d)

pub Entries-put {ℓ κ μ} :
    {K : Type ℓ} {V : Type κ} ⦃key : Key K⦄ {P : K → V → Type μ} (k : K) (v : V) {d : Dict K V}
    → P k v
    → Entries P d
    → Entries P (put k v d)
unfolding put
Entries-put k v p no_entry = entry p no_entry
Entries-put ⦃key⦄ {P} k v p (entry {k = j} q rest) = elim (Bool-cases (key.same j k)) [
  | inl here ↦ rw (put, here) (entry (subst (λ i. P i v) (sym ((key.same_iff j k).0 here)) p) rest)
  | inr elsewhere ↦ rw (put, elsewhere) (entry q (Entries-put k v p rest))
]

pub Entries-map {ℓ κ μ ν} :
    {K : Type ℓ} {V : Type κ} {P : K → V → Type μ} {Q : K → V → Type ν} {d : Dict K V}
    → ((k : K) (v : V) → P k v → Q k v)
    → Entries P d
    → Entries Q d
Entries-map h no_entry = no_entry
Entries-map h (entry p rest) = entry (h _ _ p) (Entries-map h rest)
