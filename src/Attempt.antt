-- ===== src/Attempt.antt =====
-- src/checkpoint/gguf/reader.cpp: results of code that reserves memory by `std::vector::reserve`,
-- which throws (`std::length_error`, `std::bad_alloc`) where the library cannot serve it. Whether it
-- can is a parameter, for each of the vectors and a number of elements. Nothing catches the
-- exception.
use cc_infer.Base.{ℕ, ◌≡◌, Bool, false, Option, none, some, if◌then◌else◌, Bool-cases, inl, inr}
use cc_infer.Errors.{ErrorCode, done, fail, Outcome}

-- The vectors that a count in the file sizes.
pub data Vector : Type 0 where
  values_vector metadata_vector tensor_infos_vector : Vector

abbrev pub Reserves : Type 0
Reserves = Vector → ℕ → Bool

pub data Parsed {ℓ} (A : Type ℓ) : Type ℓ where
  parsed : A → Parsed A
  refused : ErrorCode → Parsed A
  threw : Vector → ℕ → Parsed A

-- Such a result of code that may read out of bounds or run out of fuel: `none`.
abbrev pub Attempt {ℓ} : Type ℓ → Type ℓ
Attempt A = Option (Parsed A)

-- What follows a result that is a value.
abbrev pub and_next {ℓ κ} : {A : Type ℓ} {B : Type κ} → Attempt A → (A → Attempt B) → Attempt B
and_next none f = none
and_next (some (refused e)) f = some (refused e)
and_next (some (threw v n)) f = some (threw v n)
and_next (some (parsed a)) f = f a

-- For callers that tell an exception from no other failure.
abbrev pub outcome_of {ℓ} : {A : Type ℓ} → Attempt A → Outcome A
outcome_of none = none
outcome_of (some (parsed a)) = some (done a)
outcome_of (some (refused e)) = some (fail e)
outcome_of (some (threw v n)) = none

unfoldable pub reserve : Reserves → Vector → ℕ → Attempt (Unit {0})
reserve reserves v n = if reserves v n then some (parsed tt) else some (threw v n)

-- The result is an error, the exception of a reservation that the library cannot serve, or a value
-- with the property.
pub data Settles (reserves : Reserves) {A : Type 0} (P : A → Type 0) : Attempt A → Type 0 where
  stopped : (e : ErrorCode) → Settles reserves P (some (refused e))
  thrown : (v : Vector) (n : ℕ) → reserves v n ≡ false → Settles reserves P (some (threw v n))
  finished : (a : A) → P a → Settles reserves P (some (parsed a))

pub and_next-Settles :
    {reserves : Reserves} {A B : Type 0} {P : A → Type 0} {Q : B → Type 0} {o : Attempt A}
    {f : A → Attempt B}
    → Settles reserves P o
    → ((a : A) → P a → Settles reserves Q (f a))
    → Settles reserves Q (and_next o f)
and_next-Settles (stopped e) next = stopped e
and_next-Settles (thrown v n h) next = thrown v n h
and_next-Settles (finished a p) next = next a p

-- Code that reserves first.
pub reserve-Settles :
    {reserves : Reserves} {B : Type 0} {Q : B → Type 0} {o : Attempt B} (v : Vector) (n : ℕ)
    → Settles reserves Q o
    → Settles reserves Q (and_next (reserve reserves v n) λ reserved. o)
unfolding reserve
reserve-Settles {reserves} v n next = elim (Bool-cases (reserves v n)) [
  | inl served ↦ rw (reserve, served) next
  | inr too_many ↦ rw (reserve, too_many) (thrown v n too_many)
]
