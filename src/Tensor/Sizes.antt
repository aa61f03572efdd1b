-- ===== src/Tensor/Sizes.antt =====
-- src/runtime/tensor.cpp, `checked_numel` and `checked_nbytes_dense`: the sizes are exact.
use native.Mathlib.Nat.{
  div-lt_iff_lt-mul, le-div_iff_mul-le, mul_assoc, mul_comm, mul-one, one-mul, le-mul_of_pos_right,
}
use cc_infer.Base.{
  ℕ, zero, suc, ◌*◌, ◌/◌, ◌≤◌, ◌<◌, ◌≡◌, refl, ap, ◌∙◌, List, [], ◌∷◌, Bool, true, false, ◌&&◌, not,
  ltb, ltb→lt, leb, ◌==◌, inl, inr, Bool-cases, if◌then◌else◌, arith,
}
use cc_infer.Base.Int.{ℤ, pos, negsuc}
use cc_infer.Errors.{Result, done, fail, ErrorCode}
use cc_infer.Gguf.Spans.{product, Positive, no_dim, dim, product_pos, not_ltb}
use cc_infer.Tensor.{size_max, numel_loop, bad_rank, checked_numel, scaled, checked_nbytes_dense}

pub all_positive : List ℤ → Bool
all_positive [] = true
all_positive (pos (suc d) ∷ dims) = all_positive dims
all_positive _ = false

all_positive-Positive : (dims : List ℤ) → all_positive dims ≡ true → Positive dims
unfolding all_positive
all_positive-Positive [] h = no_dim
all_positive-Positive (pos zero ∷ dims) h = absurd cc
all_positive-Positive (pos (suc d) ∷ dims) h = dim (all_positive-Positive dims h)
all_positive-Positive (negsuc d ∷ dims) h = absurd cc

-- The number, where it can be a size.
unfoldable pub sized : Bool → ℕ → Result ℕ
sized allowed n = if allowed && leb n size_max then done n else fail ErrorCode.invalid_argument

sized_over : (b : Bool) (n : ℕ) → size_max < n → fail ErrorCode.invalid_argument ≡ sized b n
unfolding sized
sized_over b n h = ground (arith, Bool-cases b)

grows : (n d : ℕ) → 0 < d → n ≤ n * d
grows n d h = le-mul_of_pos_right n h

-- A factor over the quotient makes the product too large, and another one does not.
over_quotient : (n d : ℕ) → 0 < n → size_max / n < d → size_max < n * d
over_quotient n d positive h =
    omega (arith, (div-lt_iff_lt-mul {k = n} {x = size_max} {y = d} positive).0 h, mul_comm n d)

within_quotient : (n d : ℕ) → 0 < n → d ≤ size_max / n → n * d ≤ size_max
within_quotient n d positive h =
    omega (arith, (le-div_iff_mul-le {k = n} {x = d} {y = size_max} positive).0 h, mul_comm n d)

too_many :
    (n d : ℕ) (dims : List ℤ)
    → 0 < n
    → size_max / n < suc d
    → fail ErrorCode.invalid_argument ≡ sized (all_positive dims) (n * (suc d * product dims))
unfolding sized
too_many n d dims positive h = elim (Bool-cases (all_positive dims)) [
  | inr bad ↦ rw bad refl
  | inl good ↦ rw good (
      sized_over true (n * (suc d * product dims)) (
        omega (
          arith,
          over_quotient n (suc d) positive h,
          le-mul_of_pos_right (n * suc d) (product_pos (all_positive-Positive dims good)),
          mul_assoc n (suc d) (product dims),
        )))
]

numel_loop-exact :
    (n : ℕ) (dims : List ℤ)
    → 0 < n
    → n ≤ size_max
    → numel_loop n dims ≡ sized (all_positive dims) (n * product dims)
unfolding numel_loop product all_positive sized
numel_loop-exact n [] positive fits = rw (mul-one n) (ground arith)
numel_loop-exact n (negsuc d ∷ dims) positive fits = refl
numel_loop-exact n (pos zero ∷ dims) positive fits = refl
numel_loop-exact n (pos (suc d) ∷ dims) positive fits =
    elim (Bool-cases (ltb (size_max / n) (suc d))) [
      | inl over ↦ rw over (too_many n d dims positive (ltb→lt _ _ over))
      | inr within ↦ rw within (
          numel_loop-exact (n * suc d) dims (omega (arith, positive, grows n (suc d) (omega arith)))
            (within_quotient n (suc d) positive (not_ltb _ _ within))
          ∙ ap (sized (all_positive dims)) (mul_assoc n (suc d) (product dims)))
    ]

not_leb : (a b : ℕ) → leb a b ≡ false → b < a
not_leb a b h = ground arith

sized_within : (n : ℕ) → n ≤ size_max → done n ≡ sized true n
unfolding sized
sized_within n h = ground arith

scaled-sized :
    (elem_size : ℕ) (b : Bool) (n : ℕ)
    → 0 < elem_size
    → scaled elem_size (sized b n) ≡ sized b (n * elem_size)
unfolding scaled sized
scaled-sized elem_size false n positive = refl
scaled-sized elem_size true n positive = elim (Bool-cases (leb n size_max)) [
  | inr large ↦ rw large (
      sized_over true (n * elem_size)
        (omega (arith, not_leb n size_max large, grows n elem_size positive)))
  | inl fits ↦ elim (Bool-cases (ltb (size_max / elem_size) n)) [
    | inl over ↦
        rw (fits, over)
          (sized_over true (n * elem_size) (
            omega
              (arith, over_quotient elem_size n positive (ltb→lt _ _ over), mul_comm n elem_size)))
    | inr within ↦
        rw (fits, within)
          (sized_within (n * elem_size) (
            omega (
              arith,
              within_quotient elem_size n positive (not_ltb _ _ within),
              mul_comm n elem_size,
            )))
  ]
]

-- For every shape and element size, `checked_nbytes_dense` gives the product of the dimensions times
-- the element size, if the rank is allowed, every dimension is positive and the result fits 64 bits,
-- an unsupported type if the element size is 0, and else an invalid argument.
pub checked_nbytes_dense-exact :
    (max_rank elem_size : ℕ) (shape : List ℤ)
    → checked_nbytes_dense max_rank elem_size shape ≡ (
        if elem_size == 0
        then fail ErrorCode.unsupported
        else sized
            (not (bad_rank max_rank shape) && all_positive shape)
            (product shape * elem_size))
unfolding checked_nbytes_dense checked_numel scaled sized
checked_nbytes_dense-exact max_rank elem_size shape = elim (Bool-cases (elem_size == 0)) [
  | inl none_size ↦ rw none_size refl
  | inr some_size ↦ elim (Bool-cases (bad_rank max_rank shape)) [
    | inl bad ↦ rw (some_size, bad) refl
    | inr good ↦
        rw (some_size, good)
          (ap (scaled elem_size) (
              numel_loop-exact 1 shape (omega arith) (omega arith)
              ∙ ap (sized (all_positive shape)) (one-mul (product shape)))
            ∙ scaled-sized elem_size (all_positive shape) (product shape)
                (ground (arith, some_size)))
  ]
]
