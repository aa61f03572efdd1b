-- ===== src/Gguf/Spans.antt =====
-- src/checkpoint/gguf/reader.cpp, `tensor_numel` and `raw_tensor_data`: the size and the place of a
-- tensor, computed without overflow checks.
use native.Mathlib.Nat.{
  div-lt_iff_lt-mul, le-div_iff_mul-le, mul_assoc, mul-le-mul_left, mul-one, one-mul,
  le-mul_of_pos_right,
}
use cc_infer.Base.{
  ℕ, suc, ◌+◌, ◌-◌, ◌*◌, ◌/◌, ◌%◌, ◌^◌, ◌≤◌, ◌<◌, ◌≡◌, refl, ap, ◌∙◌, List, [], ◌∷◌, false, Option,
  ltb, ltb→lt, lt→ltb, leb, le→leb, inl, inr, Bool-cases, is_empty, if◌then◌else◌, arith,
}
use cc_infer.Base.Int.{ℤ, pos, negsuc}
use cc_infer.Errors.{done, fail, ErrorCode}
use cc_infer.Gguf.Tensors.{
  GgufTensorType, k_f32, k_f16, k_bf16, GgufTensorInfo, numel_from, tensor_numel, plain_bytes,
  tensor_bytes, span_in, raw_tensor_data,
}

-- The product of the dimensions.
unfoldable pub product : List ℤ → ℕ
product [] = 1
product (negsuc d ∷ dims) = 0
product (pos d ∷ dims) = d * product dims

pub data Positive : List ℤ → Type 0 where
  no_dim : Positive []
  dim : {d : ℕ} {dims : List ℤ} → Positive dims → Positive (pos (suc d) ∷ dims)

pub product_pos : {dims : List ℤ} → Positive dims → 0 < product dims
unfolding product
product_pos no_dim = omega arith
product_pos (dim {d} {dims} p) = omega (arith, le-mul_of_pos_right (suc d) (product_pos p))

-- A number that fits 63 bits, or else 0.
abbrev fitting : ℕ → ℕ
fitting n = if leb n (2 ^ 63 - 1) then n else 0

fitting_over : (n : ℕ) → 2 ^ 63 - 1 < n → 0 ≡ fitting n
fitting_over n h = ground arith

pub not_ltb : (a b : ℕ) → ltb a b ≡ false → b ≤ a
not_ltb a b h = ground arith

numel_from-exact :
    (n : ℕ) {dims : List ℤ}
    → Positive dims
    → n ≤ 2 ^ 63 - 1
    → numel_from n dims ≡ fitting (n * product dims)
unfolding numel_from product
numel_from-exact n no_dim h = rw (mul-one n) (ground arith)
numel_from-exact n (dim {d} {dims} p) h = elim (Bool-cases (ltb ((2 ^ 63 - 1) / suc d) n)) [
  | inl over ↦ rw over (
      fitting_over (n * (suc d * product dims)) (
        omega (
          arith,
          (div-lt_iff_lt-mul {k = suc d} {x = 2 ^ 63 - 1} {y = n} (omega arith)).0
              (ltb→lt _ _ over),
          le-mul_of_pos_right (n * suc d) (product_pos p),
          mul_assoc n (suc d) (product dims),
        )))
  | inr fits ↦ rw fits (
      numel_from-exact (n * suc d) p (
        omega (
          arith,
          (le-div_iff_mul-le {k = suc d} {x = n} {y = 2 ^ 63 - 1} (omega arith)).0
              (not_ltb _ _ fits),
        ))
      ∙ ap fitting (mul_assoc n (suc d) (product dims)))
]

-- The types whose elements have a width.
pub data Plain : GgufTensorType → ℕ → Type 0 where
  f32 : Plain k_f32 4
  f16 : Plain k_f16 2
  bf16 : Plain k_bf16 2

-- The dimensions are positive and the bytes can be counted in 64 bits.
pub record Countable (info : GgufTensorInfo) (width : ℕ) : Type 0 where
  pub plain : Plain info.type width
  pub some_dim : is_empty info.dims ≡ false
  pub positive : Positive info.dims
  pub fits : product info.dims * width < 2 ^ 64

tensor_numel-product :
    (info : GgufTensorInfo)
    → is_empty info.dims ≡ false
    → Positive info.dims
    → product info.dims ≤ 2 ^ 63 - 1
    → tensor_numel info ≡ product info.dims
unfolding tensor_numel
tensor_numel-product info some_dim positive h =
    rw (tensor_numel, some_dim)
      (numel_from-exact 1 positive (omega arith)
        ∙ ap fitting (one-mul (product info.dims))
        ∙ ground arith)

mod_small : (n : ℕ) → n < 2 ^ 64 → n % 2 ^ 64 ≡ n
mod_small n h = omega arith

plain_bytes-product :
    (info : GgufTensorInfo) (width : ℕ)
    → is_empty info.dims ≡ false
    → Positive info.dims
    → product info.dims ≤ 2 ^ 63 - 1
    → product info.dims * width < 2 ^ 64
    → plain_bytes info width ≡ done (product info.dims * width)
unfolding plain_bytes
plain_bytes-product info width some_dim positive small fits =
    rw (plain_bytes, tensor_numel-product info some_dim positive small)
      (rw (lt→ltb 0 (product info.dims) (product_pos positive)) (ap done (mod_small _ fits)))

width_least : {type : GgufTensorType} {width : ℕ} → Plain type width → 2 ≤ width
width_least f32 = omega arith
width_least f16 = omega arith
width_least bf16 = omega arith

twice_le : (n width : ℕ) → 2 ≤ width → n * 2 ≤ n * width
twice_le n width h = mul-le-mul_left n h

span_test :
    (size at bytes : ℕ)
    → span_in size at (done bytes)
      ≡ (if leb (at + bytes) size then done (at, bytes) else fail ErrorCode.model_load_failed)
unfolding span_in
span_test size at bytes = ground arith

wrapped :
    (data_start at offset : ℕ)
    → data_start < 2 ^ 64
    → at < data_start
    → offset ≡ 2 ^ 64 - data_start + at
    → (data_start + offset) % 2 ^ 64 ≡ at
wrapped data_start at offset small before e = omega (arith, e)

module _ (q8_0_storage_bytes : List ℤ → Option ℕ) where
  tensor_bytes-Plain :
      (name : List ℕ) (dims : List ℤ) (offset : ℕ) {type : GgufTensorType} {width : ℕ}
      → Plain type width
      → let info : GgufTensorInfo = record {
        name = name;
        dims = dims;
        type = type;
        offset = offset;
      } in
        tensor_bytes q8_0_storage_bytes info ≡ plain_bytes info width
  unfolding tensor_bytes
  tensor_bytes-Plain name dims offset f32 = refl
  tensor_bytes-Plain name dims offset f16 = refl
  tensor_bytes-Plain name dims offset bf16 = refl

  tensor_bytes-product :
      (info : GgufTensorInfo) (width : ℕ)
      → Countable info width
      → tensor_bytes q8_0_storage_bytes info ≡ done (product info.dims * width)
  tensor_bytes-product info width c =
      tensor_bytes-Plain info.name info.dims info.offset c.plain
      ∙ plain_bytes-product info width c.some_dim c.positive
          (omega (arith, c.fits, twice_le (product info.dims) width (width_least c.plain))) c.fits

  -- The bytes of a tensor of positive dimensions, whose size and place fit 64 bits, are the product
  -- of the dimensions times the width, from the data's start plus the offset on, where the file
  -- holds them, and an error where it does not.
  pub raw_tensor_data-exact :
      (size data_start : ℕ) (info : GgufTensorInfo) (width : ℕ)
      → Countable info width
      → data_start + info.offset < 2 ^ 64
      → raw_tensor_data q8_0_storage_bytes size data_start info ≡ (
          if leb (data_start + info.offset + product info.dims * width) size
          then done (data_start + info.offset, product info.dims * width)
          else fail ErrorCode.model_load_failed)
  unfolding raw_tensor_data span_in
  raw_tensor_data-exact size data_start info width c fits =
      rw
        (
          raw_tensor_data,
          tensor_bytes-product info width c,
          mod_small (data_start + info.offset) fits,
        )
        (span_test size (data_start + info.offset) (product info.dims * width))

  -- An offset that takes the place past 2 ^ 64 wraps around: the tensor's bytes are then those
  -- before the data's start, at any place `at` there, and no error is given.
  pub raw_tensor_data_wraps :
      (size data_start at : ℕ) (info : GgufTensorInfo) (width : ℕ)
      → Countable info width
      → at < data_start
      → data_start < 2 ^ 64
      → info.offset ≡ 2 ^ 64 - data_start + at
      → at + product info.dims * width ≤ size
      → raw_tensor_data q8_0_storage_bytes size data_start info
        ≡ done (at, product info.dims * width)
  unfolding raw_tensor_data span_in
  raw_tensor_data_wraps size data_start at info width c before small offset inside =
      rw
        (
          raw_tensor_data,
          tensor_bytes-product info width c,
          wrapped data_start at info.offset small before offset,
          span_test size at (product info.dims * width),
          le→leb (at + product info.dims * width) size inside,
        )
        refl
