-- ===== src/Tensor.antt =====
-- src/runtime/tensor.cpp: the checked sizes of a tensor. The rank that ccop allows, the sizes of its
-- element types and those of its quantised shapes are parameters.
pub mod Sizes
use cc_infer.Base.{
  ℕ, zero, suc, ◌+◌, ◌-◌, ◌*◌, ◌/◌, ◌^◌, List, [], ◌∷◌, Bool, true, false, ◌&&◌, ◌||◌, Option, none,
  some, ltb, leb, ◌==◌, length, is_empty, if◌then◌else◌,
}
use cc_infer.Base.Int.{ℤ, pos, negsuc, ltz, pos_part}
use cc_infer.Errors.{Result, done, fail, ErrorCode}

abbrev pub size_max : ℕ
size_max = 2 ^ 64 - 1

-- `data_in_buffer`, from the address and the size of the buffer.
unfoldable pub data_in_buffer : ℕ → ℕ → ℕ → ℕ → Bool
data_in_buffer base buffer_bytes ptr bytes =
    leb base ptr && (leb bytes buffer_bytes && leb (ptr - base) (buffer_bytes - bytes))

-- The loop of `checked_numel` from the product `numel` on.
unfoldable pub numel_loop : ℕ → List ℤ → Result ℕ
numel_loop numel [] = done numel
numel_loop numel (negsuc d ∷ dims) = fail ErrorCode.invalid_argument
numel_loop numel (pos zero ∷ dims) = fail ErrorCode.invalid_argument
numel_loop numel (pos (suc d) ∷ dims) =
    if ltb (size_max / numel) (suc d)
    then fail ErrorCode.invalid_argument
    else numel_loop (numel * suc d) dims

-- The shape has a rank that is not allowed.
unfoldable pub bad_rank : ℕ → List ℤ → Bool
bad_rank max_rank shape = is_empty shape || ltb max_rank (length shape)

unfoldable pub checked_numel : ℕ → List ℤ → Result ℕ
unfolding numel_loop bad_rank
checked_numel max_rank shape =
    if bad_rank max_rank shape then fail ErrorCode.invalid_argument else numel_loop 1 shape

-- The number of elements as bytes of elements of this size.
unfoldable pub scaled : ℕ → Result ℕ → Result ℕ
scaled elem_size (fail e) = fail e
scaled elem_size (done numel) =
    if ltb (size_max / elem_size) numel
    then fail ErrorCode.invalid_argument
    else done (numel * elem_size)

unfoldable pub checked_nbytes_dense : ℕ → ℕ → List ℤ → Result ℕ
unfolding checked_numel scaled
checked_nbytes_dense max_rank elem_size shape =
    if elem_size == 0
    then fail ErrorCode.unsupported
    else scaled elem_size (checked_numel max_rank shape)

-- `is_q8_0` tells whether the type is the supported one.
module _ (q8_0_storage_bytes : List ℤ → Option ℤ) where
  unfoldable pub checked_nbytes_quantized : ℕ → Bool → List ℤ → Result ℕ
  unfolding bad_rank
  checked_nbytes_quantized max_rank is_q8_0 shape = elim (bad_rank max_rank shape) [
    | true ↦ fail ErrorCode.invalid_argument
    | false ↦ elim is_q8_0 [
      | false ↦ fail ErrorCode.unsupported
      | true ↦ elim (q8_0_storage_bytes shape) [
        | none ↦ fail ErrorCode.invalid_argument
        | some bytes ↦
            if ltz bytes (pos 0) then fail ErrorCode.invalid_argument else done (pos_part bytes)
      ]
    ]
  ]
