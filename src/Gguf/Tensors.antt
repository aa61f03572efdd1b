-- ===== src/Gguf/Tensors.antt =====
-- src/checkpoint/gguf/reader.cpp: the sizes of the tensors and where their bytes lie. The size of a
-- quantised shape, which ccop computes, is a parameter.
use cc_infer.Base.{
  ℕ, zero, suc, ◌+◌, ◌-◌, ◌*◌, ◌/◌, ◌%◌, ◌^◌, List, [], ◌∷◌, ◌++◌, ◌||◌, Option, none, some, ltb,
  is_empty, if◌then◌else◌,
}
use cc_infer.Base.Int.{ℤ, pos, negsuc}
use cc_infer.Errors.{Result, done, fail, ErrorCode}

-- The types that the reader supports; every other one is `k_other`.
pub data GgufTensorType : Type 0 where
  k_f32 k_f16 k_q8_0 k_bf16 : GgufTensorType
  k_other : ℕ → GgufTensorType

pub record GgufTensorInfo : Type 0 where
  pub name : List ℕ
  pub dims : List ℤ
  pub type : GgufTensorType
  pub offset : ℕ

-- The loop of `tensor_numel` from the product `n` on.
unfoldable pub numel_from : ℕ → List ℤ → ℕ
numel_from n [] = n
numel_from n (negsuc d ∷ dims) = 0
numel_from n (pos zero ∷ dims) = 0
numel_from n (pos (suc d) ∷ dims) =
    if ltb ((2 ^ 63 - 1) / suc d) n then 0 else numel_from (n * suc d) dims

unfoldable pub tensor_numel : GgufTensorInfo → ℕ
unfolding numel_from
tensor_numel info = if is_empty info.dims then 0 else numel_from 1 info.dims

-- The number of elements times the size of one, in 64 bits.
unfoldable pub plain_bytes : GgufTensorInfo → ℕ → Result ℕ
unfolding tensor_numel
plain_bytes info element_size =
    if ltb 0 (tensor_numel info)
    then done (tensor_numel info * element_size % 2 ^ 64)
    else fail ErrorCode.model_shape_mismatch

abbrev pub reverse_dims : List ℤ → List ℤ
reverse_dims [] = []
reverse_dims (d ∷ dims) = reverse_dims dims ++ d ∷ []

-- The bytes of the file at which the data lie, and how many there are.
unfoldable pub span_in : ℕ → ℕ → Result ℕ → Result (ℕ × ℕ)
span_in size data_offset (fail e) = fail e
span_in size data_offset (done bytes) =
    if ltb size data_offset || ltb (size - data_offset) bytes
    then fail ErrorCode.model_load_failed
    else done (data_offset, bytes)

module _ (q8_0_storage_bytes : List ℤ → Option ℕ) where
  unfoldable pub tensor_bytes : GgufTensorInfo → Result ℕ
  unfolding plain_bytes
  tensor_bytes info = elim info.type [
    | k_f32 ↦ plain_bytes info 4
    | k_f16 ↦ plain_bytes info 2
    | k_bf16 ↦ plain_bytes info 2
    | k_q8_0 ↦ elim (q8_0_storage_bytes (reverse_dims info.dims)) [
      | none ↦ fail ErrorCode.model_shape_mismatch
      | some bytes ↦ done (bytes % 2 ^ 64)
    ]
    | k_other n ↦ fail ErrorCode.unsupported
  ]

  -- From the file's size and where the tensor data start in it.
  unfoldable pub raw_tensor_data : ℕ → ℕ → GgufTensorInfo → Result (ℕ × ℕ)
  unfolding tensor_bytes span_in
  raw_tensor_data size data_start info =
      span_in size ((data_start + info.offset) % 2 ^ 64) (tensor_bytes info)
