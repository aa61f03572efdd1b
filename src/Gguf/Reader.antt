-- ===== src/Gguf/Reader.antt =====
-- src/checkpoint/gguf/reader.cpp, `parse` and the lookups of the reader.
use cc_infer.Base.{
  ℕ, zero, suc, ◌+◌, ◌*◌, ◌/◌, List, [], ◌∷◌, true, false, ◌||◌, Option, none, some, ltb, ◌==◌,
  length, if◌then◌else◌,
}
use cc_infer.Base.Dict.{Dict, list_key, same_list}
use cc_infer.Base.Int.{ℤ}
use cc_infer.Errors.{ErrorCode}
use cc_infer.Attempt.{
  Reserves, metadata_vector, tensor_infos_vector, Attempt, parsed, refused, and_next, reserve,
}
use cc_infer.Gguf.{
  File, Read, GgufMetadataValue, value_type, load_failed, fetch, little_endian, bytes_at, read_raw,
  read_string, signed,
}
use cc_infer.Gguf.Values.{parse_value}
use cc_infer.Gguf.Tensors.{GgufTensorType, k_f32, k_f16, k_q8_0, k_bf16, GgufTensorInfo}

abbrev pub Metadata : Type 0
Metadata = Dict (List ℕ) GgufMetadataValue

pub record GgufReader : Type 0 where
  pub size : ℕ
  pub data_start : ℕ
  pub version : ℕ
  pub metadata : Metadata
  pub tensor_infos : List GgufTensorInfo

-- Nested values take at most two units of fuel for a byte.
abbrev pub value_fuel : File → ℕ
value_fuel file = 2 * length file + 2

-- One round of the loop over the metadata.
unfoldable pub parse_entry : Reserves → File → ℕ → Read (List ℕ × GgufMetadataValue)
unfolding read_string read_raw value_type parse_value
parse_entry reserves file offset = and_next (read_string file offset) λ (key, after_key).
    and_next (read_raw 4 file after_key) λ (type, start). elim (ltb 12 type) [
      | true ↦ load_failed
      | false ↦
          and_next (parse_value reserves file (value_fuel file) start (value_type type))
            λ (v, next). some (parsed ((key, v), next))
    ]

-- The loop over the metadata, of which `n` are left, and over as much fuel.
unfoldable pub parse_metadata : Reserves → File → ℕ → ℕ → ℕ → Read Metadata
unfolding parse_entry
parse_metadata reserves file fuel offset zero = some (parsed ([], offset))
parse_metadata reserves file zero offset (suc n) = none
parse_metadata reserves file (suc fuel) offset (suc n) =
    and_next (parse_entry reserves file offset) λ (kv, after).
      and_next (parse_metadata reserves file fuel after n)
        λ (rest, next). some (parsed (kv ∷ rest, next))

unfoldable pub parse_dims : File → ℕ → ℕ → Read (List ℤ)
unfolding read_raw signed
parse_dims file offset zero = some (parsed ([], offset))
parse_dims file offset (suc d) = and_next (read_raw 8 file offset) λ (dim, after).
    and_next (parse_dims file after d) λ (rest, next). some (parsed (signed 64 dim ∷ rest, next))

-- The type of a number, `none` for the numbers that are outside the enumeration or not supported.
unfoldable pub supported_tensor_type : ℕ → Option GgufTensorType
supported_tensor_type n =
    if n == 0
    then some k_f32
    else if n == 1
    then some k_f16
    else if n == 8
    then some k_q8_0
    else if n == 30
    then some k_bf16
    else none

-- One round of the loop over the tensors.
unfoldable pub parse_tensor : File → ℕ → Read GgufTensorInfo
unfolding read_string read_raw parse_dims supported_tensor_type
parse_tensor file offset = and_next (read_string file offset) λ (name, after_name).
    and_next (read_raw 4 file after_name) λ (n_dims, dims_start).
      elim (n_dims == 0 || ltb 8 n_dims) [
        | true ↦ load_failed
        | false ↦ and_next (parse_dims file dims_start n_dims) λ (dims, after_dims).
            and_next (read_raw 4 file after_dims) λ (type, after_type).
              elim (supported_tensor_type type) [
                | none ↦ some (refused ErrorCode.model_unsupported_dtype)
                | some t ↦ and_next (read_raw 8 file after_type) λ (tensor_offset, next). some (
                    parsed
                      (record { name = name; dims = dims; type = t; offset = tensor_offset }, next))
              ]
      ]

unfoldable pub parse_tensors : File → ℕ → ℕ → ℕ → Read (List GgufTensorInfo)
unfolding parse_tensor
parse_tensors file fuel offset zero = some (parsed ([], offset))
parse_tensors file zero offset (suc n) = none
parse_tensors file (suc fuel) offset (suc n) = and_next (parse_tensor file offset) λ (info, after).
    and_next (parse_tensors file fuel after n) λ (rest, next). some (parsed (info ∷ rest, next))

-- The next multiple of 32.
unfoldable pub aligned : ℕ → ℕ
aligned offset = (offset + 31) / 32 * 32

abbrev pub magic : List ℕ
magic = b'G' ∷ b'G' ∷ b'U' ∷ b'F' ∷ []

-- The sections behind the header.
unfoldable pub parse_sections : Reserves → File → Attempt GgufReader
unfolding read_raw parse_metadata parse_tensors aligned reserve
parse_sections reserves file = and_next (read_raw 8 file 8) λ (n_tensors, after_tensors).
    and_next (read_raw 8 file after_tensors) λ (n_metadata, start).
      and_next (reserve reserves metadata_vector n_metadata) λ some_metadata.
        and_next (parse_metadata reserves file (length file) start n_metadata)
          λ (metadata, after_metadata).
            and_next (reserve reserves tensor_infos_vector n_tensors) λ some_infos.
              and_next (parse_tensors file (length file) after_metadata n_tensors)
                λ (infos, end_of_infos).
                  if ltb (length file) (aligned end_of_infos)
                  then load_failed
                  else some (
                      parsed (record {
                        size = length file;
                        data_start = aligned end_of_infos;
                        version = 3;
                        metadata = metadata;
                        tensor_infos = infos;
                      }))

unfoldable pub parse : Reserves → File → Attempt GgufReader
unfolding bytes_at little_endian parse_sections
parse reserves file = elim (ltb (length file) (4 + 4 + 8 + 8)) [
  | true ↦ load_failed
  | false ↦ and_next (fetch file 0 4) λ (start, after_magic). elim (same_list start magic) [
    | false ↦ load_failed
    | true ↦ and_next (fetch file 4 4) λ (version, after_version).
        elim (little_endian version == 3) [
          | false ↦ load_failed
          | true ↦ parse_sections reserves file
        ]
  ]
]
