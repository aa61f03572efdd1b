-- ===== src/Gguf.antt =====
-- src/checkpoint/gguf/reader.h, reader.cpp: the reader of GGUF files. The mapped file is the list of
-- its bytes; a read outside it is `none`.
pub mod Values
pub mod Tensors
pub mod Reader
pub mod Bounds
pub mod Safety
pub mod Spans
pub mod Access
use cc_infer.Base.{
  ℕ, zero, suc, ◌+◌, ◌-◌, ◌*◌, ◌^◌, ◌/◌, List, [], ◌∷◌, Bool, true, false, ◌||◌, Option, none, some,
  ltb, leb, ◌==◌, length, take, drop, get_elem?, if◌then◌else◌,
}
use cc_infer.Base.Int.{ℤ, pos, negsuc}
use cc_infer.Errors.{ErrorCode}
use cc_infer.Attempt.{Parsed, parsed, refused, Attempt, and_next}

abbrev pub File : Type 0
File = List ℕ

pub data GgufValueType : Type 0 where
  k_u8 k_i8 k_u16 k_i16 k_u32 k_i32 k_f32 k_bool k_string k_array k_u64 k_i64 k_f64 : GgufValueType

-- The types in the order of their numbers, from 0 on.
abbrev pub value_types : List GgufValueType
value_types =
    GgufValueType.k_u8 ∷ GgufValueType.k_i8 ∷ GgufValueType.k_u16 ∷ GgufValueType.k_i16
    ∷ GgufValueType.k_u32 ∷ GgufValueType.k_i32 ∷ GgufValueType.k_f32 ∷ GgufValueType.k_bool
    ∷ GgufValueType.k_string ∷ GgufValueType.k_array ∷ GgufValueType.k_u64 ∷ GgufValueType.k_i64
    ∷ GgufValueType.k_f64 ∷ []

-- The type of a number, which may be outside the enumeration.
unfoldable pub value_type : ℕ → Option GgufValueType
value_type n = get_elem? value_types n

-- The value with its type; floating-point numbers are their bits.
mutual
  pub data GgufMetadataValue : Type 0 where
    u8 u16 u32 u64 f32 f64 : ℕ → GgufMetadataValue
    i8 i16 i32 i64 : ℤ → GgufMetadataValue
    bool : Bool → GgufMetadataValue
    string : List ℕ → GgufMetadataValue
    array : GgufValues → GgufMetadataValue

  pub data GgufValues : Type 0 where
    no_value : GgufValues
    value : GgufMetadataValue → GgufValues → GgufValues

abbrev pub load_failed {ℓ} : {A : Type ℓ} → Attempt A
load_failed = some (refused ErrorCode.model_load_failed)

unfoldable pub require_bytes : ℕ → ℕ → ℕ → Parsed (Unit {0})
require_bytes size offset needed =
    if ltb size offset || ltb (size - offset) needed
    then refused ErrorCode.model_load_failed
    else parsed tt

-- The bytes of the file at the offset.
unfoldable pub bytes_at : File → ℕ → ℕ → Option (List ℕ)
bytes_at file offset n =
    if leb (offset + n) (length file) then some (take n (drop offset file)) else none

-- The number that little-endian bytes hold.
unfoldable pub little_endian : List ℕ → ℕ
little_endian [] = 0
little_endian (b ∷ bytes) = b + 256 * little_endian bytes

-- What was read, and the offset behind it.
abbrev pub Read : Type 0 → Type 0
Read A = Attempt (A × ℕ)

abbrev pub fetch : File → ℕ → ℕ → Read (List ℕ)
fetch file offset n = elim (bytes_at file offset n) [
  | none ↦ none
  | some bytes ↦ some (parsed (bytes, offset + n))
]

-- `read_raw` of a type of this width, as an unsigned number.
unfoldable pub read_raw : ℕ → File → ℕ → Read ℕ
unfolding require_bytes bytes_at little_endian
read_raw width file offset = and_next (some (require_bytes (length file) offset width)) λ checked.
    and_next (fetch file offset width) λ (bytes, next). some (parsed (little_endian bytes, next))

-- The signed number of the same bits.
unfoldable pub signed : ℕ → ℕ → ℤ
signed width n = if ltb n (2 ^ (width - 1)) then pos n else negsuc (2 ^ width - 1 - n)

unfoldable pub read_bool : File → ℕ → Read Bool
unfolding read_raw
read_bool file offset =
    and_next (read_raw 1 file offset)
      λ (v, next). some (parsed ((if v == 0 then false else true), next))

unfoldable pub read_string : File → ℕ → Read (List ℕ)
unfolding read_raw
read_string file offset = and_next (read_raw 8 file offset) λ (len, start).
    and_next (some (require_bytes (length file) start len)) λ checked. fetch file start len
