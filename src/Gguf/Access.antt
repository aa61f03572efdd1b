-- ===== src/Gguf/Access.antt =====
-- src/checkpoint/gguf/reader.cpp: what the values hold, and the lookups of the reader. `none` is
-- `std::nullopt`, a null pointer, or the exception of `std::get` on another type.
use cc_infer.Base.{
  ℕ, List, [], ◌∷◌, Bool, true, false, ◌||◌, Option, none, some, length, take, if◌then◌else◌,
}
use cc_infer.Base.Int.{ℤ}
use cc_infer.Base.Dict.{find, list_key, same_list}
use cc_infer.Attempt.{Reserves, Attempt}
use cc_infer.Gguf.{
  File, GgufMetadataValue, u8, u16, u32, u64, f32, f64, i8, i16, i32, i64, string, array,
  GgufValues, load_failed, signed,
}
use cc_infer.Gguf.Tensors.{GgufTensorInfo}
use cc_infer.Gguf.Reader.{GgufReader, parse}

unfoldable pub as_string : GgufMetadataValue → Option (List ℕ)
as_string (string s) = some s
as_string _ = none

unfoldable pub as_u64 : GgufMetadataValue → Option ℕ
as_u64 (u64 n) = some n
as_u64 (u32 n) = some n
as_u64 (u16 n) = some n
as_u64 (u8 n) = some n
as_u64 _ = none

-- An unsigned number of 64 bits is read as a signed one.
unfoldable pub as_i64 : GgufMetadataValue → Option ℤ
unfolding as_u64 signed
as_i64 (i64 z) = some z
as_i64 (i32 z) = some z
as_i64 (i16 z) = some z
as_i64 (i8 z) = some z
as_i64 v = elim (as_u64 v) [ none ↦ none | some n ↦ some (signed 64 n) ]

unfoldable pub as_array : GgufMetadataValue → Option GgufValues
as_array (array values) = some values
as_array _ = none

-- The bits of a floating-point number, with the conversions between the two widths as parameters.
module _ (widen narrow : ℕ → ℕ) where
  unfoldable pub as_f64 : GgufMetadataValue → Option ℕ
  as_f64 (f64 bits) = some bits
  as_f64 (f32 bits) = some (widen bits)
  as_f64 _ = none

  unfoldable pub as_f32 : GgufMetadataValue → Option ℕ
  as_f32 (f32 bits) = some bits
  as_f32 (f64 bits) = some (narrow bits)
  as_f32 _ = none

unfoldable pub metadata_of : GgufReader → List ℕ → Option GgufMetadataValue
unfolding find
metadata_of reader key = find key reader.metadata

unfoldable pub find_in : List ℕ → List GgufTensorInfo → Option GgufTensorInfo
find_in name [] = none
find_in name (info ∷ infos) = if same_list info.name name then some info else find_in name infos

unfoldable pub find_tensor : GgufReader → List ℕ → Option GgufTensorInfo
unfolding find_in
find_tensor reader name = find_in name reader.tensor_infos

-- `std::string::find`, as a test.
unfoldable pub contains_text : List ℕ → List ℕ → Bool
contains_text pattern [] = same_list [] pattern
contains_text pattern (c ∷ text) =
    if same_list (take (length pattern) (c ∷ text)) pattern
    then true
    else contains_text pattern text

abbrev pub nextn_inner : List ℕ
nextn_inner = b'.' ∷ b'n' ∷ b'e' ∷ b'x' ∷ b't' ∷ b'n' ∷ b'.' ∷ []

abbrev pub nextn_start : List ℕ
nextn_start = b'n' ∷ b'e' ∷ b'x' ∷ b't' ∷ b'n' ∷ b'_' ∷ []

unfoldable pub any_nextn : List GgufTensorInfo → Bool
unfolding contains_text
any_nextn [] = false
any_nextn (info ∷ infos) =
    if contains_text nextn_inner info.name || contains_text nextn_start info.name
    then true
    else any_nextn infos

unfoldable pub has_nextn_tensors : GgufReader → Bool
unfolding any_nextn
has_nextn_tensors reader = any_nextn reader.tensor_infos

-- `create` from what opening and mapping the file gives: `none` is a failed call.
unfoldable pub create : Reserves → Option File → Attempt GgufReader
unfolding parse
create reserves none = load_failed
create reserves (some []) = load_failed
create reserves (some (b ∷ file)) = parse reserves (b ∷ file)
