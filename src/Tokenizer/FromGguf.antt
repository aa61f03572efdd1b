-- ===== src/Tokenizer/FromGguf.antt =====
-- src/tokenizer/gguf_tokenizer.cpp: the tokenizer of a GGUF file. `none` is the exception of
-- `as_string` on another value.
use cc_infer.Base.{◌-◌, ◌%◌, ◌^◌, List, [], ◌∷◌, Option, none, some}
use cc_infer.Base.Int.{ℤ, pos, negsuc}
use cc_infer.Errors.{Result, done, fail, ErrorCode, Outcome, and_then}
use cc_infer.Gguf.{GgufMetadataValue, GgufValues, no_value, value}
use cc_infer.Gguf.Reader.{GgufReader}
use cc_infer.Gguf.Access.{as_string, as_u64, as_i64, as_array, metadata_of}
use cc_infer.Tokenizer.{Tokenizer, Bytes}
use cc_infer.Tokenizer.FromTokens.{to_i32, load_from_vocab_and_merges}

abbrev pub tokens_key : Bytes
tokens_key =
    b't' ∷ b'o' ∷ b'k' ∷ b'e' ∷ b'n' ∷ b'i' ∷ b'z' ∷ b'e' ∷ b'r' ∷ b'.' ∷ b'g' ∷ b'g' ∷ b'm' ∷ b'l'
    ∷ b'.' ∷ b't' ∷ b'o' ∷ b'k' ∷ b'e' ∷ b'n' ∷ b's' ∷ []

abbrev pub merges_key : Bytes
merges_key =
    b't' ∷ b'o' ∷ b'k' ∷ b'e' ∷ b'n' ∷ b'i' ∷ b'z' ∷ b'e' ∷ b'r' ∷ b'.' ∷ b'g' ∷ b'g' ∷ b'm' ∷ b'l'
    ∷ b'.' ∷ b'm' ∷ b'e' ∷ b'r' ∷ b'g' ∷ b'e' ∷ b's' ∷ []

abbrev pub types_key : Bytes
types_key =
    b't' ∷ b'o' ∷ b'k' ∷ b'e' ∷ b'n' ∷ b'i' ∷ b'z' ∷ b'e' ∷ b'r' ∷ b'.' ∷ b'g' ∷ b'g' ∷ b'm' ∷ b'l'
    ∷ b'.' ∷ b't' ∷ b'o' ∷ b'k' ∷ b'e' ∷ b'n' ∷ b'_' ∷ b't' ∷ b'y' ∷ b'p' ∷ b'e' ∷ []

abbrev pub eos_key : Bytes
eos_key =
    b't' ∷ b'o' ∷ b'k' ∷ b'e' ∷ b'n' ∷ b'i' ∷ b'z' ∷ b'e' ∷ b'r' ∷ b'.' ∷ b'g' ∷ b'g' ∷ b'm' ∷ b'l'
    ∷ b'.' ∷ b'e' ∷ b'o' ∷ b's' ∷ b'_' ∷ b't' ∷ b'o' ∷ b'k' ∷ b'e' ∷ b'n' ∷ b'_' ∷ b'i' ∷ b'd' ∷ []

abbrev pub padding_key : Bytes
padding_key =
    b't' ∷ b'o' ∷ b'k' ∷ b'e' ∷ b'n' ∷ b'i' ∷ b'z' ∷ b'e' ∷ b'r' ∷ b'.' ∷ b'g' ∷ b'g' ∷ b'm' ∷ b'l'
    ∷ b'.' ∷ b'p' ∷ b'a' ∷ b'd' ∷ b'd' ∷ b'i' ∷ b'n' ∷ b'g' ∷ b'_' ∷ b't' ∷ b'o' ∷ b'k' ∷ b'e'
    ∷ b'n' ∷ b'_' ∷ b'i' ∷ b'd' ∷ []

abbrev pub pad_key : Bytes
pad_key =
    b't' ∷ b'o' ∷ b'k' ∷ b'e' ∷ b'n' ∷ b'i' ∷ b'z' ∷ b'e' ∷ b'r' ∷ b'.' ∷ b'g' ∷ b'g' ∷ b'm' ∷ b'l'
    ∷ b'.' ∷ b'p' ∷ b'a' ∷ b'd' ∷ b'_' ∷ b't' ∷ b'o' ∷ b'k' ∷ b'e' ∷ b'n' ∷ b'_' ∷ b'i' ∷ b'd' ∷ []

-- A tokenizer as its constructor makes it.
unfoldable pub new_tokenizer : Tokenizer
new_tokenizer = record {
  vocab = [];
  id_to_token = [];
  merge_rank = [];
  byte_to_str = [];
  str_to_byte = [];
  special_token_to_id = [];
  id_to_special_token = [];
  max_token_id = negsuc 0;
  eos_token_id = negsuc 0;
  pad_token_id = negsuc 0;
  unk_token_id = negsuc 0;
}

-- `static_cast<int32_t>` of a signed number.
unfoldable pub i64_to_i32 : ℤ → ℤ
unfolding to_i32
i64_to_i32 (pos n) = to_i32 n
i64_to_i32 (negsuc n) = to_i32 (2 ^ 32 - 1 - n % 2 ^ 32)

-- The loop with `as_string`.
unfoldable pub all_strings : GgufValues → Outcome (List Bytes)
unfolding as_string
all_strings no_value = some (done [])
all_strings (value v values) = elim (as_string v) [
  | none ↦ none
  | some s ↦ and_then (all_strings values) λ rest. some (done (s ∷ rest))
]

unfoldable pub all_types : GgufValues → Outcome (List ℤ)
unfolding as_i64 i64_to_i32
all_types no_value = some (done [])
all_types (value v values) = elim (as_i64 v) [
  | none ↦ some (fail ErrorCode.model_load_failed)
  | some id ↦ and_then (all_types values) λ rest. some (done (i64_to_i32 id ∷ rest))
]

-- The array under the key, where there is one.
unfoldable pub array_of : GgufReader → Bytes → Option GgufValues
unfolding metadata_of as_array
array_of reader key = elim (metadata_of reader key) [ none ↦ none | some v ↦ as_array v ]

unfoldable pub tokens_of : GgufReader → Outcome (List Bytes)
unfolding array_of all_strings
tokens_of reader = elim (array_of reader tokens_key) [
  | none ↦ some (fail ErrorCode.model_load_failed)
  | some vs ↦ all_strings vs
]

unfoldable pub merges_of : GgufReader → Outcome (List Bytes)
unfolding array_of all_strings
merges_of reader = elim (array_of reader merges_key) [
  | none ↦ some (done [])
  | some vs ↦ all_strings vs
]

unfoldable pub types_of : GgufReader → Outcome (List ℤ)
unfolding array_of all_types
types_of reader = elim (array_of reader types_key) [
  | none ↦ some (done [])
  | some vs ↦ all_types vs
]

-- The id that the value holds.
unfoldable pub id_in : GgufMetadataValue → Outcome ℤ
unfolding as_u64 to_i32
id_in v = elim (as_u64 v) [
  | none ↦ some (fail ErrorCode.model_load_failed)
  | some n ↦ some (done (to_i32 n))
]

unfoldable pub eos_of : GgufReader → Outcome ℤ
unfolding metadata_of id_in
eos_of reader = elim (metadata_of reader eos_key) [
  | none ↦ some (done (negsuc 0))
  | some v ↦ id_in v
]

unfoldable pub pad_of : GgufReader → Outcome ℤ
unfolding metadata_of id_in
pad_of reader = elim (metadata_of reader padding_key) [
  | some v ↦ id_in v
  | none ↦ elim (metadata_of reader pad_key) [ none ↦ some (done (negsuc 0)) | some v ↦ id_in v ]
]

unfoldable pub loaded_or_error : Result (Unit {0}) × Tokenizer → Outcome Tokenizer
loaded_or_error (fail e, t) = some (fail e)
loaded_or_error (done u, t) = some (done t)

unfoldable pub create_tokenizer_from_gguf : GgufReader → Outcome Tokenizer
unfolding tokens_of merges_of types_of eos_of pad_of new_tokenizer load_from_vocab_and_merges
    loaded_or_error
create_tokenizer_from_gguf reader = and_then (tokens_of reader) λ tokens.
    and_then (merges_of reader) λ merges. and_then (types_of reader) λ token_types.
      and_then (eos_of reader) λ eos. and_then (pad_of reader) λ pad.
        loaded_or_error (load_from_vocab_and_merges tokens merges token_types eos pad new_tokenizer)
