-- ===== src/Tokenizer/Decode.antt =====
-- src/tokenizer/byte_level_bpe_tokenizer.cpp, `decode`: the stream of the tokens' symbols, then the
-- bytes for which they stand. Each round of the second loop takes a symbol off the stream, whose
-- length is enough fuel.
use cc_infer.Base.{
  ℕ, zero, suc, List, [], ◌∷◌, ◌++◌, Bool, true, false, Option, none, some, ltb, length, take, drop,
  is_empty, if◌then◌else◌,
}
use cc_infer.Base.Int.{ℤ}
use cc_infer.Base.Dict.{Dict, find, int_key, list_key}
use cc_infer.Errors.{Result, done, fail, ErrorCode}
use cc_infer.Tokenizer.{Tokenizer, Bytes}
use cc_infer.Tokenizer.ByteMap.{symbol_length}

abbrev pub add_front : Bytes → Result Bytes → Result Bytes
add_front s (done more) = done (s ++ more)
add_front s (fail e) = fail e

-- `result +=` in front of what the rest of the loop adds.
abbrev pub append_front : Bytes → Option (Result Bytes) → Option (Result Bytes)
append_front s none = none
append_front s (some r) = some (add_front s r)

-- The loop over the ids.
unfoldable pub symbol_stream : Tokenizer → List ℤ → Bool → Result Bytes
symbol_stream t [] skip_special_tokens = done []
symbol_stream t (id ∷ ids) skip_special_tokens =
    let rest = symbol_stream t ids skip_special_tokens in
    elim (find id t.id_to_special_token) [
      | some tok ↦ if skip_special_tokens then rest else add_front tok rest
      | none ↦ elim (find id t.id_to_token) [
        | none ↦ fail ErrorCode.model_load_failed
        | some tok ↦ add_front tok rest
      ]
    ]

-- The byte of a symbol, or the symbol itself where special tokens are kept.
unfoldable pub symbol_bytes : Dict Bytes ℕ → Bool → Bytes → Option Bytes
symbol_bytes str_to_byte skip_special_tokens ch = elim (find ch str_to_byte) [
  | some b ↦ some (b ∷ [])
  | none ↦ if skip_special_tokens then none else some ch
]

-- The loop over the stream, of which `stream` is what is left.
unfoldable pub decode_symbols : Dict Bytes ℕ → Bool → ℕ → Bytes → Option (Result Bytes)
unfolding symbol_length symbol_bytes
decode_symbols str_to_byte skip fuel [] = some (done [])
decode_symbols str_to_byte skip zero (c ∷ stream) = none
decode_symbols str_to_byte skip (suc fuel) (c ∷ stream) = elim (symbol_length c) [
  | none ↦ some (fail ErrorCode.model_load_failed)
  | some len ↦ elim (ltb (length (c ∷ stream)) len) [
    | true ↦ some (fail ErrorCode.model_load_failed)
    | false ↦ elim (symbol_bytes str_to_byte skip (take len (c ∷ stream))) [
      | none ↦ some (fail ErrorCode.model_load_failed)
      | some bytes ↦
          append_front bytes (decode_symbols str_to_byte skip fuel (drop len (c ∷ stream)))
    ]
  ]
]

unfoldable pub decode : Tokenizer → List ℤ → Bool → Option (Result Bytes)
unfolding symbol_stream decode_symbols
decode t token_ids skip_special_tokens = elim (is_empty t.id_to_token) [
  | true ↦ some (fail ErrorCode.model_load_failed)
  | false ↦ elim (symbol_stream t token_ids skip_special_tokens) [
    | fail e ↦ some (fail e)
    | done stream ↦ decode_symbols t.str_to_byte skip_special_tokens (length stream) stream
  ]
]
