-- ===== src/Tokenizer/FromTokens.antt =====
-- src/tokenizer/byte_level_bpe_tokenizer.cpp, `load_from_vocab_and_merges`: a tokenizer from the
-- lists of tokens and merges that a checkpoint holds.
pub mod Agreement
pub mod Loaded
use cc_infer.Base.{
  ℕ, zero, suc, ◌+◌, ◌-◌, ◌%◌, ◌^◌, List, [], ◌∷◌, Bool, true, false, ◌&&◌, Option, none, some, ltb,
  ◌==◌, get_elem?, is_empty, if◌then◌else◌,
}
use cc_infer.Base.Int.{ℤ, pos, negsuc, ltz, lez}
use cc_infer.Base.Dict.{Dict, put, int_key, list_key, pair_key, same_int}
use cc_infer.Errors.{Result, done, fail, ErrorCode}
use cc_infer.Tokenizer.{Tokenizer, Bytes, Pair}
use cc_infer.Tokenizer.ByteMap.{build_byte_maps}

-- `static_cast<int32_t>`.
unfoldable pub to_i32 : ℕ → ℤ
to_i32 n = if ltb (n % 2 ^ 32) (2 ^ 31) then pos (n % 2 ^ 32) else negsuc (2 ^ 32 - 1 - n % 2 ^ 32)

-- `id + 1` of a 32-bit number.
unfoldable pub next_id : ℤ → ℤ
unfolding to_i32
next_id (pos n) = to_i32 (n + 1)
next_id (negsuc zero) = pos 0
next_id (negsuc (suc n)) = negsuc n

unfoldable pub vocab_size : Tokenizer → ℤ
unfolding next_id
vocab_size t = next_id t.max_token_id

-- The two halves around the first space.
unfoldable pub split_at_space : Bytes → Option Pair
split_at_space [] = none
split_at_space (c ∷ rest) = elim (c == b' ') [
  | true ↦ some ([], rest)
  | false ↦ elim (split_at_space rest) [ none ↦ none | some (a, b) ↦ some (c ∷ a, b) ]
]

-- The dictionaries and ids as the loaders start with them.
unfoldable pub cleared : Tokenizer → Tokenizer
cleared t = record t {
  vocab = [];
  id_to_token = [];
  merge_rank = [];
  special_token_to_id = [];
  id_to_special_token = [];
  max_token_id = negsuc 0;
  eos_token_id = negsuc 0;
  unk_token_id = negsuc 0;
}

-- The entries of a token for both directions, and the largest id so far.
unfoldable pub set_token : Bytes → ℤ → Tokenizer → Tokenizer
unfolding put
set_token token id t = record t {
  vocab = put token id t.vocab;
  id_to_token = put id token t.id_to_token;
  max_token_id = if ltz t.max_token_id id then id else t.max_token_id;
}

unfoldable pub set_special : Bytes → ℤ → Tokenizer → Tokenizer
unfolding put
set_special token id t = record t {
  special_token_to_id = put token id t.special_token_to_id;
  id_to_special_token = put id token t.id_to_special_token;
}

-- What the token's type adds: a special token, or the token for unknown symbols.
unfoldable pub set_type : Bytes → ℤ → Option ℤ → Tokenizer → Tokenizer
unfolding set_special
set_type token id none t = t
set_type token id (some type) t =
    if lez (pos 3) type
    then set_special token id t
    else if same_int type (pos 2) && ltz t.unk_token_id (pos 0)
    then record t { unk_token_id = id }
    else t

-- The loop over the tokens from index `i` on.
unfoldable pub add_tokens : ℕ → List Bytes → List ℤ → Tokenizer → Tokenizer
unfolding to_i32 set_token set_type
add_tokens i [] token_types t = t
add_tokens i (token ∷ tokens) token_types t =
    add_tokens (i + 1) tokens token_types
      (set_type token (to_i32 i) (get_elem? token_types i) (set_token token (to_i32 i) t))

unfoldable pub add_merges : ℕ → List Bytes → Dict Pair ℕ → Dict Pair ℕ
unfolding split_at_space put
add_merges rank [] ranks = ranks
add_merges rank (merge ∷ merges) ranks = elim (split_at_space merge) [
  | none ↦ add_merges rank merges ranks
  | some pair ↦ add_merges (rank + 1) merges (put pair rank ranks)
]

-- The result, and the tokenizer as the call leaves it.
unfoldable pub load_from_vocab_and_merges :
    List Bytes → List Bytes → List ℤ → ℤ → ℤ → Tokenizer → Result (Unit {0}) × Tokenizer
unfolding cleared add_tokens add_merges
load_from_vocab_and_merges tokens merges token_types eos_token_id pad_token_id t =
    let added = add_tokens 0 tokens token_types (cleared t) in
    let loaded = record added {
      merge_rank = add_merges 0 merges [];
      eos_token_id = eos_token_id;
      pad_token_id = pad_token_id;
      byte_to_str = build_byte_maps.byte_to_str;
      str_to_byte = build_byte_maps.str_to_byte;
    } in
    ((if is_empty loaded.vocab then fail ErrorCode.model_load_failed else done tt), loaded)
