-- ===== src/Tokenizer/FromJson.antt =====
-- src/tokenizer/byte_level_bpe_tokenizer.cpp, `load`: a tokenizer from tokenizer.json. The content of
-- the file and the parser, which gives no value on malformed input, are parameters.
pub mod Words
pub mod Values
pub mod Ids
use cc_infer.Base.{
  ℕ, zero, suc, ◌+◌, ◌-◌, ◌%◌, ◌^◌, [], ◌∷◌, Bool, true, false, ◌||◌, Option, none, some, ltb,
  is_empty, if◌then◌else◌,
}
use cc_infer.Base.Int.{ℤ, pos, negsuc, ltz, lez}
use cc_infer.Base.Dict.{Dict, find, put, list_key, pair_key, same_list}
use cc_infer.Errors.{Result, done, fail, ErrorCode}
use cc_infer.Tokenizer.{Tokenizer, Bytes, Pair}
use cc_infer.Tokenizer.ByteMap.{build_byte_maps}
use cc_infer.Tokenizer.FromTokens.{split_at_space, cleared, set_token, set_special}
use Words.{
  word_model, word_type, word_bpe, word_vocab, word_merges, word_added_tokens, word_content,
  word_id, word_special, end_s, end_of_text, endoftext, im_end, unk, unk_upper,
}
use Values.{
  Json, boolean, integer, string, array, object, Items, no_item, item, Members, no_member, member,
  lookup,
}

-- A step that may fail, and the tokenizer as it leaves it.
abbrev pub Loading : Type 0
Loading = Result (Unit {0}) × Tokenizer

abbrev pub load_failed : Tokenizer → Loading
load_failed t = (fail ErrorCode.model_load_failed, t)

-- `get<int64_t>` of a JSON integer, which is below 2 ^ 64.
unfoldable pub get_i64 : ℤ → ℤ
get_i64 (pos n) =
    if ltb (n % 2 ^ 64) (2 ^ 63) then pos (n % 2 ^ 64) else negsuc (2 ^ 64 - 1 - n % 2 ^ 64)
get_i64 (negsuc n) = negsuc n

-- The id, where it is not negative and below the largest 32-bit number.
unfoldable pub checked_id : ℤ → Option ℤ
unfolding get_i64
checked_id z =
    if ltz (get_i64 z) (pos 0) || lez (pos (2 ^ 31 - 1)) (get_i64 z) then none else some (get_i64 z)

-- The loop over the vocabulary.
unfoldable pub add_vocab : Members → Tokenizer → Loading
unfolding checked_id set_token
add_vocab no_member t = (done tt, t)
add_vocab (member token (integer z) rest) t = elim (checked_id z) [
  | none ↦ load_failed t
  | some id ↦ add_vocab rest (set_token token id t)
]
add_vocab (member token _ rest) t = load_failed t

unfoldable pub vocab_from : Option Json → Tokenizer → Loading
unfolding add_vocab
vocab_from (some (object vocab)) t = add_vocab vocab t
vocab_from _ t = load_failed t

unfoldable pub parse_vocab : Members → Tokenizer → Loading
unfolding lookup vocab_from
parse_vocab model t = vocab_from (lookup word_vocab model) t

-- What a merge says: nothing, a pair, or that the file is malformed.
pub data MergeItem : Type 0 where
  skipped malformed : MergeItem
  merged : Pair → MergeItem

unfoldable pub merge_item : Json → MergeItem
unfolding split_at_space
merge_item (string merge) = elim (split_at_space merge) [ none ↦ skipped | some pair ↦ merged pair ]
merge_item (array (item (string a) (item (string b) no_item))) = merged (a, b)
merge_item _ = malformed

-- The loop over the merges.
unfoldable pub add_merge_items : ℕ → Items → Tokenizer → Loading
unfolding merge_item put
add_merge_items rank no_item t = (done tt, t)
add_merge_items rank (item merge rest) t = elim (merge_item merge) [
  | skipped ↦ add_merge_items rank rest t
  | malformed ↦ load_failed t
  | merged pair ↦
      add_merge_items (rank + 1) rest (record t { merge_rank = put pair rank t.merge_rank })
]

unfoldable pub merges_from : Option Json → Tokenizer → Loading
unfolding add_merge_items
merges_from (some (array merges)) t = add_merge_items 0 merges t
merges_from _ t = (done tt, t)

unfoldable pub parse_merges : Members → Tokenizer → Loading
unfolding lookup merges_from
parse_merges model t = merges_from (lookup word_merges model) t

unfoldable pub is_end_token : Bytes → Bool
is_end_token content =
    same_list content end_s
    || same_list content end_of_text
    || same_list content endoftext
    || same_list content im_end

unfoldable pub is_unk_token : Bytes → Bool
is_unk_token content = same_list content unk || same_list content unk_upper

-- The ids of the end and of the unknown token.
unfoldable pub note_content : Bytes → ℤ → Tokenizer → Tokenizer
unfolding is_end_token is_unk_token
note_content content id t =
    if is_end_token content
    then record t { eos_token_id = id }
    else if is_unk_token content
    then record t { unk_token_id = id }
    else t

-- An added token with its content, id and whether it is special.
unfoldable pub add_added_token : Bytes → ℤ → Bool → Tokenizer → Tokenizer
unfolding checked_id set_token set_special note_content
add_added_token content z is_special t = elim (checked_id z) [
  | none ↦ t
  | some id ↦
      let entered = set_token content id t in
      note_content content id (if is_special then set_special content id entered else entered)
]

abbrev pub is_true : Option Json → Bool
is_true (some (boolean b)) = b
is_true _ = false

-- The token of this content, by what the member for its id holds.
unfoldable pub added_with_id : Bytes → Option Json → Members → Tokenizer → Tokenizer
unfolding add_added_token lookup
added_with_id content (some (integer z)) tok t =
    add_added_token content z (is_true (lookup word_special tok)) t
added_with_id content _ tok t = t

unfoldable pub added_with_content : Option Json → Members → Tokenizer → Tokenizer
unfolding added_with_id lookup
added_with_content (some (string content)) tok t = added_with_id content (lookup word_id tok) tok t
added_with_content _ tok t = t

-- One round of the loop over the added tokens.
unfoldable pub add_added_item : Json → Tokenizer → Tokenizer
unfolding added_with_content lookup
add_added_item (object tok) t = added_with_content (lookup word_content tok) tok t
add_added_item _ t = t

unfoldable pub add_added_items : Items → Tokenizer → Tokenizer
unfolding add_added_item
add_added_items no_item t = t
add_added_items (item tok rest) t = add_added_items rest (add_added_item tok t)

unfoldable pub added_from : Option Json → Tokenizer → Tokenizer
unfolding add_added_items
added_from (some (array added)) t = add_added_items added t
added_from _ t = t

unfoldable pub parse_added_tokens : Members → Tokenizer → Tokenizer
unfolding lookup added_from
parse_added_tokens j t = added_from (lookup word_added_tokens j) t

-- `set_if_exists`: the id of a token, where none is set.
unfoldable pub set_if_exists : Bytes → Dict Bytes ℤ → ℤ → ℤ
unfolding find
set_if_exists token vocab dst = elim (find token vocab) [
  | none ↦ dst
  | some id ↦ if ltz dst (pos 0) then id else dst
]

unfoldable pub resolve_special_tokens : Tokenizer → Tokenizer
unfolding set_if_exists
resolve_special_tokens t = record t {
  eos_token_id = set_if_exists im_end t.vocab (
      set_if_exists endoftext t.vocab
        (set_if_exists end_of_text t.vocab (set_if_exists end_s t.vocab t.eos_token_id)));
  unk_token_id = set_if_exists unk_upper t.vocab (set_if_exists unk t.vocab t.unk_token_id);
}

-- The rest of `load`, from the merges that were read.
unfoldable pub finish_load : Members → Loading → Loading
unfolding parse_added_tokens resolve_special_tokens
finish_load j (fail e, t) = (fail e, t)
finish_load j (done u, t) =
    let resolved = resolve_special_tokens (parse_added_tokens j t) in
    let built = record resolved {
      byte_to_str = build_byte_maps.byte_to_str;
      str_to_byte = build_byte_maps.str_to_byte;
    } in
    ((if is_empty built.vocab then fail ErrorCode.model_load_failed else done tt), built)

-- The vocabulary, then the merges.
unfoldable pub load_model : Members → Loading → Loading
unfolding parse_merges
load_model model (fail e, t) = (fail e, t)
load_model model (done u, t) = parse_merges model t

-- The type, if it is given, is that of the byte pairs.
unfoldable pub other_type : Option Json → Bool
other_type (some (string type)) = if same_list type word_bpe then false else true
other_type _ = false

unfoldable pub load_from : Option Json → Members → Tokenizer → Loading
unfolding lookup other_type cleared parse_vocab load_model finish_load
load_from (some (object model)) j t =
    if other_type (lookup word_type model)
    then (fail ErrorCode.model_unsupported_arch, t)
    else finish_load j (load_model model (parse_vocab model (cleared t)))
load_from _ j t = load_failed t

unfoldable pub load_parsed : Option Json → Tokenizer → Loading
unfolding lookup load_from
load_parsed (some (object j)) t = load_from (lookup word_model j) j t
load_parsed _ t = load_failed t

unfoldable pub load : (Bytes → Option Json) → Bytes → Tokenizer → Loading
unfolding load_parsed
load parse content t = if is_empty content then load_failed t else load_parsed (parse content) t
