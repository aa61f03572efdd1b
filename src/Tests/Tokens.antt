-- ===== src/Tests/Tokens.antt =====
-- A tokenizer of five tokens, and the theorems on it.
use cc_infer.Base.{
  ℕ, ◌⊎◌, is_empty, ◌-◌, ◌^◌, ◌≡◌, ◌≢◌, refl, ap, List, [], ◌∷◌, true, false, Option, some, arith,
}
use cc_infer.Base.Int.{ℤ, pos, negsuc, lez, ltz}
use cc_infer.Base.Dict.{find, Entries, list_key, pair_key, nat_key, int_key}
use cc_infer.Errors.{done}
use cc_infer.Tokenizer.{Tokenizer, Bytes}
use cc_infer.Tokenizer.ByteMap.{build_byte_maps, symbol_length}
use cc_infer.Tokenizer.Bpe.{Symbols, Ranks, apply_bpe, rank_max}
use cc_infer.Tokenizer.Bpe.Normal.{flat, NoPair, apply_bpe-NoPair}
use cc_infer.Tokenizer.Encode.{encode}
use cc_infer.Tokenizer.Decode.{decode, symbol_bytes}
use cc_infer.Tokenizer.RoundTrip.Spelling.{Spells, nothing, symbol}
use cc_infer.Tokenizer.RoundTrip.Segment.{Octets, empty, octet, Consistent, Sound}
use cc_infer.Tokenizer.RoundTrip.Rounds.{Fails}
use cc_infer.Tokenizer.RoundTrip.Text.{decode-encode}
use cc_infer.Tokenizer.FromTokens.{load_from_vocab_and_merges, vocab_size}
use cc_infer.Tokenizer.FromTokens.Agreement.{AllowedType}
use cc_infer.Tokenizer.FromTokens.Loaded.{
  AllowedTypes, no_token, token, load_from_vocab_and_merges-Consistent,
}
use cc_infer.Tokenizer.FromJson.Words.{word_model, word_vocab}
use cc_infer.Tokenizer.FromJson.Values.{Json, integer, object, no_member, member}
use cc_infer.Tokenizer.FromJson.{load}
use cc_infer.Tokenizer.FromJson.Ids.{load-vocab_size}

abbrev h_i_ranks : Ranks
h_i_ranks = ((b'h' ∷ [], b'i' ∷ []), 0) ∷ []

abbrev h_i_h : Symbols
h_i_h = (b'h' ∷ []) ∷ (b'i' ∷ []) ∷ (b'h' ∷ []) ∷ []

apply_bpe-NoPair_example :
    (flat (apply_bpe h_i_ranks h_i_h) ≡ flat h_i_h)
    × NoPair h_i_ranks rank_max (apply_bpe h_i_ranks h_i_h)
apply_bpe-NoPair_example = apply_bpe-NoPair h_i_ranks h_i_h

abbrev pub blank : Tokenizer
blank = record {
  vocab = [];
  id_to_token = [];
  merge_rank = [];
  byte_to_str = [];
  str_to_byte = [];
  special_token_to_id = [];
  id_to_special_token = [];
  max_token_id = negsuc 0;
  eos_token_id = negsuc 0;
  pad_token_id = negsuc 0;
  unk_token_id = negsuc 0;
}

-- The third token is the merge of the first two, the fourth the line end's symbol.
abbrev pub words : List Bytes
words =
    (b'h' ∷ [])
    ∷ (b'i' ∷ [])
    ∷ (b'h' ∷ b'i' ∷ [])
    ∷ (196 ∷ 138 ∷ [])
    ∷ (b'<' ∷ b's' ∷ b'>' ∷ [])
    ∷ []

abbrev pub word_types : List ℤ
word_types = pos 1 ∷ pos 1 ∷ pos 1 ∷ pos 1 ∷ pos 3 ∷ []

abbrev pub word_merges : List Bytes
word_merges = (b'h' ∷ b' ' ∷ b'i' ∷ []) ∷ []

other_pos : (n : ℕ) → n ≢ 2 → some (pos n) ≢ some (pos 2)
other_pos n h e = h (ap (λ o. elim o [ some (pos k) ↦ k | _ ↦ 0 ]) e)

special-Spells :
    Spells build_byte_maps.str_to_byte (b'<' ∷ b's' ∷ b'>' ∷ []) (b'<' ∷ b's' ∷ b'>' ∷ [])
unfolding build_byte_maps symbol_bytes symbol_length find
special-Spells =
    symbol b'<' [] (b'<' ∷ []) refl refl
      (symbol b's' [] (b's' ∷ []) refl refl (symbol b'>' [] (b'>' ∷ []) refl refl nothing))

ordinary : (tok : Bytes) → AllowedType tok (some (pos 1))
unfolding AllowedType
ordinary tok = (other_pos 1 (omega arith), λ ty e h. absurd (ground (arith, e, h)))

pub words-AllowedTypes : AllowedTypes word_types 0 words
unfolding AllowedType
words-AllowedTypes = token (ordinary _) (
    token (ordinary _) (
      token (ordinary _) (
        token (ordinary _) (token (other_pos 3 (omega arith), λ ty e h. special-Spells) no_token))))

load_from_vocab_and_merges-Consistent_example :
    ((load_from_vocab_and_merges words word_merges word_types (pos 4) (negsuc 0) blank).0 ≡ done tt)
    × Consistent
        (load_from_vocab_and_merges words word_merges word_types (pos 4) (negsuc 0) blank).1
load_from_vocab_and_merges-Consistent_example =
    load_from_vocab_and_merges-Consistent words word_merges word_types (pos 4) (negsuc 0) blank
      (λ e. absurd cc) (omega arith) words-AllowedTypes

abbrev hi_tokenizer : Tokenizer
hi_tokenizer = (load_from_vocab_and_merges words word_merges word_types (pos 4) (negsuc 0) blank).1

hi_Consistent : Consistent hi_tokenizer
hi_Consistent =
    (load_from_vocab_and_merges-Consistent words word_merges word_types (pos 4) (negsuc 0) blank
      (λ e. absurd cc) (omega arith) words-AllowedTypes).1

abbrev hi_text : Bytes
hi_text = b'h' ∷ b'i' ∷ b'<' ∷ b's' ∷ b'>' ∷ b'\n' ∷ b'h' ∷ []

hi_Octets : Octets hi_text
hi_Octets = octet (omega arith) (
    octet (omega arith) (
      octet (omega arith) (
        octet (omega arith)
          (octet (omega arith) (octet (omega arith) (octet (omega arith) empty))))))

-- The ids of the sample text.
hi_ids : encode hi_tokenizer hi_text ≡ some (done (pos 2 ∷ pos 4 ∷ pos 3 ∷ pos 0 ∷ []))
unfolding encode load_from_vocab_and_merges apply_bpe find build_byte_maps
hi_ids = refl

decode-encode_example :
    Sound
      ((is_empty hi_tokenizer.vocab ≡ true) ⊎ Fails hi_tokenizer hi_text)
      (λ ids. decode hi_tokenizer ids false ≡ some (done hi_text))
      (encode hi_tokenizer hi_text)
decode-encode_example = decode-encode hi_tokenizer hi_text hi_Consistent hi_Octets

-- A file that holds a vocabulary of two tokens, and a parser for it.
abbrev small_parse : Bytes → Option Json
small_parse content = some (
    object (
      member word_model
        (object (
          member word_vocab
            (object (
              member (b'a' ∷ []) (integer (pos 7))
                (member (b'b' ∷ []) (integer (pos 3)) no_member)))
            no_member))
        no_member))

abbrev small_loaded : Tokenizer
small_loaded = (load small_parse (b'{' ∷ []) blank).1

load-vocab_size_example :
    (lez (vocab_size small_loaded) (pos (2 ^ 31 - 1)) ≡ true)
    × Entries
        (λ (s : Bytes) id. (lez (pos 0) id ≡ true) × (ltz id (vocab_size small_loaded) ≡ true))
        small_loaded.vocab
unfolding load
load-vocab_size_example = load-vocab_size small_parse (b'{' ∷ []) blank refl
