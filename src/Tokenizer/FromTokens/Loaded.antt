-- ===== src/Tokenizer/FromTokens/Loaded.antt =====
-- src/tokenizer/byte_level_bpe_tokenizer.cpp, `load_from_vocab_and_merges`: the loaded tokenizer.
use cc_infer.Base.{
  ℕ, ◌+◌, ◌^◌, ◌≤◌, ◌≡◌, ◌≢◌, refl, List, [], ◌∷◌, false, ◌&&◌, Option, none, some, Bool-cases, inl,
  inr, get_elem?, is_empty, length, subst, arith,
}
use cc_infer.Base.Int.{ℤ, pos, ltz, lez}
use cc_infer.Base.Dict.{Dict, Key, no_entry, Entries-map, put, find, int_key, list_key, same_int}
use cc_infer.Errors.{done}
use cc_infer.Tokenizer.{Tokenizer, Bytes}
use cc_infer.Tokenizer.FromTokens.{
  to_i32, cleared, set_token, set_special, set_type, add_tokens, load_from_vocab_and_merges,
}
use cc_infer.Tokenizer.FromTokens.Agreement.{
  Known, Agrees, AllowedType, to_i32_small, Agrees-set_type,
}
use cc_infer.Tokenizer.RoundTrip.Segment.{Consistent}

-- The tokens from index `i` on have allowed types.
pub data AllowedTypes (types : List ℤ) : ℕ → List Bytes → Type 0 where
  no_token : {i : ℕ} → AllowedTypes types i []
  token :
      {i : ℕ} {tok : Bytes} {tokens : List Bytes}
      → AllowedType tok (get_elem? types i)
      → AllowedTypes types (i + 1) tokens
      → AllowedTypes types i (tok ∷ tokens)

add_tokens-Agrees :
    (types : List ℤ) (i : ℕ) {tokens : List Bytes} (t : Tokenizer)
    → AllowedTypes types i tokens
    → i + length tokens ≤ 2 ^ 31
    → Agrees i t
    → (n : ℕ) × Agrees n (add_tokens i tokens types t)
unfolding add_tokens
add_tokens-Agrees types i t no_token h agrees = (i, agrees)
add_tokens-Agrees types i t (token {tok} {tokens} allowed rest) h agrees =
    rw (add_tokens, to_i32_small i (omega (arith, h)))
      (add_tokens-Agrees types (i + 1) _ rest (omega (arith, h)) (
        subst (λ j. Agrees j (set_type tok (pos i) (get_elem? types i) (set_token tok (pos i) t)))
          (omega arith) (Agrees-set_type i tok t agrees (get_elem? types i) allowed)))

put-filled {ℓ κ} :
    {K : Type ℓ} {V : Type κ} ⦃key : Key K⦄ (k : K) (v : V) (d : Dict K V)
    → is_empty (put k v d) ≡ false
unfolding put
put-filled k v [] = refl
put-filled ⦃key⦄ k v ((j, w) ∷ d) = ground (arith, Bool-cases (key.same j k))

-- There is a token for a text and a text for an id.
Filled : Tokenizer → Type 0
Filled t = (is_empty t.vocab ≡ false) × (is_empty t.id_to_token ≡ false)

set_type-Filled :
    (tok : Bytes) (id : ℤ) (type : Option ℤ) (t : Tokenizer)
    → Filled t
    → Filled (set_type tok id type t)
unfolding set_type set_special Filled
set_type-Filled tok id none t h = h
set_type-Filled tok id (some type) t h = elim (Bool-cases (lez (pos 3) type)) [
  | inl large ↦ rw large h
  | inr small ↦ elim (Bool-cases (same_int type (pos 2) && ltz t.unk_token_id (pos 0))) [
    | inl unknown ↦ rw (small, unknown) h
    | inr normal ↦ rw (small, normal) h
  ]
]

set_token-Filled : (tok : Bytes) (id : ℤ) (t : Tokenizer) → Filled (set_token tok id t)
unfolding set_token Filled
set_token-Filled tok id t = (put-filled tok id t.vocab, put-filled id tok t.id_to_token)

add_tokens-Filled :
    (i : ℕ) (tokens : List Bytes) (types : List ℤ) (t : Tokenizer)
    → Filled t
    → Filled (add_tokens i tokens types t)
unfolding add_tokens
add_tokens-Filled i [] types t h = h
add_tokens-Filled i (tok ∷ tokens) types t h =
    add_tokens-Filled (i + 1) tokens types _
      (set_type-Filled tok (to_i32 i) (get_elem? types i) _ (set_token-Filled tok (to_i32 i) t))

some_tokens-Filled :
    (tokens : List Bytes) (types : List ℤ) (t : Tokenizer)
    → tokens ≢ []
    → Filled (add_tokens 0 tokens types t)
unfolding add_tokens
some_tokens-Filled [] types t h = absurd (h refl)
some_tokens-Filled (tok ∷ tokens) types t h =
    add_tokens-Filled (0 + 1) tokens types _
      (set_type-Filled tok (to_i32 0) (get_elem? types 0) _ (set_token-Filled tok (to_i32 0) t))

cleared-Agrees : (t : Tokenizer) → Agrees 0 (cleared t)
unfolding cleared find
cleared-Agrees t = record {
  numbered = λ s id h. absurd cc;
  texts = λ s id h. absurd cc;
  free = λ k h. refl;
  specials = no_entry;
  no_unk = refl;
}

-- From at least one and at most 2 ^ 31 tokens, none of them of the type for unknown symbols, where
-- every special token spells itself, the load succeeds and its dictionaries agree: tokens may
-- repeat.
pub load_from_vocab_and_merges-Consistent :
    (tokens merges : List Bytes) (types : List ℤ) (eos pad : ℤ) (t : Tokenizer)
    → tokens ≢ []
    → length tokens ≤ 2 ^ 31
    → AllowedTypes types 0 tokens
    → let loaded = load_from_vocab_and_merges tokens merges types eos pad t in
      (loaded.0 ≡ done tt) × Consistent loaded.1
unfolding load_from_vocab_and_merges Filled Known
load_from_vocab_and_merges-Consistent tokens merges types eos pad t some_token fits allowed =
    let (n, agrees) =
      add_tokens-Agrees types 0 (cleared t) allowed (omega (arith, fits)) (cleared-Agrees t) in
    let (vocab, ids) = some_tokens-Filled tokens types (cleared t) some_token in
    (
      rw vocab refl,
      record {
        out_map = refl;
        in_map = refl;
        texts = agrees.texts;
        specials = Entries-map (λ s id (below, text, spells). (text, spells)) agrees.specials;
        no_unk = agrees.no_unk;
        filled = ids;
      },
    )
