-- ===== src/Tokenizer/FromTokens/Agreement.antt =====
-- src/tokenizer/byte_level_bpe_tokenizer.cpp, `load_from_vocab_and_merges`: the dictionaries of the
-- loaded tokenizer agree.
use cc_infer.Base.{
  ℕ, suc, ◌^◌, ◌≤◌, ◌<◌, ◌≡◌, ◌≢◌, refl, sym, ap, ◌∙◌, true, Option, none, some, ◌⊎◌, inl, inr,
  Bool-cases, if◌then◌else◌, arith,
}
use cc_infer.Base.Int.{ℤ, pos, ltz, lez}
use cc_infer.Base.Dict.{
  Entries, Entries-put, Entries-map, find, find-put, find-put_self, int_key, list_key, same_int,
  same_int_iff, same_list, same_list_iff,
}
use cc_infer.Tokenizer.{Tokenizer, Bytes}
use cc_infer.Tokenizer.ByteMap.{build_byte_maps}
use cc_infer.Tokenizer.FromTokens.{to_i32, set_token, set_special, set_type}
use cc_infer.Tokenizer.RoundTrip.Spelling.{Spells}
use cc_infer.Tokenizer.RoundTrip.Segment.{token_text}

unfoldable pub Below : ℕ → ℤ → Type 0
Below i id = (k : ℕ) × (id ≡ pos k) × (k < i)

-- A special token whose id is below `i`.
unfoldable pub Known : ℕ → Tokenizer → Bytes → ℤ → Type 0
Known i t tok id =
    Below i id × (token_text t id ≡ some tok) × Spells build_byte_maps.str_to_byte tok tok

-- The dictionaries agree on the tokens before index `i`.
pub record Agrees (i : ℕ) (t : Tokenizer) : Type 0 where
  pub numbered : (s : Bytes) (id : ℤ) → find s t.vocab ≡ some id → Below i id
  pub texts : (s : Bytes) (id : ℤ) → find s t.vocab ≡ some id → token_text t id ≡ some s
  pub free : (k : ℕ) → i ≤ k → find (pos k) t.id_to_special_token ≡ none
  pub specials : Entries (Known i t) t.special_token_to_id
  pub no_unk : ltz t.unk_token_id (pos 0) ≡ true

-- The type is not that of the token for unknown symbols, and a special token spells itself.
unfoldable pub AllowedType : Bytes → Option ℤ → Type 0
AllowedType tok type =
    (type ≢ some (pos 2))
    × ((ty : ℤ)
        → type ≡ some ty
        → lez (pos 3) ty ≡ true
        → Spells build_byte_maps.str_to_byte tok tok)

pub to_i32_small : (i : ℕ) → i < 2 ^ 31 → to_i32 i ≡ pos i
unfolding to_i32
to_i32_small i h = ground arith

module _ (i : ℕ) (tok : Bytes) (t : Tokenizer) (agrees : Agrees i t) where
  abbrev plain : Tokenizer
  plain = set_token tok (pos i) t

  abbrev special : Tokenizer
  special = set_special tok (pos i) plain

  find-vocab :
      (s : Bytes) → find s plain.vocab ≡ (if same_list tok s then some (pos i) else find s t.vocab)
  unfolding set_token
  find-vocab s = find-put tok s (pos i) t.vocab

  plain_self : token_text plain (pos i) ≡ some tok
  unfolding set_token
  plain_self = ground (arith, agrees.free i, find-put_self (pos i) tok t.id_to_token)

  plain_other : (k : ℕ) → k < i → token_text plain (pos k) ≡ token_text t (pos k)
  unfolding set_token
  plain_other k h = ground (arith, find-put (pos i) (pos k) tok t.id_to_token)

  special_self : token_text special (pos i) ≡ some tok
  unfolding set_token set_special
  special_self = ground (arith, find-put_self (pos i) tok plain.id_to_special_token)

  special_other : (k : ℕ) → k < i → token_text special (pos k) ≡ token_text t (pos k)
  unfolding set_token set_special
  special_other k h =
      ground (arith, find-put (pos i) (pos k) tok plain.id_to_special_token, plain_other k h)

  vocab_cases :
      (s : Bytes) (id : ℤ)
      → (if same_list tok s then some (pos i) else find s t.vocab) ≡ some id
      → ((tok ≡ s) × (id ≡ pos i)) ⊎ (find s t.vocab ≡ some id)
  vocab_cases s id h = elim (Bool-cases (same_list tok s)) [
    | inl same ↦ inl ((same_list_iff tok s).0 same, ground (arith, h, same))
    | inr differ ↦ inr (ground (arith, h, differ))
  ]

  module _ (next : Tokenizer) (same_vocab : next.vocab ≡ plain.vocab)
      (self : token_text next (pos i) ≡ some tok)
      (other : (k : ℕ) → k < i → token_text next (pos k) ≡ token_text t (pos k)) where
    Known-next : (s : Bytes) (id : ℤ) → Known i t s id → Known (suc i) next s id
    unfolding Known Below
    Known-next s id ((k, e, lt), text, spells) =
        ((k, e, omega (arith, lt)), ground (arith, e, text, other k lt), spells)

    vocab_next :
        (s : Bytes) (id : ℤ)
        → find s next.vocab ≡ some id
        → ((tok ≡ s) × (id ≡ pos i)) ⊎ (find s t.vocab ≡ some id)
    vocab_next s id h = vocab_cases s id (sym (find-vocab s) ∙ ap (find s) (sym same_vocab) ∙ h)

    numbered_next : (s : Bytes) (id : ℤ) → find s next.vocab ≡ some id → Below (suc i) id
    unfolding Below
    numbered_next s id h = elim (vocab_next s id h) [
      | inl (same, e) ↦ (i, e, omega arith)
      | inr old ↦ let (k, e, lt) = agrees.numbered s id old in (k, e, omega (arith, lt))
    ]

    texts_next : (s : Bytes) (id : ℤ) → find s next.vocab ≡ some id → token_text next id ≡ some s
    unfolding Below
    texts_next s id h = elim (vocab_next s id h) [
      | inl (same, e) ↦ ap (token_text next) e ∙ self ∙ ap some same
      | inr old ↦
          let (k, e, lt) = agrees.numbered s id old in
          ap (token_text next) e ∙ other k lt ∙ ap (token_text t) (sym e) ∙ agrees.texts s id old
    ]

    Agrees-next :
        Entries (Known (suc i) next) next.special_token_to_id
        → ((k : ℕ) → suc i ≤ k → find (pos k) next.id_to_special_token ≡ none)
        → ltz next.unk_token_id (pos 0) ≡ true
        → Agrees (suc i) next
    Agrees-next specials free no_unk = record {
      numbered = numbered_next;
      texts = texts_next;
      free = free;
      specials = specials;
      no_unk = no_unk;
    }

  free_plain : (k : ℕ) → suc i ≤ k → find (pos k) plain.id_to_special_token ≡ none
  unfolding set_token
  free_plain k h = agrees.free k (omega (arith, h))

  Agrees-plain : Agrees (suc i) plain
  unfolding set_token
  Agrees-plain =
      Agrees-next plain refl plain_self plain_other
        (Entries-map (Known-next plain refl plain_self plain_other) agrees.specials) free_plain
        agrees.no_unk

  free_special : (k : ℕ) → suc i ≤ k → find (pos k) special.id_to_special_token ≡ none
  unfolding set_token set_special
  free_special k h =
      ground (arith, find-put (pos i) (pos k) tok plain.id_to_special_token, free_plain k h)

  Agrees-special : Spells build_byte_maps.str_to_byte tok tok → Agrees (suc i) special
  unfolding set_token set_special Known Below
  Agrees-special spells =
      Agrees-next special refl special_self special_other
        (Entries-put tok (pos i) ((i, refl, omega arith), special_self, spells)
          (Entries-map (Known-next special refl special_self special_other) agrees.specials))
        free_special agrees.no_unk

  pub Agrees-set_type :
      (type : Option ℤ) → AllowedType tok type → Agrees (suc i) (set_type tok (pos i) type plain)
  unfolding set_type AllowedType
  Agrees-set_type none allowed = Agrees-plain
  Agrees-set_type (some type) (not_unknown, spells) = elim (Bool-cases (lez (pos 3) type)) [
    | inl large ↦ rw large (Agrees-special (spells type refl large))
    | inr small ↦ elim (Bool-cases (same_int type (pos 2))) [
      | inl unknown ↦ absurd (not_unknown (ap some ((same_int_iff type (pos 2)).0 unknown)))
      | inr normal ↦ rw (small, normal) Agrees-plain
    ]
  ]
