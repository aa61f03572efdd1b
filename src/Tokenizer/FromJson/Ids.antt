-- ===== src/Tokenizer/FromJson/Ids.antt =====
-- src/tokenizer/byte_level_bpe_tokenizer.cpp, `load`: the ids of the loaded tokenizer.
use cc_infer.Base.{
  ℕ, zero, suc, ◌+◌, ◌-◌, ◌^◌, ◌<◌, ◌≡◌, ◌⊎◌, refl, Bool, true, false, Option, some, inl, inr,
  Bool-cases, Option-cases, [], ◌∷◌, if◌then◌else◌, arith,
}
use cc_infer.Base.Int.{ℤ, pos, negsuc, ltz, lez}
use cc_infer.Base.Dict.{Entries, no_entry, Entries-put, Entries-map, list_key, pair_key, put}
use cc_infer.Errors.{done, fail}
use cc_infer.Tokenizer.{Tokenizer, Bytes, Pair}
use cc_infer.Tokenizer.FromTokens.{vocab_size, next_id, to_i32, cleared, set_token, set_special}
use cc_infer.Tokenizer.FromJson.Words.{
  word_model, word_type, word_vocab, word_merges, word_added_tokens, word_content, word_id,
}
use cc_infer.Tokenizer.FromJson.Values.{
  Json, integer, string, array, object, Items, no_item, item, Members, no_member, member, lookup,
}
use cc_infer.Tokenizer.FromJson.{
  Loading, get_i64, checked_id, add_vocab, vocab_from, parse_vocab, MergeItem, skipped, malformed,
  merged, merge_item, add_merge_items, merges_from, parse_merges, is_end_token, is_unk_token,
  note_content, add_added_token, added_with_id, added_with_content, add_added_item, add_added_items,
  added_from, parse_added_tokens, resolve_special_tokens, finish_load, load_model, other_type,
  load_from, load_parsed, load,
}

abbrev pub IsId : ℤ → ℤ → Type 0
IsId largest id = (lez (pos 0) id ≡ true) × (lez id largest ≡ true)

-- The ids are not negative and at most the largest, which a 32-bit number can count.
pub record InRange (t : Tokenizer) : Type 0 where
  pub bound : ltz t.max_token_id (pos (2 ^ 31 - 1)) ≡ true
  pub ids : Entries (λ (s : Bytes) id. IsId t.max_token_id id) t.vocab

lez_trans : (a b c : ℤ) → lez a b ≡ true → lez b c ≡ true → lez a c ≡ true
lez_trans (pos a) (pos b) (pos c) = ground arith
lez_trans (pos a) (pos b) (negsuc c) = ground arith
lez_trans (pos a) (negsuc b) (pos c) = ground arith
lez_trans (pos a) (negsuc b) (negsuc c) = ground arith
lez_trans (negsuc a) (pos b) (pos c) = ground arith
lez_trans (negsuc a) (pos b) (negsuc c) = ground arith
lez_trans (negsuc a) (negsuc b) (pos c) = ground arith
lez_trans (negsuc a) (negsuc b) (negsuc c) = ground arith

lez-ltz : (a b : ℤ) → ltz a b ≡ true → lez a b ≡ true
lez-ltz (pos a) (pos b) = ground arith
lez-ltz (pos a) (negsuc b) = ground arith
lez-ltz (negsuc a) (pos b) = ground arith
lez-ltz (negsuc a) (negsuc b) = ground arith

not_ltz : (a b : ℤ) → ltz a b ≡ false → lez b a ≡ true
not_ltz (pos a) (pos b) = ground arith
not_ltz (pos a) (negsuc b) = ground arith
not_ltz (negsuc a) (pos b) = ground arith
not_ltz (negsuc a) (negsuc b) = ground arith

not_lez : (a b : ℤ) → lez a b ≡ false → ltz b a ≡ true
not_lez (pos a) (pos b) = ground arith
not_lez (pos a) (negsuc b) = ground arith
not_lez (negsuc a) (pos b) = ground arith
not_lez (negsuc a) (negsuc b) = ground arith

lez_self : (a : ℤ) → lez a a ≡ true
lez_self (pos a) = ground arith
lez_self (negsuc a) = ground arith

checked_id-range :
    (z id : ℤ)
    → checked_id z ≡ some id
    → (lez (pos 0) id ≡ true) × (ltz id (pos (2 ^ 31 - 1)) ≡ true)
unfolding checked_id
checked_id-range z id h =
    ground (arith, h, not_ltz (get_i64 z) (pos 0), not_lez (pos (2 ^ 31 - 1)) (get_i64 z))

set_token-InRange :
    (tok : Bytes) (id : ℤ) (t : Tokenizer)
    → (lez (pos 0) id ≡ true) × (ltz id (pos (2 ^ 31 - 1)) ≡ true)
    → InRange t
    → InRange (set_token tok id t)
unfolding set_token
set_token-InRange tok id t (low, high) r = elim (Bool-cases (ltz t.max_token_id id)) [
  | inl grows ↦ rw grows (record {
    bound = high;
    ids =
        Entries-put tok id (low, lez_self id)
          (Entries-map
            (λ s j (l, h). (l, lez_trans j t.max_token_id id h (lez-ltz t.max_token_id id grows)))
            r.ids);
  })
  | inr stays ↦ rw stays (record {
    bound = r.bound;
    ids = Entries-put tok id (low, not_ltz t.max_token_id id stays) r.ids;
  })
]

add_vocab-InRange : (m : Members) (t : Tokenizer) → InRange t → InRange (add_vocab m t).1
unfolding add_vocab
add_vocab-InRange no_member t r = r
add_vocab-InRange (member token (integer z) rest) t r = elim (Option-cases (checked_id z)) [
  | inl bad ↦ rw (add_vocab, bad) r
  | inr (id, e) ↦
      rw (add_vocab, e)
        (add_vocab-InRange rest (set_token token id t)
          (set_token-InRange token id t (checked_id-range z id e) r))
]
add_vocab-InRange (member token _ rest) t r = r

vocab_from-InRange : (o : Option Json) (t : Tokenizer) → InRange t → InRange (vocab_from o t).1
unfolding vocab_from
vocab_from-InRange (some (object vocab)) t r = add_vocab-InRange vocab t r
vocab_from-InRange _ t r = r

MergeItem-cases :
    (m : MergeItem) → (m ≡ skipped) ⊎ ((m ≡ malformed) ⊎ ((pair : Pair) × (m ≡ merged pair)))
MergeItem-cases skipped = inl refl
MergeItem-cases malformed = inr (inl refl)
MergeItem-cases (merged pair) = inr (inr (pair, refl))

add_merge_items-InRange :
    (rank : ℕ) (xs : Items) (t : Tokenizer) → InRange t → InRange (add_merge_items rank xs t).1
unfolding add_merge_items
add_merge_items-InRange rank no_item t r = r
add_merge_items-InRange rank (item merge rest) t r = elim (MergeItem-cases (merge_item merge)) [
  | inl skip ↦ rw (add_merge_items, skip) (add_merge_items-InRange rank rest t r)
  | inr (inl bad) ↦ rw (add_merge_items, bad) r
  | inr (inr (pair, e)) ↦
      rw (add_merge_items, e)
        (add_merge_items-InRange (rank + 1) rest
          (record t { merge_rank = put pair rank t.merge_rank })
          (record { bound = r.bound; ids = r.ids }))
]

merges_from-InRange : (o : Option Json) (t : Tokenizer) → InRange t → InRange (merges_from o t).1
unfolding merges_from
merges_from-InRange (some (array merges)) t r = add_merge_items-InRange 0 merges t r
merges_from-InRange _ t r = r

note_content-InRange :
    (content : Bytes) (id : ℤ) (t : Tokenizer) → InRange t → InRange (note_content content id t)
unfolding note_content
note_content-InRange content id t r = elim (Bool-cases (is_end_token content)) [
  | inl end_token ↦ rw (note_content, end_token) (record { bound = r.bound; ids = r.ids })
  | inr other ↦ elim (Bool-cases (is_unk_token content)) [
    | inl unk_token ↦ rw (note_content, other, unk_token) (record { bound = r.bound; ids = r.ids })
    | inr plain ↦ rw (note_content, other, plain) r
  ]
]

set_special-InRange :
    (b : Bool) (tok : Bytes) (id : ℤ) (t : Tokenizer)
    → InRange t
    → InRange (if b then set_special tok id t else t)
unfolding set_special
set_special-InRange true tok id t r = record { bound = r.bound; ids = r.ids }
set_special-InRange false tok id t r = r

add_added_token-InRange :
    (content : Bytes) (z : ℤ) (b : Bool) (t : Tokenizer)
    → InRange t
    → InRange (add_added_token content z b t)
unfolding add_added_token
add_added_token-InRange content z b t r = elim (Option-cases (checked_id z)) [
  | inl bad ↦ rw (add_added_token, bad) r
  | inr (id, e) ↦
      rw (add_added_token, e)
        (note_content-InRange content id _ (
          set_special-InRange b content id (set_token content id t)
            (set_token-InRange content id t (checked_id-range z id e) r)))
]

added_with_id-InRange :
    (content : Bytes) (o : Option Json) (tok : Members) (t : Tokenizer)
    → InRange t
    → InRange (added_with_id content o tok t)
unfolding added_with_id
added_with_id-InRange content (some (integer z)) tok t r = add_added_token-InRange content z _ t r
added_with_id-InRange content _ tok t r = r

added_with_content-InRange :
    (o : Option Json) (tok : Members) (t : Tokenizer)
    → InRange t
    → InRange (added_with_content o tok t)
unfolding added_with_content
added_with_content-InRange (some (string content)) tok t r =
    added_with_id-InRange content (lookup word_id tok) tok t r
added_with_content-InRange _ tok t r = r

add_added_items-InRange : (xs : Items) (t : Tokenizer) → InRange t → InRange (add_added_items xs t)
unfolding add_added_items add_added_item
add_added_items-InRange no_item t r = r
add_added_items-InRange (item (object tok) rest) t r =
    add_added_items-InRange rest _ (added_with_content-InRange (lookup word_content tok) tok t r)
add_added_items-InRange (item _ rest) t r = add_added_items-InRange rest t r

added_from-InRange : (o : Option Json) (t : Tokenizer) → InRange t → InRange (added_from o t)
unfolding added_from
added_from-InRange (some (array added)) t r = add_added_items-InRange added t r
added_from-InRange _ t r = r

finish_load-InRange : (j : Members) (l : Loading) → InRange l.1 → InRange (finish_load j l).1
unfolding finish_load parse_added_tokens resolve_special_tokens
finish_load-InRange j (fail e, t) r = r
finish_load-InRange j (done u, t) r =
    let added = added_from-InRange (lookup word_added_tokens j) t r in
    record { bound = added.bound; ids = added.ids }

load_model-InRange : (model : Members) (l : Loading) → InRange l.1 → InRange (load_model model l).1
unfolding load_model parse_merges
load_model-InRange model (fail e, t) r = r
load_model-InRange model (done u, t) r = merges_from-InRange (lookup word_merges model) t r

cleared-InRange : (t : Tokenizer) → InRange (cleared t)
unfolding cleared
cleared-InRange t = record { bound = refl; ids = no_entry }

load_from-InRange :
    (o : Option Json) (j : Members) (t : Tokenizer)
    → (load_from o j t).0 ≡ done tt
    → InRange (load_from o j t).1
unfolding load_from parse_vocab
load_from-InRange (some (object model)) j t h =
    elim (Bool-cases (other_type (lookup word_type model))) [
      | inl other ↦ absurd (ground (arith, h, other))
      | inr bpe ↦
          rw (load_from, bpe)
            (finish_load-InRange j _ (
              load_model-InRange model _
                (vocab_from-InRange (lookup word_vocab model) (cleared t) (cleared-InRange t))))
    ]
load_from-InRange _ j t h = absurd cc

load_parsed-InRange :
    (o : Option Json) (t : Tokenizer) → (load_parsed o t).0 ≡ done tt → InRange (load_parsed o t).1
unfolding load_parsed
load_parsed-InRange (some (object j)) t h = load_from-InRange (lookup word_model j) j t h
load_parsed-InRange _ t h = absurd cc

load-InRange :
    (parse : Bytes → Option Json) (content : Bytes) (t : Tokenizer)
    → (load parse content t).0 ≡ done tt
    → InRange (load parse content t).1
unfolding load
load-InRange parse [] t h = absurd cc
load-InRange parse (c ∷ content) t h = load_parsed-InRange (parse (c ∷ content)) t h

to_i32_next : (n : ℕ) → n < 2 ^ 31 - 1 → to_i32 (n + 1) ≡ pos (n + 1)
unfolding to_i32
to_i32_next n h = ground arith

next_id-bounds :
    (m id : ℤ)
    → ltz m (pos (2 ^ 31 - 1)) ≡ true
    → (lez (next_id m) (pos (2 ^ 31 - 1)) ≡ true)
      × (IsId m id → (lez (pos 0) id ≡ true) × (ltz id (next_id m) ≡ true))
unfolding next_id
next_id-bounds (pos n) (pos k) h = ground (arith, to_i32_next n)
next_id-bounds (pos n) (negsuc k) h = ground (arith, to_i32_next n)
next_id-bounds (negsuc zero) (pos k) h = ground arith
next_id-bounds (negsuc zero) (negsuc k) h = ground arith
next_id-bounds (negsuc (suc n)) (pos k) h = ground arith
next_id-bounds (negsuc (suc n)) (negsuc k) h = ground arith

-- After a load that succeeds, `vocab_size` is at most the largest 32-bit number, and every id of the
-- vocabulary is at least 0 and below it.
pub load-vocab_size :
    (parse : Bytes → Option Json) (content : Bytes) (t : Tokenizer)
    → (load parse content t).0 ≡ done tt
    → let loaded = (load parse content t).1 in
      (lez (vocab_size loaded) (pos (2 ^ 31 - 1)) ≡ true)
      × Entries
          (λ (s : Bytes) id. (lez (pos 0) id ≡ true) × (ltz id (vocab_size loaded) ≡ true))
          loaded.vocab
unfolding vocab_size
load-vocab_size parse content t h =
    let loaded : Tokenizer = (load parse content t).1 in
    let r : InRange loaded = load-InRange parse content t h in
    (
      (next_id-bounds loaded.max_token_id (pos 0) r.bound).0,
      Entries-map (λ s id. (next_id-bounds loaded.max_token_id id r.bound).1) r.ids,
    )
