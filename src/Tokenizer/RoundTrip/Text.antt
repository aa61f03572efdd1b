-- ===== src/Tokenizer/RoundTrip/Text.antt =====
-- src/tokenizer/byte_level_bpe_tokenizer.cpp: `encode` of a whole text, then `decode`.
use cc_infer.Base.{
  ℕ, zero, suc, ◌+◌, ◌≤◌, ◌≡◌, List, [], ◌∷◌, true, false, ◌⊎◌, none, some, length, take_all,
  is_empty, inl, inr, Bool-cases, Option-cases, subst, get_elem?, arith,
}
use cc_infer.Base.Int.{ℤ}
use cc_infer.Errors.{done}
use cc_infer.Tokenizer.{Tokenizer, Bytes}
use cc_infer.Tokenizer.Encode.{Cursor, flush_if_any, encode_loop, encode}
use cc_infer.Tokenizer.Decode.{decode}
use cc_infer.Tokenizer.RoundTrip.Spelling.{nothing, decode_symbols-Spells}
use cc_infer.Tokenizer.RoundTrip.Segment.{
  Octets, Consistent, Spelled, end_of, Sound, failed, Sound-map, and_then-Sound,
  symbol_stream-Reads,
}
use cc_infer.Tokenizer.RoundTrip.Rounds.{
  Fails, Fine, get_elem?-lt, flush_if_any-Sound, encode_byte-Sound,
}

get_elem?-none : (text : Bytes) (at : ℕ) → get_elem? text at ≡ none → length text ≤ at
get_elem?-none [] at e = omega arith
get_elem?-none (c ∷ text) zero e = absurd cc
get_elem?-none (c ∷ text) (suc at) e = omega (arith, get_elem?-none text at e)

decode-Spelled :
    {t : Tokenizer} {ids : List ℤ} {text : Bytes}
    → Consistent t
    → Spelled t ids text
    → decode t ids false ≡ some (done text)
unfolding decode
decode-Spelled c s =
    rw (decode, c.filled, symbol_stream-Reads s.reads)
      (decode_symbols-Spells (length s.stream) s.spells (omega arith))

module _ (t : Tokenizer) (consistent : Consistent t) (text : Bytes) (octets : Octets text) where
  last_segment :
      (c : Cursor)
      → Fine t consistent text octets c
      → Sound
          (Fails t text)
          (λ ids. Spelled t ids text)
          (flush_if_any t text c.segment_start (length text) c.ids)
  last_segment c fine =
      Sound-map (λ h. h) (λ ids. subst (Spelled t ids) (take_all (length text) text (omega arith)))
        (flush_if_any-Sound t consistent text octets c.segment_start (length text) c.ids
          (omega (arith, fine.ordered, fine.inside)) fine.spelled)

  encode_loop-Sound :
      (fuel : ℕ) (c : Cursor)
      → Fine t consistent text octets c
      → length text ≤ c.at + fuel
      → Sound (Fails t text) (λ ids. Spelled t ids text) (encode_loop t text fuel c)
  unfolding encode_loop
  encode_loop-Sound zero c fine h = elim (Option-cases (get_elem? text c.at)) [
    | inl over ↦ rw (encode_loop, over) (last_segment c fine)
    | inr (b, here) ↦ absurd (omega (arith, h, get_elem?-lt text c.at b here))
  ]
  encode_loop-Sound (suc fuel) c fine h = elim (Option-cases (get_elem? text c.at)) [
    | inl over ↦ rw (encode_loop, over) (last_segment c fine)
    | inr (b, here) ↦
        rw (encode_loop, here)
          (and_then-Sound (encode_byte-Sound t consistent text octets c b fine here)
            λ next moved. encode_loop-Sound fuel next moved.0 (omega (arith, h, moved.1)))
  ]

-- For a consistent tokenizer and a text of bytes, `encode` neither fails an assertion nor runs out
-- of fuel: it gives ids that `decode`, keeping special tokens, turns back into the text. It fails
-- only if the vocabulary is empty, or if some segment of the text has a symbol without an id among
-- those that the merges leave of it.
pub decode-encode :
    (t : Tokenizer) (text : Bytes)
    → Consistent t
    → Octets text
    → Sound
        ((is_empty t.vocab ≡ true) ⊎ Fails t text)
        (λ ids. decode t ids false ≡ some (done text))
        (encode t text)
unfolding encode
decode-encode t text consistent octets = elim (Bool-cases (is_empty t.vocab)) [
  | inl no_vocab ↦ rw (encode, no_vocab) (failed (inl λ i. true))
  | inr vocab ↦
      rw (encode, vocab)
        (Sound-map inr (λ ids. decode-Spelled consistent)
          (encode_loop-Sound t consistent text octets (length text)
            (record { at = 0; segment_start = 0; ids = [] })
            (record {
              inside = omega arith;
              ordered = omega arith;
              spelled = record { stream = []; reads = end_of; spells = nothing };
            })
            (omega arith)))
]
