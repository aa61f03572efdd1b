-- ===== src/Tokenizer/RoundTrip/Rounds.antt =====
-- src/tokenizer/byte_level_bpe_tokenizer.cpp, `encode`: each round of the loop moves on, and the ids
-- so far spell the text up to the segment.
use cc_infer.Base.{
  ℕ, zero, suc, ◌+◌, ◌-◌, ◌≤◌, ◌<◌, ◌≡◌, refl, sym, ap, ◌∙◌, List, [], ◌∷◌, ◌++◌, append-nil, Bool,
  true, some, length, length-drop, take, drop, leb, ◌==◌, inl, inr, Bool-cases, Option-cases, subst,
  get_elem?, arith,
}
use cc_infer.Base.Int.{ℤ}
use cc_infer.Errors.{done, and_then}
use cc_infer.Tokenizer.{Tokenizer, Bytes}
use cc_infer.Tokenizer.Encode.{
  Match, Cursor, substr, run_of, has_next, is_space, is_newline, flush_if_any, take_special,
  take_newlines, take_spaces, encode_byte, try_match_special,
}
use cc_infer.Tokenizer.RoundTrip.Spelling.{Spells}
use cc_infer.Tokenizer.RoundTrip.Special.{Matched, try_match_special-Matched}
use cc_infer.Tokenizer.RoundTrip.Segment.{
  token_text, Octets, Octets-take, Octets-drop, Consistent, read, end_of, Spelled, Spelled-append,
  Sound, good, Sound-map, NoId, and_then-Sound, encode_normal_segment-Spelled,
}

take_nil : (n : ℕ) → take {A = ℕ} n [] ≡ []
take_nil zero = refl
take_nil (suc n) = refl

take-substr : (n k : ℕ) (text : Bytes) → take n text ++ substr text n k ≡ take (n + k) text
take-substr zero k text = ap (λ j. take j text) (omega arith)
take-substr (suc n) k [] = take_nil k ∙ sym (take_nil (suc n + k))
take-substr (suc n) k (c ∷ text) =
    ap (◌∷◌ c) (take-substr n k text)
    ∙ ap (λ j. take j (c ∷ text)) {x = suc (n + k)} {y = suc n + k} (omega arith)

take_until : (n m : ℕ) (text : Bytes) → n ≤ m → take n text ++ substr text n (m - n) ≡ take m text
take_until n m text h = take-substr n (m - n) text ∙ ap (λ k. take k text) (omega arith)

length-run_of : (p : ℕ → Bool) (text : Bytes) → run_of p text ≤ length text
unfolding run_of
length-run_of p [] = omega arith
length-run_of p (c ∷ text) = ground (arith, length-run_of p text)

run_of-starts :
    (p : ℕ → Bool) (text : Bytes) (at b : ℕ)
    → get_elem? text at ≡ some b
    → p b ≡ true
    → 0 < run_of p (drop at text)
unfolding run_of
run_of-starts p [] at b e h = absurd cc
run_of-starts p (c ∷ text) zero b e h = ground (arith, e, h)
run_of-starts p (c ∷ text) (suc at) b e h = run_of-starts p text at b e h

pub get_elem?-lt : (text : Bytes) (at b : ℕ) → get_elem? text at ≡ some b → at < length text
get_elem?-lt [] at b e = absurd cc
get_elem?-lt (c ∷ text) zero b e = omega arith
get_elem?-lt (c ∷ text) (suc at) b e = omega (arith, get_elem?-lt text at b e)

Spelled-token :
    {t : Tokenizer} {id : ℤ} {tok : Bytes}
    → token_text t id ≡ some tok
    → Spells t.str_to_byte tok tok
    → Spelled t (id ∷ []) tok
Spelled-token {id} {tok} e s = record {
  stream = tok ++ [];
  reads = read id tok e end_of;
  spells = rw append-nil s;
}

-- A segment of the text has a symbol without an id.
abbrev pub Fails : Tokenizer → Bytes → Type 0
Fails t text = (begin : ℕ) × (n : ℕ) × NoId t (substr text begin n)

module _ (t : Tokenizer) (consistent : Consistent t) (text : Bytes) (octets : Octets text) where
  -- The ids spell the text up to the position.
  abbrev pub Upto : ℕ → List ℤ → Type 0
  Upto n ids = Spelled t ids (take n text)

  pub record Fine (c : Cursor) : Type 0 where
    pub inside : c.at ≤ length text
    pub ordered : c.segment_start ≤ c.at
    pub spelled : Spelled t c.ids (take c.segment_start text)

  pub flush_if_any-Sound :
      (begin end_at : ℕ) (ids : List ℤ)
      → begin ≤ end_at
      → Upto begin ids
      → Sound (Fails t text) (Upto end_at) (flush_if_any t text begin end_at ids)
  unfolding flush_if_any
  flush_if_any-Sound begin end_at ids h before = elim (Bool-cases (leb end_at begin)) [
    | inl empty_segment ↦
        rw (flush_if_any, empty_segment)
          (good ids
            (subst (λ n. Spelled t ids (take n text)) (ground (arith, h, empty_segment)) before))
    | inr full ↦
        rw (flush_if_any, full)
          (and_then-Sound {Q = Upto end_at}
            (Sound-map (λ h. (begin, end_at - begin, h)) (λ ids r. r)
              (encode_normal_segment-Spelled consistent
                (Octets-take (end_at - begin) (Octets-drop begin octets))))
            λ seg_ids segment. good (ids ++ seg_ids) (
              subst (Spelled t (ids ++ seg_ids)) (take_until begin end_at text h)
                (Spelled-append before segment)))
  ]

  -- A round leaves a fine cursor, further on.
  abbrev pub Advanced : Cursor → Cursor → Type 0
  Advanced c next = Fine next × (c.at < next.at)

  run_inside :
      (p : ℕ → Bool) (at : ℕ) → at ≤ length text → at + run_of p (drop at text) ≤ length text
  run_inside p at h = omega (arith, h, length-run_of p (drop at text), length-drop at text)

  take_special-Sound :
      (c : Cursor) (m : Match)
      → Fine c
      → Matched t text c.at m
      → Sound (Fails t text) (Advanced c) (take_special t text c m)
  unfolding take_special
  take_special-Sound c m fine found =
      and_then-Sound (flush_if_any-Sound c.segment_start c.at c.ids fine.ordered fine.spelled)
        λ ids before.
          good
            (record {
              at = c.at + length m.token;
              segment_start = c.at + length m.token;
              ids = ids ++ m.id ∷ [];
            })
            (
              record {
                inside = found.fits;
                ordered = omega arith;
                spelled =
                    subst (Spelled t (ids ++ m.id ∷ []))
                      (ap (λ token. take c.at text ++ token) (sym found.stands)
                        ∙ take-substr c.at (length m.token) text)
                      (Spelled-append before (Spelled-token found.reads found.spells));
              },
              omega (arith, found.positive, found.size),
            )

  -- The segment up to `split` is flushed and the cursor moves to `next`.
  segment_to :
      (c : Cursor) (split next : ℕ) (before : List ℤ)
      → c.at ≤ split
      → split ≤ next
      → next ≤ length text
      → c.at < next
      → Upto c.at before
      → Sound (Fails t text) (Advanced c) (
          and_then
            (flush_if_any t text c.at split before)
            λ ids. some (done (record { at = next; segment_start = split; ids = ids })))
  segment_to c split next before h ordered inside further spelled =
      and_then-Sound (flush_if_any-Sound c.at split before h spelled) λ ids spelled'.
        good (record { at = next; segment_start = split; ids = ids })
          (record { inside = inside; ordered = ordered; spelled = spelled' }, further)

  -- One space stays in front of the next word.
  attached :
      (c : Cursor) (next : ℕ) (before : List ℤ)
      → Fine c
      → next ≤ length text
      → c.at < next
      → Upto c.at before
      → Sound
          (Fails t text)
          (Advanced c)
          (some (done (record { at = next; segment_start = c.at; ids = before })))
  attached c next before fine inside further spelled =
      good (record { at = next; segment_start = c.at; ids = before })
        (record { inside = inside; ordered = omega (arith, further); spelled = spelled }, further)

  take_newlines-Sound :
      (c : Cursor) (b : ℕ)
      → Fine c
      → get_elem? text c.at ≡ some b
      → is_newline b ≡ true
      → Sound (Fails t text) (Advanced c) (take_newlines t text c)
  unfolding take_newlines
  take_newlines-Sound c b fine here line_end =
      let next : ℕ = c.at + run_of is_newline (drop c.at text) in
      and_then-Sound (flush_if_any-Sound c.segment_start c.at c.ids fine.ordered fine.spelled)
        λ before spelled.
          segment_to c next next before (omega arith) (omega arith)
            (run_inside is_newline c.at fine.inside)
            (omega (arith, run_of-starts is_newline text c.at b here line_end)) spelled

  take_spaces-Sound :
      (c : Cursor) (b : ℕ)
      → Fine c
      → get_elem? text c.at ≡ some b
      → is_space b ≡ true
      → Sound (Fails t text) (Advanced c) (take_spaces t text c)
  unfolding take_spaces
  take_spaces-Sound c b fine here space =
      let space_len : ℕ = run_of is_space (drop c.at text) in
      let space_end : ℕ = c.at + space_len in
      let further : c.at < space_end =
        omega (arith, run_of-starts is_space text c.at b here space) in
      let inside : space_end ≤ length text = run_inside is_space c.at fine.inside in
      and_then-Sound (flush_if_any-Sound c.segment_start c.at c.ids fine.ordered fine.spelled)
        λ before spelled.
          elim (Bool-cases (has_next t.special_token_to_id text space_end (drop space_end text))) [
            | inr trailing ↦ rw trailing (
                segment_to c space_end space_end before (omega arith) (omega arith) inside further
                  spelled)
            | inl next ↦ elim (Bool-cases (space_len == 1)) [
              | inl one ↦ rw (next, one) (attached c space_end before fine inside further spelled)
              | inr more ↦
                  rw (next, more)
                    (segment_to c (space_end - 1) space_end before (omega (arith, further))
                      (omega arith) inside further spelled)
            ]
          ]

  pub encode_byte-Sound :
      (c : Cursor) (b : ℕ)
      → Fine c
      → get_elem? text c.at ≡ some b
      → Sound (Fails t text) (Advanced c) (encode_byte t text b c)
  unfolding encode_byte
  encode_byte-Sound c b fine here =
      elim (Option-cases (try_match_special t.special_token_to_id text c.at)) [
        | inr (m, found) ↦
            rw (encode_byte, found)
              (take_special-Sound c m fine
                (try_match_special-Matched t text c.at m consistent.specials found))
        | inl no_match ↦ elim (Bool-cases (is_newline b)) [
          | inl line_end ↦
              rw (encode_byte, no_match, line_end) (take_newlines-Sound c b fine here line_end)
          | inr other ↦ elim (Bool-cases (is_space b)) [
            | inl space ↦
                rw (encode_byte, no_match, other, space) (take_spaces-Sound c b fine here space)
            | inr letter ↦
                rw (encode_byte, no_match, other, letter)
                  (good (record c { at = c.at + 1 })
                    (
                      record {
                        inside = omega (arith, get_elem?-lt text c.at b here);
                        ordered = omega (arith, fine.ordered);
                        spelled = fine.spelled;
                      },
                      omega arith,
                    ))
          ]
        ]
      ]
