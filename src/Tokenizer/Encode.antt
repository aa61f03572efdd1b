-- ===== src/Tokenizer/Encode.antt =====
-- src/tokenizer/byte_level_bpe_tokenizer.cpp, `encode` and what it calls. A result is `none` when
-- an assertion fails or the fuel runs out; each round of the loop moves the position, so the
-- length of the text is enough fuel.
use cc_infer.Base.{
  ℕ, zero, suc, ◌+◌, ◌-◌, List, [], ◌∷◌, ◌++◌, Bool, true, false, ◌&&◌, ◌||◌, not, Option, none,
  some, ltb, leb, ◌==◌, length, take, drop, get_elem?, is_empty, if◌then◌else◌, ◌>>=◌,
}
use cc_infer.Base.Int.{ℤ, pos, negsuc, ltz}
use cc_infer.Base.Dict.{Dict, find, nat_key, list_key, pair_key, same_list}
use cc_infer.Errors.{Result, done, fail, ErrorCode, Outcome, and_then}
use cc_infer.Tokenizer.{Tokenizer, Bytes}
use cc_infer.Tokenizer.Bpe.{Symbols, apply_bpe}

abbrev pub substr : Bytes → ℕ → ℕ → Bytes
substr text begin n = take n (drop begin text)

unfoldable pub starts_with_at : Bytes → ℕ → Bytes → Bool
starts_with_at text at pattern =
    if ltb (length text) (length pattern) || ltb (length text - length pattern) at
    then false
    else same_list (substr text at (length pattern)) pattern

unfoldable pub byte_encode_segment : Dict ℕ Bytes → Bytes → Option Symbols
byte_encode_segment byte_to_str [] = some []
byte_encode_segment byte_to_str (b ∷ text) =
    find b byte_to_str >>= λ s. byte_encode_segment byte_to_str text >>= λ rest. some (s ∷ rest)

abbrev pub push_id : ℤ → Result (List ℤ) → Result (List ℤ)
push_id id (done ids) = done (id ∷ ids)
push_id id (fail e) = fail e

-- The ids of the symbols: an unknown one is `unk`, if there is one, or else an error.
unfoldable pub lookup_ids : Tokenizer → Symbols → Result (List ℤ)
lookup_ids t [] = done []
lookup_ids t (s ∷ rest) = elim (find s t.vocab) [
  | some id ↦ push_id id (lookup_ids t rest)
  | none ↦ elim (ltz t.unk_token_id (pos 0)) [
    | true ↦ fail ErrorCode.model_load_failed
    | false ↦ push_id t.unk_token_id (lookup_ids t rest)
  ]
]

unfoldable pub encode_normal_segment : Tokenizer → Bytes → Outcome (List ℤ)
unfolding byte_encode_segment lookup_ids
encode_normal_segment t text = byte_encode_segment t.byte_to_str text >>= λ symbols.
    some (lookup_ids t (apply_bpe t.merge_rank symbols))

pub record Match : Type 0 where
  pub size : ℕ
  pub id : ℤ
  pub token : Bytes

-- The loop of `try_match_special` over the special tokens: the longest match wins.
unfoldable pub longest : Bytes → ℕ → Dict Bytes ℤ → Match → Match
unfolding starts_with_at
longest text at [] best = best
longest text at ((tok, id) ∷ rest) best = longest text at rest (
    if is_empty tok || leb (length tok) best.size
    then best
    else if starts_with_at text at tok
    then record { size = length tok; id = id; token = tok }
    else best)

unfoldable pub try_match_special : Dict Bytes ℤ → Bytes → ℕ → Option Match
unfolding longest
try_match_special specials text at =
    let best = longest text at specials (record { size = 0; id = negsuc 0; token = [] }) in
    if best.size == 0 then none else some best

-- `flush_if_any` and `flush_bpe`: the ids of the segment come after the others.
unfoldable pub flush_if_any : Tokenizer → Bytes → ℕ → ℕ → List ℤ → Outcome (List ℤ)
unfolding encode_normal_segment
flush_if_any t text begin end_of ids = elim (leb end_of begin) [
  | true ↦ some (done ids)
  | false ↦
      and_then (encode_normal_segment t (substr text begin (end_of - begin)))
        (λ seg_ids. some (done (ids ++ seg_ids)))
]

abbrev pub is_space : ℕ → Bool
is_space c = (c == b' ') || (c == b'\t')

abbrev pub is_newline : ℕ → Bool
is_newline c = (c == b'\n') || (c == b'\r')

-- How many bytes the text starts with that pass the test.
unfoldable pub run_of : (ℕ → Bool) → Bytes → ℕ
run_of p [] = 0
run_of p (c ∷ rest) = if p c then suc (run_of p rest) else 0

-- The loop for `has_next` from position `k` on, where `rest` is the text from there.
unfoldable pub has_next : Dict Bytes ℤ → Bytes → ℕ → Bytes → Bool
unfolding try_match_special
has_next specials text k [] = false
has_next specials text k (c ∷ rest) = elim (try_match_special specials text k) [
  | some m ↦ false
  | none ↦
      if not (is_space c) && not (is_newline c) then true else has_next specials text (k + 1) rest
]

-- The local variables of the loop.
pub record Cursor : Type 0 where
  pub at : ℕ
  pub segment_start : ℕ
  pub ids : List ℤ

-- A special token at the position: the segment before it, then its id.
unfoldable pub take_special : Tokenizer → Bytes → Cursor → Match → Outcome Cursor
unfolding flush_if_any
take_special t text c m = and_then (flush_if_any t text c.segment_start c.at c.ids) λ ids. some (
    done (record {
      at = c.at + length m.token;
      segment_start = c.at + length m.token;
      ids = ids ++ m.id ∷ [];
    }))

-- A run of line ends is a segment of its own.
unfoldable pub take_newlines : Tokenizer → Bytes → Cursor → Outcome Cursor
unfolding flush_if_any run_of
take_newlines t text c =
    let next = c.at + run_of is_newline (drop c.at text) in
    and_then (flush_if_any t text c.segment_start c.at c.ids) λ before.
      and_then (flush_if_any t text c.at next before)
        λ ids. some (done (record { at = next; segment_start = next; ids = ids }))

-- A run of spaces: all of it is a segment where no word follows, else all but the last.
unfoldable pub take_spaces : Tokenizer → Bytes → Cursor → Outcome Cursor
unfolding flush_if_any run_of has_next
take_spaces t text c =
    let space_len = run_of is_space (drop c.at text) in
    let space_end = c.at + space_len in
    and_then (flush_if_any t text c.segment_start c.at c.ids) λ before.
      elim (has_next t.special_token_to_id text space_end (drop space_end text)) [
        | false ↦
            and_then (flush_if_any t text c.at space_end before)
              λ ids. some (done (record { at = space_end; segment_start = space_end; ids = ids }))
        | true ↦ elim (space_len == 1) [
          | true ↦ some (done (record { at = space_end; segment_start = c.at; ids = before }))
          | false ↦
              let split_at = c.at + space_len - 1 in
              and_then (flush_if_any t text c.at split_at before)
                λ ids. some (done (record { at = space_end; segment_start = split_at; ids = ids }))
        ]
      ]

-- One round of the loop at the byte `b`.
unfoldable pub encode_byte : Tokenizer → Bytes → ℕ → Cursor → Outcome Cursor
unfolding try_match_special take_special take_newlines take_spaces
encode_byte t text b c = elim (try_match_special t.special_token_to_id text c.at) [
  | some m ↦ take_special t text c m
  | none ↦ elim (is_newline b) [
    | true ↦ take_newlines t text c
    | false ↦ elim (is_space b) [
      | true ↦ take_spaces t text c
      | false ↦ some (done (record c { at = c.at + 1 }))
    ]
  ]
]

-- The loop, then the last segment.
unfoldable pub encode_loop : Tokenizer → Bytes → ℕ → Cursor → Outcome (List ℤ)
unfolding encode_byte flush_if_any
encode_loop t text zero c = elim (get_elem? text c.at) [
  | none ↦ flush_if_any t text c.segment_start (length text) c.ids
  | some b ↦ none
]
encode_loop t text (suc fuel) c = elim (get_elem? text c.at) [
  | none ↦ flush_if_any t text c.segment_start (length text) c.ids
  | some b ↦ and_then (encode_byte t text b c) (λ next. encode_loop t text fuel next)
]

unfoldable pub encode : Tokenizer → Bytes → Outcome (List ℤ)
unfolding encode_loop
encode t text =
    if is_empty t.vocab
    then some (fail ErrorCode.model_load_failed)
    else encode_loop t text (length text) (record { at = 0; segment_start = 0; ids = [] })
