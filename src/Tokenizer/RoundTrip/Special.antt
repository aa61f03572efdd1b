-- ===== src/Tokenizer/RoundTrip/Special.antt =====
-- src/tokenizer/byte_level_bpe_tokenizer.cpp, `try_match_special`: a match stands in the text.
use cc_infer.Base.{
  ℕ, ◌+◌, ◌≤◌, ◌<◌, ◌≡◌, refl, ◌||◌, true, false, none, some, length, is_empty, leb, ◌==◌, inl, inr,
  Bool-cases, if◌then◌else◌, [], ◌∷◌, subst, arith,
}
use cc_infer.Base.Int.{ℤ}
use cc_infer.Base.Dict.{Dict, Entries, no_entry, entry, same_list_iff}
use cc_infer.Tokenizer.{Tokenizer, Bytes}
use cc_infer.Tokenizer.Encode.{Match, substr, starts_with_at, longest, try_match_special}
use cc_infer.Tokenizer.RoundTrip.Spelling.{Spells}
use cc_infer.Tokenizer.RoundTrip.Segment.{token_text, IsSpecial}

-- The token of the match stands at the position, and its id is read back as the token.
pub record Matched (t : Tokenizer) (text : Bytes) (at : ℕ) (m : Match) : Type 0 where
  pub size : m.size ≡ length m.token
  pub positive : 0 < m.size
  pub fits : at + length m.token ≤ length text
  pub stands : substr text at (length m.token) ≡ m.token
  pub reads : token_text t m.id ≡ some m.token
  pub spells : Spells t.str_to_byte m.token m.token

starts_with_at-fits :
    (text : Bytes) (at : ℕ) (tok : Bytes)
    → starts_with_at text at tok ≡ true
    → (at + length tok ≤ length text) × (substr text at (length tok) ≡ tok)
unfolding starts_with_at
starts_with_at-fits text at tok h = ground (arith, same_list_iff (substr text at (length tok)) tok)

data Longest (t : Tokenizer) (text : Bytes) (at : ℕ) (m : Match) : Type 0 where
  no_match : m.size ≡ 0 → Longest t text at m
  a_match : Matched t text at m → Longest t text at m

token_size : (tok : Bytes) (n : ℕ) → (is_empty tok || leb (length tok) n) ≡ false → n < length tok
token_size [] n h = absurd cc
token_size (c ∷ tok) n h = ground (arith, h)

longest-Longest :
    (t : Tokenizer) (text : Bytes) (at : ℕ) {d : Dict Bytes ℤ} (m : Match)
    → Entries (IsSpecial t) d
    → Longest t text at m
    → Longest t text at (longest text at d m)
unfolding longest
longest-Longest t text at m no_entry b = b
longest-Longest t text at m (entry {k = tok} {v = id} (e, s) specials) b =
    elim (Bool-cases (is_empty tok || leb (length tok) m.size)) [
      | inl small ↦ rw (longest, small) (longest-Longest t text at m specials b)
      | inr large ↦ elim (Bool-cases (starts_with_at text at tok)) [
        | inr other ↦ rw (longest, large, other) (longest-Longest t text at m specials b)
        | inl starts ↦
            let (fits, stands) = starts_with_at-fits text at tok starts in
            rw (longest, large, starts)
              (longest-Longest t text at (record { size = length tok; id = id; token = tok })
                specials
                (a_match (record {
                  size = refl;
                  positive = omega (arith, token_size tok m.size large);
                  fits = fits;
                  stands = stands;
                  reads = e;
                  spells = s;
                })))
      ]
    ]

chosen_match :
    (t : Tokenizer) (text : Bytes) (at : ℕ) (best m : Match)
    → (if best.size == 0 then none else some best) ≡ some m
    → Longest t text at best
    → Matched t text at m
chosen_match t text at best m h (no_match e) = absurd (ground (arith, e))
chosen_match t text at best m h (a_match facts) = elim (Bool-cases (best.size == 0)) [
  | inl zero_size ↦ absurd (ground (arith, zero_size))
  | inr some_size ↦ subst (Matched t text at) (ground (arith, h, some_size)) facts
]

pub try_match_special-Matched :
    (t : Tokenizer) (text : Bytes) (at : ℕ) (m : Match)
    → Entries (IsSpecial t) t.special_token_to_id
    → try_match_special t.special_token_to_id text at ≡ some m
    → Matched t text at m
unfolding try_match_special
try_match_special-Matched t text at m specials h =
    chosen_match t text at _ m h (longest-Longest t text at _ specials (no_match refl))
