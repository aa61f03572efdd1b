-- ===== src/Tokenizer/ByteMap.antt =====
-- src/tokenizer/byte_level_bpe_tokenizer.cpp, `utf8_from_codepoint` and `build_byte_maps`: the
-- printable symbol of each byte.
use Prim.Native.Nat.{bit_and, bit_or}
use cc_infer.Base.{
  ℕ, zero, suc, ◌+◌, ◌/◌, ◌<◌, ◌≡◌, refl, List, [], ◌∷◌, ◌++◌, Bool, true, false, ◌&&◌, Option,
  none, some, if◌then◌else◌, ltb, ◌==◌, ==_iff, Option-cases, inl, inr, length, arith,
}
use cc_infer.Base.Dict.{Dict, find, put, nat_key, list_key}

-- The shifts are quotients, and the bytes are those of the `char`s.
unfoldable pub utf8_from_codepoint : ℕ → List ℕ
utf8_from_codepoint cp =
    if ltb cp 0x80
    then cp ∷ []
    else if ltb cp 0x800
    then bit_or 0xC0 (cp / 64) ∷ bit_or 0x80 (bit_and cp 0x3F) ∷ []
    else if ltb cp 0x10000
    then bit_or 0xE0 (cp / 4096)
      ∷ bit_or 0x80 (bit_and (cp / 64) 0x3F)
      ∷ bit_or 0x80 (bit_and cp 0x3F)
      ∷ []
    else bit_or 0xF0 (cp / 262144)
      ∷ bit_or 0x80 (bit_and (cp / 4096) 0x3F)
      ∷ bit_or 0x80 (bit_and (cp / 64) 0x3F)
      ∷ bit_or 0x80 (bit_and cp 0x3F)
      ∷ []

-- The bytes with their codepoints, in the order in which `build_byte_maps` adds them.
abbrev pub Codepoints : Type 0
Codepoints = List (ℕ × ℕ)

-- `n` bytes from `lo` on, which stand for themselves.
unfoldable pub add_range : ℕ → ℕ → Codepoints → Codepoints
add_range zero lo added = added
add_range (suc n) lo added = add_range n (lo + 1) (added ++ (lo, lo) ∷ [])

unfoldable pub is_added : ℕ → Codepoints → Bool
is_added b [] = false
is_added b ((a, cp) ∷ added) = if a == b then true else is_added b added

-- The bytes from `b` on that are not there yet get the codepoints from 256 + `next` on.
unfoldable pub add_rest : ℕ → ℕ → ℕ → Codepoints → Codepoints
unfolding is_added
add_rest zero b next added = added
add_rest (suc n) b next added = elim (is_added b added) [
  | true ↦ add_rest n (b + 1) next added
  | false ↦ add_rest n (b + 1) (next + 1) (added ++ (b, 256 + next) ∷ [])
]

unfoldable pub codepoints : Codepoints
unfolding add_range add_rest
codepoints = add_rest 256 0 0 (add_range 82 174 (add_range 12 161 (add_range 94 33 [])))

pub record ByteMaps : Type 0 where
  pub byte_to_str : Dict ℕ (List ℕ)
  pub str_to_byte : Dict (List ℕ) ℕ

-- The loop over the pairs.
unfoldable pub fill_maps : Codepoints → ByteMaps → ByteMaps
unfolding utf8_from_codepoint put
fill_maps [] m = m
fill_maps ((b, cp) ∷ rest) m = fill_maps rest (record {
  byte_to_str = put b (utf8_from_codepoint cp) m.byte_to_str;
  str_to_byte = put (utf8_from_codepoint cp) b m.str_to_byte;
})

unfoldable pub build_byte_maps : ByteMaps
unfolding codepoints fill_maps
build_byte_maps = fill_maps codepoints (record { byte_to_str = []; str_to_byte = [] })

-- How many bytes the symbol takes whose first byte this is.
unfoldable pub symbol_length : ℕ → Option ℕ
symbol_length c =
    if bit_and c 0x80 == 0
    then some 1
    else if bit_and c 0xE0 == 0xC0
    then some 2
    else if bit_and c 0xF0 == 0xE0
    then some 3
    else if bit_and c 0xF8 == 0xF0
    then some 4
    else none

-- The first byte of a symbol tells its length.
leads : List ℕ → Bool
unfolding symbol_length
leads [] = false
leads (c ∷ rest) = elim (symbol_length c) [ none ↦ false | some n ↦ n == length (c ∷ rest) ]

reads_back : ByteMaps → List ℕ → ℕ → Bool
reads_back m s b = elim (find s m.str_to_byte) [ none ↦ false | some a ↦ a == b ]

is_coded : ByteMaps → ℕ → Bool
unfolding leads reads_back
is_coded m b = elim (find b m.byte_to_str) [ none ↦ false | some s ↦ leads s && reads_back m s b ]

-- The byte has a symbol, whose first byte tells its length, and which stands for the byte.
pub record Coded (m : ByteMaps) (b : ℕ) (s : List ℕ) : Type 0 where
  pub first : ℕ
  pub others : List ℕ
  pub parts : s ≡ first ∷ others
  pub found : find b m.byte_to_str ≡ some s
  pub lead : symbol_length first ≡ some (length s)
  pub back : find s m.str_to_byte ≡ some b

leads-some :
    (c : ℕ) (rest : List ℕ) → leads (c ∷ rest) ≡ true → symbol_length c ≡ some (length (c ∷ rest))
unfolding leads
leads-some c rest h = elim (Option-cases (symbol_length c)) [
  | inl e ↦ absurd (ground (arith, e))
  | inr (n, e) ↦ ground (arith, e, ==_iff n (length (c ∷ rest)))
]

Coded-symbol :
    (m : ByteMaps) (b : ℕ) (s : List ℕ)
    → find b m.byte_to_str ≡ some s
    → leads s ≡ true
    → reads_back m s b ≡ true
    → Coded m b s
unfolding leads reads_back
Coded-symbol m b [] found l r = absurd cc
Coded-symbol m b (c ∷ rest) found l r = record {
  first = c;
  others = rest;
  parts = refl;
  found = found;
  lead = leads-some c rest l;
  back = elim (Option-cases (find (c ∷ rest) m.str_to_byte)) [
    | inl e ↦ absurd (ground (arith, e))
    | inr (a, e) ↦ ground (arith, e, ==_iff a b)
  ];
}

is_coded-Coded : (m : ByteMaps) (b : ℕ) → is_coded m b ≡ true → (s : List ℕ) × Coded m b s
unfolding is_coded
is_coded-Coded m b h = elim (Option-cases (find b m.byte_to_str)) [
  | inl e ↦ absurd (ground (arith, e))
  | inr (s, e) ↦ (s, Coded-symbol m b s e (ground (arith, e)) (ground (arith, e)))
]

all_below : ℕ → (ℕ → Bool) → Bool
all_below zero p = true
all_below (suc n) p = p n && all_below n p

all_below-lt : (n : ℕ) (p : ℕ → Bool) (x : ℕ) → all_below n p ≡ true → x < n → p x ≡ true
unfolding all_below
all_below-lt zero p x h lt = absurd (omega arith)
all_below-lt (suc n) p x h lt = ground (arith, all_below-lt n p x)

all_coded : all_below 256 (is_coded build_byte_maps) ≡ true
unfolding all_below is_coded build_byte_maps find
all_coded = refl

-- Every byte has a symbol, whose first byte tells its length, and the symbol stands for that byte.
pub build_byte_maps-Coded : (b : ℕ) → b < 256 → (s : List ℕ) × Coded build_byte_maps b s
build_byte_maps-Coded b h =
    is_coded-Coded build_byte_maps b (all_below-lt 256 (is_coded build_byte_maps) b all_coded h)
