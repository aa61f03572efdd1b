-- ===== src/Tokenizer/RoundTrip/Segment.antt =====
-- src/tokenizer/byte_level_bpe_tokenizer.cpp, `encode_normal_segment`: its ids spell the segment.
use cc_infer.Base.{
  ℕ, zero, suc, ◌<◌, ◌≡◌, refl, sym, ap, ◌∙◌, List, [], ◌∷◌, ◌++◌, append_assoc, true, false,
  Option, none, some, get_elem?, length, take, drop, is_empty, inl, inr, Option-cases, arith,
}
use cc_infer.Base.Int.{ℤ, pos, ltz}
use cc_infer.Base.Dict.{Entries, find, int_key, nat_key, list_key}
use cc_infer.Errors.{Result, done, fail, ErrorCode, Outcome, and_then}
use cc_infer.Tokenizer.{Tokenizer, Bytes}
use cc_infer.Tokenizer.ByteMap.{ByteMaps, Coded, build_byte_maps, build_byte_maps-Coded}
use cc_infer.Tokenizer.Bpe.{Symbols, apply_bpe}
use cc_infer.Tokenizer.Bpe.Normal.{flat, flat-apply_bpe}
use cc_infer.Tokenizer.Encode.{byte_encode_segment, push_id, lookup_ids, encode_normal_segment}
use cc_infer.Tokenizer.Decode.{symbol_bytes, symbol_stream, add_front}
use cc_infer.Tokenizer.RoundTrip.Spelling.{Spells, nothing, symbol, Spells-append}

pub data Octets : Bytes → Type 0 where
  empty : Octets []
  octet : {b : ℕ} {text : Bytes} → b < 256 → Octets text → Octets (b ∷ text)

pub Octets-take : (n : ℕ) {text : Bytes} → Octets text → Octets (take n text)
Octets-take zero o = empty
Octets-take (suc n) empty = empty
Octets-take (suc n) (octet h o) = octet h (Octets-take n o)

pub Octets-drop : (n : ℕ) {text : Bytes} → Octets text → Octets (drop n text)
Octets-drop zero o = o
Octets-drop (suc n) empty = empty
Octets-drop (suc n) (octet h o) = Octets-drop n o

-- The text that `decode` reads for an id.
abbrev pub token_text : Tokenizer → ℤ → Option Bytes
token_text t id = elim (find id t.id_to_special_token) [
  | some tok ↦ some tok
  | none ↦ find id t.id_to_token
]

-- The special token is read back and spells itself.
abbrev pub IsSpecial : Tokenizer → Bytes → ℤ → Type 0
IsSpecial t tok id = (token_text t id ≡ some tok) × Spells t.str_to_byte tok tok

-- The dictionaries of the tokenizer agree, and no unknown token replaces a symbol.
pub record Consistent (t : Tokenizer) : Type 0 where
  pub out_map : t.byte_to_str ≡ build_byte_maps.byte_to_str
  pub in_map : t.str_to_byte ≡ build_byte_maps.str_to_byte
  pub texts : (s : Bytes) (id : ℤ) → find s t.vocab ≡ some id → token_text t id ≡ some s
  pub specials : Entries (IsSpecial t) t.special_token_to_id
  pub no_unk : ltz t.unk_token_id (pos 0) ≡ true
  pub filled : is_empty t.id_to_token ≡ false

-- The ids have texts, which make up the stream.
pub data Reads (t : Tokenizer) : List ℤ → Bytes → Type 0 where
  end_of : Reads t [] []
  read :
      (id : ℤ) (tok : Bytes) {ids : List ℤ} {stream : Bytes}
      → token_text t id ≡ some tok
      → Reads t ids stream
      → Reads t (id ∷ ids) (tok ++ stream)

pub Reads-append :
    {t : Tokenizer} {ids more : List ℤ} {s s' : Bytes}
    → Reads t ids s
    → Reads t more s'
    → Reads t (ids ++ more) (s ++ s')
Reads-append end_of r = r
Reads-append {s'} (read id tok {ids} {stream} e r) r' =
    rw (append_assoc tok stream s') (read id tok e (Reads-append r r'))

symbol_stream_step :
    (t : Tokenizer) (id : ℤ) (tok : Bytes) (ids : List ℤ)
    → token_text t id ≡ some tok
    → symbol_stream t (id ∷ ids) false ≡ add_front tok (symbol_stream t ids false)
unfolding symbol_stream
symbol_stream_step t id tok ids e = ground (arith, e)

pub symbol_stream-Reads :
    {t : Tokenizer} {ids : List ℤ} {s : Bytes} → Reads t ids s → symbol_stream t ids false ≡ done s
unfolding symbol_stream
symbol_stream-Reads end_of = refl
symbol_stream-Reads {t} (read id tok {ids} e r) =
    symbol_stream_step t id tok ids e ∙ ap (add_front tok) (symbol_stream-Reads r)

-- The ids decode to the text.
pub record Spelled (t : Tokenizer) (ids : List ℤ) (text : Bytes) : Type 0 where
  pub stream : Bytes
  pub reads : Reads t ids stream
  pub spells : Spells t.str_to_byte stream text

pub Spelled-append :
    {t : Tokenizer} {ids more : List ℤ} {s s' : Bytes}
    → Spelled t ids s
    → Spelled t more s'
    → Spelled t (ids ++ more) (s ++ s')
Spelled-append a b = record {
  stream = a.stream ++ b.stream;
  reads = Reads-append a.reads b.reads;
  spells = Spells-append a.spells b.spells;
}

-- The outcome is a value with the property `P`, or the error of a symbol without an id, and then
-- `F` holds.
pub data Sound {A : Type 0} (F : Type 0) (P : A → Type 0) : Outcome A → Type 0 where
  failed : F → Sound F P (some (fail ErrorCode.model_load_failed))
  good : (a : A) → P a → Sound F P (some (done a))

pub and_then-Sound :
    {A B : Type 0} {F : Type 0} {P : A → Type 0} {Q : B → Type 0} {o : Outcome A}
    {f : A → Outcome B}
    → Sound F P o
    → ((a : A) → P a → Sound F Q (f a))
    → Sound F Q (and_then o f)
and_then-Sound (failed h) next = failed h
and_then-Sound (good a p) next = next a p

pub Sound-map :
    {A : Type 0} {F G : Type 0} {P Q : A → Type 0} {o : Outcome A}
    → (F → G)
    → ((a : A) → P a → Q a)
    → Sound F P o
    → Sound G Q o
Sound-map g h (failed f) = failed (g f)
Sound-map g h (good a p) = good a (h a p)

-- The segment has a symbol, among those that the merges leave, without an id.
pub record NoId (t : Tokenizer) (segment : Bytes) : Type 0 where
  pub symbols : Symbols
  pub spelt : byte_encode_segment t.byte_to_str segment ≡ some symbols
  pub unknown : Bytes
  pub place : ℕ
  pub stands : get_elem? (apply_bpe t.merge_rank symbols) place ≡ some unknown
  pub no_id : find unknown t.vocab ≡ none

symbol_bytes-Coded :
    {m : ByteMaps} {b : ℕ} {s : Bytes}
    → Coded m b s
    → symbol_bytes m.str_to_byte false s ≡ some (b ∷ [])
unfolding symbol_bytes
symbol_bytes-Coded c = rw (symbol_bytes, c.back) refl

Spells-Coded :
    {m : ByteMaps} {b : ℕ} {s stream text : Bytes}
    → Coded m b s
    → Spells m.str_to_byte stream text
    → Spells m.str_to_byte (s ++ stream) (b ∷ text)
Spells-Coded {m} {b} {s} {stream} {text} c rest = rw c.parts (
    symbol c.first c.others (b ∷ []) (c.lead ∙ ap (λ x. some (length x)) c.parts)
      (ap (symbol_bytes m.str_to_byte false) (sym c.parts) ∙ symbol_bytes-Coded c) rest)

module _ (m : ByteMaps) (codes : (b : ℕ) → b < 256 → (s : Bytes) × Coded m b s) where
  byte_encode_segment-Spells :
      {text : Bytes}
      → Octets text
      → (ss : Symbols) × (byte_encode_segment m.byte_to_str text ≡ some ss)
        × Spells m.str_to_byte (flat ss) text
  unfolding byte_encode_segment
  byte_encode_segment-Spells empty = ([], refl, nothing)
  byte_encode_segment-Spells (octet {b} h o) =
      let (s, c) = codes b h in
      let (ss, e, spelled) = byte_encode_segment-Spells o in
      (s ∷ ss, rw (byte_encode_segment, c.found, e) refl, Spells-Coded c spelled)

maps_of : Tokenizer → ByteMaps
maps_of t = record { byte_to_str = t.byte_to_str; str_to_byte = t.str_to_byte }

Consistent-codes :
    {t : Tokenizer} → Consistent t → (b : ℕ) → b < 256 → (s : Bytes) × Coded (maps_of t) b s
unfolding maps_of
Consistent-codes c b h = rw (c.out_map, c.in_map) (build_byte_maps-Coded b h)

push_id-Sound :
    {t : Tokenizer} {F : Type 0} (id : ℤ) {tok stream : Bytes} (r : Result (List ℤ))
    → token_text t id ≡ some tok
    → Sound F (λ ids. Reads t ids stream) (some r)
    → Sound F (λ ids. Reads t ids (tok ++ stream)) (some (push_id id r))
push_id-Sound id {tok} (done _) e (good ids r) = good (id ∷ ids) (read id tok e r)
push_id-Sound id (fail _) e (failed h) = failed h

-- One of the symbols has no id.
abbrev Unknown : Tokenizer → Symbols → Type 0
Unknown t ss = (s : Bytes) × (n : ℕ) × (get_elem? ss n ≡ some s) × (find s t.vocab ≡ none)

lookup_ids-Reads :
    {t : Tokenizer} (c : Consistent t) (ss : Symbols)
    → Sound (Unknown t ss) (λ ids. Reads t ids (flat ss)) (some (lookup_ids t ss))
unfolding lookup_ids
lookup_ids-Reads c [] = good [] end_of
lookup_ids-Reads {t} c (s ∷ rest) = elim (Option-cases (find s t.vocab)) [
  | inl unknown ↦ rw (lookup_ids, unknown, c.no_unk) (failed (s, zero, refl, unknown))
  | inr (id, known) ↦
      rw (lookup_ids, known)
        (push_id-Sound id _ (c.texts s id known)
          (Sound-map (λ (u, n, m, e). (u, suc n, m, e)) (λ ids r. r) (lookup_ids-Reads c rest)))
]

lookup_ids-Spelled :
    {t : Tokenizer} {F : Type 0} {text stream : Bytes} (r : Result (List ℤ))
    → Spells t.str_to_byte stream text
    → Sound F (λ ids. Reads t ids stream) (some r)
    → Sound F (λ ids. Spelled t ids text) (some r)
lookup_ids-Spelled (done _) spelled (good ids r) =
    good ids (record { stream = _; reads = r; spells = spelled })
lookup_ids-Spelled (fail _) spelled (failed h) = failed h

pub encode_normal_segment-Spelled :
    {t : Tokenizer} {text : Bytes}
    → Consistent t
    → Octets text
    → Sound (NoId t text) (λ ids. Spelled t ids text) (encode_normal_segment t text)
unfolding encode_normal_segment maps_of
encode_normal_segment-Spelled {t} {text} c o =
    let (ss, e, spelled) = byte_encode_segment-Spells (maps_of t) (Consistent-codes c) o in
    let merged = apply_bpe t.merge_rank ss in
    rw (encode_normal_segment, e)
      (lookup_ids-Spelled (lookup_ids t merged) (rw (flat-apply_bpe t.merge_rank ss) spelled) (
        Sound-map
          (λ (u, n, m, none_of). record {
            symbols = ss;
            spelt = e;
            unknown = u;
            place = n;
            stands = m;
            no_id = none_of;
          })
          (λ ids r. r) (lookup_ids-Reads c merged)))
