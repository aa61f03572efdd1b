-- ===== src/Tokenizer/RoundTrip/Spelling.antt =====
-- src/tokenizer/byte_level_bpe_tokenizer.cpp, `decode`: the streams that spell a text.
use cc_infer.Base.{
  ℕ, zero, suc, ◌≤◌, ◌≡◌, refl, ap, ◌∙◌, [], ◌∷◌, ◌++◌, append_assoc, false, some, ltb, length,
  length-append, take, drop, take_append, drop_append, take_all, drop_all, arith,
}
use cc_infer.Base.Dict.{Dict, list_key}
use cc_infer.Errors.{done}
use cc_infer.Tokenizer.{Bytes}
use cc_infer.Tokenizer.ByteMap.{symbol_length}
use cc_infer.Tokenizer.Decode.{symbol_bytes, decode_symbols, append_front}

-- The symbols of the stream, each as long as its first byte tells, stand for the text.
pub data Spells (str_to_byte : Dict Bytes ℕ) : Bytes → Bytes → Type 0 where
  nothing : Spells str_to_byte [] []
  symbol :
      (c : ℕ) (others bytes : Bytes) {stream text : Bytes}
      → symbol_length c ≡ some (length (c ∷ others))
      → symbol_bytes str_to_byte false (c ∷ others) ≡ some bytes
      → Spells str_to_byte stream text
      → Spells str_to_byte (c ∷ others ++ stream) (bytes ++ text)

pub Spells-append :
    {m : Dict Bytes ℕ} {s s' t t' : Bytes}
    → Spells m s t
    → Spells m s' t'
    → Spells m (s ++ s') (t ++ t')
Spells-append nothing more = more
Spells-append {s'} {t'} (symbol c others bytes {stream} {text} len found rest) more =
    rw (append_assoc (c ∷ others) stream s', append_assoc bytes text t')
      (symbol c others bytes len found (Spells-append rest more))

take-append : (xs ys : Bytes) → take (length xs) (xs ++ ys) ≡ xs
take-append xs ys =
    take_append (length xs) xs ys (omega arith) ∙ take_all (length xs) xs (omega arith)

drop-append : (xs ys : Bytes) → drop (length xs) (xs ++ ys) ≡ ys
drop-append xs ys =
    drop_append (length xs) xs ys (omega arith)
    ∙ ap (λ zs. zs ++ ys) (drop_all (length xs) xs (omega arith))

ltb-false : (a b : ℕ) → a ≤ b → ltb b a ≡ false
ltb-false a b h = ground arith

decode_symbols_step :
    (m : Dict Bytes ℕ) (fuel c : ℕ) (rest : Bytes) (n : ℕ) (bytes : Bytes)
    → symbol_length c ≡ some n
    → ltb (length (c ∷ rest)) n ≡ false
    → symbol_bytes m false (take n (c ∷ rest)) ≡ some bytes
    → decode_symbols m false (suc fuel) (c ∷ rest)
      ≡ append_front bytes (decode_symbols m false fuel (drop n (c ∷ rest)))
unfolding decode_symbols
decode_symbols_step m fuel c rest n bytes len fits found =
    rw (decode_symbols, len, fits, found) refl

-- With as much fuel as the stream is long, the loop gives the text.
pub decode_symbols-Spells :
    {m : Dict Bytes ℕ} {s t : Bytes} (fuel : ℕ)
    → Spells m s t
    → length s ≤ fuel
    → decode_symbols m false fuel s ≡ some (done t)
unfolding decode_symbols
decode_symbols-Spells fuel nothing h = refl
decode_symbols-Spells zero (symbol c others bytes len found rest) h = absurd (omega arith)
decode_symbols-Spells {m} (suc fuel) (symbol c others bytes {stream} len found rest) h =
    decode_symbols_step m fuel c (others ++ stream) (length (c ∷ others)) bytes len
      (ltb-false (length (c ∷ others)) (length (c ∷ others ++ stream))
        (omega (arith, length-append (c ∷ others) stream)))
      (ap (symbol_bytes m false) (take-append (c ∷ others) stream) ∙ found)
    ∙ ap (λ rest. append_front bytes (decode_symbols m false fuel rest))
        (drop-append (c ∷ others) stream)
    ∙ ap (append_front bytes)
        (decode_symbols-Spells fuel rest (omega (arith, h, length-append others stream)))
