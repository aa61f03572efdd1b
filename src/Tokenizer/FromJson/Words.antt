-- ===== src/Tokenizer/FromJson/Words.antt =====
-- src/tokenizer/byte_level_bpe_tokenizer.cpp: the keys of tokenizer.json, and the special tokens.
use cc_infer.Base.{[], ◌∷◌}
use cc_infer.Tokenizer.{Bytes}

abbrev pub word_model : Bytes
word_model = b'm' ∷ b'o' ∷ b'd' ∷ b'e' ∷ b'l' ∷ []

abbrev pub word_type : Bytes
word_type = b't' ∷ b'y' ∷ b'p' ∷ b'e' ∷ []

abbrev pub word_bpe : Bytes
word_bpe = b'B' ∷ b'P' ∷ b'E' ∷ []

abbrev pub word_vocab : Bytes
word_vocab = b'v' ∷ b'o' ∷ b'c' ∷ b'a' ∷ b'b' ∷ []

abbrev pub word_merges : Bytes
word_merges = b'm' ∷ b'e' ∷ b'r' ∷ b'g' ∷ b'e' ∷ b's' ∷ []

abbrev pub word_added_tokens : Bytes
word_added_tokens =
    b'a' ∷ b'd' ∷ b'd' ∷ b'e' ∷ b'd' ∷ b'_' ∷ b't' ∷ b'o' ∷ b'k' ∷ b'e' ∷ b'n' ∷ b's' ∷ []

abbrev pub word_content : Bytes
word_content = b'c' ∷ b'o' ∷ b'n' ∷ b't' ∷ b'e' ∷ b'n' ∷ b't' ∷ []

abbrev pub word_id : Bytes
word_id = b'i' ∷ b'd' ∷ []

abbrev pub word_special : Bytes
word_special = b's' ∷ b'p' ∷ b'e' ∷ b'c' ∷ b'i' ∷ b'a' ∷ b'l' ∷ []

abbrev pub end_s : Bytes
end_s = b'<' ∷ b'/' ∷ b's' ∷ b'>' ∷ []

abbrev pub end_of_text : Bytes
end_of_text =
    b'<' ∷ b'|' ∷ b'e' ∷ b'n' ∷ b'd' ∷ b'_' ∷ b'o' ∷ b'f' ∷ b'_' ∷ b't' ∷ b'e' ∷ b'x' ∷ b't' ∷ b'|'
    ∷ b'>' ∷ []

abbrev pub endoftext : Bytes
endoftext =
    b'<' ∷ b'|' ∷ b'e' ∷ b'n' ∷ b'd' ∷ b'o' ∷ b'f' ∷ b't' ∷ b'e' ∷ b'x' ∷ b't' ∷ b'|' ∷ b'>' ∷ []

abbrev pub im_end : Bytes
im_end = b'<' ∷ b'|' ∷ b'i' ∷ b'm' ∷ b'_' ∷ b'e' ∷ b'n' ∷ b'd' ∷ b'|' ∷ b'>' ∷ []

abbrev pub unk : Bytes
unk = b'<' ∷ b'u' ∷ b'n' ∷ b'k' ∷ b'>' ∷ []

abbrev pub unk_upper : Bytes
unk_upper = b'[' ∷ b'U' ∷ b'N' ∷ b'K' ∷ b']' ∷ []
