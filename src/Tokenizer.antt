-- ===== src/Tokenizer.antt =====
-- src/tokenizer/byte_level_bpe_tokenizer.h, byte_level_bpe_tokenizer.cpp: the byte-level BPE
-- tokenizer. Texts and tokens are lists of bytes; the hash maps are dictionaries.
pub mod ByteMap
pub mod Bpe
pub mod Encode
pub mod Decode
pub mod RoundTrip
pub mod FromTokens
pub mod FromJson
pub mod FromGguf
pub mod Create
use cc_infer.Base.{ℕ, List}
use cc_infer.Base.Int.{ℤ}
use cc_infer.Base.Dict.{Dict}

abbrev pub Bytes : Type 0
Bytes = List ℕ

-- A pair of adjacent symbols.
abbrev pub Pair : Type 0
Pair = Bytes × Bytes

pub record Tokenizer : Type 0 where
  pub vocab : Dict Bytes ℤ
  pub id_to_token : Dict ℤ Bytes
  pub merge_rank : Dict Pair ℕ
  pub byte_to_str : Dict ℕ Bytes
  pub str_to_byte : Dict Bytes ℕ
  pub special_token_to_id : Dict Bytes ℤ
  pub id_to_special_token : Dict ℤ Bytes
  pub max_token_id : ℤ
  pub eos_token_id : ℤ
  pub pad_token_id : ℤ
  pub unk_token_id : ℤ
