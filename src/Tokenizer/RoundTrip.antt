-- ===== src/Tokenizer/RoundTrip.antt =====
-- src/tokenizer/byte_level_bpe_tokenizer.cpp: decoding the ids of a text gives the text.
pub mod Spelling
pub mod Segment
mod Special
pub mod Rounds
pub mod Text
