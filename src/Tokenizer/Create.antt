-- ===== src/Tokenizer/Create.antt =====
-- src/tokenizer/byte_level_bpe_tokenizer.cpp, `create_tokenizer`: the loader that the model path
-- chooses. What the file system and the parser answer are parameters.
use cc_infer.Base.{Bool, true, false, Option, none, some}
use cc_infer.Errors.{ErrorCode, fail, Outcome, and_then}
use cc_infer.Attempt.{Reserves, outcome_of}
use cc_infer.Gguf.{File}
use cc_infer.Gguf.Access.{create}
use cc_infer.Tokenizer.{Tokenizer, Bytes}
use cc_infer.Tokenizer.FromJson.Values.{Json}
use cc_infer.Tokenizer.FromJson.{load}
use cc_infer.Tokenizer.FromGguf.{new_tokenizer, loaded_or_error, create_tokenizer_from_gguf}

-- The path has the extension .gguf; the file under it, where it can be mapped; the content of
-- tokenizer.json, `none` if there is no such file and empty if it cannot be read; the parser.
-- An exception is `none`.
unfoldable pub create_tokenizer :
    Reserves → Bool → Option File → Option Bytes → (Bytes → Option Json) → Outcome Tokenizer
unfolding create create_tokenizer_from_gguf load new_tokenizer loaded_or_error
create_tokenizer reserves is_gguf file tokenizer_json parse = elim is_gguf [
  | true ↦
      and_then (outcome_of (create reserves file)) (λ reader. create_tokenizer_from_gguf reader)
  | false ↦ elim tokenizer_json [
    | none ↦ some (fail ErrorCode.model_load_failed)
    | some content ↦ loaded_or_error (load parse content new_tokenizer)
  ]
]
