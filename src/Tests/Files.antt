-- ===== src/Tests/Files.antt =====
-- A GGUF file of one metadata value and one tensor, and the theorems on it.
use cc_infer.Base.{
  ℕ, zero, suc, ◌+◌, ◌-◌, ◌*◌, ◌/◌, ◌%◌, ◌^◌, ◌≡◌, refl, List, [], ◌∷◌, ◌++◌, Option, none, some,
  leb, if◌then◌else◌, arith,
}
use cc_infer.Base.Int.{ℤ, pos}
use cc_infer.Errors.{done, fail, ErrorCode}
use cc_infer.Attempt.{Reserves, Settles, parsed, threw, metadata_vector}
use cc_infer.Gguf.{File, u8}
use cc_infer.Gguf.Tensors.{k_f32, GgufTensorInfo, raw_tensor_data}
use cc_infer.Gguf.Reader.{parse}
use cc_infer.Gguf.Safety.{Sections, parse-Sections}
use cc_infer.Gguf.Spans.{
  product, no_dim, dim, f32, Countable, raw_tensor_data-exact, raw_tensor_data_wraps,
}

-- A number as `width` little-endian bytes.
abbrev put_number : ℕ → ℕ → File
put_number zero n = []
put_number (suc width) n = n % 256 ∷ put_number width (n / 256)

abbrev zeros : ℕ → File
zeros zero = []
zeros (suc n) = 0 ∷ zeros n

abbrev small_file : File
small_file =
    (b'G' ∷ b'G' ∷ b'U' ∷ b'F' ∷ [])
    ++ put_number 4 3
    ++ put_number 8 1
    ++ put_number 8 1
    ++ (put_number 8 1 ++ (b'a' ∷ []) ++ put_number 4 0 ++ (7 ∷ []))
    ++ (put_number 8 1
        ++ (b't' ∷ [])
        ++ put_number 4 1
        ++ put_number 8 4
        ++ put_number 4 0
        ++ put_number 8 0)
    ++ zeros 41

abbrev small_info : GgufTensorInfo
small_info = record { name = b't' ∷ []; dims = pos 4 ∷ []; type = k_f32; offset = 0 }

-- A library that reserves up to 2 ^ 40 elements.
abbrev served : Reserves
served v n = leb n (2 ^ 40)

small_parsed :
    parse served small_file
    ≡ some (
        parsed (record {
          size = 112;
          data_start = 96;
          version = 3;
          metadata = (b'a' ∷ [], u8 7) ∷ [];
          tensor_infos = small_info ∷ [];
        }))
unfolding parse
small_parsed = refl

parse-Sections_example : Settles served (Sections small_file) (parse served small_file)
parse-Sections_example = parse-Sections served small_file

-- With this count the first vector cannot be reserved.
abbrev huge_file : File
huge_file =
    (b'G' ∷ b'G' ∷ b'U' ∷ b'F' ∷ []) ++ put_number 4 3 ++ put_number 8 0 ++ put_number 8 (2 ^ 60)

huge_throws : parse served huge_file ≡ some (threw metadata_vector (2 ^ 60))
unfolding parse
huge_throws = refl

abbrev no_storage : List ℤ → Option ℕ
no_storage dims = none

small_Countable : Countable small_info 4
unfolding product
small_Countable = record { plain = f32; some_dim = refl; positive = dim no_dim; fits = omega arith }

raw_tensor_data-exact_example : raw_tensor_data no_storage 112 96 small_info ≡ (
    if leb (96 + 0 + product (pos 4 ∷ []) * 4) 112
    then done (96 + 0, product (pos 4 ∷ []) * 4)
    else fail ErrorCode.model_load_failed)
raw_tensor_data-exact_example =
    raw_tensor_data-exact no_storage 112 96 small_info 4 small_Countable (omega arith)

-- The offset takes the place to byte 8 of the header.
abbrev wild_info : GgufTensorInfo
wild_info = record small_info { offset = 2 ^ 64 - 96 + 8 }

wild_Countable : Countable wild_info 4
unfolding product
wild_Countable = record { plain = f32; some_dim = refl; positive = dim no_dim; fits = omega arith }

raw_tensor_data_wraps_example :
    raw_tensor_data no_storage 112 96 wild_info ≡ done (8, product (pos 4 ∷ []) * 4)
unfolding product
raw_tensor_data_wraps_example =
    raw_tensor_data_wraps no_storage 112 96 8 wild_info 4 wild_Countable (omega arith) (omega arith)
      (omega arith) (omega arith)
