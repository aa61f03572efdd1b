-- ===== src/Gguf/Values.antt =====
-- src/checkpoint/gguf/reader.cpp, `parse_value`: the values of the metadata. An array of values is
-- read with fuel, since arrays nest.
use cc_infer.Base.{ℕ, zero, suc, Option, none, some}
use cc_infer.Attempt.{Reserves, values_vector, parsed, and_next, reserve}
use cc_infer.Gguf.{
  File, Read, GgufValueType, value_type, GgufMetadataValue, u8, u16, u32, u64, f32, f64, i8, i16,
  i32, i64, bool, string, array, GgufValues, no_value, value, load_failed, read_raw, read_bool,
  read_string, signed,
}

-- A number of this width, stored as `make` says.
unfoldable pub read_as : ℕ → (ℕ → GgufMetadataValue) → File → ℕ → Read GgufMetadataValue
unfolding read_raw
read_as width make file offset =
    and_next (read_raw width file offset) λ (v, next). some (parsed (make v, next))

unfoldable mutual
  unfolding value_type read_raw read_as read_bool read_string signed reserve

  pub parse_value : Reserves → File → ℕ → ℕ → Option GgufValueType → Read GgufMetadataValue
  parse_value reserves file zero offset type = none
  parse_value reserves file (suc fuel) offset none = load_failed
  parse_value reserves file (suc fuel) offset (some GgufValueType.k_u8) = read_as 1 u8 file offset
  parse_value reserves file (suc fuel) offset (some GgufValueType.k_i8) =
      read_as 1 (λ v. i8 (signed 8 v)) file offset
  parse_value reserves file (suc fuel) offset (some GgufValueType.k_u16) = read_as 2 u16 file offset
  parse_value reserves file (suc fuel) offset (some GgufValueType.k_i16) =
      read_as 2 (λ v. i16 (signed 16 v)) file offset
  parse_value reserves file (suc fuel) offset (some GgufValueType.k_u32) = read_as 4 u32 file offset
  parse_value reserves file (suc fuel) offset (some GgufValueType.k_i32) =
      read_as 4 (λ v. i32 (signed 32 v)) file offset
  parse_value reserves file (suc fuel) offset (some GgufValueType.k_u64) = read_as 8 u64 file offset
  parse_value reserves file (suc fuel) offset (some GgufValueType.k_i64) =
      read_as 8 (λ v. i64 (signed 64 v)) file offset
  parse_value reserves file (suc fuel) offset (some GgufValueType.k_f32) = read_as 4 f32 file offset
  parse_value reserves file (suc fuel) offset (some GgufValueType.k_f64) = read_as 8 f64 file offset
  parse_value reserves file (suc fuel) offset (some GgufValueType.k_bool) =
      and_next (read_bool file offset) λ (v, next). some (parsed (bool v, next))
  parse_value reserves file (suc fuel) offset (some GgufValueType.k_string) =
      and_next (read_string file offset) λ (s, next). some (parsed (string s, next))
  parse_value reserves file (suc fuel) offset (some GgufValueType.k_array) =
      and_next (read_raw 4 file offset) λ (elem_type, after_type).
        and_next (read_raw 8 file after_type) λ (count, start).
          and_next (reserve reserves values_vector count) λ reserved.
            and_next (parse_items reserves file fuel start (value_type elem_type) count)
              λ (values, next). some (parsed (array values, next))

  -- The loop over the elements, of which `count` are left.
  pub parse_items : Reserves → File → ℕ → ℕ → Option GgufValueType → ℕ → Read GgufValues
  parse_items reserves file fuel offset type zero = some (parsed (no_value, offset))
  parse_items reserves file zero offset type (suc count) = none
  parse_items reserves file (suc fuel) offset type (suc count) =
      and_next (parse_value reserves file fuel offset type) λ (v, after).
        and_next (parse_items reserves file fuel after type count)
          λ (rest, next). some (parsed (value v rest, next))
