-- ===== src/Gguf/Bounds.antt =====
-- src/checkpoint/gguf/reader.cpp: the reads stay inside the file.
use cc_infer.Base.{
  ℕ, zero, suc, ◌+◌, ◌-◌, ◌*◌, ◌≤◌, ◌<◌, ◌≡◌, ◌||◌, Option, none, some, ltb, inl, inr, Bool-cases,
  length, take, drop, arith,
}
use cc_infer.Errors.{ErrorCode}
use cc_infer.Attempt.{
  Reserves, values_vector, Settles, stopped, thrown, finished, and_next-Settles, reserve-Settles,
}
use cc_infer.Gguf.{
  File, Read, GgufValueType, value_type, GgufMetadataValue, no_value, value, u8, u16, u32, u64, f32,
  f64, i8, i16, i32, i64, bool, string, array, require_bytes, bytes_at, little_endian, fetch,
  read_raw, read_bool, read_string, signed,
}
use cc_infer.Gguf.Values.{read_as, parse_value, parse_items}

module _ (file : File) where
  -- The offset behind what was read at `offset`: at least `least` bytes on, and in the file.
  abbrev pub Moves : {A : Type 0} → ℕ → ℕ → A × ℕ → Type 0
  Moves offset least (a, next) = (offset + least ≤ next) × (next ≤ length file)

module _ (reserves : Reserves) (file : File) where
  -- What was read from `start` on counts from an earlier offset too.
  pub later :
      {A : Type 0} {o : Read A} (offset start least k : ℕ)
      → offset + least ≤ start + k
      → Settles reserves (Moves file start k) o
      → Settles reserves (Moves file offset least) o
  later offset start least k h (stopped e) = stopped e
  later offset start least k h (thrown v n many) = thrown v n many
  later offset start least k h (finished (a, next) (on, inside)) =
      finished (a, next) (omega (arith, h, on), inside)

  bytes_at-inside :
      (offset n : ℕ)
      → offset + n ≤ length file
      → bytes_at file offset n ≡ some (take n (drop offset file))
  unfolding bytes_at
  bytes_at-inside offset n h = ground arith

  pub fetch-Moves :
      (offset n : ℕ)
      → offset + n ≤ length file
      → Settles reserves (Moves file offset n) (fetch file offset n)
  fetch-Moves offset n h =
      rw (fetch, bytes_at-inside offset n h)
        (finished (take n (drop offset file), offset + n) (omega arith, h))

  require_bytes-Settles :
      (offset needed : ℕ)
      → Settles reserves
          (λ (u : Unit {0}). offset + needed ≤ length file)
          (some (require_bytes (length file) offset needed))
  unfolding require_bytes
  require_bytes-Settles offset needed =
      elim (Bool-cases (ltb (length file) offset || ltb (length file - offset) needed)) [
        | inl over ↦ rw over (stopped ErrorCode.model_load_failed)
        | inr fits ↦ rw fits (finished tt (ground (arith, fits)))
      ]

  pub read_raw-Moves :
      (width offset : ℕ) → Settles reserves (Moves file offset width) (read_raw width file offset)
  unfolding read_raw
  read_raw-Moves width offset =
      and_next-Settles (require_bytes-Settles offset width) λ checked inside.
        and_next-Settles (fetch-Moves offset width inside)
          λ (bytes, next) moved. finished (little_endian bytes, next) moved

  read_as-Moves :
      (width : ℕ) (make : ℕ → GgufMetadataValue) (offset : ℕ)
      → 0 < width
      → Settles reserves (Moves file offset 1) (read_as width make file offset)
  unfolding read_as
  read_as-Moves width make offset h =
      and_next-Settles (read_raw-Moves width offset)
        λ (v, next) (on, inside). finished (make v, next) (omega (arith, h, on), inside)

  read_bool-Moves : (offset : ℕ) → Settles reserves (Moves file offset 1) (read_bool file offset)
  unfolding read_bool
  read_bool-Moves offset =
      and_next-Settles (read_raw-Moves 1 offset) λ (v, next) moved. finished _ moved

  pub read_string-Moves :
      (offset : ℕ) → Settles reserves (Moves file offset 8) (read_string file offset)
  unfolding read_string
  read_string-Moves offset = and_next-Settles (read_raw-Moves 8 offset) λ (len, start) (on, inside).
      and_next-Settles (require_bytes-Settles start len)
        λ checked fits. later offset start 8 len (omega (arith, on)) (fetch-Moves start len fits)

  mutual
    unfolding parse_value parse_items

    pub parse_value-Moves :
        (fuel offset : ℕ) (type : Option GgufValueType)
        → offset ≤ length file
        → 2 * (length file - offset) < fuel
        → Settles reserves (Moves file offset 1) (parse_value reserves file fuel offset type)
    parse_value-Moves zero offset type inside h = absurd (omega arith)
    parse_value-Moves (suc fuel) offset none inside h = stopped _
    parse_value-Moves (suc fuel) offset (some GgufValueType.k_u8) inside h =
        read_as-Moves 1 u8 offset (omega arith)
    parse_value-Moves (suc fuel) offset (some GgufValueType.k_i8) inside h =
        read_as-Moves 1 (λ v. i8 (signed 8 v)) offset (omega arith)
    parse_value-Moves (suc fuel) offset (some GgufValueType.k_u16) inside h =
        read_as-Moves 2 u16 offset (omega arith)
    parse_value-Moves (suc fuel) offset (some GgufValueType.k_i16) inside h =
        read_as-Moves 2 (λ v. i16 (signed 16 v)) offset (omega arith)
    parse_value-Moves (suc fuel) offset (some GgufValueType.k_u32) inside h =
        read_as-Moves 4 u32 offset (omega arith)
    parse_value-Moves (suc fuel) offset (some GgufValueType.k_i32) inside h =
        read_as-Moves 4 (λ v. i32 (signed 32 v)) offset (omega arith)
    parse_value-Moves (suc fuel) offset (some GgufValueType.k_u64) inside h =
        read_as-Moves 8 u64 offset (omega arith)
    parse_value-Moves (suc fuel) offset (some GgufValueType.k_i64) inside h =
        read_as-Moves 8 (λ v. i64 (signed 64 v)) offset (omega arith)
    parse_value-Moves (suc fuel) offset (some GgufValueType.k_f32) inside h =
        read_as-Moves 4 f32 offset (omega arith)
    parse_value-Moves (suc fuel) offset (some GgufValueType.k_f64) inside h =
        read_as-Moves 8 f64 offset (omega arith)
    parse_value-Moves (suc fuel) offset (some GgufValueType.k_bool) inside h =
        and_next-Settles (read_bool-Moves offset) λ (v, next) moved. finished (bool v, next) moved
    parse_value-Moves (suc fuel) offset (some GgufValueType.k_string) inside h =
        and_next-Settles (read_string-Moves offset)
          λ (s, next) (on, in1). finished (string s, next) (omega (arith, on), in1)
    parse_value-Moves (suc fuel) offset (some GgufValueType.k_array) inside h =
        and_next-Settles (read_raw-Moves 4 offset) λ (elem_type, after_type) (on1, in1).
          and_next-Settles (read_raw-Moves 8 after_type) λ (count, start) (on2, in2).
            reserve-Settles values_vector count (
              and_next-Settles
                (parse_items-Moves fuel start (value_type elem_type) count in2
                  (omega (arith, h, on1, on2, in2)))
                λ (values, next) (on3, in3).
                  finished (array values, next) (omega (arith, on1, on2, on3), in3))

    pub parse_items-Moves :
        (fuel offset : ℕ) (type : Option GgufValueType) (count : ℕ)
        → offset ≤ length file
        → 2 * (length file - offset) + 1 < fuel
        → Settles reserves (Moves file offset 0) (parse_items reserves file fuel offset type count)
    parse_items-Moves fuel offset type zero inside h =
        finished (no_value, offset) (omega arith, inside)
    parse_items-Moves zero offset type (suc count) inside h = absurd (omega arith)
    parse_items-Moves (suc fuel) offset type (suc count) inside h =
        and_next-Settles (parse_value-Moves fuel offset type inside (omega (arith, h)))
          λ (v, after) (on1, in1).
            and_next-Settles
              (parse_items-Moves fuel after type count in1 (omega (arith, h, on1, in1)))
              λ (rest, next) (on2, in2).
                finished (value v rest, next) (omega (arith, on1, on2), in2)
