-- ===== src/Gguf/Safety.antt =====
-- src/checkpoint/gguf/reader.cpp, `parse`: it reads only the file, and it ends.
use cc_infer.Base.{
  ℕ, zero, suc, ◌+◌, ◌-◌, ◌*◌, ◌/◌, ◌≤◌, ◌<◌, ◌≡◌, refl, [], ◌∷◌, false, ◌||◌, ltb, ◌==◌, inl, inr,
  Bool-cases, Option-cases, length, arith,
}
use cc_infer.Base.Dict.{same_list}
use cc_infer.Errors.{ErrorCode}
use cc_infer.Attempt.{
  Reserves, metadata_vector, tensor_infos_vector, Settles, stopped, finished, and_next-Settles,
  reserve-Settles,
}
use cc_infer.Gguf.{File, value_type, little_endian, signed}
use cc_infer.Gguf.Reader.{
  GgufReader, value_fuel, parse_entry, parse_metadata, parse_dims, supported_tensor_type,
  parse_tensor, parse_tensors, aligned, magic, parse_sections, parse,
}
use cc_infer.Gguf.Bounds.{Moves, fetch-Moves, read_raw-Moves, read_string-Moves, parse_value-Moves}

module _ (file : File) where
  -- The reader's tensor data start in the file, behind the header and at a multiple of 32.
  pub record Sections (r : GgufReader) : Type 0 where
    pub whole : r.size ≡ length file
    pub behind : 24 ≤ r.data_start
    pub inside : r.data_start ≤ r.size
    pub multiple : (k : ℕ) × (r.data_start ≡ k * 32)

module _ (reserves : Reserves) (file : File) where
  parse_entry-Moves :
      (offset : ℕ) → Settles reserves (Moves file offset 1) (parse_entry reserves file offset)
  unfolding parse_entry
  parse_entry-Moves offset =
      and_next-Settles (read_string-Moves reserves file offset) λ (key, after_key) (on1, in1).
        and_next-Settles (read_raw-Moves reserves file 4 after_key) λ (type, start) (on2, in2).
          elim (Bool-cases (ltb 12 type)) [
            | inl outside ↦ rw outside (stopped ErrorCode.model_load_failed)
            | inr known ↦ rw known (
                and_next-Settles
                  (parse_value-Moves reserves file (value_fuel file) start (value_type type) in2
                    (omega arith))
                  λ (v, next) (on3, in3).
                    finished ((key, v), next) (omega (arith, on1, on2, on3), in3))
          ]

  parse_metadata-Moves :
      (fuel offset n : ℕ)
      → offset ≤ length file
      → length file - offset < fuel
      → Settles reserves (Moves file offset 0) (parse_metadata reserves file fuel offset n)
  unfolding parse_metadata
  parse_metadata-Moves fuel offset zero inside h = finished ([], offset) (omega arith, inside)
  parse_metadata-Moves zero offset (suc n) inside h = absurd (omega arith)
  parse_metadata-Moves (suc fuel) offset (suc n) inside h =
      and_next-Settles (parse_entry-Moves offset) λ (kv, after) (on1, in1).
        and_next-Settles (parse_metadata-Moves fuel after n in1 (omega (arith, h, on1, in1)))
          λ (rest, next) (on2, in2). finished (kv ∷ rest, next) (omega (arith, on1, on2), in2)

  parse_dims-Moves :
      (offset d : ℕ)
      → offset ≤ length file
      → Settles reserves (Moves file offset 0) (parse_dims file offset d)
  unfolding parse_dims
  parse_dims-Moves offset zero inside = finished ([], offset) (omega arith, inside)
  parse_dims-Moves offset (suc d) inside =
      and_next-Settles (read_raw-Moves reserves file 8 offset) λ (dim, after) (on1, in1).
        and_next-Settles (parse_dims-Moves after d in1) λ (rest, next) (on2, in2).
          finished (signed 64 dim ∷ rest, next) (omega (arith, on1, on2), in2)

  parse_tensor-Moves :
      (offset : ℕ) → Settles reserves (Moves file offset 1) (parse_tensor file offset)
  unfolding parse_tensor
  parse_tensor-Moves offset =
      and_next-Settles (read_string-Moves reserves file offset) λ (name, after_name) (on1, in1).
        and_next-Settles (read_raw-Moves reserves file 4 after_name)
          λ (n_dims, dims_start) (on2, in2). elim (Bool-cases (n_dims == 0 || ltb 8 n_dims)) [
            | inl bad ↦ rw bad (stopped ErrorCode.model_load_failed)
            | inr good ↦ rw good (
                and_next-Settles (parse_dims-Moves dims_start n_dims in2)
                  λ (dims, after_dims) (on3, in3).
                    and_next-Settles (read_raw-Moves reserves file 4 after_dims)
                      λ (type, after_type) (on4, in4).
                        elim (Option-cases (supported_tensor_type type)) [
                          | inl other ↦ rw other (stopped ErrorCode.model_unsupported_dtype)
                          | inr (t, e) ↦ rw e (
                              and_next-Settles (read_raw-Moves reserves file 8 after_type)
                                λ (at, next) (on5, in5).
                                  finished _ (omega (arith, on1, on2, on3, on4, on5), in5))
                        ])
          ]

  parse_tensors-Moves :
      (fuel offset n : ℕ)
      → offset ≤ length file
      → length file - offset < fuel
      → Settles reserves (Moves file offset 0) (parse_tensors file fuel offset n)
  unfolding parse_tensors
  parse_tensors-Moves fuel offset zero inside h = finished ([], offset) (omega arith, inside)
  parse_tensors-Moves zero offset (suc n) inside h = absurd (omega arith)
  parse_tensors-Moves (suc fuel) offset (suc n) inside h =
      and_next-Settles (parse_tensor-Moves offset) λ (info, after) (on1, in1).
        and_next-Settles (parse_tensors-Moves fuel after n in1 (omega (arith, h, on1, in1)))
          λ (rest, next) (on2, in2). finished (info ∷ rest, next) (omega (arith, on1, on2), in2)

  aligned-ge : (n : ℕ) → n ≤ aligned n
  unfolding aligned
  aligned-ge n = omega arith

  not_over : (a b : ℕ) → ltb a b ≡ false → b ≤ a
  not_over a b h = ground arith

  parse_sections-Sections : Settles reserves (Sections file) (parse_sections reserves file)
  unfolding parse_sections aligned
  parse_sections-Sections =
      and_next-Settles (read_raw-Moves reserves file 8 8) λ (n_tensors, after_tensors) (on1, in1).
        and_next-Settles (read_raw-Moves reserves file 8 after_tensors)
          λ (n_metadata, start) (on2, in2). reserve-Settles metadata_vector n_metadata (
            and_next-Settles
              (parse_metadata-Moves (length file) start n_metadata in2
                (omega (arith, on1, on2, in2)))
              λ (metadata, after_metadata) (on3, in3).
                reserve-Settles tensor_infos_vector n_tensors (
                  and_next-Settles
                    (parse_tensors-Moves (length file) after_metadata n_tensors in3
                      (omega (arith, on1, on2, on3, in3)))
                    λ (infos, end_of_infos) (on4, in4).
                      elim (Bool-cases (ltb (length file) (aligned end_of_infos))) [
                        | inl over ↦ rw over (stopped ErrorCode.model_load_failed)
                        | inr fits ↦ rw fits (
                            finished _ (record {
                              whole = refl;
                              behind = omega (arith, on1, on2, on3, on4, aligned-ge end_of_infos);
                              inside = not_over (length file) (aligned end_of_infos) fits;
                              multiple = ((end_of_infos + 31) / 32, refl);
                            }))
                      ]))

  -- Whatever the file, `parse` ends within its fuel and reads no byte outside the file: it gives an
  -- error, or a reader whose tensor data start behind the header, inside the file and at a multiple
  -- of 32, or it throws since the library cannot reserve as many elements as a count says.
  pub parse-Sections : Settles reserves (Sections file) (parse reserves file)
  unfolding parse
  parse-Sections = elim (Bool-cases (ltb (length file) (4 + 4 + 8 + 8))) [
    | inl short ↦ rw (parse, short) (stopped ErrorCode.model_load_failed)
    | inr long ↦
        rw (parse, long)
          (and_next-Settles
            (fetch-Moves reserves file 0 4 (omega (arith, not_over (length file) 24 long)))
            λ (start, after_magic) (on1, in1). elim (Bool-cases (same_list start magic)) [
              | inr other ↦ rw other (stopped ErrorCode.model_load_failed)
              | inl same ↦ rw same (
                  and_next-Settles
                    (fetch-Moves reserves file 4 4 (omega (arith, not_over (length file) 24 long)))
                    λ (version, after_version) (on2, in2).
                      elim (Bool-cases (little_endian version == 3)) [
                        | inr old ↦ rw old (stopped ErrorCode.model_load_failed)
                        | inl three ↦ rw three parse_sections-Sections
                      ])
            ])
  ]
