-- ===== src/GgufConfig/Layers.antt =====
-- src/checkpoint/gguf/config_loader.cpp: the sequence of the layers.
use native.Mathlib.Nat.{suc-mod, mod_self, mod-eq_of_lt, mod-lt}
use cc_infer.Base.{
  ℕ, zero, suc, ◌+◌, ◌-◌, ◌%◌, ◌==◌, ◌<◌, ◌≡◌, refl, ap, sym, ◌∙◌, ltb, ltb→lt, inl, inr,
  Bool-cases, if◌then◌else◌, false, List, ◌++◌, some, get_elem?, arith,
}
use cc_infer.ModelConfig.{LayerType, full_attention, gated_delta_net, mtp_predictor}
use cc_infer.GgufConfig.{main_layer, main_layers, predictor_layers, layer_types_of}

predictor_layers-get_elem? :
    (n i : ℕ) → i < n → get_elem? (predictor_layers n) i ≡ some mtp_predictor
unfolding predictor_layers
predictor_layers-get_elem? zero i h = absurd (omega arith)
predictor_layers-get_elem? (suc n) zero h = refl
predictor_layers-get_elem? (suc n) (suc i) h = predictor_layers-get_elem? n i (omega arith)

main_layers-get_elem? :
    (interval first n i : ℕ) (more : List LayerType)
    → i < n
    → get_elem? (main_layers interval first n ++ more) i ≡ some (main_layer interval (first + i))
unfolding main_layers
main_layers-get_elem? interval first zero i more h = absurd (omega arith)
main_layers-get_elem? interval first (suc n) zero more h =
    ap (λ j. some (main_layer interval j)) {x = first} {y = first + 0} (omega arith)
main_layers-get_elem? interval first (suc n) (suc i) more h =
    main_layers-get_elem? interval (first + 1) n i more (omega arith)
    ∙ ap (λ j. some (main_layer interval j)) {x = first + 1 + i} {y = first + suc i} (omega arith)

main_layers-behind :
    (interval first n i : ℕ) (more : List LayerType)
    → get_elem? (main_layers interval first n ++ more) (n + i) ≡ get_elem? more i
unfolding main_layers
main_layers-behind interval first zero i more =
    ap (get_elem? more) {x = 0 + i} {y = i} (omega arith)
main_layers-behind interval first (suc n) i more =
    ap (get_elem? (main_layers interval first (suc n) ++ more)) {x = suc n + i} {y = suc (n + i)}
      (omega arith)
    ∙ main_layers-behind interval (first + 1) n i more

not_below : (i n : ℕ) → ltb i n ≡ false → n + (i - n) ≡ i
not_below i n h = ground arith

layer_at :
    (interval n_layers nextn i : ℕ)
    → i < n_layers + nextn
    → get_elem? (layer_types_of interval n_layers nextn) i
      ≡ some (if ltb i n_layers then main_layer interval i else mtp_predictor)
unfolding layer_types_of
layer_at interval n_layers nextn i h = elim (Bool-cases (ltb i n_layers)) [
  | inl main ↦ rw main (
      main_layers-get_elem? interval 0 n_layers i (predictor_layers nextn) (ltb→lt _ _ main)
      ∙ ap (λ j. some (main_layer interval j)) {x = 0 + i} {y = i} (omega arith))
  | inr behind ↦ rw behind (
      ap (get_elem? (main_layers interval 0 n_layers ++ predictor_layers nextn))
        (sym (not_below i n_layers behind))
      ∙ main_layers-behind interval 0 n_layers (i - n_layers) (predictor_layers nextn)
      ∙ predictor_layers-get_elem? nextn (i - n_layers)
          (omega (arith, h, not_below i n_layers behind)))
]

-- Behind the last index of an interval comes a multiple of it.
next_mod :
    (interval i : ℕ)
    → 0 < interval
    → (i + 1) % interval ≡ (if i % interval == interval - 1 then 0 else i % interval + 1)
next_mod interval i pos = elim (Bool-cases (i % interval == interval - 1)) [
  | inl last ↦ rw last (
      ap (λ n. n % interval) {x = i + 1} {y = suc i} (omega arith)
      ∙ suc-mod i interval
      ∙ ap (λ n. n % interval) {x = suc (i % interval)} {y = interval} (ground (arith, last))
      ∙ mod_self interval)
  | inr inside ↦ rw inside (
      ap (λ n. n % interval) {x = i + 1} {y = suc i} (omega arith)
      ∙ suc-mod i interval
      ∙ mod-eq_of_lt {n = suc (i % interval)} (ground (arith, inside, mod-lt i pos))
      ∙ omega arith)
]

main_layer_lem :
    (interval i : ℕ)
    → 0 < interval
    → main_layer interval i ≡ (if (i + 1) % interval == 0 then full_attention else gated_delta_net)
unfolding main_layer
main_layer_lem interval i pos = ground (arith, next_mod interval i pos)

-- With a positive interval, layer `i` of the main layers has full attention if `i + 1` is a
-- multiple of the interval, and else a gated delta net; the layers behind the main ones are the
-- predictors.
pub layer_types_of-get_elem? :
    (interval n_layers nextn i : ℕ)
    → 0 < interval
    → i < n_layers + nextn
    → get_elem? (layer_types_of interval n_layers nextn) i
      ≡ some (
          if ltb i n_layers
          then (if (i + 1) % interval == 0 then full_attention else gated_delta_net)
          else mtp_predictor)
layer_types_of-get_elem? interval n_layers nextn i pos h =
    layer_at interval n_layers nextn i h
    ∙ ap (λ l. some (if ltb i n_layers then l else mtp_predictor)) (main_layer_lem interval i pos)
