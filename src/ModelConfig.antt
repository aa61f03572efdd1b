-- ===== src/ModelConfig.antt =====
-- src/config/model_config.h, model_config.cpp: the description of a model and its check.
-- Floating-point fields are their bits; what `std::isfinite` and the comparison with 0 say of them is
-- a parameter.
use native.Mathlib.Nat.{div-add-mod}
use cc_infer.Base.{
  ℕ, suc, ◌+◌, ◌*◌, ◌/◌, ◌%◌, ◌≤◌, ◌≡◌, refl, ap, ◌∙◌, List, [], ◌∷◌, Bool, true, false, ◌&&◌,
  Option, none, some, ◌==◌, ==_iff, length, if◌then◌else◌, arith,
}
use cc_infer.Base.Int.{ℤ, pos, negsuc, ltz, lez, pos_part}
use cc_infer.Errors.{ErrorCode}

pub data ModelArch : Type 0 where
  qwen3 qwen3_5 unknown : ModelArch

pub data LayerType : Type 0 where
  full_attention gated_delta_net mtp_predictor : LayerType

pub record ModelConfig : Type 0 where
  pub arch : ModelArch
  pub n_layers : ℤ
  pub n_q_heads : ℤ
  pub n_kv_heads : ℤ
  pub d_model : ℤ
  pub head_dim : ℤ
  pub rotary_dim : ℤ
  pub d_ff : ℤ
  pub vocab_size : ℤ
  pub max_seq_len : ℤ
  pub rope_theta : ℕ
  pub rms_norm_eps : ℕ
  pub full_attention_interval : ℤ
  pub nextn_predict_layers : ℤ
  pub ssm_conv_kernel : ℤ
  pub ssm_state_size : ℤ
  pub ssm_group_count : ℤ
  pub ssm_time_step_rank : ℤ
  pub ssm_inner_size : ℤ
  pub layer_types : List LayerType

abbrev pub all_above_zero : List ℤ → Bool
all_above_zero [] = true
all_above_zero (z ∷ zs) = ltz (pos 0) z && all_above_zero zs

-- `n` is the sum of the two numbers.
abbrev pub is_sum : ℕ → ℤ → ℤ → Bool
is_sum n (pos a) (pos b) = n == a + b
is_sum n (pos a) (negsuc b) = n + suc b == a
is_sum n (negsuc a) (pos b) = n + suc a == b
is_sum n (negsuc a) (negsuc b) = false

unfoldable pub valid_heads : ModelConfig → Bool
valid_heads c = lez c.n_kv_heads c.n_q_heads && (pos_part c.n_q_heads % pos_part c.n_kv_heads == 0)

-- The further conditions of the hybrid models; every layer type is one of the three.
unfoldable pub valid_hybrid : ModelConfig → Bool
valid_hybrid c =
    all_above_zero (
      c.full_attention_interval ∷ c.ssm_conv_kernel ∷ c.ssm_state_size ∷ c.ssm_group_count
      ∷ c.ssm_time_step_rank ∷ c.ssm_inner_size ∷ c.rotary_dim ∷ [])
    && (lez c.rotary_dim c.head_dim
        && ((pos_part c.rotary_dim % 2 == 0)
            && ((pos_part c.ssm_inner_size % pos_part c.ssm_time_step_rank == 0)
                && ((pos_part c.ssm_inner_size / pos_part c.ssm_time_step_rank
                      == pos_part c.ssm_state_size)
                    && is_sum (length c.layer_types) c.n_layers c.nextn_predict_layers))))

both : (a b : Bool) → (a && b) ≡ true → (a ≡ true) × (b ≡ true)
both true b h = (refl, h)
both false b h = absurd cc

multiple : (a b : ℕ) → (a % b == 0) ≡ true → a ≡ b * (a / b)
multiple a b h = omega (arith, (==_iff (a % b) 0).0 h, div-add-mod a b)

pos_part-le : (y z : ℤ) → lez y z ≡ true → pos_part y ≤ pos_part z
pos_part-le (pos a) (pos b) h = ground arith
pos_part-le (pos a) (negsuc b) h = absurd cc
pos_part-le (negsuc a) (pos b) h = ground arith
pos_part-le (negsuc a) (negsuc b) h = ground arith

-- The conjuncts of `valid_hybrid` after the positive numbers.
record Hybrid (c : ModelConfig) : Type 0 where
  rotary_within : pos_part c.rotary_dim ≤ pos_part c.head_dim
  even_rotary : pos_part c.rotary_dim ≡ 2 * (pos_part c.rotary_dim / 2)
  inner_states :
      pos_part c.ssm_inner_size ≡ pos_part c.ssm_time_step_rank * pos_part c.ssm_state_size
  all_layers : is_sum (length c.layer_types) c.n_layers c.nextn_predict_layers ≡ true

valid_hybrid-Hybrid : (c : ModelConfig) → valid_hybrid c ≡ true → Hybrid c
unfolding valid_hybrid
valid_hybrid-Hybrid c h =
    let (positive, h1) = both _ _ h in
    let (within, h2) = both (lez c.rotary_dim c.head_dim) _ h1 in
    let (even, h3) = both (pos_part c.rotary_dim % 2 == 0) _ h2 in
    let (whole, h4) = both (pos_part c.ssm_inner_size % pos_part c.ssm_time_step_rank == 0) _ h3 in
    let (states, layers) =
      both (pos_part c.ssm_inner_size / pos_part c.ssm_time_step_rank == pos_part c.ssm_state_size)
        _ h4 in
    record {
      rotary_within = pos_part-le c.rotary_dim c.head_dim within;
      even_rotary = multiple (pos_part c.rotary_dim) 2 even;
      inner_states =
          multiple (pos_part c.ssm_inner_size) (pos_part c.ssm_time_step_rank) whole
          ∙ ap (λ n. pos_part c.ssm_time_step_rank * n)
              ((==_iff _ (pos_part c.ssm_state_size)).0 states);
      all_layers = layers;
    }

module _ (finite_positive : ℕ → Bool) where
  unfoldable pub valid_fields : ModelConfig → Bool
  unfolding valid_heads
  valid_fields c =
      all_above_zero (
        c.n_layers ∷ c.n_q_heads ∷ c.n_kv_heads ∷ c.head_dim ∷ c.d_model ∷ c.d_ff ∷ c.vocab_size
        ∷ c.max_seq_len ∷ [])
      && (valid_heads c && (finite_positive c.rope_theta && finite_positive c.rms_norm_eps))

  -- The error, `none` for success.
  unfoldable pub validate_model : ModelConfig → Option ErrorCode
  unfolding valid_fields valid_hybrid
  validate_model c = elim c.arch [
    | unknown ↦ some ErrorCode.model_unsupported_arch
    | qwen3 ↦ if valid_fields c then none else some ErrorCode.model_config_invalid
    | qwen3_5 ↦
        if valid_fields c && valid_hybrid c then none else some ErrorCode.model_config_invalid
  ]

  valid_fields-groups :
      (c : ModelConfig)
      → valid_fields c ≡ true
      → pos_part c.n_q_heads
        ≡ pos_part c.n_kv_heads * (pos_part c.n_q_heads / pos_part c.n_kv_heads)
  unfolding valid_fields valid_heads
  valid_fields-groups c h =
      let (positive, h1) = both _ _ h in
      let (heads, finite) = both (valid_heads c) _ h1 in
      let (fewer, whole) = both (lez c.n_kv_heads c.n_q_heads) _ heads in
      multiple (pos_part c.n_q_heads) (pos_part c.n_kv_heads) whole

  passes :
      (c : ModelConfig)
      → c.arch ≡ qwen3_5
      → validate_model c ≡ none
      → (valid_fields c && valid_hybrid c) ≡ true
  unfolding validate_model
  passes c arch ok = ground (arith, ok, arch)

  -- A hybrid configuration that passes has whole groups of query heads for each key head, an even
  -- rotary dimension within the head's, an inner state of `ssm_time_step_rank` states, and a layer
  -- type for each layer and predictor.
  pub validate_model-hybrid :
      (c : ModelConfig)
      → c.arch ≡ qwen3_5
      → validate_model c ≡ none
      → ((groups : ℕ) × (pos_part c.n_q_heads ≡ pos_part c.n_kv_heads * groups))
        × ((half : ℕ) × (pos_part c.rotary_dim ≡ 2 * half))
        × (pos_part c.rotary_dim ≤ pos_part c.head_dim)
        × (pos_part c.ssm_inner_size ≡ pos_part c.ssm_time_step_rank * pos_part c.ssm_state_size)
        × (is_sum (length c.layer_types) c.n_layers c.nextn_predict_layers ≡ true)
  validate_model-hybrid c arch ok =
      let (fields, hybrid) = both _ _ (passes c arch ok) in
      let hybrid_facts : Hybrid c = valid_hybrid-Hybrid c hybrid in
      (
        (_, valid_fields-groups c fields),
        (_, hybrid_facts.even_rotary),
        hybrid_facts.rotary_within,
        hybrid_facts.inner_states,
        hybrid_facts.all_layers,
      )
