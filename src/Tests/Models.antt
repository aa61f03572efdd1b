-- ===== src/Tests/Models.antt =====
-- A shape and a hybrid model configuration, and the theorems at them.
use cc_infer.Base.{
  ℕ, ◌*◌, ◌≤◌, ◌≡◌, refl, List, [], ◌∷◌, Bool, true, not, ◌&&◌, none, ◌==◌, if◌then◌else◌,
}
use cc_infer.Base.Int.{ℤ, pos}
use cc_infer.Errors.{ErrorCode, fail}
use cc_infer.Gguf.Spans.{product}
use cc_infer.Tensor.{bad_rank, checked_nbytes_dense}
use cc_infer.Tensor.Sizes.{all_positive, sized, checked_nbytes_dense-exact}
use cc_infer.Base.{get_elem?, some, arith}
use cc_infer.GgufConfig.{layer_types_of}
use cc_infer.GgufConfig.Layers.{layer_types_of-get_elem?}
use cc_infer.ModelConfig.{
  ModelConfig, qwen3_5, full_attention, gated_delta_net, mtp_predictor, is_sum, validate_model,
  validate_model-hybrid,
}

abbrev small_shape : List ℤ
small_shape = pos 3 ∷ pos 5 ∷ []

checked_nbytes_dense-exact_example : checked_nbytes_dense 8 4 small_shape ≡ (
    if 4 == 0
    then fail ErrorCode.unsupported
    else sized (not (bad_rank 8 small_shape) && all_positive small_shape) (product small_shape * 4))
checked_nbytes_dense-exact_example = checked_nbytes_dense-exact 8 4 small_shape

abbrev any_float : ℕ → Bool
any_float bits = true

abbrev small_hybrid : ModelConfig
small_hybrid = record {
  arch = qwen3_5;
  n_layers = pos 2;
  n_q_heads = pos 8;
  n_kv_heads = pos 2;
  d_model = pos 64;
  head_dim = pos 16;
  rotary_dim = pos 8;
  d_ff = pos 128;
  vocab_size = pos 100;
  max_seq_len = pos 32;
  rope_theta = 1176256512;
  rms_norm_eps = 897988541;
  full_attention_interval = pos 2;
  nextn_predict_layers = pos 1;
  ssm_conv_kernel = pos 4;
  ssm_state_size = pos 16;
  ssm_group_count = pos 2;
  ssm_time_step_rank = pos 4;
  ssm_inner_size = pos 64;
  layer_types = gated_delta_net ∷ full_attention ∷ mtp_predictor ∷ [];
}

small_hybrid_valid : validate_model any_float small_hybrid ≡ none
unfolding validate_model
small_hybrid_valid = refl

validate_model-hybrid_example :
    ((groups : ℕ) × (8 ≡ 2 * groups))
    × ((half : ℕ) × (8 ≡ 2 * half))
    × (8 ≤ 16)
    × (64 ≡ 4 * 16)
    × (is_sum 3 (pos 2) (pos 1) ≡ true)
validate_model-hybrid_example = validate_model-hybrid any_float small_hybrid refl small_hybrid_valid

layer_types_of-get_elem?_example : get_elem? (layer_types_of 4 8 1) 7 ≡ some full_attention
layer_types_of-get_elem?_example = layer_types_of-get_elem? 4 8 1 7 (omega arith) (omega arith)
