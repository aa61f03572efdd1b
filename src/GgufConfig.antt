-- ===== src/GgufConfig.antt =====
-- src/checkpoint/gguf/config_loader.cpp: the model configuration of a GGUF file. `none` is the
-- exception of `as_string` on another value.
pub mod Keys
pub mod Layers
use cc_infer.Base.{
  ℕ, zero, suc, ◌+◌, ◌-◌, ◌*◌, ◌%◌, ◌^◌, List, [], ◌∷◌, ◌++◌, Bool, true, false, ◌&&◌, ◌||◌, not,
  Option, none, some, ltb, leb, ◌==◌, length, last?, if◌then◌else◌,
}
use cc_infer.Base.Int.{ℤ, pos, negsuc}
use cc_infer.Base.Dict.{same_list, same_int}
use cc_infer.Errors.{Result, done, fail, ErrorCode, Outcome, and_then}
use cc_infer.Gguf.{GgufMetadataValue, GgufValues, no_value, value}
use cc_infer.Gguf.Tensors.{GgufTensorInfo}
use cc_infer.Gguf.Reader.{GgufReader}
use cc_infer.Gguf.Access.{as_string, as_u64, as_f32, as_array, metadata_of, find_tensor}
use cc_infer.ModelConfig.{
  ModelConfig, ModelArch, qwen3_5, LayerType, full_attention, gated_delta_net, mtp_predictor,
  validate_model,
}
use cc_infer.Tokenizer.FromGguf.{i64_to_i32, tokens_key}
use Keys.{
  architecture_key, qwen35_key, block_count_key, embedding_length_key, feed_forward_length_key,
  head_count_key, head_count_kv_key, key_length_key, context_length_key, attention_interval_key,
  nextn_layers_key, conv_kernel_key, state_size_key, group_count_key, time_step_rank_key,
  inner_size_key, freq_base_key, dimension_count_key, rms_epsilon_key, token_embd_key,
}

abbrev pub invalid {ℓ} : {A : Type ℓ} → Outcome A
invalid = some (fail ErrorCode.model_config_invalid)

abbrev pub unsupported_arch {ℓ} : {A : Type ℓ} → Outcome A
unsupported_arch = some (fail ErrorCode.model_unsupported_arch)

-- `metadata_int`: an unsigned number that fits an `int`.
unfoldable pub metadata_int : GgufReader → List ℕ → Option ℕ
unfolding metadata_of as_u64
metadata_int reader key = elim (metadata_of reader key) [
  | none ↦ none
  | some v ↦ elim (as_u64 v) [ none ↦ none | some n ↦ if ltb (2 ^ 31 - 1) n then none else some n ]
]

unfoldable pub get_int : GgufReader → List ℕ → Outcome ℕ
unfolding metadata_int
get_int reader key = elim (metadata_int reader key) [ none ↦ invalid | some n ↦ some (done n) ]

-- The type of main layer `i`.
unfoldable pub main_layer : ℕ → ℕ → LayerType
main_layer interval i =
    if ltb 0 interval && (i % interval == interval - 1) then full_attention else gated_delta_net

-- The loop over the main layers from `i` on, of which `n` are left.
unfoldable pub main_layers : ℕ → ℕ → ℕ → List LayerType
unfolding main_layer
main_layers interval i zero = []
main_layers interval i (suc n) = main_layer interval i ∷ main_layers interval (i + 1) n

unfoldable pub predictor_layers : ℕ → List LayerType
predictor_layers zero = []
predictor_layers (suc n) = mtp_predictor ∷ predictor_layers n

-- The main layers, then the predictor layers.
unfoldable pub layer_types_of : ℕ → ℕ → ℕ → List LayerType
unfolding main_layers predictor_layers
layer_types_of interval n_layers nextn = main_layers interval 0 n_layers ++ predictor_layers nextn

abbrev pub count_values : GgufValues → ℕ
count_values no_value = 0
count_values (value v vs) = suc (count_values vs)

-- The embedded tokens, where there are some, are as many as the vocabulary.
unfoldable pub tokens_agree : GgufReader → ℤ → Bool
unfolding metadata_of as_array i64_to_i32
tokens_agree reader vocab = elim (metadata_of reader tokens_key) [
  | none ↦ true
  | some v ↦ elim (as_array v) [
    | none ↦ true
    | some vs ↦ same_int (i64_to_i32 (pos (count_values vs))) vocab
  ]
]

-- The size of the vocabulary from the token embedding.
unfoldable pub vocab_of : GgufReader → Outcome ℤ
unfolding find_tensor i64_to_i32
vocab_of reader = elim (find_tensor reader token_embd_key) [
  | none ↦ some (fail ErrorCode.model_load_failed)
  | some info ↦ elim (last? info.dims) [
    | none ↦ some (fail ErrorCode.model_load_failed)
    | some dim ↦ some (done (i64_to_i32 dim))
  ]
]

-- The conversions between floating-point widths, and the test of their values.
module _ (widen narrow : ℕ → ℕ) (finite_positive : ℕ → Bool) where
  unfoldable pub metadata_f32 : GgufReader → List ℕ → Outcome ℕ
  unfolding metadata_of as_f32
  metadata_f32 reader key = elim (metadata_of reader key) [
    | none ↦ invalid
    | some v ↦ elim (as_f32 widen narrow v) [ none ↦ invalid | some bits ↦ some (done bits) ]
  ]

  -- The checks at the end.
  unfoldable pub checked_config : GgufReader → ModelConfig → Outcome ModelConfig
  unfolding tokens_agree validate_model
  checked_config reader cfg =
      if tokens_agree reader cfg.vocab_size
      then elim (validate_model finite_positive cfg) [
        | none ↦ some (done cfg)
        | some e ↦ some (fail e)
      ]
      else invalid

  unfoldable pub load_qwen35 : GgufReader → Outcome ModelConfig
  unfolding get_int metadata_f32 layer_types_of vocab_of checked_config
  load_qwen35 reader = and_then (get_int reader block_count_key) λ blocks.
      and_then (get_int reader embedding_length_key) λ d_model.
        and_then (get_int reader feed_forward_length_key) λ d_ff.
          and_then (get_int reader head_count_key) λ q_heads.
            and_then (get_int reader head_count_kv_key) λ kv_heads.
              and_then (get_int reader key_length_key) λ head_dim.
                and_then (get_int reader context_length_key) λ max_seq_len.
                  and_then (get_int reader attention_interval_key) λ interval.
                    and_then (get_int reader nextn_layers_key) λ nextn. elim (leb blocks nextn) [
                      | true ↦ invalid
                      | false ↦ and_then (get_int reader conv_kernel_key) λ conv.
                          and_then (get_int reader state_size_key) λ state_size.
                            and_then (get_int reader group_count_key) λ groups.
                              and_then (get_int reader time_step_rank_key) λ rank.
                                and_then (get_int reader inner_size_key) λ inner.
                                  and_then (metadata_f32 reader freq_base_key) λ theta.
                                    and_then (get_int reader dimension_count_key) λ rotary.
                                      and_then (metadata_f32 reader rms_epsilon_key) λ eps.
                                        and_then (vocab_of reader) λ vocab.
                                          checked_config reader (record {
                                            arch = qwen3_5;
                                            n_layers = pos (blocks - nextn);
                                            n_q_heads = pos q_heads;
                                            n_kv_heads = pos kv_heads;
                                            d_model = pos d_model;
                                            head_dim = pos head_dim;
                                            rotary_dim = pos rotary;
                                            d_ff = pos d_ff;
                                            vocab_size = vocab;
                                            max_seq_len = pos max_seq_len;
                                            rope_theta = theta;
                                            rms_norm_eps = eps;
                                            full_attention_interval = pos interval;
                                            nextn_predict_layers = pos nextn;
                                            ssm_conv_kernel = pos conv;
                                            ssm_state_size = pos state_size;
                                            ssm_group_count = pos groups;
                                            ssm_time_step_rank = pos rank;
                                            ssm_inner_size = pos inner;
                                            layer_types =
                                                layer_types_of interval (blocks - nextn) nextn;
                                          })
                    ]

  unfoldable pub load_config : GgufReader → Outcome ModelConfig
  unfolding metadata_of as_string load_qwen35
  load_config reader = elim (metadata_of reader architecture_key) [
    | none ↦ unsupported_arch
    | some v ↦ elim (as_string v) [
      | none ↦ none
      | some arch ↦ if same_list arch qwen35_key then load_qwen35 reader else unsupported_arch
    ]
  ]
