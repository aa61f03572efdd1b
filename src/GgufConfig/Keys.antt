-- ===== src/GgufConfig/Keys.antt =====
-- src/checkpoint/gguf/config_loader.cpp: the keys of the metadata.
use cc_infer.Base.{List, [], ◌∷◌, ℕ}

abbrev pub architecture_key : List ℕ
architecture_key =
    b'g' ∷ b'e' ∷ b'n' ∷ b'e' ∷ b'r' ∷ b'a' ∷ b'l' ∷ b'.' ∷ b'a' ∷ b'r' ∷ b'c' ∷ b'h' ∷ b'i' ∷ b't'
    ∷ b'e' ∷ b'c' ∷ b't' ∷ b'u' ∷ b'r' ∷ b'e' ∷ []

abbrev pub qwen35_key : List ℕ
qwen35_key = b'q' ∷ b'w' ∷ b'e' ∷ b'n' ∷ b'3' ∷ b'5' ∷ []

abbrev pub block_count_key : List ℕ
block_count_key =
    b'q' ∷ b'w' ∷ b'e' ∷ b'n' ∷ b'3' ∷ b'5' ∷ b'.' ∷ b'b' ∷ b'l' ∷ b'o' ∷ b'c' ∷ b'k' ∷ b'_' ∷ b'c'
    ∷ b'o' ∷ b'u' ∷ b'n' ∷ b't' ∷ []

abbrev pub embedding_length_key : List ℕ
embedding_length_key =
    b'q' ∷ b'w' ∷ b'e' ∷ b'n' ∷ b'3' ∷ b'5' ∷ b'.' ∷ b'e' ∷ b'm' ∷ b'b' ∷ b'e' ∷ b'd' ∷ b'd' ∷ b'i'
    ∷ b'n' ∷ b'g' ∷ b'_' ∷ b'l' ∷ b'e' ∷ b'n' ∷ b'g' ∷ b't' ∷ b'h' ∷ []

abbrev pub feed_forward_length_key : List ℕ
feed_forward_length_key =
    b'q' ∷ b'w' ∷ b'e' ∷ b'n' ∷ b'3' ∷ b'5' ∷ b'.' ∷ b'f' ∷ b'e' ∷ b'e' ∷ b'd' ∷ b'_' ∷ b'f' ∷ b'o'
    ∷ b'r' ∷ b'w' ∷ b'a' ∷ b'r' ∷ b'd' ∷ b'_' ∷ b'l' ∷ b'e' ∷ b'n' ∷ b'g' ∷ b't' ∷ b'h' ∷ []

abbrev pub head_count_key : List ℕ
head_count_key =
    b'q' ∷ b'w' ∷ b'e' ∷ b'n' ∷ b'3' ∷ b'5' ∷ b'.' ∷ b'a' ∷ b't' ∷ b't' ∷ b'e' ∷ b'n' ∷ b't' ∷ b'i'
    ∷ b'o' ∷ b'n' ∷ b'.' ∷ b'h' ∷ b'e' ∷ b'a' ∷ b'd' ∷ b'_' ∷ b'c' ∷ b'o' ∷ b'u' ∷ b'n' ∷ b't' ∷ []

abbrev pub head_count_kv_key : List ℕ
head_count_kv_key =
    b'q' ∷ b'w' ∷ b'e' ∷ b'n' ∷ b'3' ∷ b'5' ∷ b'.' ∷ b'a' ∷ b't' ∷ b't' ∷ b'e' ∷ b'n' ∷ b't' ∷ b'i'
    ∷ b'o' ∷ b'n' ∷ b'.' ∷ b'h' ∷ b'e' ∷ b'a' ∷ b'd' ∷ b'_' ∷ b'c' ∷ b'o' ∷ b'u' ∷ b'n' ∷ b't'
    ∷ b'_' ∷ b'k' ∷ b'v' ∷ []

abbrev pub key_length_key : List ℕ
key_length_key =
    b'q' ∷ b'w' ∷ b'e' ∷ b'n' ∷ b'3' ∷ b'5' ∷ b'.' ∷ b'a' ∷ b't' ∷ b't' ∷ b'e' ∷ b'n' ∷ b't' ∷ b'i'
    ∷ b'o' ∷ b'n' ∷ b'.' ∷ b'k' ∷ b'e' ∷ b'y' ∷ b'_' ∷ b'l' ∷ b'e' ∷ b'n' ∷ b'g' ∷ b't' ∷ b'h' ∷ []

abbrev pub context_length_key : List ℕ
context_length_key =
    b'q' ∷ b'w' ∷ b'e' ∷ b'n' ∷ b'3' ∷ b'5' ∷ b'.' ∷ b'c' ∷ b'o' ∷ b'n' ∷ b't' ∷ b'e' ∷ b'x' ∷ b't'
    ∷ b'_' ∷ b'l' ∷ b'e' ∷ b'n' ∷ b'g' ∷ b't' ∷ b'h' ∷ []

abbrev pub attention_interval_key : List ℕ
attention_interval_key =
    b'q' ∷ b'w' ∷ b'e' ∷ b'n' ∷ b'3' ∷ b'5' ∷ b'.' ∷ b'f' ∷ b'u' ∷ b'l' ∷ b'l' ∷ b'_' ∷ b'a' ∷ b't'
    ∷ b't' ∷ b'e' ∷ b'n' ∷ b't' ∷ b'i' ∷ b'o' ∷ b'n' ∷ b'_' ∷ b'i' ∷ b'n' ∷ b't' ∷ b'e' ∷ b'r'
    ∷ b'v' ∷ b'a' ∷ b'l' ∷ []

abbrev pub nextn_layers_key : List ℕ
nextn_layers_key =
    b'q' ∷ b'w' ∷ b'e' ∷ b'n' ∷ b'3' ∷ b'5' ∷ b'.' ∷ b'n' ∷ b'e' ∷ b'x' ∷ b't' ∷ b'n' ∷ b'_' ∷ b'p'
    ∷ b'r' ∷ b'e' ∷ b'd' ∷ b'i' ∷ b'c' ∷ b't' ∷ b'_' ∷ b'l' ∷ b'a' ∷ b'y' ∷ b'e' ∷ b'r' ∷ b's' ∷ []

abbrev pub conv_kernel_key : List ℕ
conv_kernel_key =
    b'q' ∷ b'w' ∷ b'e' ∷ b'n' ∷ b'3' ∷ b'5' ∷ b'.' ∷ b's' ∷ b's' ∷ b'm' ∷ b'.' ∷ b'c' ∷ b'o' ∷ b'n'
    ∷ b'v' ∷ b'_' ∷ b'k' ∷ b'e' ∷ b'r' ∷ b'n' ∷ b'e' ∷ b'l' ∷ []

abbrev pub state_size_key : List ℕ
state_size_key =
    b'q' ∷ b'w' ∷ b'e' ∷ b'n' ∷ b'3' ∷ b'5' ∷ b'.' ∷ b's' ∷ b's' ∷ b'm' ∷ b'.' ∷ b's' ∷ b't' ∷ b'a'
    ∷ b't' ∷ b'e' ∷ b'_' ∷ b's' ∷ b'i' ∷ b'z' ∷ b'e' ∷ []

abbrev pub group_count_key : List ℕ
group_count_key =
    b'q' ∷ b'w' ∷ b'e' ∷ b'n' ∷ b'3' ∷ b'5' ∷ b'.' ∷ b's' ∷ b's' ∷ b'm' ∷ b'.' ∷ b'g' ∷ b'r' ∷ b'o'
    ∷ b'u' ∷ b'p' ∷ b'_' ∷ b'c' ∷ b'o' ∷ b'u' ∷ b'n' ∷ b't' ∷ []

abbrev pub time_step_rank_key : List ℕ
time_step_rank_key =
    b'q' ∷ b'w' ∷ b'e' ∷ b'n' ∷ b'3' ∷ b'5' ∷ b'.' ∷ b's' ∷ b's' ∷ b'm' ∷ b'.' ∷ b't' ∷ b'i' ∷ b'm'
    ∷ b'e' ∷ b'_' ∷ b's' ∷ b't' ∷ b'e' ∷ b'p' ∷ b'_' ∷ b'r' ∷ b'a' ∷ b'n' ∷ b'k' ∷ []

abbrev pub inner_size_key : List ℕ
inner_size_key =
    b'q' ∷ b'w' ∷ b'e' ∷ b'n' ∷ b'3' ∷ b'5' ∷ b'.' ∷ b's' ∷ b's' ∷ b'm' ∷ b'.' ∷ b'i' ∷ b'n' ∷ b'n'
    ∷ b'e' ∷ b'r' ∷ b'_' ∷ b's' ∷ b'i' ∷ b'z' ∷ b'e' ∷ []

abbrev pub freq_base_key : List ℕ
freq_base_key =
    b'q' ∷ b'w' ∷ b'e' ∷ b'n' ∷ b'3' ∷ b'5' ∷ b'.' ∷ b'r' ∷ b'o' ∷ b'p' ∷ b'e' ∷ b'.' ∷ b'f' ∷ b'r'
    ∷ b'e' ∷ b'q' ∷ b'_' ∷ b'b' ∷ b'a' ∷ b's' ∷ b'e' ∷ []

abbrev pub dimension_count_key : List ℕ
dimension_count_key =
    b'q' ∷ b'w' ∷ b'e' ∷ b'n' ∷ b'3' ∷ b'5' ∷ b'.' ∷ b'r' ∷ b'o' ∷ b'p' ∷ b'e' ∷ b'.' ∷ b'd' ∷ b'i'
    ∷ b'm' ∷ b'e' ∷ b'n' ∷ b's' ∷ b'i' ∷ b'o' ∷ b'n' ∷ b'_' ∷ b'c' ∷ b'o' ∷ b'u' ∷ b'n' ∷ b't' ∷ []

abbrev pub rms_epsilon_key : List ℕ
rms_epsilon_key =
    b'q' ∷ b'w' ∷ b'e' ∷ b'n' ∷ b'3' ∷ b'5' ∷ b'.' ∷ b'a' ∷ b't' ∷ b't' ∷ b'e' ∷ b'n' ∷ b't' ∷ b'i'
    ∷ b'o' ∷ b'n' ∷ b'.' ∷ b'l' ∷ b'a' ∷ b'y' ∷ b'e' ∷ b'r' ∷ b'_' ∷ b'n' ∷ b'o' ∷ b'r' ∷ b'm'
    ∷ b'_' ∷ b'r' ∷ b'm' ∷ b's' ∷ b'_' ∷ b'e' ∷ b'p' ∷ b's' ∷ b'i' ∷ b'l' ∷ b'o' ∷ b'n' ∷ []

abbrev pub token_embd_key : List ℕ
token_embd_key =
    b't' ∷ b'o' ∷ b'k' ∷ b'e' ∷ b'n' ∷ b'_' ∷ b'e' ∷ b'm' ∷ b'b' ∷ b'd' ∷ b'.' ∷ b'w' ∷ b'e' ∷ b'i'
    ∷ b'g' ∷ b'h' ∷ b't' ∷ []
