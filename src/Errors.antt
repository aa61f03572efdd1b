-- ===== src/Errors.antt =====
-- src/base/error.h: the error codes, their messages and the result type.
use Prim.Native.String.{String}
use mathlib.Core.Option.{Option, none, some}

pub data ErrorCode : Type 0 where
  ok cuda_out_of_memory cuda_launch_failed cuda_invalid_value cuda_runtime_error : ErrorCode
  cublas_error invalid_argument model_load_failed model_config_invalid : ErrorCode
  model_shape_mismatch model_unsupported_arch model_unsupported_dtype : ErrorCode
  kv_block_exhausted request_too_long request_cancelled server_shutting_down : ErrorCode
  max_sequences_reached request_queue_full channel_closed channel_cancelled : ErrorCode
  channel_error network_bind_failed unsupported internal_error : ErrorCode

pub error_message : ErrorCode → String
error_message ErrorCode.ok = "ok"
error_message ErrorCode.cuda_out_of_memory = "CUDA out of memory"
error_message ErrorCode.cuda_launch_failed = "CUDA kernel launch failed"
error_message ErrorCode.cuda_invalid_value = "CUDA invalid value"
error_message ErrorCode.cuda_runtime_error = "CUDA runtime error"
error_message ErrorCode.cublas_error = "cuBLAS error"
error_message ErrorCode.invalid_argument = "invalid argument"
error_message ErrorCode.model_load_failed = "model load failed"
error_message ErrorCode.model_config_invalid = "model config invalid"
error_message ErrorCode.model_shape_mismatch = "model shape mismatch"
error_message ErrorCode.model_unsupported_arch = "unsupported model architecture"
error_message ErrorCode.model_unsupported_dtype = "unsupported model dtype"
error_message ErrorCode.kv_block_exhausted = "KV cache block exhausted"
error_message ErrorCode.request_too_long = "request too long"
error_message ErrorCode.request_cancelled = "request cancelled"
error_message ErrorCode.server_shutting_down = "server shutting down"
error_message ErrorCode.max_sequences_reached = "maximum concurrent sequences reached"
error_message ErrorCode.request_queue_full = "request queue full"
error_message ErrorCode.channel_closed = "asio channel closed"
error_message ErrorCode.channel_cancelled = "asio channel operation cancelled"
error_message ErrorCode.channel_error = "asio channel error"
error_message ErrorCode.network_bind_failed = "network bind failed"
error_message ErrorCode.unsupported = "unsupported operation"
error_message ErrorCode.internal_error = "internal error"

-- `std::expected<T, ErrorCode>`.
pub data Result {ℓ} (A : Type ℓ) : Type ℓ where
  done : A → Result A
  fail : ErrorCode → Result A

-- A result of code that may fail an assertion, read out of bounds, throw or run out of fuel: `none`.
abbrev pub Outcome {ℓ} : Type ℓ → Type ℓ
Outcome A = Option (Result A)

-- What follows a result that is a value.
abbrev pub and_then {ℓ κ} : {A : Type ℓ} {B : Type κ} → Outcome A → (A → Outcome B) → Outcome B
and_then none f = none
and_then (some (fail e)) f = some (fail e)
and_then (some (done a)) f = f a

-- The outcome is an error, or a value with the property.
pub data Ends {A : Type 0} (P : A → Type 0) : Outcome A → Type 0 where
  stopped : (e : ErrorCode) → Ends P (some (fail e))
  finished : (a : A) → P a → Ends P (some (done a))

pub and_then-Ends :
    {A B : Type 0} {P : A → Type 0} {Q : B → Type 0} {o : Outcome A} {f : A → Outcome B}
    → Ends P o
    → ((a : A) → P a → Ends Q (f a))
    → Ends Q (and_then o f)
and_then-Ends (stopped e) next = stopped e
and_then-Ends (finished a p) next = next a p
