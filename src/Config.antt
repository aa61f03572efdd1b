-- ===== src/Config.antt =====
-- src/config/engine_config.h, src/config/engine_config.cpp: the limits of the engine, and the
-- scheduler that src/scheduler/scheduler.cpp makes from them.
pub mod Startup
use cc_infer.Base.{
  ℕ, suc, ◌+◌, ◌*◌, [], Bool, true, false, ◌&&◌, ◌||◌, Option, none, some, if◌then◌else◌, ltb, ◌==◌,
}
use cc_infer.Base.Int.{ℤ, pos, negsuc, pos_part, ltz, lez}
use cc_infer.Errors.{ErrorCode, Result, done, fail}
use cc_infer.BlockPool.{BlockPool, Build, int_max, init}
use cc_infer.BlockCache.{empty_cache}
use cc_infer.Scheduler.{Scheduler, RequestState, Limits}

pub record EngineConfig : Type 0 where
  pub device_id : ℤ
  pub max_blocks : ℤ
  pub kv_block_size : ℤ
  pub max_sequences : ℤ
  pub max_running_requests : ℤ
  pub max_concurrent_batches : ℤ
  pub max_pending_requests : ℤ
  pub max_token_budget : ℤ
  pub max_seq_prefill_tokens : ℤ
  pub default_max_context_len : ℤ
  pub state_prefix_cache_blocks : ℤ

-- The values of the fields are within their ranges.
unfoldable pub in_ranges : EngineConfig → Bool
in_ranges c =
    lez (pos 0) c.device_id
    && (ltz (pos 0) c.max_blocks
        && (ltz (pos 0) c.kv_block_size
            && (ltz (pos 0) c.max_sequences
                && (ltz (pos 0) c.max_running_requests
                    && (lez c.max_running_requests c.max_sequences
                        && (ltz (pos 0) c.max_concurrent_batches
                            && (ltz (pos 0) c.max_pending_requests
                                && (ltz (pos 0) c.max_token_budget
                                    && (lez (pos 0) c.max_seq_prefill_tokens
                                        && (ltz (pos 0) c.default_max_context_len
                                            && lez (pos 0) c.state_prefix_cache_blocks))))))))))

-- The product of two sizes that are positive.
abbrev pub context_capacity : EngineConfig → ℕ
context_capacity c = pos_part c.max_blocks * pos_part c.kv_block_size

-- `none` is the success; the error is the one that is returned.
unfoldable pub validate : EngineConfig → Option ErrorCode
unfolding in_ranges
validate c =
    if in_ranges c
    then (if context_capacity c == 0
          || (ltb int_max (context_capacity c)
              || ltb (context_capacity c) (pos_part c.default_max_context_len))
        then some ErrorCode.invalid_argument
        else none)
    else some ErrorCode.invalid_argument

abbrev pub limits_of : EngineConfig → Limits
limits_of c = record {
  max_sequences = pos_part c.max_sequences;
  max_running_requests = pos_part c.max_running_requests;
  max_pending_requests = pos_part c.max_pending_requests;
  max_token_budget = pos_part c.max_token_budget;
  max_seq_prefill_tokens = pos_part c.max_seq_prefill_tokens;
  default_max_context_len = pos_part c.default_max_context_len;
}

-- The scheduler over a pool. `blank` fills the store where no request is, and `expired` says which
-- channels are closed.
abbrev pub scheduler_over : Build → EngineConfig → RequestState → (ℕ → Bool) → BlockPool → Scheduler
scheduler_over build c blank expired pool = record {
  limits = limits_of c;
  build = build;
  heap = λ p. blank;
  next_ptr = 0;
  requests = λ id. none;
  waiting = [];
  skip = [];
  running = [];
  by_seq_id = λ q. none;
  admission_paused = false;
  block_shortage_pending = false;
  accepting = false;
  next_batch_id = 1;
  next_seq_id = 1;
  kv = record { pool = pool; cache = empty_cache };
  shutdown_requested = false;
  shutdown_done_sent = false;
  expired = expired;
  events = [];
  released_sequences = [];
}

-- The constructor asserts that the pool can be initialised.
unfoldable pub new_scheduler : Build → EngineConfig → RequestState → (ℕ → Bool) → Option Scheduler
new_scheduler build c blank expired = elim (init c.max_blocks c.kv_block_size) [
  | done pool ↦ some (scheduler_over build c blank expired pool)
  | fail e ↦ none
]
