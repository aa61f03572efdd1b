-- ===== src/Scheduler.antt =====
-- src/scheduler/scheduler.h and the small helpers of src/scheduler/scheduler.cpp: the state of the
-- scheduler.
--
-- A `RequestPtr` is a number, and `heap` has the shared object behind it, so that a change through
-- one pointer is seen through all. A request id is a string that is only compared; a number stands
-- for it. `expired` says which sinks have lost their channel, which is the environment's to change.
-- `events` is the log of what was posted to the sinks, `released_sequences` that of the calls of
-- `Executor::release_sequence`. All of it runs on the one thread of the scheduler's io_context, and
-- none of its coroutines suspends before it returns (but the idle timer), so an operation is one
-- state transformer.
pub mod Events
pub mod Work
pub mod Wait
pub mod Admit
pub mod Retire
pub mod Cleanup
pub mod Safety
use cc_infer.Base.{
  ℕ, ◌+◌, ◌-◌, List, [], Bool, true, false, Option, none, some, length, update, if◌then◌else◌, ◌&&◌,
  ltb,
}
use cc_infer.Errors.{Result}
use cc_infer.PrefixCache.{Tokens}
use cc_infer.BlockTable.{BlockTable, empty_table}
use cc_infer.BlockPool.{Build}
use cc_infer.BlockCache.{Kv, stats}
use cc_infer.Types.{
  WorkItem, prefill, decode, ScheduledBatch, SamplingParams, RequestStatus, active, finished,
  cancelled, failed, GeneratedToken, Capacity,
}

pub data GenerationPhase : Type 0 where
  prefill_phase replay_prefill bootstrap decoding : GenerationPhase

pub record SequenceReservation : Type 0 where
  pub execution_leases : ℕ
  pub reserved_prompt_tokens : ℕ
  pub reserved_generation_tokens : ℕ
  pub reserved_kv_tokens : ℕ

abbrev pub no_reservation : SequenceReservation
no_reservation = record {
  execution_leases = 0;
  reserved_prompt_tokens = 0;
  reserved_generation_tokens = 0;
  reserved_kv_tokens = 0;
}

pub record SequenceScheduleCursor : Type 0 where
  pub phase : GenerationPhase
  pub prefill_cursor : ℕ
  pub generated_tokens_in_prompt : ℕ

abbrev pub initial_cursor : SequenceScheduleCursor
initial_cursor = record {
  phase = prefill_phase;
  prefill_cursor = 0;
  generated_tokens_in_prompt = 0;
}

pub record SequenceSchedulingState : Type 0 where
  pub seq_id : ℕ
  pub reservation : SequenceReservation
  pub cursor : SequenceScheduleCursor
  pub block_table : BlockTable
  pub executed_frontier : ℕ
  pub parent_hash : ℕ
  pub pending_hash_tokens : Tokens

pub record RequestState : Type 0 where
  pub request_id : ℕ
  pub initial_prompt_tokens : Tokens
  pub prompt_tokens : Tokens
  pub status : RequestStatus
  pub generated_tokens : Tokens
  pub sampling : SamplingParams
  pub max_context_len : ℕ
  pub sink : ℕ
  pub scheduling : Option SequenceSchedulingState

-- The limits of `EngineConfig` that the scheduler reads, once validated.
pub record Limits : Type 0 where
  pub max_sequences : ℕ
  pub max_running_requests : ℕ
  pub max_pending_requests : ℕ
  pub max_token_budget : ℕ
  pub max_seq_prefill_tokens : ℕ
  pub default_max_context_len : ℕ

pub record Event : Type 0 where
  pub to_sink : ℕ
  pub outcome : Result GeneratedToken

pub record Scheduler : Type 0 where
  pub limits : Limits
  pub build : Build
  pub heap : ℕ → RequestState
  pub next_ptr : ℕ
  pub requests : ℕ → Option ℕ
  pub waiting : List ℕ
  pub skip : List ℕ
  pub running : List ℕ
  pub by_seq_id : ℕ → Option ℕ
  pub admission_paused : Bool
  pub block_shortage_pending : Bool
  pub accepting : Bool
  pub next_batch_id : ℕ
  pub next_seq_id : ℕ
  pub kv : Kv
  pub shutdown_requested : Bool
  pub shutdown_done_sent : Bool
  pub expired : ℕ → Bool
  pub events : List Event
  pub released_sequences : List ℕ

pub record BatchBuildContext : Type 0 where
  pub batch : ScheduledBatch
  pub token_budget : ℕ
  pub sampling_set : Bool

abbrev pub set_request : Scheduler → ℕ → RequestState → Scheduler
set_request s p state = record s { heap = update s.heap p state }

abbrev pub set_scheduling : Scheduler → ℕ → SequenceSchedulingState → Scheduler
set_scheduling s p scheduling = set_request s p (record (s.heap p) { scheduling = some scheduling })

abbrev pub set_status : Scheduler → ℕ → RequestStatus → Scheduler
set_status s p status = set_request s p (record (s.heap p) { status = status })

abbrev pub generated_token_count : RequestState → ℕ
generated_token_count state = length state.generated_tokens

abbrev pub kv_token_count : WorkItem → ℕ
kv_token_count (prefill w) = w.prompt_span.length
kv_token_count (decode w) = if w.write_kv then 1 else 0

abbrev pub is_active : RequestStatus → Bool
is_active active = true
is_active finished = false
is_active cancelled = false
is_active failed = false

abbrev pub is_cancelled : RequestStatus → Bool
is_cancelled cancelled = true
is_cancelled active = false
is_cancelled finished = false
is_cancelled failed = false

abbrev pub is_finished : RequestStatus → Bool
is_finished finished = true
is_finished active = false
is_finished cancelled = false
is_finished failed = false

abbrev pub has_scheduling : RequestState → Bool
has_scheduling state = elim state.scheduling [ none ↦ false | some x ↦ true ]

abbrev pub is_schedulable_state : RequestState → Bool
is_schedulable_state state = is_active state.status && has_scheduling state

abbrev pub is_prefill_phase : GenerationPhase → Bool
is_prefill_phase prefill_phase = true
is_prefill_phase replay_prefill = true
is_prefill_phase bootstrap = false
is_prefill_phase decoding = false

abbrev pub is_decode_phase : GenerationPhase → Bool
is_decode_phase prefill_phase = false
is_decode_phase replay_prefill = false
is_decode_phase bootstrap = true
is_decode_phase decoding = true

abbrev pub is_bootstrap : GenerationPhase → Bool
is_bootstrap bootstrap = true
is_bootstrap prefill_phase = false
is_bootstrap replay_prefill = false
is_bootstrap decoding = false

abbrev pub is_replay : GenerationPhase → Bool
is_replay replay_prefill = true
is_replay prefill_phase = false
is_replay bootstrap = false
is_replay decoding = false

abbrev pub room_to_run : Scheduler → Bool
room_to_run s = ltb (length s.running) s.limits.max_running_requests

pub capacity : Scheduler → Capacity
capacity s =
    let st = stats s.kv in
    record {
      max_sequences = s.limits.max_sequences;
      active_sequences = length s.running + length s.skip;
      free_blocks = st.block_free;
      max_blocks = st.block_total;
      block_size = st.block_size;
      block_active = st.block_active;
      block_cached_idle = st.block_cached_idle;
      prefix_lookup_hits = st.lookup_hits;
      prefix_lookup_misses = st.lookup_misses;
      prefix_evictions = st.evictions;
      prefix_cached_blocks = st.cached_blocks;
    }
