-- ===== src/Scheduler/Retire.antt =====
-- src/scheduler/scheduler.cpp: what comes back from the executor (`retire_reservation`,
-- `retire_work`, `update_from_output`, `fail_batch`).
--
-- `none` is a failed assertion, a read out of range, or fuel that ran out in the loop that publishes
-- blocks, whose fuel is one more than the pending tokens, of which a round takes one at least.
use cc_infer.Base.{
  ℕ, zero, suc, ◌+◌, ◌-◌, ◌/◌, List, [], ◌∷◌, ◌++◌, Bool, true, false, Option, none, some, length,
  if◌then◌else◌, ◌&&◌, ◌||◌, ◌==◌, not, ltb, leb, max, last?, take, drop, get_elem?, is_empty,
  assert, ◌>>=◌,
}
use cc_infer.Errors.{ErrorCode}
use cc_infer.PrefixCache.{Tokens}
use cc_infer.BlockCache.{Kv, publish_full_block}
use cc_infer.Types.{
  WorkItem, prefill, decode, PrefillChunk, WorkKind, prefill_chunk, decode_one_token,
  WorkItemResult, BatchResult, ScheduledBatch, work_sequence_id, work_kind, finished,
}
use cc_infer.Scheduler.{
  Scheduler, RequestState, SequenceSchedulingState, SequenceReservation, decoding, set_request,
  set_scheduling, generated_token_count, kv_token_count, is_active, is_finished,
  is_schedulable_state, is_bootstrap, is_replay,
}
use cc_infer.Scheduler.Events.{send_token_event, send_terminal_event, send_error_event}

abbrev pub item_needs_sample : WorkItem → Bool
item_needs_sample (prefill w) = w.needs_sample
item_needs_sample (decode w) = true

abbrev pub item_prompt_tokens : WorkItem → ℕ
item_prompt_tokens (prefill w) = w.prompt_span.length
item_prompt_tokens (decode w) = 0

-- Each field stops at 0.
unfoldable pub retired_reservation : WorkItem → SequenceReservation → SequenceReservation
retired_reservation item r = record {
  execution_leases = r.execution_leases - 1;
  reserved_prompt_tokens = r.reserved_prompt_tokens - item_prompt_tokens item;
  reserved_generation_tokens =
      if item_needs_sample item
      then r.reserved_generation_tokens - 1
      else r.reserved_generation_tokens;
  reserved_kv_tokens = r.reserved_kv_tokens - kv_token_count item;
}

unfoldable pub retire_reservation : ℕ → WorkItem → Scheduler → Scheduler
unfolding retired_reservation
retire_reservation p item s = elim (s.heap p).scheduling [
  | none ↦ s
  | some sch ↦
      set_scheduling s p (record sch { reservation = retired_reservation item sch.reservation })
]

abbrev pub context_before : WorkItem → ℕ
context_before (prefill w) = elim w.expected_context_len [ none ↦ 0 | some n ↦ n ]
context_before (decode w) = elim w.expected_context_len [ none ↦ 0 | some n ↦ n ]

-- The loop that publishes the full blocks of the pending tokens.
unfoldable pub publish_blocks :
    ℕ → ℕ → SequenceSchedulingState → Kv → Option (SequenceSchedulingState × Kv)
publish_blocks zero block_index sch kv = none
publish_blocks (suc fuel) block_index sch kv =
    elim (leb kv.pool.block_size (length sch.pending_hash_tokens)) [
      | false ↦ some (sch, kv)
      | true ↦ get_elem? sch.block_table.block_ids block_index >>= λ id.
          publish_full_block sch.parent_hash (take kv.pool.block_size sch.pending_hash_tokens) id 0
            kv
          >>= λ r.
              publish_blocks fuel (block_index + 1)
                (record sch {
                  parent_hash = r.0;
                  pending_hash_tokens = drop kv.pool.block_size sch.pending_hash_tokens;
                })
                r.1
    ]

abbrev pub last_as_list : Tokens → Tokens
last_as_list tokens = elim (last? tokens) [ none ↦ [] | some t ↦ t ∷ [] ]

-- The tokens whose keys and values the item wrote.
abbrev pub written_tokens : WorkItem → RequestState → Tokens
written_tokens (prefill w) state = w.tokens
written_tokens (decode w) state = last_as_list state.generated_tokens

-- `block_index >= 0` for the first block: the division of signed numbers rounds towards 0, and with
-- a negative index there is a full block to publish.
abbrev pub not_negative : WorkItem → SequenceSchedulingState → Kv → Bool
not_negative item sch kv =
    ltb (length sch.pending_hash_tokens) (context_before item + kv.pool.block_size)

unfoldable pub record_written :
    ℕ → WorkItem → SequenceSchedulingState → Scheduler → Option Scheduler
unfolding publish_blocks
record_written p item sch s =
    let pending = sch.pending_hash_tokens ++ written_tokens item (s.heap p) in
    let index = (context_before item - length sch.pending_hash_tokens) / s.kv.pool.block_size in
    if kv_token_count item == 0
    then some s
    else assert (not_negative item sch s.kv) (
        publish_blocks (length pending + 1) index (record sch { pending_hash_tokens = pending })
          s.kv
        >>= λ r. some (set_scheduling (record s { kv = r.1 }) p r.0))

abbrev pub after_bootstrap : SequenceSchedulingState → SequenceSchedulingState
after_bootstrap sch = record sch {
  cursor = record (sch.cursor) {
    phase = if is_bootstrap sch.cursor.phase then decoding else sch.cursor.phase;
  };
}

abbrev pub scheduling_after_token : Option SequenceSchedulingState → Option SequenceSchedulingState
scheduling_after_token none = none
scheduling_after_token (some sch) = some (after_bootstrap sch)

-- The sampled token is appended, if there is one.
abbrev pub with_sampled : Tokens → RequestState → RequestState
with_sampled [] state = state
with_sampled (t ∷ ts) state = record state {
  generated_tokens = state.generated_tokens ++ t ∷ [];
  scheduling = scheduling_after_token state.scheduling;
}

abbrev pub reaches_limit : WorkItemResult → RequestState → Bool
reaches_limit result state =
    result.eos
    || leb state.sampling.max_tokens
        (generated_token_count state + (if is_empty result.sampled_tokens then 0 else 1))

abbrev pub with_finished : Bool → RequestState → RequestState
with_finished done state =
    if done || leb state.sampling.max_tokens (generated_token_count state)
    then record state { status = finished }
    else state

-- From the test of the limits on.
unfoldable pub record_sampled : ℕ → WorkItemResult → Scheduler → Option Scheduler
record_sampled p result s =
    let state = s.heap p in
    let done = reaches_limit result state in
    let state' = with_finished done (with_sampled result.sampled_tokens state) in
    let s' = set_request s p state' in
    if is_empty result.sampled_tokens
    then some (if is_finished state'.status then send_terminal_event p s' else s')
    else send_token_event p s'

-- A prefill chunk; `none` in the result says that it was not the last one of the prompt.
abbrev pub retire_chunk :
    PrefillChunk
    → WorkItemResult
    → RequestState
    → SequenceSchedulingState
    → Option (Bool × SequenceSchedulingState)
retire_chunk chunk result state sch =
    let cursor' = sch.cursor.prefill_cursor + result.tokens_consumed in
    let prompt_len = length state.prompt_tokens in
    let final = leb prompt_len cursor' in
    let without_sample =
      is_replay sch.cursor.phase
      && (not (is_empty state.generated_tokens)
          && (is_empty result.sampled_tokens && not result.eos)) in
    assert (result.tokens_consumed == chunk.prompt_span.length) (
      assert (ltb 0 result.tokens_consumed) (
        assert (sch.cursor.prefill_cursor == chunk.prompt_span.start) (
          assert (leb cursor' prompt_len) (
            assert
              (if final
                then not (is_empty result.sampled_tokens) || (result.eos || without_sample)
                else is_empty result.sampled_tokens && not result.eos)
              (some (
                final,
                record sch {
                  cursor = record (sch.cursor) {
                    prefill_cursor = cursor';
                    phase = if final then decoding else sch.cursor.phase;
                  };
                  executed_frontier =
                      max sch.executed_frontier
                        (context_before (prefill chunk) + result.tokens_consumed);
                },
              ))))))

-- The cursor and the frontier after the item; `false` says that `retire_work` returns there.
abbrev pub advance :
    WorkItem
    → WorkItemResult
    → RequestState
    → SequenceSchedulingState
    → Option (Bool × SequenceSchedulingState)
advance (prefill w) result state sch = retire_chunk w result state sch
advance (decode w) result state sch = assert (result.tokens_consumed == 1) (
    some (
      true,
      record sch {
        executed_frontier =
            max sch.executed_frontier (context_before (decode w) + kv_token_count (decode w));
      },
    ))

abbrev same_kind : WorkKind → WorkKind → Bool
same_kind prefill_chunk prefill_chunk = true
same_kind prefill_chunk decode_one_token = false
same_kind decode_one_token prefill_chunk = false
same_kind decode_one_token decode_one_token = true

-- The sequence `p` has scheduling state `sch`, its reservation retired, and the result counts.
unfoldable pub retire_live :
    ℕ → WorkItem → WorkItemResult → SequenceSchedulingState → Scheduler → Option Scheduler
unfolding record_written record_sampled
retire_live p item result sch s = advance item result (s.heap p) sch >>= λ r.
    let s' = set_scheduling s p r.1 in
    if r.0 then (record_written p item r.1 s' >>= λ t. record_sampled p result t) else some s'

unfoldable pub retire_found : ℕ → WorkItem → WorkItemResult → Scheduler → Option Scheduler
unfolding retire_reservation retire_live
retire_found p item result s =
    let s' = retire_reservation p item s in
    elim (s'.heap p).scheduling [
      | none ↦ some s
      | some sch ↦
          if result.stale || not (is_schedulable_state (s'.heap p))
          then some s'
          else retire_live p item result sch s'
    ]

unfoldable pub retire_work : WorkItem → WorkItemResult → Scheduler → Option Scheduler
unfolding retire_found
retire_work item result s = elim (s.by_seq_id result.seq_id) [
  | none ↦ some s
  | some p ↦ retire_found p item result s
]

-- The item that a result is about, with the assertions of the first loop of `update_from_output`.
abbrev pub original_item : ScheduledBatch → WorkItemResult → Option WorkItem
original_item batch result = get_elem? batch.items result.item_index >>= λ item.
    assert (work_sequence_id item == result.seq_id && same_kind (work_kind item) result.kind)
      (some item)

unfoldable pub check_results : ScheduledBatch → List WorkItemResult → Bool
check_results batch [] = true
check_results batch (result ∷ results) = elim (original_item batch result) [
  | none ↦ false
  | some item ↦ check_results batch results
]

unfoldable pub retire_results : ScheduledBatch → List WorkItemResult → Scheduler → Option Scheduler
unfolding retire_work
retire_results batch [] s = some s
retire_results batch (result ∷ results) s = get_elem? batch.items result.item_index >>= λ item.
    retire_work item result s >>= λ s'. retire_results batch results s'

unfoldable pub update_from_output : ScheduledBatch → BatchResult → Scheduler → Option Scheduler
unfolding check_results retire_results
update_from_output batch result s =
    assert
      (result.batch_id == batch.batch_id
        && (length result.items == length batch.items && check_results batch result.items))
      (retire_results batch result.items s)

unfoldable pub fail_item : ErrorCode → WorkItem → Scheduler → Scheduler
unfolding retire_reservation
fail_item e item s = elim (s.by_seq_id (work_sequence_id item)) [
  | none ↦ s
  | some p ↦
      let s' = retire_reservation p item s in
      if is_active (s'.heap p).status then send_error_event p e s' else s'
]

unfoldable pub fail_items : ErrorCode → List WorkItem → Scheduler → Scheduler
unfolding fail_item
fail_items e [] s = s
fail_items e (item ∷ items) s = fail_items e items (fail_item e item s)

unfoldable pub fail_batch : ScheduledBatch → ErrorCode → Scheduler → Scheduler
unfolding fail_items
fail_batch batch e s = fail_items e batch.items s
