-- ===== src/Scheduler/Admit.antt =====
-- src/scheduler/scheduler.cpp: admission (`admit_one_skipped`, `admit_one_waiting`) and
-- `schedule_step`, which makes a batch.
use cc_infer.Base.{
  ℕ, zero, suc, ◌+◌, ◌-◌, ◌*◌, List, [], ◌∷◌, ◌++◌, Bool, true, false, Option, none, some, length,
  if◌then◌else◌, ◌&&◌, ◌||◌, ◌==◌, not, ltb, leb, is_empty, update, assert, ◌>>=◌,
}
use cc_infer.Base.Int.{negsuc}
use cc_infer.Errors.{ErrorCode, Result, done, fail}
use cc_infer.BlockTable.{BlockTable, empty_table, size}
use cc_infer.BlockCache.{Kv, PrefixLookup, lookup_prefix_cache, inc64}
use cc_infer.KvBlocks.{allocate_kv_blocks, release_request_blocks}
use cc_infer.Types.{WorkItem, work_sequence_id, SamplingParams, ScheduledBatch}
use cc_infer.Scheduler.{
  Scheduler, RequestState, SequenceSchedulingState, SequenceScheduleCursor, BatchBuildContext,
  prefill_phase, replay_prefill, bootstrap, decoding, no_reservation, set_scheduling,
  generated_token_count, is_cancelled, has_scheduling, room_to_run,
}
use cc_infer.Scheduler.Events.{send_event, send_terminal_event, end_of_stream, erase_request}
use cc_infer.Scheduler.Work.{ceil_div, build_state_work, build_running_batch}
use cc_infer.Scheduler.Wait.{
  Ending, ended, and_ended, release_scheduling_blocks, push_front_waiting, seq_id_of, make_room,
}

abbrev pub StepResult : Type 0
StepResult = Option (Bool × (BatchBuildContext × Scheduler))

-- The same for code that may make room, and then read an erased list element.
abbrev pub WaitingResult : Type 0
WaitingResult = Option (Ending (Bool × (BatchBuildContext × Scheduler)))

abbrev pub as_ended : StepResult → WaitingResult
as_ended none = none
as_ended (some r) = some (ended r)

-- Sends what the request gets instead of a place, and forgets it.
abbrev pub dismiss : ℕ → (Scheduler → Scheduler) → BatchBuildContext → Scheduler → StepResult
dismiss p send ctx s = erase_request p (send s) >>= λ t. some (true, (ctx, t))

abbrev pub send_fail : ℕ → ErrorCode → Scheduler → Scheduler
send_fail p e s = (send_event (s.heap p).sink (fail e) s).1

abbrev pub send_end : ℕ → Scheduler → Scheduler
send_end p s = (send_event (s.heap p).sink (done end_of_stream) s).1

-- The request takes its place at the end of the running list, and its first work is built.
unfoldable pub run_request : ℕ → ℕ → BatchBuildContext → Scheduler → StepResult
run_request p seq_id ctx s =
    build_state_work p ctx
      (record s { by_seq_id = update s.by_seq_id seq_id (some p); running = s.running ++ p ∷ [] })
    >>= λ r. some (true, r)

-- The request `p` that `admit_one_skipped` took off the skip list.
unfoldable pub admit_skipped : ℕ → BatchBuildContext → Scheduler → StepResult
unfolding run_request
admit_skipped p ctx s =
    let state = s.heap p in
    if is_cancelled state.status
    then (release_scheduling_blocks p s >>= dismiss p (send_fail p ErrorCode.request_cancelled) ctx)
    else if state.sampling.max_tokens == 0
    then (release_scheduling_blocks p s >>= dismiss p (send_end p) ctx)
    else if not (has_scheduling state)
    then some (false, (ctx, push_front_waiting p s))
    else if not s.accepting
    then (release_scheduling_blocks p s
        >>= dismiss p (send_fail p ErrorCode.server_shutting_down) ctx)
    else if leb state.sampling.max_tokens (generated_token_count state)
    then (release_scheduling_blocks p s >>= dismiss p (send_terminal_event p) ctx)
    else run_request p (seq_id_of state) ctx s

unfoldable pub admit_one_skipped : BatchBuildContext → Scheduler → StepResult
unfolding admit_skipped
admit_one_skipped ctx s = elim s.skip [
  | [] ↦ some (false, (ctx, s))
  | p ∷ rest ↦
      if ctx.token_budget == 0 || not (room_to_run s)
      then some (false, (ctx, s))
      else admit_skipped p ctx (record s { skip = rest })
]

-- Where a sequence whose first `frontier` tokens are in shared blocks starts.
unfoldable pub admission_cursor : ℕ → ℕ → RequestState → SequenceScheduleCursor
admission_cursor frontier prompt_len state = record {
  phase =
      if ltb 0 frontier && ltb frontier prompt_len
      then (if is_empty state.generated_tokens then prefill_phase else replay_prefill)
      else if leb prompt_len frontier
      then (if is_empty state.generated_tokens then bootstrap else decoding)
      else prefill_phase;
  prefill_cursor =
      if ltb 0 frontier && ltb frontier prompt_len
      then frontier
      else if leb prompt_len frontier
      then prompt_len
      else 0;
  generated_tokens_in_prompt = generated_token_count state - 1;
}

abbrev pub admitted_state :
    ℕ → PrefixLookup → BlockTable → ℕ → ℕ → RequestState → SequenceSchedulingState
admitted_state seq_id found table block_size prompt_len state = record {
  seq_id = seq_id;
  reservation = no_reservation;
  cursor = admission_cursor (found.prefix_hit_blocks * block_size) prompt_len state;
  block_table = table;
  executed_frontier = found.prefix_hit_blocks * block_size;
  parent_hash = found.parent_hash;
  pending_hash_tokens = [];
}

abbrev pub join_tables : BlockTable → BlockTable → BlockTable
join_tables a b = record a { block_ids = a.block_ids ++ b.block_ids }

-- With the blocks at hand: `table` has the found ones and then the new ones.
unfoldable pub admit_with_blocks :
    ℕ → PrefixLookup → BlockTable → BatchBuildContext → Scheduler → StepResult
unfolding run_request admission_cursor
admit_with_blocks p found table ctx s =
    let state = s.heap p in
    if not s.accepting
    then (release_request_blocks table s.kv >>= λ kv.
        dismiss p (send_fail p ErrorCode.server_shutting_down) ctx (record s { kv = kv }))
    else let sch =
        admitted_state s.next_seq_id found table s.kv.pool.block_size (length state.prompt_tokens)
          state in
      run_request p s.next_seq_id ctx
        (set_scheduling (record s { next_seq_id = inc64 s.next_seq_id }) p sch)

-- What `allocate_kv_blocks` returned for the blocks that the lookup did not find.
unfoldable pub admit_allocated :
    ℕ → PrefixLookup → Result BlockTable → BatchBuildContext → Scheduler → WaitingResult
unfolding admit_with_blocks make_room
admit_allocated p found (done blocks) ctx s =
    as_ended (admit_with_blocks p found (join_tables found.block_table blocks) ctx s)
admit_allocated p found (fail ErrorCode.kv_block_exhausted) ctx s =
    release_request_blocks found.block_table s.kv >>= λ kv.
    and_ended (make_room (record s { kv = kv })) λ t.
      some
        (ended (false, (ctx, push_front_waiting p (record t { block_shortage_pending = false }))))
admit_allocated p found (fail e) ctx s = release_request_blocks found.block_table s.kv >>= λ kv.
    as_ended (dismiss p (send_fail p e) ctx (record s { kv = kv }))

abbrev pub allocate_missing : ℕ → Kv → Option (Result BlockTable × Kv)
allocate_missing missing kv =
    if missing == 0 then some (done empty_table, kv) else allocate_kv_blocks missing kv

-- The prompt fits the context of the request, and that fits the pool.
abbrev pub fits_context : RequestState → Kv → Bool
fits_context state kv =
    let prompt_len = length state.prompt_tokens in
    let capacity = kv.pool.max_blocks * kv.pool.block_size in
    ltb 0 prompt_len
    && (leb prompt_len state.max_context_len
        && (leb state.max_context_len capacity && leb prompt_len capacity))

-- The request `p` that `admit_one_waiting` took off the waiting list.
unfoldable pub admit_waiting : ℕ → BatchBuildContext → Scheduler → WaitingResult
unfolding admit_allocated
admit_waiting p ctx s =
    let state = s.heap p in
    let needed = ceil_div (length state.prompt_tokens) s.kv.pool.block_size in
    if is_cancelled state.status
    then as_ended (dismiss p (send_fail p ErrorCode.request_cancelled) ctx s)
    else if state.sampling.max_tokens == 0
    then as_ended (dismiss p (send_end p) ctx s)
    else assert (not (has_scheduling state)) (
        if not (fits_context state s.kv)
        then as_ended (dismiss p (send_fail p ErrorCode.invalid_argument) ctx s)
        else (lookup_prefix_cache s.build state.prompt_tokens 0 s.kv >>= λ l.
            allocate_missing (needed - size l.0.block_table) l.1 >>= λ r.
            admit_allocated p l.0 r.0 ctx (record s { kv = r.1 })))

unfoldable pub admit_one_waiting : BatchBuildContext → Scheduler → WaitingResult
unfolding admit_waiting
admit_one_waiting ctx s = elim s.waiting [
  | [] ↦ some (ended (false, (ctx, s)))
  | p ∷ rest ↦
      if ctx.token_budget == 0
        || (not (room_to_run s) || leb s.limits.max_sequences (length s.running + length s.skip))
      then some (ended (false, (ctx, s)))
      else admit_waiting p ctx (record s { waiting = rest })
]

abbrev pub may_admit : BatchBuildContext → Scheduler → Bool
may_admit ctx s =
    s.accepting
    && (not s.admission_paused
        && (ltb 0 ctx.token_budget
            && (room_to_run s && not (is_empty s.skip && is_empty s.waiting))))

-- The body of the admission loop; `false` leaves the loop.
unfoldable pub admit_one : BatchBuildContext → Scheduler → WaitingResult
unfolding admit_one_skipped admit_one_waiting
admit_one ctx s =
    (if is_empty s.skip then some (false, (ctx, s)) else admit_one_skipped ctx s) >>= λ r.
    if r.0 then some (ended r) else admit_one_waiting r.1.0 r.1.1

-- The admission loop. A round that goes on takes a request off a list for good, so that the fuel is
-- enough when it is one more than the lengths of the two lists.
unfoldable pub admit_loop :
    ℕ → BatchBuildContext → Scheduler → Option (Ending (BatchBuildContext × Scheduler))
unfolding admit_one
admit_loop zero ctx s = none
admit_loop (suc fuel) ctx s = elim (may_admit ctx s) [
  | false ↦ some (ended (ctx, s))
  | true ↦
      and_ended (admit_one ctx s)
        λ r. elim r.0 [ true ↦ admit_loop fuel r.1.0 r.1.1 | false ↦ some (ended r.1) ]
]

-- `std::erase_if` of the items whose sequence is gone.
unfoldable pub keep_live : (ℕ → Option ℕ) → List WorkItem → List WorkItem
keep_live by_seq_id [] = []
keep_live by_seq_id (item ∷ items) = elim (by_seq_id (work_sequence_id item)) [
  | none ↦ keep_live by_seq_id items
  | some p ↦ item ∷ keep_live by_seq_id items
]

abbrev default_sampling : SamplingParams
default_sampling = record {
  max_tokens = 256;
  top_k = 0;
  top_p_bits = 0x3f800000;
  temperature_bits = 0;
  seed = 42;
  eos_token_id = negsuc 0;
}

abbrev pub new_context : Scheduler → BatchBuildContext
new_context s = record {
  batch = record { batch_id = s.next_batch_id; items = []; sampling = default_sampling };
  token_budget = s.limits.max_token_budget;
  sampling_set = false;
}

abbrev pub handle_shortage : Scheduler → Option (Ending Scheduler)
handle_shortage s =
    if s.block_shortage_pending
    then make_room (record s { block_shortage_pending = false })
    else some (ended s)

abbrev pub finish_batch : BatchBuildContext × Scheduler → ScheduledBatch × Scheduler
finish_batch (ctx, s) = (
  if s.admission_paused
      then record (ctx.batch) { items = keep_live s.by_seq_id ctx.batch.items }
      else ctx.batch,
  s,
)

unfoldable pub schedule_step : Scheduler → Option (Ending (ScheduledBatch × Scheduler))
unfolding make_room admit_loop keep_live
schedule_step s = assert (ltb 0 s.kv.pool.block_size) (
    and_ended (handle_shortage (record s { next_batch_id = inc64 s.next_batch_id })) λ s1.
      build_running_batch (new_context s) s1 >>= λ r.
      and_ended (admit_loop (length r.1.skip + length r.1.waiting + 1) r.0 r.1)
        λ q. some (ended (finish_batch q)))
