-- ===== src/Scheduler/Work.antt =====
-- src/scheduler/scheduler.cpp, `build_state_work` and `build_running_batch`: the work items of a
-- batch, and `has_schedulable_work`.
use cc_infer.Base.{
  ℕ, ◌+◌, ◌-◌, ◌/◌, List, [], ◌∷◌, ◌++◌, Bool, true, false, Option, none, some, length,
  if◌then◌else◌, ◌&&◌, ◌||◌, ◌==◌, not, ltb, leb, min, last?, take, drop, is_empty, ◌>>=◌,
}
use cc_infer.Base.Int.{ℤ, pos}
use cc_infer.Errors.{Result, done, fail}
use cc_infer.BlockTable.{BlockTable, size}
use cc_infer.KvBlocks.{allocate_kv_blocks}
use cc_infer.Types.{WorkItem, prefill, decode, PrefillChunk, DecodeOneToken}
use cc_infer.Scheduler.{
  Scheduler, RequestState, SequenceSchedulingState, BatchBuildContext, set_scheduling,
  generated_token_count, is_schedulable_state, is_prefill_phase, is_decode_phase, is_bootstrap,
  is_replay, room_to_run,
}
use cc_infer.Scheduler.Events.{send_terminal_event}

abbrev pub ceil_div : ℕ → ℕ → ℕ
ceil_div n d = (n + d - 1) / d

abbrev pub select_sampling : RequestState → BatchBuildContext → BatchBuildContext
select_sampling state ctx = if ctx.sampling_set then ctx else record ctx {
  batch = record (ctx.batch) { sampling = state.sampling };
  sampling_set = true;
}

abbrev pub push_item : WorkItem → ℕ → BatchBuildContext → BatchBuildContext
push_item item cost ctx = record ctx {
  batch = record (ctx.batch) { items = ctx.batch.items ++ item ∷ [] };
  token_budget = ctx.token_budget - cost;
}

abbrev pub prompt_start : SequenceSchedulingState → ℕ
prompt_start sch = sch.cursor.prefill_cursor + sch.reservation.reserved_prompt_tokens

-- The length of the next chunk, within the prompt, the limit for one sequence and the budget.
abbrev pub chunk_length : ℕ → ℕ → ℕ → ℕ
chunk_length prompt_left max_seq_prefill budget =
    min (if ltb 0 max_seq_prefill then min prompt_left max_seq_prefill else prompt_left) budget

abbrev pub prefill_item : RequestState → SequenceSchedulingState → ℕ → Bool → PrefillChunk
prefill_item state sch len needs_sample = record {
  seq_id = sch.seq_id;
  prompt_span = record { start = prompt_start sch; length = len };
  expected_context_len = some (sch.executed_frontier + sch.reservation.reserved_kv_tokens);
  needs_sample = needs_sample;
  tokens = take len (drop (prompt_start sch) state.prompt_tokens);
  block_table = sch.block_table;
}

abbrev pub reserve_prefill : SequenceSchedulingState → ℕ → Bool → SequenceSchedulingState
reserve_prefill sch len needs_sample =
    let r = sch.reservation in
    record sch {
      reservation = record {
        execution_leases = r.execution_leases + 1;
        reserved_prompt_tokens = r.reserved_prompt_tokens + len;
        reserved_generation_tokens =
            if needs_sample then r.reserved_generation_tokens + 1 else r.reserved_generation_tokens;
        reserved_kv_tokens = r.reserved_kv_tokens + len;
      };
    }

abbrev pub chunk_needs_sample : RequestState → SequenceSchedulingState → ℕ → Bool
chunk_needs_sample state sch len =
    leb (length state.prompt_tokens) (prompt_start sch + len)
    && not (is_replay sch.cursor.phase && not (is_empty state.generated_tokens))

unfoldable pub build_prefill :
    ℕ → SequenceSchedulingState → BatchBuildContext → Scheduler → BatchBuildContext × Scheduler
build_prefill p sch ctx s =
    let state = s.heap p in
    let prompt_len = length state.prompt_tokens in
    let len =
      chunk_length (prompt_len - prompt_start sch) s.limits.max_seq_prefill_tokens
        ctx.token_budget in
    let sample = chunk_needs_sample state sch len in
    if leb prompt_len (prompt_start sch) || len == 0 then (ctx, s) else (
      push_item (prefill (prefill_item state sch len sample)) len (select_sampling state ctx),
      set_scheduling s p (reserve_prefill sch len sample),
    )

abbrev pub decode_item : SequenceSchedulingState → ℤ → Bool → Bool → DecodeOneToken
decode_item sch input_token write_kv late_bind = record {
  seq_id = sch.seq_id;
  input_token = input_token;
  expected_context_len = some (sch.executed_frontier + sch.reservation.reserved_kv_tokens);
  write_kv = write_kv;
  late_bind = late_bind;
  block_table = sch.block_table;
}

abbrev pub reserve_decode : SequenceSchedulingState → Bool → SequenceSchedulingState
reserve_decode sch write_kv =
    let r = sch.reservation in
    record sch {
      reservation = record r {
        execution_leases = r.execution_leases + 1;
        reserved_generation_tokens = r.reserved_generation_tokens + 1;
        reserved_kv_tokens = if write_kv then r.reserved_kv_tokens + 1 else r.reserved_kv_tokens;
      };
    }

-- The last step, with the blocks at hand.
abbrev pub add_decode :
    ℕ
    → SequenceSchedulingState
    → ℤ
    → Bool
    → Bool
    → BatchBuildContext
    → Scheduler
    → BatchBuildContext × Scheduler
add_decode p sch input_token write_kv late_bind ctx s = (
  push_item (decode (decode_item sch input_token write_kv late_bind)) 1 ctx,
  set_scheduling s p (reserve_decode sch write_kv),
)

abbrev pub append_blocks : SequenceSchedulingState → BlockTable → SequenceSchedulingState
append_blocks sch blocks = record sch {
  block_table = record (sch.block_table) {
    block_ids = sch.block_table.block_ids ++ blocks.block_ids;
  };
}

-- How many blocks the sequence needs to hold one more token, or none more for a bootstrap.
abbrev pub required_blocks : SequenceSchedulingState → Bool → ℕ → ℕ
required_blocks sch write_kv block_size =
    ceil_div
      (sch.executed_frontier + sch.reservation.reserved_kv_tokens + (if write_kv then 1 else 0))
      block_size

-- What `allocate_kv_blocks` returned for the missing blocks.
abbrev pub add_decode_blocks :
    ℕ
    → SequenceSchedulingState
    → ℤ
    → Bool
    → Bool
    → BatchBuildContext
    → Scheduler
    → Result BlockTable
    → BatchBuildContext × Scheduler
add_decode_blocks p sch input_token write_kv late_bind ctx s (fail e) =
    (ctx, record s { block_shortage_pending = true })
add_decode_blocks p sch input_token write_kv late_bind ctx s (done blocks) =
    add_decode p (append_blocks sch blocks) input_token write_kv late_bind ctx s

-- From the check of the context length on.
unfoldable pub decode_in_context :
    ℕ
    → SequenceSchedulingState
    → ℤ
    → Bool
    → Bool
    → BatchBuildContext
    → Scheduler
    → Option (BatchBuildContext × Scheduler)
decode_in_context p sch input_token write_kv late_bind ctx s =
    let state = s.heap p in
    let committed_context =
      length state.prompt_tokens
      + generated_token_count state
      - sch.cursor.generated_tokens_in_prompt in
    let reserved = sch.reservation.reserved_generation_tokens in
    let missing = required_blocks sch write_kv s.kv.pool.block_size - size sch.block_table in
    if leb state.max_context_len (committed_context + reserved)
    then some (ctx, if reserved == 0 then send_terminal_event p s else s)
    else if missing == 0
    then some (add_decode p sch input_token write_kv late_bind ctx s)
    else (allocate_kv_blocks missing s.kv >>= λ r.
        some
          (add_decode_blocks p sch input_token write_kv late_bind ctx (record s { kv = r.1 }) r.0))

unfoldable pub build_decode :
    ℕ
    → SequenceSchedulingState
    → BatchBuildContext
    → Scheduler
    → Option (BatchBuildContext × Scheduler)
unfolding decode_in_context
build_decode p sch ctx s =
    let state = s.heap p in
    let ctx' = select_sampling state ctx in
    let reserved = sch.reservation.reserved_generation_tokens in
    if leb state.sampling.max_tokens (generated_token_count state + reserved)
    then some (ctx', s)
    else if is_bootstrap sch.cursor.phase
    then (if ltb 0 reserved
        then some (ctx', s)
        else (last? state.prompt_tokens >>= λ token.
            decode_in_context p sch token false false ctx' s))
    else decode_in_context p sch (pos 0) true true ctx' s

unfoldable pub build_scheduled :
    ℕ
    → SequenceSchedulingState
    → BatchBuildContext
    → Scheduler
    → Option (BatchBuildContext × Scheduler)
unfolding build_prefill build_decode
build_scheduled p sch ctx s =
    let state = s.heap p in
    if ctx.token_budget == 0 || not (is_schedulable_state state)
    then some (ctx, s)
    else if leb state.sampling.max_tokens (generated_token_count state)
    then some (ctx, send_terminal_event p s)
    else if is_prefill_phase sch.cursor.phase
    then some (build_prefill p sch ctx s)
    else if not (is_decode_phase sch.cursor.phase)
    then some (ctx, s)
    else build_decode p sch ctx s

unfoldable pub build_state_work :
    ℕ → BatchBuildContext → Scheduler → Option (BatchBuildContext × Scheduler)
unfolding build_scheduled
build_state_work p ctx s = elim (s.heap p).scheduling [
  | none ↦ some (ctx, s)
  | some sch ↦ build_scheduled p sch ctx s
]

-- The loop over the running requests.
unfoldable pub build_running :
    List ℕ → BatchBuildContext → Scheduler → Option (BatchBuildContext × Scheduler)
unfolding build_state_work
build_running [] ctx s = some (ctx, s)
build_running (p ∷ ps) ctx s = elim (ctx.token_budget == 0) [
  | true ↦ some (ctx, s)
  | false ↦ build_state_work p ctx s >>= λ r. build_running ps r.0 r.1
]

unfoldable pub build_running_batch :
    BatchBuildContext → Scheduler → Option (BatchBuildContext × Scheduler)
unfolding build_running
build_running_batch ctx s = build_running s.running ctx s

-- Whether a running request has work that is not reserved yet.
unfoldable pub has_work : RequestState → Bool
has_work state = elim state.scheduling [
  | none ↦ false
  | some sch ↦
      is_schedulable_state state
      && (if is_prefill_phase sch.cursor.phase
          then ltb (prompt_start sch) (length state.prompt_tokens)
          else ltb (generated_token_count state + sch.reservation.reserved_generation_tokens)
              state.sampling.max_tokens
            && (not (is_bootstrap sch.cursor.phase)
                || sch.reservation.reserved_generation_tokens == 0))
]

unfoldable pub any_has_work : List ℕ → Scheduler → Bool
unfolding has_work
any_has_work [] s = false
any_has_work (p ∷ ps) s = has_work (s.heap p) || any_has_work ps s

unfoldable pub has_schedulable_work : Scheduler → Bool
unfolding any_has_work
has_schedulable_work s = (not (is_empty s.skip) && room_to_run s) || any_has_work s.running s
