-- ===== src/Scheduler/Wait.antt =====
-- src/scheduler/scheduler.cpp: a sequence gives its blocks back and waits (`prepare_for_wait`,
-- `release_scheduling_blocks`, `release_and_move_to_wait`, `evict_one_skipped`,
-- `suspend_one_running`, `preempt_one_for_admission`).
--
-- `release_and_move_to_wait` takes its request by reference, and its caller passes the element of
-- the running list that it erases. What follows reads that element after its destruction, so that
-- the model stops there, with `dangling`.
use cc_infer.Base.{
  ℕ, List, [], ◌∷◌, ◌++◌, Bool, true, false, Option, none, some, if◌then◌else◌, ◌&&◌, ◌==◌, not,
  ltb, is_empty, init_list, erase_first, update, count, ◌>>=◌,
}
use mathlib.Core.List.{reverse}
use cc_infer.BlockPool.{int_max}
use cc_infer.BlockTable.{size}
use cc_infer.KvBlocks.{release_request_blocks}
use cc_infer.PrefixCache.{Tokens}
use cc_infer.Scheduler.{
  Scheduler, RequestState, SequenceSchedulingState, set_request, is_schedulable_state,
  is_prefill_phase, has_scheduling,
}

-- The prompt is replayed with all generated tokens but the last.
abbrev pub replay_prompt : Tokens → Tokens → Tokens → Tokens
replay_prompt initial [] prompt = prompt
replay_prompt initial (t ∷ ts) prompt = initial ++ init_list (t ∷ ts)

unfoldable pub prepare_for_wait : RequestState → RequestState
prepare_for_wait state = record state {
  prompt_tokens =
      replay_prompt state.initial_prompt_tokens state.generated_tokens state.prompt_tokens;
}

abbrev pub drop_scheduling : ℕ → SequenceSchedulingState → Scheduler → Scheduler
drop_scheduling p sch s = record s {
  by_seq_id = update s.by_seq_id sch.seq_id none;
  heap = update s.heap p (record (s.heap p) { scheduling = none });
}

unfoldable pub release_scheduling_blocks : ℕ → Scheduler → Option Scheduler
release_scheduling_blocks p s = elim (s.heap p).scheduling [
  | none ↦ some s
  | some sch ↦ release_request_blocks sch.block_table s.kv >>= λ kv.
      some (drop_scheduling p sch (record s { kv = kv }))
]

-- How a piece of code ends that may read an erased element of the running list: the request that the
-- element held, and the state at that point. What the code does from there on is undefined.
pub data Ending (A : Type 0) : Type 0 where
  ended : A → Ending A
  dangling : ℕ → Scheduler → Ending A

-- What follows code that has not read such an element.
abbrev pub and_ended :
    {A B : Type 0} → Option (Ending A) → (A → Option (Ending B)) → Option (Ending B)
and_ended none f = none
and_ended (some (dangling p s)) f = some (dangling p s)
and_ended (some (ended a)) f = f a

abbrev pub push_front_waiting : ℕ → Scheduler → Scheduler
push_front_waiting p s = record s { waiting = p ∷ s.waiting }

abbrev pub prepare : ℕ → Scheduler → Scheduler
prepare p s = set_request s p (prepare_for_wait (s.heap p))

-- `push_front(request)` once the loop is over: the reference is to the element of `p` in the running
-- list, which is gone when the loop has erased it.
abbrev pub push_front_request : ℕ → Scheduler → Option (Ending Scheduler)
push_front_request p s =
    if count p s.running == 0
    then some (ended (push_front_waiting p s))
    else some (dangling p (record s { running = erase_first p s.running }))

-- The reference `request` is to the element of `p` in the running list.
unfoldable pub release_and_move_to_wait : ℕ → Scheduler → Option (Ending Scheduler)
unfolding release_scheduling_blocks
release_and_move_to_wait p s =
    if has_scheduling (s.heap p)
    then (release_scheduling_blocks p (prepare p s) >>= push_front_request p)
    else some (ended s)

-- `false` says that nothing was skipped.
unfoldable pub evict_one_skipped : Scheduler → Option (Bool × Scheduler)
unfolding release_scheduling_blocks
evict_one_skipped s = elim s.skip [
  | [] ↦ some (false, s)
  | p ∷ rest ↦
      let s' = record s { skip = rest } in
      if has_scheduling (s.heap p)
      then (release_scheduling_blocks p (prepare p s') >>= λ t. some (true, push_front_waiting p t))
      else some (true, push_front_waiting p s')
]

-- What `find_smallest` may pick: a request in the phase that it looks for, with no work in flight.
abbrev pub is_suspendable : Bool → RequestState → Bool
is_suspendable prefill_phase state = elim state.scheduling [
  | none ↦ false
  | some sch ↦
      (if prefill_phase
        then is_prefill_phase sch.cursor.phase
        else not (is_prefill_phase sch.cursor.phase))
      && (is_schedulable_state state && (sch.reservation.execution_leases == 0))
]

abbrev pub held_blocks : RequestState → ℕ
held_blocks state = elim state.scheduling [ none ↦ 0 | some sch ↦ size sch.block_table ]

-- The loop of `find_smallest`, over the running list from its end.
unfoldable pub find_smallest : Bool → (ℕ → RequestState) → List ℕ → Option ℕ → ℕ → Option ℕ
find_smallest prefill_phase heap [] best best_blocks = best
find_smallest prefill_phase heap (p ∷ ps) best best_blocks =
    let better = is_suspendable prefill_phase (heap p) && ltb (held_blocks (heap p)) best_blocks in
    find_smallest prefill_phase heap ps (if better then some p else best)
      (if better then held_blocks (heap p) else best_blocks)

abbrev pub smallest : Bool → Scheduler → Option ℕ
smallest prefill_phase s = find_smallest prefill_phase s.heap (reverse s.running) none int_max

unfoldable pub suspend_request : ℕ → Scheduler → Option (Ending (Bool × Scheduler))
unfolding release_and_move_to_wait
suspend_request p s =
    and_ended (release_and_move_to_wait p s)
      λ s'. some (ended (true, record s' { admission_paused = not (is_empty s'.running) }))

unfoldable pub suspend_one_running : Scheduler → Option (Ending (Bool × Scheduler))
unfolding find_smallest suspend_request
suspend_one_running s = elim (smallest true s) [
  | some p ↦ suspend_request p s
  | none ↦ elim (smallest false s) [ some p ↦ suspend_request p s | none ↦ some (ended (false, s)) ]
]

-- `if (!co_await evict_one_skipped()) co_await suspend_one_running();`
unfoldable pub make_room : Scheduler → Option (Ending Scheduler)
unfolding evict_one_skipped suspend_one_running
make_room s = evict_one_skipped s >>= λ r.
    if r.0 then some (ended r.1) else and_ended (suspend_one_running r.1) λ q. some (ended q.1)

abbrev pub is_preemptible : RequestState → Bool
is_preemptible state = elim state.scheduling [
  | none ↦ false
  | some sch ↦ is_schedulable_state state && (sch.reservation.execution_leases == 0)
]

-- The loop of `preempt_one_for_admission`, over the running list from its end.
unfoldable pub last_preemptible : (ℕ → RequestState) → List ℕ → Option ℕ
last_preemptible heap [] = none
last_preemptible heap (p ∷ ps) =
    if is_preemptible (heap p) then some p else last_preemptible heap ps

abbrev pub seq_id_of : RequestState → ℕ
seq_id_of state = elim state.scheduling [ none ↦ 0 | some sch ↦ sch.seq_id ]

unfoldable pub preempt_one_for_admission : Scheduler → Scheduler
unfolding last_preemptible
preempt_one_for_admission s = elim (last_preemptible s.heap (reverse s.running)) [
  | none ↦ s
  | some p ↦ record s {
    by_seq_id = update s.by_seq_id (seq_id_of (s.heap p)) none;
    running = erase_first p s.running;
    skip = p ∷ s.skip;
  }
]
