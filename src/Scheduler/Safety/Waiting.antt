-- ===== src/Scheduler/Safety/Waiting.antt =====
-- src/scheduler/scheduler.cpp, `admit_one_waiting`: the head of the waiting list runs, waits on, or
-- leaves.
use cc_infer.Base.{
  ℕ, ◌+◌, ◌<◌, ◌≡◌, refl, ap, ◌∙◌, [], ◌∷◌, ◌++◌, true, false, not, some, arith, length, update,
  is_empty, Bool-cases, inl, inr, count-append,
}
use cc_infer.Errors.{ErrorCode, fail}
use cc_infer.BlockTable.{BlockTable}
use cc_infer.BlockCache.{Kv, PrefixLookup, inc64}
use cc_infer.Scheduler.{
  Scheduler, RequestState, BatchBuildContext, SequenceSchedulingState, set_scheduling,
}
use cc_infer.Scheduler.Wait.{push_front_waiting}
use cc_infer.Scheduler.Admit.{
  StepResult, WaitingResult, as_ended, dismiss, send_fail, admitted_state, admit_with_blocks,
  admit_allocated, fits_context,
}
use cc_infer.Scheduler.Safety.{Safe, places, held-append, held_other}
use cc_infer.Scheduler.Safety.Endings.{Stranded, Reaches, reaches, along, and_ended-Reaches}
use cc_infer.Scheduler.Safety.Room.{make_room_total}
use cc_infer.Scheduler.Safety.Skipped.{
  queued, Admitted, AdmitResult, LeaveResult, if_true, if_false, dismiss_total, run_request_total,
  send_fail-Quiet,
}
use cc_infer.Scheduler.Safety.Admit.{bind_some, Reserved, no_sequence, returned}

pub tokens_of_fits :
    (state : RequestState) (kv : Kv) → fits_context state kv ≡ true → 0 < length state.prompt_tokens
tokens_of_fits state kv h = ground (arith, h)

pub not_empty :
    (state : RequestState) → 0 < length state.prompt_tokens → is_empty state.prompt_tokens ≡ false
not_empty state h = ground (arith, h)

-- What the admission of a waiting request leads to.
abbrev pub WaitingEnds : WaitingResult → BatchBuildContext → ℕ → Type 0
WaitingEnds m ctx n = Reaches (λ r. Admitted ctx n r.0 r.1.0 r.1.1) Stranded m

-- A step that ends without making room.
pub at_once :
    {m : StepResult} {ctx : BatchBuildContext} {n : ℕ}
    → AdmitResult m ctx n
    → WaitingEnds (as_ended m) ctx n
at_once (d, c, t, run, a) = along (ap as_ended run) (reaches (d, (c, t)) a)

module _ (p : ℕ) (ctx : BatchBuildContext) (s : Scheduler) (v : Safe s)
    (absent : places s p ≡ 0) where
  pub left_out : (e : ErrorCode) → LeaveResult (dismiss p (send_fail p e) ctx s) ctx (queued s + 1)
  left_out e =
      dismiss_total p (send_fail p e) ctx s (queued s + 1) (send_fail-Quiet p e s v)
        (no_sequence p s v absent) refl

  -- The request has no place, so that it can go to the front of the waiting list.
  pushed_front : Safe (push_front_waiting p s)
  pushed_front = record {
    backed = record { inv = v.backed.inv; sized = v.backed.sized; covered = v.backed.covered };
    once = λ q. ground (arith, v.once q);
    placed = v.placed;
    prompted = v.prompted;
    release_build = v.release_build;
  }

  -- The state in which the request runs, with the sequence `sch` over the blocks of `kv`.
  placed_state : Kv → SequenceSchedulingState → Scheduler
  placed_state kv sch =
      set_scheduling (record s { kv = kv; next_seq_id = inc64 s.next_seq_id }) p sch

  placed_run :
      (kv : Kv) (sch : SequenceSchedulingState)
      → Reserved s sch.block_table.block_ids kv
      → is_empty (s.heap p).prompt_tokens ≡ false
      → Safe (record (placed_state kv sch) {
        by_seq_id = update s.by_seq_id s.next_seq_id (some p);
        running = s.running ++ p ∷ [];
      })
  unfolding placed_state
  placed_run kv sch r prompt =
      let state = record (s.heap p) { scheduling = some sch } in
      record {
        backed = record {
          inv = r.inv;
          sized = r.sized;
          covered = λ j. ground (
            arith,
            r.room j,
            held-append (update s.heap p state) (s.running ++ p ∷ []) s.skip j,
            held-append (update s.heap p state) s.running (p ∷ []) j,
            held-append s.heap s.running s.skip j,
            held_other s.heap p state s.running j,
            held_other s.heap p state s.skip j,
          );
        };
        once = λ q. ground (arith, v.once q, count-append q s.running (p ∷ []));
        placed = λ q h. ground (arith, v.placed q, count-append q s.running (p ∷ []));
        prompted = λ q h. ground (arith, v.prompted q, prompt);
        release_build = v.release_build;
      }

module _ (p : ℕ) (ctx : BatchBuildContext) (s : Scheduler) (v : Safe s)
    (absent : places s p ≡ 0) where
  pub with_blocks :
      (l : PrefixLookup) (table : BlockTable) (kv : Kv)
      → Reserved s table.block_ids kv
      → is_empty (s.heap p).prompt_tokens ≡ false
      → AdmitResult (admit_with_blocks p l table ctx (record s { kv = kv })) ctx (queued s + 1)
  unfolding admit_with_blocks placed_state
  with_blocks l table kv r prompt = elim (Bool-cases s.accepting) [
    | inr closing ↦
        let (kv', freed, safe) = returned p s v absent table kv r in
        let (c, t, run, a) =
          left_out p ctx (record s { kv = kv' }) safe absent ErrorCode.server_shutting_down in
        (true, c, t, if_true _ (ap not closing) (bind_some _ freed run), a)
    | inl open_now ↦
        let sch =
          admitted_state s.next_seq_id l table kv.pool.block_size (length (s.heap p).prompt_tokens)
            (s.heap p) in
        let (c, t, run, a) =
          run_request_total p s.next_seq_id ctx (placed_state p ctx s v absent kv sch)
            (queued s + 1) (placed_run p ctx s v absent kv sch r prompt) refl in
        (true, c, t, if_false _ (ap not open_now) run, a)
  ]

  -- The blocks ran out: the found ones go back, room is made, and the request waits on.
  pub short_of_blocks :
      (l : PrefixLookup) (kv : Kv)
      → Reserved s l.block_table.block_ids kv
      → WaitingEnds
          (admit_allocated p l (fail ErrorCode.kv_block_exhausted) ctx (record s { kv = kv }))
          ctx
          (queued s + 1)
  unfolding admit_allocated
  short_of_blocks l kv r =
      let (kv', freed, safe) = returned p s v absent l.block_table kv r in
      along (bind_some _ freed refl) (
        and_ended-Reaches (make_room_total (record s { kv = kv' }) safe)
          (λ q t (nothing, lost). lost.stranded)
          λ t moved.
            let t' = record t { block_shortage_pending = false } in
            let safe' : Safe t' = record {
              backed = record {
                inv = moved.safe.backed.inv;
                sized = moved.safe.backed.sized;
                covered = moved.safe.backed.covered;
              };
              once = moved.safe.once;
              placed = moved.safe.placed;
              prompted = moved.safe.prompted;
              release_build = moved.safe.release_build;
            } in
            reaches (false, (ctx, push_front_waiting p t'))
              (record {
                safe = pushed_front p ctx t' safe' (moved.same_places p ∙ absent);
                same_account = refl;
                progress = λ h. absurd cc;
              }))
