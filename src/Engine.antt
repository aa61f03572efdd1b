-- ===== src/Engine.antt =====
-- src/engine/engine_core.h, engine_core.cpp: the loop that hands batches to the executor and collects
-- their results, as a step relation. What the executor answers is open. The loop is suspended only
-- where it waits for a result or for work; there, what other threads have posted runs.
pub mod Queue
pub mod End
use cc_infer.Base.{
  ℕ, ◌≡◌, List, [], ◌∷◌, ◌++◌, Bool, true, false, ◌&&◌, ◌||◌, not, Option, none, some, ltb, length,
  is_empty,
}
use cc_infer.Errors.{ErrorCode, Result, done, fail}
use cc_infer.Types.{ScheduledBatch, BatchResult, SchedulerRequest}
use cc_infer.Scheduler.{Scheduler}
use cc_infer.Scheduler.Events.{
  submit, cancel_on_scheduler_thread, complete_shutdown_on_scheduler_thread,
}
use cc_infer.Scheduler.Wait.{ended}
use cc_infer.Scheduler.Admit.{schedule_step}
use cc_infer.Scheduler.Wait.{preempt_one_for_admission}
use cc_infer.Scheduler.Work.{has_schedulable_work}
use cc_infer.Scheduler.Retire.{update_from_output, fail_batch}
use cc_infer.Scheduler.Cleanup.{cleanup_terminal_requests, fail_all_waiting, cleanup_all_running}

-- Where the loop is: at its condition, in the inner loop, behind it, waiting for the result of a
-- batch or for work, or after the loop.
pub data Phase : Type 0 where
  at_top filling checking idle draining finished : Phase
  awaiting drain_awaiting : ScheduledBatch → Phase

pub record EngineCore : Type 0 where
  pub scheduler : Scheduler
  pub in_flight : List ScheduledBatch
  pub phase : Phase

-- What a step does with the executor.
pub data Label : Type 0 where
  silent : Label
  hands collects : ScheduledBatch → Label

-- `collect_oldest` once the result is there.
unfoldable pub retire : ScheduledBatch → Result BatchResult → Scheduler → Option Scheduler
retire batch (done result) s = update_from_output batch result s
retire batch (fail e) s = some (fail_batch batch e s)

-- There is work for the scheduler, so that the loop does not wait.
unfoldable pub must_admit : Scheduler → Bool
must_admit s = not s.admission_paused && (not (is_empty s.waiting) || has_schedulable_work s)

-- What other threads have posted to the scheduler.
pub data Posted : Scheduler → Scheduler → Type 0 where
  submits : (req : SchedulerRequest) {s : Scheduler} → Posted s (submit req s)
  cancels : (request_id : ℕ) {s : Scheduler} → Posted s (cancel_on_scheduler_thread request_id s)
  -- `request_shutdown`.
  shuts_down :
      {s next : Scheduler}
      → fail_all_waiting ErrorCode.server_shutting_down s ≡ some next
      → Posted s next

-- The loop is suspended.
pub data Suspended : Phase → Type 0 where
  for_work : Suspended idle
  for_result : {batch : ScheduledBatch} → Suspended (awaiting batch)
  for_drain : {batch : ScheduledBatch} → Suspended (drain_awaiting batch)

abbrev pub moves : EngineCore → Scheduler → Phase → EngineCore
moves e s phase = record e { scheduler = s; phase = phase }

pub data Step (max_concurrent_batches : ℕ) : EngineCore → Label → EngineCore → Type 0 where
  -- `shutdown_async` of another thread.
  stops :
      {e : EngineCore}
      → Step max_concurrent_batches e silent (record e {
        scheduler = record e.scheduler { accepting = false; shutdown_requested = true };
      })
  posted :
      {e : EngineCore} {next : Scheduler}
      → Suspended e.phase
      → Posted e.scheduler next
      → Step max_concurrent_batches e silent (record e { scheduler = next })
  enters :
      {e : EngineCore}
      → e.phase ≡ at_top
      → e.scheduler.accepting ≡ true
      → Step max_concurrent_batches e silent (record e { phase = filling })
  leaves :
      {e : EngineCore} {next : Scheduler}
      → e.phase ≡ at_top
      → e.scheduler.accepting ≡ false
      → fail_all_waiting ErrorCode.server_shutting_down e.scheduler ≡ some next
      → Step max_concurrent_batches e silent (moves e next draining)
  full :
      {e : EngineCore}
      → e.phase ≡ filling
      → ltb (length e.in_flight) max_concurrent_batches ≡ false
      → Step max_concurrent_batches e silent (record e { phase = checking })
  nothing_scheduled :
      {e : EngineCore} {batch : ScheduledBatch} {next : Scheduler}
      → e.phase ≡ filling
      → ltb (length e.in_flight) max_concurrent_batches ≡ true
      → schedule_step e.scheduler ≡ some (ended (batch, next))
      → is_empty batch.items ≡ true
      → Step max_concurrent_batches e silent (moves e next checking)
  refused :
      {e : EngineCore} {batch : ScheduledBatch} {s next : Scheduler}
      → (error : ErrorCode) → e.phase ≡ filling
      → ltb (length e.in_flight) max_concurrent_batches ≡ true
      → schedule_step e.scheduler ≡ some (ended (batch, s))
      → is_empty batch.items ≡ false
      → cleanup_terminal_requests (fail_batch batch error s) ≡ some next
      → Step max_concurrent_batches e silent (moves e next filling)
  executes :
      {e : EngineCore} {next : Scheduler}
      → (batch : ScheduledBatch) → e.phase ≡ filling
      → ltb (length e.in_flight) max_concurrent_batches ≡ true
      → schedule_step e.scheduler ≡ some (ended (batch, next))
      → is_empty batch.items ≡ false
      → Step max_concurrent_batches e
          (hands batch)
          (record e { scheduler = next; in_flight = e.in_flight ++ batch ∷ [] })
  admits :
      {e : EngineCore} {s : Scheduler}
      → e.phase ≡ checking
      → e.in_flight ≡ []
      → cleanup_terminal_requests e.scheduler ≡ some s
      → must_admit s ≡ true
      → Step max_concurrent_batches e silent (moves e (preempt_one_for_admission s) at_top)
  waits :
      {e : EngineCore} {s : Scheduler}
      → e.phase ≡ checking
      → e.in_flight ≡ []
      → cleanup_terminal_requests e.scheduler ≡ some s
      → must_admit s ≡ false
      → Step max_concurrent_batches e silent (moves e s idle)
  wakes :
      {e : EngineCore}
      → e.phase ≡ idle
      → Step max_concurrent_batches e silent (record e { phase = at_top })
  pops :
      {e : EngineCore} {rest : List ScheduledBatch}
      → (batch : ScheduledBatch) → e.phase ≡ checking
      → e.in_flight ≡ batch ∷ rest
      → Step max_concurrent_batches e silent (record e { in_flight = rest; phase = awaiting batch })
  received :
      {e : EngineCore} {s next : Scheduler}
      → (batch : ScheduledBatch) → (result : Result BatchResult) → e.phase ≡ awaiting batch
      → retire batch result e.scheduler ≡ some s
      → cleanup_terminal_requests s ≡ some next
      → Step max_concurrent_batches e (collects batch) (moves e next at_top)
  drains :
      {e : EngineCore} {rest : List ScheduledBatch}
      → (batch : ScheduledBatch) → e.phase ≡ draining
      → e.in_flight ≡ batch ∷ rest
      → Step max_concurrent_batches e silent
          (record e { in_flight = rest; phase = drain_awaiting batch })
  drained :
      {e : EngineCore} {next : Scheduler}
      → (batch : ScheduledBatch) → (result : Result BatchResult) → e.phase ≡ drain_awaiting batch
      → retire batch result e.scheduler ≡ some next
      → Step max_concurrent_batches e (collects batch) (moves e next draining)
  ends :
      {e : EngineCore} {s : Scheduler}
      → e.phase ≡ draining
      → e.in_flight ≡ []
      → cleanup_all_running ErrorCode.server_shutting_down e.scheduler ≡ some s
      → Step max_concurrent_batches e silent
          (moves e (complete_shutdown_on_scheduler_thread s) finished)
