-- ===== src/Tests/Loop.antt =====
-- A run of the engine loop: a batch is handed over and fails, and the engine shuts down.
use cc_infer.Base.{
  ◌≡◌, ◌≤◌, refl, [], ◌∷◌, ◌++◌, Bool, true, false, Option, none, some, length, is_empty,
}
use cc_infer.Errors.{ErrorCode, fail}
use cc_infer.Types.{ScheduledBatch}
use cc_infer.Scheduler.{Scheduler}
use cc_infer.BlockPool.{
  num_free_blocks, allocate_blocks, allocate, release_blocks, release_request, ref_count, recycle,
}
use cc_infer.BlockCache.{mark_idle}
use cc_infer.KvBlocks.{allocate_kv_blocks, release_request_blocks}
use cc_infer.Scheduler.Work.{build_running_batch}
use cc_infer.Scheduler.Events.{
  complete_shutdown_on_scheduler_thread, send_error_event, erase_request,
}
use cc_infer.Scheduler.Wait.{Ending, ended, dangling}
use cc_infer.Scheduler.Admit.{schedule_step}
use cc_infer.Scheduler.Retire.{fail_batch}
use cc_infer.Scheduler.Cleanup.{cleanup_terminal_requests, fail_all_waiting, cleanup_all_running}
use cc_infer.Engine.{
  EngineCore, at_top, filling, finished, hands, Step, stops, enters, leaves, full, executes, pops,
  received, ends, retire,
}
use cc_infer.Engine.Queue.{
  queue, QueueStep, Step-QueueStep, Run, begins, quietly, handing, collecting, Run-queue,
}
use cc_infer.Engine.End.{Run-finished}
use cc_infer.Tests.Samples.{sample_scheduler, sample_sampling}

abbrev first_state : EngineCore
first_state = record {
  scheduler = record sample_scheduler { waiting = [] };
  in_flight = [];
  phase = at_top;
}

abbrev value_or {ℓ} : {A : Type ℓ} → A → Option A → A
value_or a none = a
value_or a (some b) = b

abbrev value_of_ending : {A : Type 0} → Option (Ending A) → Option A
value_of_ending none = none
value_of_ending (some (dangling p s)) = none
value_of_ending (some (ended a)) = some a

abbrev scheduled : ScheduledBatch × Scheduler
scheduled =
    value_or (record { batch_id = 0; items = []; sampling = sample_sampling }, sample_scheduler)
      (value_of_ending (schedule_step first_state.scheduler))

abbrev is_some {ℓ} : {A : Type ℓ} → Option A → Bool
is_some none = false
is_some (some a) = true

value_of : {A : Type 0} (a : A) (o : Option A) → is_some o ≡ true → o ≡ some (value_or a o)
value_of a none h = absurd cc
value_of a (some b) h = refl

scheduled_some : is_some (value_of_ending (schedule_step first_state.scheduler)) ≡ true
unfolding schedule_step build_running_batch allocate_kv_blocks num_free_blocks allocate_blocks
    allocate
scheduled_some = refl

ending_value :
    {A : Type 0} (a : A) (o : Option (Ending A))
    → is_some (value_of_ending o) ≡ true
    → o ≡ some (ended (value_or a (value_of_ending o)))
ending_value a none h = absurd cc
ending_value a (some (dangling p s)) h = absurd cc
ending_value a (some (ended b)) h = refl

step_given : schedule_step first_state.scheduler ≡ some (ended scheduled)
step_given = ending_value _ _ scheduled_some

some_item : is_empty scheduled.0.items ≡ false
unfolding schedule_step build_running_batch allocate_kv_blocks num_free_blocks allocate_blocks
    allocate
some_item = refl

abbrev failing : Scheduler
failing = fail_batch scheduled.0 ErrorCode.cuda_launch_failed scheduled.1

abbrev cleaned : Scheduler
cleaned = value_or failing (cleanup_terminal_requests failing)

cleaned_some : is_some (cleanup_terminal_requests failing) ≡ true
unfolding schedule_step build_running_batch allocate_kv_blocks num_free_blocks allocate_blocks
    allocate fail_batch cleanup_terminal_requests fail_all_waiting cleanup_all_running
    send_error_event release_request_blocks release_blocks release_request ref_count mark_idle
    recycle erase_request
cleaned_some = refl

cleaned_given : cleanup_terminal_requests failing ≡ some cleaned
cleaned_given = value_of failing _ cleaned_some

abbrev stopped_scheduler : Scheduler
stopped_scheduler = record cleaned { accepting = false; shutdown_requested = true }

abbrev without_waiting : Scheduler
without_waiting =
    value_or stopped_scheduler (fail_all_waiting ErrorCode.server_shutting_down stopped_scheduler)

without_waiting_some :
    is_some (fail_all_waiting ErrorCode.server_shutting_down stopped_scheduler) ≡ true
unfolding schedule_step build_running_batch allocate_kv_blocks num_free_blocks allocate_blocks
    allocate fail_batch cleanup_terminal_requests fail_all_waiting cleanup_all_running
    send_error_event release_request_blocks release_blocks release_request ref_count mark_idle
    recycle erase_request
without_waiting_some = refl

without_waiting_given :
    fail_all_waiting ErrorCode.server_shutting_down stopped_scheduler ≡ some without_waiting
without_waiting_given = value_of stopped_scheduler _ without_waiting_some

abbrev without_running : Scheduler
without_running =
    value_or without_waiting (cleanup_all_running ErrorCode.server_shutting_down without_waiting)

without_running_some :
    is_some (cleanup_all_running ErrorCode.server_shutting_down without_waiting) ≡ true
unfolding schedule_step build_running_batch allocate_kv_blocks num_free_blocks allocate_blocks
    allocate fail_batch cleanup_terminal_requests fail_all_waiting cleanup_all_running
    send_error_event release_request_blocks release_blocks release_request ref_count mark_idle
    recycle erase_request
without_running_some = refl

without_running_given :
    cleanup_all_running ErrorCode.server_shutting_down without_waiting ≡ some without_running
without_running_given = value_of without_waiting _ without_running_some

abbrev entered : EngineCore
entered = record first_state { phase = filling }

abbrev executed : EngineCore
executed = record entered { scheduler = scheduled.1; in_flight = scheduled.0 ∷ [] }

abbrev final_state : EngineCore
final_state = record {
  scheduler = complete_shutdown_on_scheduler_thread without_running;
  in_flight = [];
  phase = finished;
}

execute-Step : Step 1 entered (hands scheduled.0) executed
execute-Step = executes scheduled.0 refl refl step_given some_item

Step-QueueStep_example : QueueStep 1 (queue entered) (hands scheduled.0) (queue executed)
Step-QueueStep_example = Step-QueueStep 1 execute-Step

first_queue : queue first_state ≡ []
unfolding queue
first_queue = refl

retire_given : retire scheduled.0 (fail ErrorCode.cuda_launch_failed) scheduled.1 ≡ some failing
unfolding retire
retire_given = refl

executed-Run : Run 1 first_state executed (scheduled.0 ∷ []) []
executed-Run = handing (quietly begins (enters refl refl)) execute-Step

Run-queue_example : (scheduled.0 ∷ [] ≡ [] ++ queue executed) × (length (queue executed) ≤ 1)
Run-queue_example = Run-queue 1 first_queue executed-Run

ended-Run : Run 1 first_state final_state (scheduled.0 ∷ []) (scheduled.0 ∷ [])
ended-Run =
    quietly
      (quietly
        (quietly
          (collecting (quietly (quietly executed-Run (full refl refl)) (pops scheduled.0 refl refl))
            (received scheduled.0 (fail ErrorCode.cuda_launch_failed) refl retire_given
              cleaned_given))
          stops)
        (leaves refl refl without_waiting_given))
      (ends refl refl without_running_given)

Run-finished_example : scheduled.0 ∷ [] ≡ scheduled.0 ∷ []
Run-finished_example =
    Run-finished 1 {start = first_state} {e = final_state} refl refl ended-Run refl
