-- ===== src/Tests/Scheduling.antt =====
-- The scheduler at a sample state.
use native.Mathlib.Omega.{arith}
use cc_infer.Base.{◌≡◌, refl, [], ◌∷◌, some}
use cc_infer.Scheduler.{Scheduler}
use cc_infer.Scheduler.Work.{build_state_work, build_running_batch}
use cc_infer.Scheduler.Wait.{Ending, ended, dangling, make_room, prepare_for_wait, find_smallest}
use cc_infer.KvBlocks.{release_request_blocks}
use cc_infer.BlockCache.{mark_idle}
use cc_infer.Scheduler.Admit.{admit_one_skipped}
use cc_infer.Scheduler.Safety.{Safe, held}
use cc_infer.Scheduler.Safety.Release.{ReleaseResult, release_scheduling_blocks_total}
use cc_infer.Scheduler.Safety.Work.{BuildResult, build_state_work_total, build_running_batch_total}
use cc_infer.Scheduler.Safety.Room.{Rearranged, Lost, make_room_total, make_room_dangles}
use cc_infer.Scheduler.Safety.Endings.{Reaches}
use cc_infer.Errors.{ErrorCode}
use cc_infer.Scheduler.Cleanup.{fail_all_waiting}
use cc_infer.Scheduler.Safety.Drain.{fail_all_waiting_total}
use cc_infer.Types.{SchedulerRequest}
use cc_infer.BlockCache.Invariant.{refs}
use cc_infer.Scheduler.Events.{submit}
use cc_infer.Scheduler.Safety.Submit.{Submitted, submit-Submitted}
use cc_infer.Tests.Samples.{first_tokens, sample_sampling}
use cc_infer.Scheduler.Safety.Skipped.{queued, SkipResult, admit_one_skipped_total}
use cc_infer.Base.{ℕ, ◌+◌, ◌*◌, ◌≤◌, Option, none, false}
use cc_infer.Base.Int.{pos}
use cc_infer.BlockPool.{
  ndebug, num_free_blocks, release_blocks, release_request, ref_count, recycle,
}
use cc_infer.Config.{EngineConfig, validate, new_scheduler}
use cc_infer.Config.Startup.{new_scheduler-validate}
use cc_infer.Tests.Samples.{
  waiting_request, sample_scheduler, sample_scheduler-Safe, sample_context,
}

release_scheduling_blocks_total_example : ReleaseResult 0 (0 ∷ []) sample_scheduler
release_scheduling_blocks_total_example =
    release_scheduling_blocks_total 0 (0 ∷ []) sample_scheduler sample_scheduler-Safe.backed
      (λ h. refl)

build_state_work_total_example :
    BuildResult (build_state_work 0 sample_context sample_scheduler) sample_context sample_scheduler
build_state_work_total_example =
    build_state_work_total 0 sample_context sample_scheduler sample_scheduler-Safe (omega arith)

build_running_batch_total_example :
    BuildResult
      (build_running_batch sample_context sample_scheduler)
      sample_context
      sample_scheduler
build_running_batch_total_example =
    build_running_batch_total sample_context sample_scheduler sample_scheduler-Safe

make_room_total_example :
    Reaches
      (Rearranged sample_scheduler)
      (λ p t. (sample_scheduler.skip ≡ []) × Lost sample_scheduler p t)
      (make_room sample_scheduler)
make_room_total_example = make_room_total sample_scheduler sample_scheduler-Safe

abbrev erased_of : {A : Type 0} → Option (Ending A) → Option ℕ
erased_of none = none
erased_of (some (ended a)) = none
erased_of (some (dangling p s)) = some p

make_room_dangles_example :
    (t : Scheduler) × (make_room sample_scheduler ≡ some (dangling 0 t)) × Lost sample_scheduler 0 t
unfolding find_smallest
make_room_dangles_example = make_room_dangles sample_scheduler 0 sample_scheduler-Safe refl refl

-- With request 0 running and nothing skipped, the list element of request 0 is read once erased.
make_room_reads_erased : erased_of (make_room sample_scheduler) ≡ some 0
unfolding make_room release_request_blocks release_blocks release_request ref_count mark_idle
    recycle prepare_for_wait
make_room_reads_erased = refl

-- The request is on the skip list in place of the running list.
abbrev skipping : Scheduler
skipping = record sample_scheduler { skip = 0 ∷ []; running = [] }

skipping-Safe : Safe skipping
skipping-Safe = record {
  backed = record {
    inv = sample_scheduler-Safe.backed.inv;
    sized = sample_scheduler-Safe.backed.sized;
    covered = sample_scheduler-Safe.backed.covered;
  };
  once = λ p. ground arith;
  placed = λ p h. ground arith;
  prompted = λ p h. ground arith;
  release_build = refl;
}

admit_one_skipped_total_example :
    SkipResult (admit_one_skipped sample_context skipping) sample_context (queued skipping)
admit_one_skipped_total_example = admit_one_skipped_total sample_context skipping skipping-Safe

abbrev sample_config : EngineConfig
sample_config = record {
  device_id = pos 0;
  max_blocks = pos 1024;
  kv_block_size = pos 128;
  max_sequences = pos 64;
  max_running_requests = pos 16;
  max_concurrent_batches = pos 2;
  max_pending_requests = pos 256;
  max_token_budget = pos 4096;
  max_seq_prefill_tokens = pos 512;
  default_max_context_len = pos 2048;
  state_prefix_cache_blocks = pos 3;
}

sample_config_accepted : validate sample_config ≡ none
unfolding validate
sample_config_accepted = refl

new_scheduler-validate_example :
    (s : Scheduler) × (new_scheduler ndebug sample_config waiting_request (λ sink. false) ≡ some s)
    × Safe s
    × (num_free_blocks s.kv.pool ≡ 1024)
    × (2048 ≤ s.kv.pool.max_blocks * s.kv.pool.block_size)
new_scheduler-validate_example =
    new_scheduler-validate sample_config waiting_request (λ sink. false) sample_config_accepted refl

fail_all_waiting_total_example :
    (t : Scheduler) × (fail_all_waiting ErrorCode.server_shutting_down skipping ≡ some t)
    × Safe t
    × (t.waiting ≡ [])
    × (t.skip ≡ [])
    × (t.running ≡ [])
    × ((j : ℕ) → refs t.kv j + held skipping.heap skipping.skip j ≡ refs skipping.kv j)
fail_all_waiting_total_example =
    fail_all_waiting_total ErrorCode.server_shutting_down skipping skipping-Safe

abbrev new_submission : SchedulerRequest
new_submission = record {
  request_id = 3;
  prompt_tokens = first_tokens;
  sampling = sample_sampling;
  max_context_len = 0;
  sink = 3;
}

submit-Submitted_example :
    Submitted new_submission sample_scheduler (submit new_submission sample_scheduler)
submit-Submitted_example =
    submit-Submitted new_submission sample_scheduler sample_scheduler-Safe refl
