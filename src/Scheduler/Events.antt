-- ===== src/Scheduler/Events.antt =====
-- src/scheduler/scheduler.cpp, `send_event` and its callers, `erase_request`, and the operations
-- that other threads post: submit, cancel, start, shutdown.
use cc_infer.Base.{
  ℕ, ◌+◌, [], ◌∷◌, ◌++◌, Bool, true, false, Option, none, some, length, update, if◌then◌else◌, ◌&&◌,
  ◌==◌, not, leb, last?, assert,
}
use cc_infer.Base.Int.{negsuc}
use cc_infer.Errors.{ErrorCode, Result, done, fail}
use cc_infer.Types.{active, finished, cancelled, failed, GeneratedToken, SchedulerRequest}
use cc_infer.Scheduler.{Scheduler, RequestState, set_status, is_active, is_finished, has_scheduling}

-- `false` says that the channel of the sink is gone.
unfoldable pub send_event : ℕ → Result GeneratedToken → Scheduler → Bool × Scheduler
send_event sink result s =
    if s.expired sink
    then (false, s)
    else (true, record s { events = s.events ++ record { to_sink = sink; outcome = result } ∷ [] })

-- `GeneratedToken{.has_token = false, .finished = true}`.
abbrev pub end_of_stream : GeneratedToken
end_of_stream = record { token_id = negsuc 0; has_token = false; finished = true }

-- Of a request that has generated a token; `none` is a read of the last token of none.
unfoldable pub send_token_event : ℕ → Scheduler → Option Scheduler
unfolding send_event
send_token_event p s =
    let state = s.heap p in
    elim (last? state.generated_tokens) [
      | none ↦ none
      | some token_id ↦
          let (sent, s') =
            send_event state.sink
              (done (record {
                token_id = token_id;
                has_token = true;
                finished = is_finished state.status;
              }))
              s in
          some (if not sent && is_active state.status then set_status s' p cancelled else s')
    ]

unfoldable pub send_terminal_event : ℕ → Scheduler → Scheduler
unfolding send_event
send_terminal_event p s =
    (send_event (s.heap p).sink (done end_of_stream) (set_status s p finished)).1

unfoldable pub send_error_event : ℕ → ErrorCode → Scheduler → Scheduler
unfolding send_event
send_error_event p e s = (send_event (s.heap p).sink (fail e) (set_status s p failed)).1

unfoldable pub erase_request : ℕ → Scheduler → Option Scheduler
erase_request p s =
    assert (not (has_scheduling (s.heap p)))
      (some (record s { requests = update s.requests (s.heap p).request_id none }))

abbrev pub new_request : SchedulerRequest → ℕ → RequestState
new_request req default_len = record {
  request_id = req.request_id;
  initial_prompt_tokens = req.prompt_tokens;
  prompt_tokens = req.prompt_tokens;
  status = active;
  generated_tokens = [];
  sampling = req.sampling;
  max_context_len = if req.max_context_len == 0 then default_len else req.max_context_len;
  sink = req.sink;
  scheduling = none;
}

abbrev pub is_registered : ℕ → Scheduler → Bool
is_registered id s = elim (s.requests id) [ none ↦ false | some p ↦ true ]

unfoldable pub submit_on_scheduler_thread : SchedulerRequest → Scheduler → Scheduler
unfolding send_event
submit_on_scheduler_thread req s =
    if is_registered req.request_id s
    then (send_event req.sink (fail ErrorCode.invalid_argument) s).1
    else if leb s.limits.max_pending_requests (length s.waiting)
    then (send_event req.sink (fail ErrorCode.request_queue_full) s).1
    else record s {
      heap = update s.heap s.next_ptr (new_request req s.limits.default_max_context_len);
      next_ptr = s.next_ptr + 1;
      requests = update s.requests req.request_id (some s.next_ptr);
      waiting = s.waiting ++ s.next_ptr ∷ [];
    }

-- `submit`, where it runs on the scheduler thread.
unfoldable pub submit : SchedulerRequest → Scheduler → Scheduler
unfolding submit_on_scheduler_thread
submit req s =
    if s.accepting
    then submit_on_scheduler_thread req s
    else (send_event req.sink (fail ErrorCode.server_shutting_down) s).1

unfoldable pub cancel_on_scheduler_thread : ℕ → Scheduler → Scheduler
cancel_on_scheduler_thread request_id s = elim (s.requests request_id) [
  | none ↦ s
  | some p ↦ if is_active (s.heap p).status then set_status s p cancelled else s
]

-- The new state, and whether the execution loop is started.
unfoldable pub start : Scheduler → Scheduler × Bool
start s =
    if s.shutdown_requested
    then (s, false)
    else if s.accepting
    then (s, false)
    else (record s { accepting = true }, true)

unfoldable pub complete_shutdown_on_scheduler_thread : Scheduler → Scheduler
complete_shutdown_on_scheduler_thread s =
    if s.shutdown_done_sent then s else record s { shutdown_done_sent = true }
