-- ===== src/Scheduler/Cleanup.antt =====
-- src/scheduler/scheduler.cpp: terminal requests leave (`cleanup_terminal_requests`,
-- `cleanup_terminal_queue`), and the two phases of the shutdown (`fail_all_waiting`,
-- `cleanup_all_running`).
use cc_infer.Base.{
  ℕ, List, [], ◌∷◌, ◌++◌, Bool, true, false, Option, none, some, if◌then◌else◌, ◌&&◌, ◌||◌, ◌==◌,
  not, is_empty, erase_first, ◌>>=◌,
}
use cc_infer.Errors.{ErrorCode, fail}
use cc_infer.Scheduler.{Scheduler, RequestState, is_active, has_scheduling}
use cc_infer.Scheduler.Events.{send_event, send_error_event, erase_request}
use cc_infer.Scheduler.Wait.{release_scheduling_blocks, seq_id_of}
use cc_infer.Scheduler.Work.{has_schedulable_work}

abbrev pub leases_of : RequestState → ℕ
leases_of state = elim state.scheduling [ none ↦ 0 | some sch ↦ sch.reservation.execution_leases ]

-- It has a sequence that no work in flight uses, and it will not run again.
abbrev pub is_releasable : RequestState → Bool
is_releasable state =
    has_scheduling state && (not (is_active state.status) && (leases_of state == 0))

-- The first loop of `cleanup_terminal_requests`.
unfoldable pub to_release : (ℕ → RequestState) → List ℕ → List ℕ
to_release heap [] = []
to_release heap (p ∷ ps) =
    if is_releasable (heap p) then p ∷ to_release heap ps else to_release heap ps

abbrev pub release_sequence : ℕ → Scheduler → Scheduler
release_sequence p s =
    if has_scheduling (s.heap p)
    then record s { released_sequences = s.released_sequences ++ seq_id_of (s.heap p) ∷ [] }
    else s

abbrev pub leave_running : ℕ → Scheduler → Scheduler
leave_running p s = record s { running = erase_first p s.running }

-- One round of the second loop.
unfoldable pub release_terminal : ℕ → Scheduler → Option Scheduler
release_terminal p s = release_scheduling_blocks p (release_sequence p s) >>= λ t.
    erase_request p (leave_running p t) >>= λ u. some (record u { admission_paused = false })

unfoldable pub release_all : List ℕ → Scheduler → Option Scheduler
unfolding release_terminal
release_all [] s = some s
release_all (p ∷ ps) s = release_terminal p s >>= λ t. release_all ps t

-- A request of the queue that is not active any more.
unfoldable pub drop_terminal : ℕ → Scheduler → Option Scheduler
drop_terminal p s =
    release_scheduling_blocks p (if leases_of (s.heap p) == 0 then release_sequence p s else s)
    >>= λ t. erase_request p t

-- The loop of `cleanup_terminal_queue`: the active requests of the queue, and the state.
unfoldable pub clean_queue : List ℕ → Scheduler → Option (List ℕ × Scheduler)
unfolding drop_terminal
clean_queue [] s = some ([], s)
clean_queue (p ∷ ps) s = elim (is_active (s.heap p).status) [
  | true ↦ clean_queue ps s >>= λ r. some (p ∷ r.0, r.1)
  | false ↦ drop_terminal p s >>= λ t. clean_queue ps t
]

unfoldable pub cleanup_terminal_requests : Scheduler → Option Scheduler
unfolding to_release release_all clean_queue
cleanup_terminal_requests s = release_all (to_release s.heap s.running) s >>= λ t.
    clean_queue t.skip t >>= λ r. clean_queue r.1.waiting (record (r.1) { skip = r.0 }) >>= λ q.
    some (record (q.1) { waiting = q.0 })

-- `fail_one` of `fail_all_waiting`.
unfoldable pub fail_one : ErrorCode → ℕ → Scheduler → Option Scheduler
fail_one e p s =
    release_scheduling_blocks p s >>= λ t. erase_request p (send_event (t.heap p).sink (fail e) t).1

unfoldable pub fail_queue : ErrorCode → List ℕ → Scheduler → Option Scheduler
unfolding fail_one
fail_queue e [] s = some s
fail_queue e (p ∷ ps) s = fail_one e p s >>= λ t. fail_queue e ps t

unfoldable pub fail_all_waiting : ErrorCode → Scheduler → Option Scheduler
unfolding fail_queue
fail_all_waiting e s = fail_queue e s.waiting s >>= λ t.
    fail_queue e t.skip (record t { waiting = [] }) >>= λ u. some (record u { skip = [] })

-- One round of `cleanup_all_running`.
unfoldable pub close_running : ErrorCode → ℕ → Scheduler → Option Scheduler
close_running e p s =
    if has_scheduling (s.heap p)
    then (release_scheduling_blocks p
          (if is_active (s.heap p).status then send_error_event p e s else s)
        >>= λ t. erase_request p (leave_running p t))
    else some s

unfoldable pub close_all : ErrorCode → List ℕ → Scheduler → Option Scheduler
unfolding close_running
close_all e [] s = some s
close_all e (p ∷ ps) s = close_running e p s >>= λ t. close_all e ps t

unfoldable pub cleanup_all_running : ErrorCode → Scheduler → Option Scheduler
unfolding close_all
cleanup_all_running e s = close_all e s.running s

-- `wait_for_work` returns at once, without waiting for the timer.
unfoldable pub has_cause_to_wake : Scheduler → Bool
has_cause_to_wake s =
    not s.accepting
    || (has_schedulable_work s || (not s.admission_paused && not (is_empty s.waiting)))
