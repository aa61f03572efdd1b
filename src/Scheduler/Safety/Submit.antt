-- ===== src/Scheduler/Safety/Submit.antt =====
-- src/scheduler/scheduler.cpp, `submit`: a request enters the waiting list, or is told why not.
use cc_infer.Base.{
  ℕ, ◌+◌, ◌≤◌, ◌≡◌, ◌≢◌, refl, [], ◌∷◌, ◌++◌, Bool, true, false, some, if◌then◌else◌, ◌&&◌, not,
  leb, ltb, max, arith, length, update, count-append, length-append,
}
use cc_infer.Errors.{ErrorCode, fail}
use cc_infer.Types.{SchedulerRequest}
use cc_infer.Scheduler.{Scheduler}
use cc_infer.Scheduler.Events.{
  send_event, new_request, is_registered, submit_on_scheduler_thread, submit,
}
use cc_infer.Scheduler.Safety.{Safe, places, held_other}
use cc_infer.Scheduler.Safety.Work.{send_event-Safe}

abbrev enqueued : SchedulerRequest → Scheduler → Scheduler
enqueued req s = record s {
  heap = update s.heap s.next_ptr (new_request req s.limits.default_max_context_len);
  next_ptr = s.next_ptr + 1;
  requests = update s.requests req.request_id (some s.next_ptr);
  waiting = s.waiting ++ s.next_ptr ∷ [];
}

enqueued-Safe :
    (req : SchedulerRequest) (s : Scheduler)
    → Safe s
    → places s s.next_ptr ≡ 0
    → Safe (enqueued req s)
enqueued-Safe req s v fresh =
    let state = new_request req s.limits.default_max_context_len in
    record {
      backed = record {
        inv = v.backed.inv;
        sized = v.backed.sized;
        covered = λ j. omega (
          arith,
          v.backed.covered j,
          held_other s.heap s.next_ptr state (s.running ++ s.skip) j
              (omega (arith, fresh, count-append s.next_ptr s.running s.skip)),
        );
      };
      once = λ q. ground (arith, v.once q, fresh, count-append q s.waiting (s.next_ptr ∷ []));
      placed = λ q h. ground (arith, v.placed q);
      prompted = λ q h. ground (arith, v.prompted q);
      release_build = v.release_build;
    }

-- The request is taken: the scheduler is open, the id is new, and the waiting list has room.
abbrev pub accepts : SchedulerRequest → Scheduler → Bool
accepts req s =
    s.accepting
    && (not (is_registered req.request_id s)
        && ltb (length s.waiting) s.limits.max_pending_requests)

-- What a submission does to the state.
pub record Submitted (req : SchedulerRequest) (s t : Scheduler) : Type 0 where
  pub safe : Safe t
  pub enters : t.waiting ≡ (if accepts req s then s.waiting ++ s.next_ptr ∷ [] else s.waiting)
  pub bounded : length t.waiting ≤ max (length s.waiting) s.limits.max_pending_requests
  pub registers :
      t.requests req.request_id
      ≡ (if accepts req s then some s.next_ptr else s.requests req.request_id)
  pub registered : (id p : ℕ) → s.requests id ≡ some p → t.requests id ≡ some p
  pub others : (id : ℕ) → id ≢ req.request_id → t.requests id ≡ s.requests id
  pub same_skip : t.skip ≡ s.skip
  pub same_running : t.running ≡ s.running

Submitted-if :
    {req : SchedulerRequest} {s t u : Scheduler} (b : Bool)
    → (b ≡ true → Submitted req s t)
    → (b ≡ false → Submitted req s u)
    → Submitted req s (if b then t else u)
Submitted-if true v w = v refl
Submitted-if false v w = w refl

told :
    (req : SchedulerRequest) (e : ErrorCode) (s : Scheduler)
    → Safe s
    → accepts req s ≡ false
    → Submitted req s (send_event req.sink (fail e) s).1
unfolding send_event
told req e s v refused = record {
  safe = send_event-Safe req.sink (fail e) s v;
  enters = ground (arith, refused);
  bounded = ground arith;
  registers = ground (arith, refused);
  registered = λ id p h. ground (arith, h);
  others = λ id ne. ground arith;
  same_skip = ground arith;
  same_running = ground arith;
}

enqueued-Submitted :
    (req : SchedulerRequest) (s : Scheduler)
    → Safe s
    → places s s.next_ptr ≡ 0
    → is_registered req.request_id s ≡ false
    → accepts req s ≡ true
    → Submitted req s (enqueued req s)
enqueued-Submitted req s v fresh new open_now = record {
  safe = enqueued-Safe req s v fresh;
  enters = rw open_now refl;
  bounded = ground (arith, open_now, length-append s.waiting (s.next_ptr ∷ []));
  registers = rw open_now (ground arith);
  registered = λ id p h. ground (arith, new, h);
  others = λ id ne. ground (arith, ne);
  same_skip = refl;
  same_running = refl;
}

-- A submission to a safe state, with a store address that stands in no queue yet, leaves the state
-- safe, whether the request is accepted or refused. The address goes to the end of the waiting list
-- and is registered for the id exactly if the scheduler is open, the id is not registered and fewer
-- requests wait than the limit; else the list and the id stay as they are. So the list gets no
-- longer than the limit, if it was not, and each registered id stays registered for the same
-- request. The other ids, the skipped and the running requests stay.
pub submit-Submitted :
    (req : SchedulerRequest) (s : Scheduler)
    → Safe s
    → places s s.next_ptr ≡ 0
    → Submitted req s (submit req s)
unfolding submit submit_on_scheduler_thread
submit-Submitted req s v fresh =
    Submitted-if s.accepting
      (λ open_now.
        Submitted-if (is_registered req.request_id s)
          (λ again. told req ErrorCode.invalid_argument s v (ground (arith, open_now, again)))
          λ new.
            Submitted-if (leb s.limits.max_pending_requests (length s.waiting))
              (λ full.
                told req ErrorCode.request_queue_full s v (ground (arith, open_now, new, full)))
              λ room. enqueued-Submitted req s v fresh new (ground (arith, open_now, new, room)))
      λ closing. told req ErrorCode.server_shutting_down s v (ground (arith, closing))
