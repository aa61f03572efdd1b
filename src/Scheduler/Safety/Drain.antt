-- ===== src/Scheduler/Safety/Drain.antt =====
-- src/scheduler/scheduler.cpp, `fail_all_waiting`: at the shutdown the queues are emptied.
use cc_infer.Base.{
  ℕ, ◌+◌, ◌≤◌, ◌<◌, ◌≡◌, ◌≢◌, refl, ap, ◌∙◌, List, [], ◌∷◌, ◌++◌, true, false, not, none, some,
  arith, count, update, is_empty, Bool-cases, inl, inr, count-append,
}
use cc_infer.Errors.{ErrorCode, Result, fail}
use cc_infer.Types.{GeneratedToken}
use cc_infer.BlockPool.{ndebug}
use cc_infer.BlockCache.Invariant.{refs}
use cc_infer.Scheduler.{Scheduler, RequestState, Event, has_scheduling}
use cc_infer.Scheduler.Events.{send_event, erase_request}
use cc_infer.Scheduler.Cleanup.{fail_one, fail_queue, fail_all_waiting}
use cc_infer.Scheduler.Safety.{held, table_of, Backed, Safe, touched, held-append}
use cc_infer.Scheduler.Safety.Release.{release_scheduling_blocks_total}
use cc_infer.Scheduler.Safety.Admit.{assert-true, bind_some}

-- Like `Safe`, for the requests `others` that stay and the requests `ps` that have yet to leave.
record Draining (others ps : List ℕ) (s : Scheduler) : Type 0 where
  pub backed : Backed s.heap s.kv (others ++ ps)
  pub once : (q : ℕ) → count q others + count q ps ≤ 1
  pub placed : (q : ℕ) → has_scheduling (s.heap q) ≡ true → 0 < count q others + count q ps
  pub prompted :
      (q : ℕ) → has_scheduling (s.heap q) ≡ true → is_empty (s.heap q).prompt_tokens ≡ false
  pub release_build : s.build ≡ ndebug

record SameLists (s t : Scheduler) : Type 0 where
  pub same_waiting : t.waiting ≡ s.waiting
  pub same_skip : t.skip ≡ s.skip
  pub same_running : t.running ≡ s.running

send_event-eq :
    (sink : ℕ) (r : Result GeneratedToken) (s : Scheduler)
    → (sent : List Event) × ((send_event sink r s).1 ≡ record s { events = sent })
unfolding send_event
send_event-eq sink r s = elim (Bool-cases (s.expired sink)) [
  | inl gone ↦ (s.events, rw gone)
  | inr there ↦ (s.events ++ record { to_sink = sink; outcome = r } ∷ [], rw there)
]

module _ (e : ErrorCode) (others rest : List ℕ) (p : ℕ) (s : Scheduler)
    (d : Draining others (p ∷ rest) s) where
  fail_one_total :
      (t : Scheduler) × (fail_one e p s ≡ some t)
      × Draining others rest t
      × SameLists s t
      × ((j : ℕ) → refs t.kv j + count j (table_of (s.heap p)) ≡ refs s.kv j)
      × ((q : ℕ) → q ≢ p → t.heap q ≡ s.heap q)
  unfolding fail_one erase_request
  fail_one_total =
      let (heap, kv, by_seq_id, run, f) =
        release_scheduling_blocks_total p (others ++ p ∷ rest) s d.backed
          (λ h. omega (arith, d.placed p h, d.once p, count-append p others (p ∷ rest))) in
      let freed = touched s heap kv by_seq_id in
      let (sent, told) = send_event-eq (heap p).sink (fail e) freed in
      (
        record freed { events = sent; requests = update freed.requests (heap p).request_id none },
        bind_some _ run (rw told (assert-true (ap not f.idle_now) refl)),
        record {
          backed = record {
            inv = f.backed.inv;
            sized = f.backed.sized;
            covered = λ j. omega (
              arith,
              f.backed.covered j,
              held-append heap others (p ∷ rest) j,
              held-append heap others rest j,
            );
          };
          once = λ q. ground (arith, d.once q);
          placed = λ q h. ground (arith, d.placed q, f.idle_now, f.others q);
          prompted = λ q h. ground (arith, d.prompted q, f.idle_now, f.others q);
          release_build = d.release_build;
        },
        record { same_waiting = refl; same_skip = refl; same_running = refl },
        f.lost,
        f.others,
      )

-- What changes at a request outside the list changes nothing of what the list holds.
held_kept :
    (heap heap' : ℕ → RequestState) (p : ℕ) (ps : List ℕ) (j : ℕ)
    → count p ps ≡ 0
    → ((q : ℕ) → q ≢ p → heap' q ≡ heap q)
    → held heap' ps j ≡ held heap ps j
held_kept heap heap' p [] j h kept = refl
held_kept heap heap' p (q ∷ ps) j h kept =
    ground (arith, kept q, held_kept heap heap' p ps j (ground arith) kept)

fail_queue_total :
    (e : ErrorCode) (others ps : List ℕ) (s : Scheduler)
    → Draining others ps s
    → (t : Scheduler) × (fail_queue e ps s ≡ some t)
      × Draining others [] t
      × SameLists s t
      × ((j : ℕ) → refs t.kv j + held s.heap ps j ≡ refs s.kv j)
      × ((q : ℕ) → count q ps ≡ 0 → t.heap q ≡ s.heap q)
unfolding fail_queue
fail_queue_total e others [] s d = (
  s,
  refl,
  d,
  record { same_waiting = refl; same_skip = refl; same_running = refl },
  λ j. omega arith,
  λ q h. refl,
)
fail_queue_total e others (p ∷ ps) s d =
    let (t, run, d', same, lost, kept) = fail_one_total e others ps p s d in
    let (u, run', d'', same', lost', kept') = fail_queue_total e others ps t d' in
    let once : count p ps ≡ 0 = ground (arith, d.once p) in
    (
      u,
      bind_some _ run run',
      d'',
      record {
        same_waiting = same'.same_waiting ∙ same.same_waiting;
        same_skip = same'.same_skip ∙ same.same_skip;
        same_running = same'.same_running ∙ same.same_running;
      },
      λ j. omega (arith, lost j, lost' j, held_kept s.heap t.heap p ps j once kept),
      λ q h. ground (arith, kept q, kept' q),
    )

held_kept_all :
    (heap heap' : ℕ → RequestState) (ps : List ℕ) (j : ℕ)
    → ((q : ℕ) → 0 < count q ps → heap' q ≡ heap q)
    → held heap' ps j ≡ held heap ps j
held_kept_all heap heap' [] j kept = refl
held_kept_all heap heap' (p ∷ ps) j kept =
    ground (arith, kept p, held_kept_all heap heap' ps j (λ q h. kept q (ground arith)))

-- Requests without a sequence hold nothing.
held_none :
    (heap : ℕ → RequestState) (ps : List ℕ) (j : ℕ)
    → ((q : ℕ) → 0 < count q ps → has_scheduling (heap q) ≡ false)
    → held heap ps j ≡ 0
held_none heap [] j h = refl
held_none heap (p ∷ ps) j h =
    ground (arith, h p, held_none heap ps j (λ q some_q. h q (ground arith)))

waiting_idle :
    (s : Scheduler) → Safe s → (q : ℕ) → 0 < count q s.waiting → has_scheduling (s.heap q) ≡ false
waiting_idle s v q h = ground (arith, v.placed q, v.once q)

-- The waiting requests have yet to leave.
waiting_drains : (s : Scheduler) → Safe s → Draining (s.running ++ s.skip) s.waiting s
waiting_drains s v = record {
  backed = record {
    inv = v.backed.inv;
    sized = v.backed.sized;
    covered = λ j. omega (
      arith,
      v.backed.covered j,
      held-append s.heap (s.running ++ s.skip) s.waiting j,
      held_none s.heap s.waiting j (waiting_idle s v),
    );
  };
  once = λ q. omega (arith, v.once q, count-append q s.running s.skip);
  placed = λ q h. omega (arith, v.placed q h, count-append q s.running s.skip);
  prompted = v.prompted;
  release_build = v.release_build;
}

-- Then the skipped ones.
skip_drains :
    (running skip : List ℕ) (t : Scheduler)
    → Draining (running ++ skip) [] t
    → Draining running skip (record t { waiting = [] })
skip_drains running skip t d = record {
  backed = record {
    inv = d.backed.inv;
    sized = d.backed.sized;
    covered = λ j. omega (arith, d.backed.covered j, held-append t.heap (running ++ skip) [] j);
  };
  once = λ q. omega (arith, d.once q, count-append q running skip);
  placed = λ q h. omega (arith, d.placed q h, count-append q running skip);
  prompted = d.prompted;
  release_build = d.release_build;
}

drained-Safe :
    (running : List ℕ) (u : Scheduler)
    → Draining running [] u
    → u.waiting ≡ []
    → u.running ≡ running
    → Safe (record u { skip = [] })
drained-Safe running u d waits runs = record {
  backed = record {
    inv = d.backed.inv;
    sized = d.backed.sized;
    covered = λ j. omega (
      arith,
      d.backed.covered j,
      held-append u.heap running [] j,
      held-append u.heap u.running [] j,
      ap (λ l. held u.heap l j) runs,
    );
  };
  once = λ q. omega (arith, d.once q, ap (count q) waits, ap (count q) runs);
  placed = λ q h. omega (arith, d.placed q h, ap (count q) runs);
  prompted = d.prompted;
  release_build = d.release_build;
}

-- From a safe state, `fail_all_waiting` fails no assertion: it empties the waiting list and the
-- skip list, keeps the running list, and leaves the state safe. Each block loses exactly the
-- references that the tables of the skipped requests held.
pub fail_all_waiting_total :
    (e : ErrorCode) (s : Scheduler)
    → Safe s
    → (t : Scheduler) × (fail_all_waiting e s ≡ some t)
      × Safe t
      × (t.waiting ≡ [])
      × (t.skip ≡ [])
      × (t.running ≡ s.running)
      × ((j : ℕ) → refs t.kv j + held s.heap s.skip j ≡ refs s.kv j)
unfolding fail_all_waiting
fail_all_waiting_total e s v =
    let (t, run, d, same, lost, kept) =
      fail_queue_total e (s.running ++ s.skip) s.waiting s (waiting_drains s v) in
    let (u, run', d', same', lost', kept') =
      fail_queue_total e s.running s.skip (record t { waiting = [] })
        (skip_drains s.running s.skip t d) in
    let runs : u.running ≡ s.running = same'.same_running ∙ same.same_running in
    (
      record u { skip = [] },
      bind_some _ run (
          bind_some _ (ap (λ l. fail_queue e l (record t { waiting = [] })) same.same_skip ∙ run')
            refl),
      drained-Safe s.running u d' same'.same_waiting runs,
      same'.same_waiting,
      refl,
      runs,
      λ j. omega (
        arith,
        lost j,
        lost' j,
        held_none s.heap s.waiting j (waiting_idle s v),
        held_kept_all s.heap t.heap s.skip j λ q h. kept q (omega (arith, v.once q)),
      ),
    )
