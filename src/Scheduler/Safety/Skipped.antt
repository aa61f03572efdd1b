-- ===== src/Scheduler/Safety/Skipped.antt =====
-- src/scheduler/scheduler.cpp, `admit_one_skipped`: the head of the skip list runs again or leaves.
use cc_infer.Base.{
  ℕ, suc, ◌+◌, ◌≡◌, refl, ap, List, [], ◌∷◌, ◌++◌, Bool, true, false, ◌||◌, not, none, some, ◌==◌,
  leb, if◌then◌else◌, ◌>>=◌, arith, count, length, update, Bool-cases, inl, inr, count-append,
}
use cc_infer.Errors.{ErrorCode, Result, fail}
use cc_infer.Types.{GeneratedToken}
use cc_infer.Scheduler.{
  Scheduler, RequestState, BatchBuildContext, has_scheduling, room_to_run, is_cancelled,
}
use cc_infer.Scheduler.Events.{send_event, send_terminal_event, erase_request}
use cc_infer.Scheduler.Wait.{release_scheduling_blocks, seq_id_of, push_front_waiting}
use cc_infer.Scheduler.Admit.{
  StepResult, dismiss, send_fail, send_end, run_request, admit_skipped, admit_one_skipped,
}
use cc_infer.Scheduler.Safety.{table_of, held, Safe, owners, touched, held-append}
use cc_infer.Scheduler.Safety.Release.{release_scheduling_blocks_total}
use cc_infer.Scheduler.Safety.Work.{
  account, send_event-Safe, send_terminal_event-Safe, build_state_work_total,
}

-- A test whose outcome is known, in a term that also mentions the test elsewhere.
pub if_true {ℓ} :
    {A : Type ℓ} {b : Bool} {x r : A} (y : A) → b ≡ true → x ≡ r → (if b then x else y) ≡ r
if_true y h e = rw (h, e)

pub if_false {ℓ} :
    {A : Type ℓ} {b : Bool} {y r : A} (x : A) → b ≡ false → y ≡ r → (if b then x else y) ≡ r
if_false x h e = rw (h, e)

-- The requests that wait for a place.
abbrev pub queued : Scheduler → ℕ
queued s = length s.skip + length s.waiting

-- What a round of the admission leads to: `true` means that a request has left the queues for good.
pub record Admitted (ctx : BatchBuildContext) (n : ℕ) (done : Bool) (ctx' : BatchBuildContext)
    (t : Scheduler) : Type 0 where
  pub safe : Safe t
  pub same_account : account ctx' ≡ account ctx
  pub progress : done ≡ true → queued t + 1 ≡ n

abbrev pub AdmitResult : StepResult → BatchBuildContext → ℕ → Type 0
AdmitResult m ctx n =
    (done : Bool) × (ctx' : BatchBuildContext) × (t : Scheduler) × (m ≡ some (done, (ctx', t)))
    × Admitted ctx n done ctx' t

-- The same for a round that takes a request off the queues.
abbrev pub LeaveResult : StepResult → BatchBuildContext → ℕ → Type 0
LeaveResult m ctx n =
    (ctx' : BatchBuildContext) × (t : Scheduler) × (m ≡ some (true, (ctx', t)))
    × Admitted ctx n true ctx' t

-- The same for a round that otherwise keeps as many requests in the queues.
abbrev pub SkipResult : StepResult → BatchBuildContext → ℕ → Type 0
SkipResult m ctx n =
    (done : Bool) × (ctx' : BatchBuildContext) × (t : Scheduler) × (m ≡ some (done, (ctx', t)))
    × Admitted ctx n done ctx' t
    × (done ≡ false → queued t ≡ n)

-- A message leaves the queues and the requests' sequences.
abbrev pub Quiet : (Scheduler → Scheduler) → Scheduler → Type 0
Quiet send s =
    Safe (send s)
    × ((send s).waiting ≡ s.waiting)
    × ((send s).skip ≡ s.skip)
    × ((p : ℕ) → has_scheduling ((send s).heap p) ≡ has_scheduling (s.heap p))

send_event-Quiet :
    (sink : ℕ) (r : Result GeneratedToken) (s : Scheduler)
    → Safe s
    → Quiet (λ t. (send_event sink r t).1) s
unfolding send_event
send_event-Quiet sink r s v =
    (send_event-Safe sink r s v, ground arith, ground arith, λ p. ground arith)

pub send_fail-Quiet : (p : ℕ) (e : ErrorCode) (s : Scheduler) → Safe s → Quiet (send_fail p e) s
send_fail-Quiet p e s v = send_event-Quiet (s.heap p).sink (fail e) s v

pub send_end-Quiet : (p : ℕ) (s : Scheduler) → Safe s → Quiet (send_end p) s
send_end-Quiet p s v = send_event-Quiet (s.heap p).sink _ s v

pub send_terminal_event-Quiet : (p : ℕ) (s : Scheduler) → Safe s → Quiet (send_terminal_event p) s
unfolding send_terminal_event send_event
send_terminal_event-Quiet p s v =
    (send_terminal_event-Safe p s v, ground arith, ground arith, λ q. ground arith)

-- A request with no sequence can be dismissed.
pub dismiss_total :
    (p : ℕ) (send : Scheduler → Scheduler) (ctx : BatchBuildContext) (s : Scheduler) (n : ℕ)
    → Quiet send s
    → has_scheduling (s.heap p) ≡ false
    → queued s + 1 ≡ n
    → LeaveResult (dismiss p send ctx s) ctx n
unfolding erase_request
dismiss_total p send ctx s n (v, waits, skips, has) free size = (
  ctx,
  record (send s) { requests = update (send s).requests ((send s).heap p).request_id none },
  rw (has p, free),
  record {
    safe = record {
      backed = v.backed;
      once = v.once;
      placed = v.placed;
      prompted = v.prompted;
      release_build = v.release_build;
    };
    same_account = refl;
    progress = λ _. omega (arith, ap length waits, ap length skips);
  },
)

-- Running a request that holds no place: the state must be safe with it at the end of the list.
pub run_request_total :
    (p seq_id : ℕ) (ctx : BatchBuildContext) (s : Scheduler) (n : ℕ)
    → Safe
        (record s { by_seq_id = update s.by_seq_id seq_id (some p); running = s.running ++ p ∷ [] })
    → queued s + 1 ≡ n
    → LeaveResult (run_request p seq_id ctx s) ctx n
unfolding run_request
run_request_total p seq_id ctx s n v size =
    let s' = record s {
      by_seq_id = update s.by_seq_id seq_id (some p);
      running = s.running ++ p ∷ [];
    } in
    let (ctx', t, run, built) =
      build_state_work_total p ctx s' v (ground (arith, count-append p s.running (p ∷ []))) in
    (
      ctx',
      t,
      rw run,
      record {
        safe = built.safe;
        same_account = built.same_account;
        progress = λ _. omega (arith, ap length built.same_waiting, ap length built.same_skip);
      },
    )

module _ (p : ℕ) (rest : List ℕ) (s : Scheduler) (e : s.skip ≡ p ∷ rest) (v : Safe s) where
  taken : Scheduler
  taken = record s { skip = rest }

  skip_count : (q : ℕ) → count q s.skip ≡ (if q == p then 1 else 0) + count q rest
  skip_count q = ap (count q) e

  skip_length : length s.skip ≡ suc (length rest)
  skip_length = ap length e

  skip_held :
      (heap : ℕ → RequestState) (j : ℕ)
      → held heap (owners s) j
        ≡ held heap s.running j + count j (table_of (heap p)) + held heap rest j
  skip_held heap j = omega (arith, held-append heap s.running s.skip j, ap (λ l. held heap l j) e)

  -- Released and in no queue.
  take_release :
      (u : Scheduler) × (release_scheduling_blocks p taken ≡ some u)
      × Safe u
      × (u.waiting ≡ s.waiting)
      × (u.skip ≡ rest)
      × (has_scheduling (u.heap p) ≡ false)
  unfolding taken
  take_release =
      let (heap, kv, by_seq_id, run, f) =
        release_scheduling_blocks_total p (owners s) taken v.backed
          (λ h. omega (arith, v.placed p h, v.once p, count-append p s.running s.skip)) in
      (
        touched taken heap kv by_seq_id,
        run,
        record {
          backed = record {
            inv = f.backed.inv;
            sized = f.backed.sized;
            covered = λ j.
                omega
                  (arith, f.backed.covered j, skip_held heap j, held-append heap s.running rest j);
          };
          once = λ q. ground (arith, v.once q, skip_count q);
          placed = λ q h. ground (arith, v.placed q, f.idle_now, f.others q, skip_count q);
          prompted = λ q h. ground (arith, v.prompted q, f.idle_now, f.others q);
          release_build = v.release_build;
        },
        refl,
        refl,
        f.idle_now,
      )

  skipped_leaves :
      (send : Scheduler → Scheduler) (ctx : BatchBuildContext)
      → ((u : Scheduler) → Safe u → Quiet send u)
      → LeaveResult (release_scheduling_blocks p taken >>= dismiss p send ctx) ctx (queued s)
  unfolding taken
  skipped_leaves send ctx quiet =
      let (u, run, safe, waits, skips, free) = take_release in
      let (c, t, run', a) =
        dismiss_total p send ctx u (queued s) (quiet u safe) free
          (omega (arith, ap length waits, ap length skips, skip_length)) in
      (c, t, rw run run', a)

  skipped_runs :
      (seq_id : ℕ) (ctx : BatchBuildContext)
      → LeaveResult (run_request p seq_id ctx taken) ctx (queued s)
  unfolding taken
  skipped_runs seq_id ctx =
      run_request_total p seq_id ctx taken (queued s)
        (record {
          backed = record {
            inv = v.backed.inv;
            sized = v.backed.sized;
            covered = λ j. omega (
              arith,
              v.backed.covered j,
              skip_held s.heap j,
              held-append s.heap (s.running ++ p ∷ []) rest j,
              held-append s.heap s.running (p ∷ []) j,
            );
          };
          once = λ q. ground (arith, v.once q, skip_count q, count-append q s.running (p ∷ []));
          placed =
              λ q h. ground (arith, v.placed q, skip_count q, count-append q s.running (p ∷ []));
          prompted = v.prompted;
          release_build = v.release_build;
        })
        (omega (arith, skip_length))

  -- A request that was skipped before it had a sequence goes back to the waiting list.
  skipped_waits :
      (ctx : BatchBuildContext)
      → has_scheduling (s.heap p) ≡ false
      → Admitted ctx (queued s) false ctx (push_front_waiting p taken)
  unfolding taken
  skipped_waits ctx free = record {
    safe = record {
      backed = record {
        inv = v.backed.inv;
        sized = v.backed.sized;
        covered = λ j.
            omega
              (arith, v.backed.covered j, skip_held s.heap j, held-append s.heap s.running rest j);
      };
      once = λ q. ground (arith, v.once q, skip_count q);
      placed = λ q h. ground (arith, v.placed q, skip_count q);
      prompted = v.prompted;
      release_build = v.release_build;
    };
    same_account = refl;
    progress = λ h. absurd cc;
  }

  admit_skipped_total :
      (ctx : BatchBuildContext) → SkipResult (admit_skipped p ctx taken) ctx (queued s)
  unfolding admit_skipped taken
  admit_skipped_total ctx = elim (Bool-cases (is_cancelled (s.heap p).status)) [
    | inl cancelled ↦
        let (c, t, run, a) =
          skipped_leaves (send_fail p ErrorCode.request_cancelled) ctx (send_fail-Quiet p _) in
        (true, c, t, rw (cancelled, admit_skipped) run, a, λ h. absurd cc)
    | inr kept ↦ elim (Bool-cases ((s.heap p).sampling.max_tokens == 0)) [
      | inl nothing ↦
          let (c, t, run, a) = skipped_leaves (send_end p) ctx (send_end-Quiet p) in
          (true, c, t, rw (kept, admit_skipped) (rw nothing run), a, λ h. absurd cc)
      | inr wants ↦ elim (Bool-cases (has_scheduling (s.heap p))) [
        | inr free ↦ (
          false,
          ctx,
          push_front_waiting p taken,
          rw (kept, admit_skipped) (rw wants (rw free)),
          skipped_waits ctx free,
          λ h. omega (arith, skip_length),
        )
        | inl has ↦ elim (Bool-cases s.accepting) [
          | inr closing ↦
              let (c, t, run, a) =
                skipped_leaves (send_fail p ErrorCode.server_shutting_down) ctx
                  (send_fail-Quiet p _) in
              (
                true,
                c,
                t,
                if_false _ kept
                    (if_false _ wants (if_false _ (ap not has) (if_true _ (ap not closing) run))),
                a,
                λ h. absurd cc,
              )
          | inl open_now ↦
              elim (Bool-cases
                (leb (s.heap p).sampling.max_tokens (length (s.heap p).generated_tokens))) [
                  | inl full ↦
                      let (c, t, run, a) =
                        skipped_leaves (send_terminal_event p) ctx (send_terminal_event-Quiet p) in
                      (
                        true,
                        c,
                        t,
                        if_false _ kept (
                            if_false _ wants (
                              if_false _ (ap not has)
                                (if_false _ (ap not open_now) (if_true _ full run)))),
                        a,
                        λ h. absurd cc,
                      )
                  | inr more ↦
                      let (c, t, run, a) = skipped_runs (seq_id_of (s.heap p)) ctx in
                      (
                        true,
                        c,
                        t,
                        if_false _ kept (
                            if_false _ wants (
                              if_false _ (ap not has)
                                (if_false _ (ap not open_now) (if_false _ more run)))),
                        a,
                        λ h. absurd cc,
                      )
                ]
        ]
      ]
    ]
  ]

pub Admitted-nothing :
    (ctx : BatchBuildContext) (s : Scheduler) → Safe s → Admitted ctx (queued s) false ctx s
Admitted-nothing ctx s v = record { safe = v; same_account = refl; progress = λ h. absurd cc }

admit_one_skipped_list :
    (skip : List ℕ) (ctx : BatchBuildContext) (s : Scheduler)
    → s.skip ≡ skip
    → Safe s
    → SkipResult (admit_one_skipped ctx s) ctx (queued s)
unfolding admit_one_skipped taken
admit_one_skipped_list [] ctx s e v =
    (false, ctx, s, ground (arith, e), Admitted-nothing ctx s v, λ h. refl)
admit_one_skipped_list (p ∷ rest) ctx s e v =
    elim (Bool-cases (ctx.token_budget == 0 || not (room_to_run s))) [
      | inl full ↦ (false, ctx, s, ground (arith, e, full), Admitted-nothing ctx s v, λ h. refl)
      | inr room ↦
          let (d, c, t, run, a, stays) = admit_skipped_total p rest s e v ctx in
          (d, c, t, ground (arith, e, room, run), a, stays)
    ]

-- Admitting the first skipped request of a safe state fails no assertion, and the state stays safe.
-- The tokens of a new work item come off the budget. When the admission succeeds one request has
-- left the queues, and otherwise they hold as many as before.
pub admit_one_skipped_total :
    (ctx : BatchBuildContext) (s : Scheduler)
    → Safe s
    → SkipResult (admit_one_skipped ctx s) ctx (queued s)
admit_one_skipped_total ctx s v = admit_one_skipped_list s.skip ctx s refl v
