-- ===== src/Scheduler/Safety/Room.antt =====
-- src/scheduler/scheduler.cpp: making room (`evict_one_skipped`, `suspend_one_running`,
-- `release_and_move_to_wait`) and preemption keep the resources safe.
use mathlib.Core.List.{reverse, reverse-cons}
use cc_infer.Base.{
  ℕ, ◌+◌, ◌≤◌, ◌<◌, ◌≡◌, ◌≢◌, refl, ap, List, [], ◌∷◌, ◌++◌, Bool, true, false, ◌&&◌, Option, none,
  some, ◌==◌, ltb, if◌then◌else◌, arith, count, erase_first, Option-cases, Bool-cases, inl, inr,
  ◌⊎◌, count-append, count-erase_first_self, count-erase_first_ne,
}
use cc_infer.BlockPool.{int_max}
use cc_infer.BlockCache.Invariant.{refs}
use cc_infer.Scheduler.{Scheduler, RequestState, has_scheduling}
use cc_infer.Scheduler.Wait.{
  prepare_for_wait, prepare, release_scheduling_blocks, release_and_move_to_wait, evict_one_skipped,
  find_smallest, smallest, suspend_request, suspend_one_running, make_room, push_front_waiting,
  is_suspendable, held_blocks, is_preemptible, dangling,
}
use cc_infer.Scheduler.Safety.{
  held, table_of, Backed, Safe, owners, places, touched, held-append, held-erase_first, held-update,
  held_other,
}
use cc_infer.Scheduler.Safety.Endings.{Stranded, Reaches, reaches, strands, and_ended-Reaches}
use cc_infer.Scheduler.Safety.Release.{ReleaseResult, release_scheduling_blocks_total}

-- `t` is safe, and has each request as often in its queues as `s`.
pub record Rearranged (s t : Scheduler) : Type 0 where
  pub safe : Safe t
  pub same_places : (q : ℕ) → places t q ≡ places s q

owners_once :
    (s : Scheduler) (p : ℕ) → Safe s → has_scheduling (s.heap p) ≡ true → count p (owners s) ≡ 1
owners_once s p v h = omega (arith, v.placed p h, v.once p, count-append p s.running s.skip)

-- Preparing a request changes no table.
prepared :
    (p : ℕ) (s : Scheduler) (os : List ℕ)
    → count p os ≤ 1
    → Backed s.heap s.kv os
    → Backed (prepare p s).heap s.kv os
unfolding prepare_for_wait
prepared p s os one b = record {
  inv = b.inv;
  sized = b.sized;
  covered = λ j. ground (
    arith,
    b.covered j,
    held-update s.heap p (prepare_for_wait (s.heap p)) os j,
    held_other s.heap p (prepare_for_wait (s.heap p)) os j,
  );
}

module _ (p : ℕ) (s : Scheduler) (v : Safe s) (has : has_scheduling (s.heap p) ≡ true) where
  released : ReleaseResult p (owners s) (prepare p s)
  unfolding prepare_for_wait
  released =
      release_scheduling_blocks_total p (owners s) (prepare p s)
        (prepared p s (owners s) (omega (arith, owners_once s p v has)) v.backed)
        (λ _. owners_once s p v has)

held_running_erased :
    (heap : ℕ → RequestState) (p : ℕ) (running skip : List ℕ) (j : ℕ)
    → held heap (erase_first p running ++ skip) j ≤ held heap (running ++ skip) j
held_running_erased heap p running skip j = omega (
  arith,
  held-append heap running skip j,
  held-append heap (erase_first p running) skip j,
  held-erase_first heap p running j,
)

held_skip_rest :
    (heap : ℕ → RequestState) (p : ℕ) (running rest : List ℕ) (j : ℕ)
    → held heap (running ++ rest) j ≤ held heap (running ++ p ∷ rest) j
held_skip_rest heap p running rest j =
    omega (arith, held-append heap running rest j, held-append heap running (p ∷ rest) j)

-- The state `t` at the read of the erased element of `p`, from the state `s`: `p` was picked since
-- nothing is skipped, and the other requests stand where they did.
pub record Lost (s : Scheduler) (p : ℕ) (t : Scheduler) : Type 0 where
  pub ran : 0 < count p s.running
  pub idle : is_preemptible (s.heap p) ≡ true
  pub stranded : Stranded p t
  pub others : (q : ℕ) → q ≢ p → places t q ≡ places s q
  pub given_back : (j : ℕ) → refs t.kv j + count j (table_of (s.heap p)) ≡ refs s.kv j

module _ (p : ℕ) (s : Scheduler) (v : Safe s) (nothing : s.skip ≡ []) where
  -- From the running list.
  release_and_move_to_wait_running :
      is_preemptible (s.heap p) ≡ true
      → has_scheduling (s.heap p) ≡ true
      → 0 < count p s.running
      → (t : Scheduler) × (release_and_move_to_wait p s ≡ some (dangling p t)) × Lost s p t
  unfolding release_and_move_to_wait prepare_for_wait
  release_and_move_to_wait_running idle has runs =
      let (heap, kv, by_seq_id, run, f) = released p s v has in
      (
        record (touched (prepare p s) heap kv by_seq_id) { running = erase_first p s.running },
        rw has (rw run (ground (arith, runs))),
        record {
          ran = runs;
          idle = idle;
          stranded = record {
            safe = record {
              backed = record {
                inv = f.backed.inv;
                sized = f.backed.sized;
                covered = λ j.
                    omega
                      (arith, f.backed.covered j, held_running_erased heap p s.running s.skip j);
              };
              once = λ q. ground (
                arith,
                v.once q,
                count-erase_first_self p s.running,
                count-erase_first_ne q p s.running,
              );
              placed = λ q h.
                  ground
                    (arith, v.placed q, f.idle_now, f.others q, count-erase_first_ne q p s.running);
              prompted = λ q h. ground (arith, v.prompted q, f.idle_now, f.others q);
              release_build = v.release_build;
            };
            gone = ground (arith, count-erase_first_self p s.running, v.once p);
            no_sequence = f.idle_now;
            no_skipped = nothing;
          };
          others = λ q ne. ground (arith, ne, count-erase_first_ne q p s.running);
          given_back = λ j. ground (arith, f.lost j);
        },
      )

evict_run_held :
    (p : ℕ) (rest skip : List ℕ) (s u : Scheduler)
    → s.skip ≡ skip
    → skip ≡ p ∷ rest
    → has_scheduling (s.heap p) ≡ true
    → release_scheduling_blocks p (prepare p (record s { skip = rest })) ≡ some u
    → evict_one_skipped s ≡ some (true, push_front_waiting p u)
unfolding evict_one_skipped
evict_run_held p rest skip s u d e has run = ground (arith, d, e, has, run)

evict_run_nil : (s : Scheduler) → s.skip ≡ [] → evict_one_skipped s ≡ some (false, s)
unfolding evict_one_skipped
evict_run_nil s e = ground (arith, e)

module _ (p : ℕ) (rest : List ℕ) (s : Scheduler) (e : s.skip ≡ p ∷ rest) (v : Safe s) where
  skip_covered :
      (heap : ℕ → RequestState) (j : ℕ) → held heap (s.running ++ rest) j ≤ held heap (owners s) j
  skip_covered heap j =
      omega
        (arith, held_skip_rest heap p s.running rest j, ap (λ l. held heap (s.running ++ l) j) e)

  skip_count : (q : ℕ) → count q s.skip ≡ (if q == p then 1 else 0) + count q rest
  skip_count q = ap (count q) e

  evict_head_free :
      has_scheduling (s.heap p) ≡ false
      → (t : Scheduler) × (evict_one_skipped s ≡ some (true, t)) × Rearranged s t
  unfolding evict_one_skipped
  evict_head_free free = (
    push_front_waiting p (record s { skip = rest }),
    rw (e, evict_one_skipped) (rw free),
    record {
      safe = record {
        backed = record {
          inv = v.backed.inv;
          sized = v.backed.sized;
          covered = λ j. omega (arith, v.backed.covered j, skip_covered s.heap j);
        };
        once = λ q. ground (arith, v.once q, skip_count q);
        placed = λ q h. ground (arith, v.placed q, skip_count q);
        prompted = v.prompted;
        release_build = v.release_build;
      };
      same_places = λ q. ground (arith, skip_count q);
    },
  )

  evict_head_held :
      has_scheduling (s.heap p) ≡ true
      → (t : Scheduler) × (evict_one_skipped s ≡ some (true, t)) × Rearranged s t
  unfolding evict_one_skipped prepare_for_wait
  evict_head_held has =
      let s' = record s { skip = rest } in
      let (heap, kv, by_seq_id, run, f) =
        release_scheduling_blocks_total p (owners s) (prepare p s')
          (prepared p s (owners s) (omega (arith, owners_once s p v has)) v.backed)
          (λ _. owners_once s p v has) in
      (
        push_front_waiting p (touched (prepare p s') heap kv by_seq_id),
        evict_run_held p rest s.skip s (touched (prepare p s') heap kv by_seq_id) refl e has run,
        record {
          safe = record {
            backed = record {
              inv = f.backed.inv;
              sized = f.backed.sized;
              covered = λ j. omega (arith, f.backed.covered j, skip_covered heap j);
            };
            once = λ q. ground (arith, v.once q, skip_count q);
            placed = λ q h. ground (arith, v.placed q, f.idle_now, f.others q, skip_count q);
            prompted = λ q h. ground (arith, v.prompted q, f.idle_now, f.others q);
            release_build = v.release_build;
          };
          same_places = λ q. ground (arith, skip_count q);
        },
      )

-- What `find_smallest` picks is suspendable and stands in the list, or is what it started with.
find_smallest_member :
    (phase : Bool) (heap : ℕ → RequestState) (ps : List ℕ) (best : Option ℕ) (n : ℕ) (p : ℕ)
    → find_smallest phase heap ps best n ≡ some p
    → (best ≡ some p) ⊎ ((0 < count p ps) × (is_suspendable phase (heap p) ≡ true))
unfolding find_smallest
find_smallest_member phase heap [] best n p h = inl h
find_smallest_member phase heap (q ∷ ps) best n p h =
    let better = is_suspendable phase (heap q) && ltb (held_blocks (heap q)) n in
    ground (
      arith,
      find_smallest_member phase heap ps (if better then some q else best)
          (if better then held_blocks (heap q) else n) p,
    )

count-reverse : (p : ℕ) (ps : List ℕ) → count p (reverse ps) ≡ count p ps
count-reverse p [] = refl
count-reverse p (q ∷ ps) = omega (
  arith,
  ap (count p) (reverse-cons q ps),
  count-append p (reverse ps) (q ∷ []),
  count-reverse p ps,
)

suspendable_has :
    (phase : Bool) (state : RequestState)
    → is_suspendable phase state ≡ true
    → has_scheduling state ≡ true
suspendable_has phase state h = ground arith

suspendable_idle :
    (phase : Bool) (state : RequestState)
    → is_suspendable phase state ≡ true
    → is_preemptible state ≡ true
suspendable_idle phase state h = ground arith

smallest_runs :
    (phase : Bool) (s : Scheduler) (p : ℕ)
    → smallest phase s ≡ some p
    → (0 < count p s.running)
      × (has_scheduling (s.heap p) ≡ true)
      × (is_preemptible (s.heap p) ≡ true)
smallest_runs phase s p h =
    elim (find_smallest_member phase s.heap (reverse s.running) none int_max p h) [
      | inl absurd_start ↦ absurd cc
      | inr (m, ok) ↦ (
        omega (arith, count-reverse p s.running),
        suspendable_has phase (s.heap p) ok,
        suspendable_idle phase (s.heap p) ok,
      )
    ]

suspend_request_dangles :
    (phase : Bool) (s : Scheduler) (p : ℕ)
    → Safe s
    → s.skip ≡ []
    → smallest phase s ≡ some p
    → (t : Scheduler) × (suspend_request p s ≡ some (dangling p t)) × Lost s p t
unfolding suspend_request
suspend_request_dangles phase s p v nothing h =
    let (runs, has, idle) = smallest_runs phase s p h in
    let (t, run, lost) = release_and_move_to_wait_running p s v nothing idle has runs in
    (t, rw run, lost)

suspend_request_total :
    (phase : Bool) (s : Scheduler) (p : ℕ)
    → Safe s
    → s.skip ≡ []
    → smallest phase s ≡ some p
    → Reaches (λ r. Rearranged s r.1) (Lost s) (suspend_request p s)
suspend_request_total phase s p v nothing h =
    let (t, run, lost) = suspend_request_dangles phase s p v nothing h in rw run (strands p t lost)

unchanged : (s : Scheduler) → Safe s → Rearranged s s
unchanged s v = record { safe = v; same_places = λ q. refl }

suspend_one_running_total :
    (s : Scheduler)
    → Safe s
    → s.skip ≡ []
    → Reaches (λ r. Rearranged s r.1) (Lost s) (suspend_one_running s)
unfolding suspend_one_running
suspend_one_running_total s v nothing = elim (Option-cases (smallest true s)) [
  | inr (p, e) ↦ rw (e, suspend_one_running) (suspend_request_total true s p v nothing e)
  | inl e ↦ elim (Option-cases (smallest false s)) [
    | inr (p, e') ↦
        rw (e, suspend_one_running)
          (rw (e', suspend_one_running) (suspend_request_total false s p v nothing e'))
    | inl e' ↦
        rw (e, suspend_one_running)
          (rw (e', suspend_one_running) (reaches (false, s) (unchanged s v)))
  ]
]

make_room_list :
    (skip : List ℕ) (s : Scheduler)
    → s.skip ≡ skip
    → Safe s
    → Reaches (Rearranged s) (λ p t. (s.skip ≡ []) × Lost s p t) (make_room s)
unfolding make_room
make_room_list [] s e v =
    rw (evict_run_nil s e, make_room)
      (and_ended-Reaches (suspend_one_running_total s v e) (λ p t lost. (e, lost))
        λ (d, t) r. reaches t r)
make_room_list (p ∷ rest) s e v = elim (Bool-cases (has_scheduling (s.heap p))) [
  | inl has ↦
      let (t, run, r) = evict_head_held p rest s e v has in rw (run, make_room) (reaches t r)
  | inr free ↦
      let (t, run, r) = evict_head_free p rest s e v free in rw (run, make_room) (reaches t r)
]

-- From a safe state, making room fails no assertion. It ends in a safe state that has each request
-- as often in the queues as before; or nothing was skipped, and it reads the erased list element of
-- a running request with no work in flight: then the state is safe, exactly the blocks of that
-- request have been given back, and it alone is missing from the queues.
pub make_room_total :
    (s : Scheduler)
    → Safe s
    → Reaches (Rearranged s) (λ p t. (s.skip ≡ []) × Lost s p t) (make_room s)
make_room_total s v = make_room_list s.skip s refl v

-- What `suspend_one_running` picks.
abbrev pub picked : Scheduler → Option ℕ
picked s = elim (smallest true s) [ some p ↦ some p | none ↦ smallest false s ]

first_picked :
    (s : Scheduler) (p q : ℕ)
    → smallest true s ≡ some q
    → picked s ≡ some p
    → smallest true s ≡ some p
first_picked s p q e h = ground (arith, e, h)

suspend_one_dangles :
    (s : Scheduler) (p : ℕ)
    → Safe s
    → s.skip ≡ []
    → picked s ≡ some p
    → (t : Scheduler) × (suspend_one_running s ≡ some (dangling p t)) × Lost s p t
unfolding suspend_one_running suspend_request
suspend_one_dangles s p v nothing h = elim (Option-cases (smallest true s)) [
  | inr (q, e) ↦
      let (t, run, lost) = suspend_request_dangles true s p v nothing (first_picked s p q e h) in
      (t, rw (first_picked s p q e h, suspend_one_running) run, lost)
  | inl e ↦
      let second : smallest false s ≡ some p = ground (arith, e, h) in
      let (t, run, lost) = suspend_request_dangles false s p v nothing second in
      (t, rw (e, suspend_one_running) (rw (second, suspend_one_running) run), lost)
]

-- From a safe state where nothing is skipped, whenever `suspend_one_running` picks a request, making
-- room reads the erased list element of that request. By then exactly the blocks of the request have
-- been given back, and it is missing from the queues.
pub make_room_dangles :
    (s : Scheduler) (p : ℕ)
    → Safe s
    → s.skip ≡ []
    → picked s ≡ some p
    → (t : Scheduler) × (make_room s ≡ some (dangling p t)) × Lost s p t
unfolding make_room
make_room_dangles s p v nothing h =
    let (t, run, lost) = suspend_one_dangles s p v nothing h in
    (t, rw (evict_run_nil s nothing, make_room) (rw run), lost)
