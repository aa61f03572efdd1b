-- ===== src/Scheduler/Safety/Work.antt =====
-- src/scheduler/scheduler.cpp, `build_state_work`: building work keeps the resources safe, stays
-- within the token budget, and fails no assertion.
use cc_infer.Base.{
  ℕ, ◌+◌, ◌-◌, ◌<◌, ◌≡◌, refl, ap, ◌∙◌, List, [], ◌∷◌, ◌++◌, Bool, true, false, ◌||◌, not, Option,
  some, ◌==◌, ltb, leb, ◌>>=◌, arith, count, length, update, is_empty, last?, Option-cases,
  Bool-cases, inl, inr, count-append,
}
use cc_infer.Base.Int.{ℤ, pos}
use cc_infer.Errors.{Result}
use cc_infer.BlockTable.{BlockTable, size}
use cc_infer.BlockCache.{Kv}
use cc_infer.KvBlocks.{allocate_kv_blocks}
use cc_infer.KvBlocks.Allocate.{
  Served, Refused, spare, allocate_kv_blocks_enough, allocate_kv_blocks_leaks,
}
use cc_infer.PrefixCache.{Tokens}
use cc_infer.Types.{WorkItem, prefill, decode, work_token_count, finished}
use cc_infer.Scheduler.{
  Scheduler, RequestState, SequenceSchedulingState, BatchBuildContext, has_scheduling, set_request,
  set_scheduling, GenerationPhase, is_bootstrap, is_schedulable_state, is_prefill_phase,
  is_decode_phase,
}
use cc_infer.Scheduler.Events.{send_event, send_terminal_event}
use cc_infer.Scheduler.Work.{
  build_prefill, build_decode, decode_in_context, build_scheduled, build_state_work, add_decode,
  append_blocks, required_blocks, reserve_decode, build_running, build_running_batch,
  select_sampling, push_item, prefill_item, reserve_prefill, prompt_start, chunk_length,
  chunk_needs_sample, decode_item, add_decode_blocks,
}
use cc_infer.Scheduler.Safety.{table_of, held, Safe, owners, held-update}

-- A change of a request that leaves its table, its prompt and whether it has a sequence.
abbrev pub SameHold : RequestState → RequestState → Type 0
SameHold a b =
    (table_of b ≡ table_of a)
    × (has_scheduling b ≡ has_scheduling a)
    × (b.prompt_tokens ≡ a.prompt_tokens)

held_same :
    (heap : ℕ → RequestState) (p : ℕ) (state : RequestState) (ps : List ℕ) (j : ℕ)
    → table_of state ≡ table_of (heap p)
    → held (update heap p state) ps j ≡ held heap ps j
held_same heap p state [] j h = refl
held_same heap p state (q ∷ ps) j h = ground (arith, held_same heap p state ps j h, ap (count j) h)

pub set_request-Safe :
    (p : ℕ) (state : RequestState) (s : Scheduler)
    → Safe s
    → SameHold (s.heap p) state
    → Safe (set_request s p state)
set_request-Safe p state s v (table, has, prompt) = record {
  backed = record {
    inv = v.backed.inv;
    sized = v.backed.sized;
    covered = λ j. omega (arith, v.backed.covered j, held_same s.heap p state (owners s) j table);
  };
  once = v.once;
  placed = λ q h. ground (arith, v.placed q, has);
  prompted = λ q h. ground (arith, v.prompted q, has, prompt);
  release_build = v.release_build;
}

pub send_event-Safe :
    (sink : ℕ) (r : Result _) (s : Scheduler) → Safe s → Safe (send_event sink r s).1
unfolding send_event
send_event-Safe sink r s v = elim (Bool-cases (s.expired sink)) [
  | inl gone ↦ rw (gone) v
  | inr live ↦ rw (live) (record {
    backed = v.backed;
    once = v.once;
    placed = v.placed;
    prompted = v.prompted;
    release_build = v.release_build;
  })
]

pub send_terminal_event-Safe : (p : ℕ) (s : Scheduler) → Safe s → Safe (send_terminal_event p s)
unfolding send_terminal_event
send_terminal_event-Safe p s v =
    send_event-Safe _ _ _
      (set_request-Safe p (record (s.heap p) { status = finished }) s v (refl, refl, refl))

-- The tokens of a list of work items.
abbrev pub total_tokens : List WorkItem → ℕ
total_tokens [] = 0
total_tokens (item ∷ items) = work_token_count item + total_tokens items

pub total_tokens-append :
    (xs ys : List WorkItem) → total_tokens (xs ++ ys) ≡ total_tokens xs + total_tokens ys
total_tokens-append [] ys = omega arith
total_tokens-append (x ∷ xs) ys = omega (arith, total_tokens-append xs ys)

-- The tokens of the batch and those left in the budget.
abbrev pub account : BatchBuildContext → ℕ
account ctx = total_tokens ctx.batch.items + ctx.token_budget

-- What building work leads to.
pub record Built (ctx : BatchBuildContext) (s : Scheduler) (ctx' : BatchBuildContext)
    (t : Scheduler) : Type 0 where
  pub safe : Safe t
  pub same_waiting : t.waiting ≡ s.waiting
  pub same_skip : t.skip ≡ s.skip
  pub same_running : t.running ≡ s.running
  pub same_account : account ctx' ≡ account ctx

abbrev pub BuildResult :
    Option (BatchBuildContext × Scheduler) → BatchBuildContext → Scheduler → Type 0
BuildResult m ctx s =
    (ctx' : BatchBuildContext) × (t : Scheduler) × (m ≡ some (ctx', t)) × Built ctx s ctx' t

Built-nothing : (ctx : BatchBuildContext) (s : Scheduler) → Safe s → Built ctx s ctx s
Built-nothing ctx s v = record {
  safe = v;
  same_waiting = refl;
  same_skip = refl;
  same_running = refl;
  same_account = refl;
}

Built-terminal :
    (p : ℕ) (ctx : BatchBuildContext) (s : Scheduler)
    → Safe s
    → Built ctx s ctx (send_terminal_event p s)
unfolding send_terminal_event send_event
Built-terminal p ctx s v = record {
  safe = send_terminal_event-Safe p s v;
  same_waiting = ground arith;
  same_skip = ground arith;
  same_running = ground arith;
  same_account = refl;
}

-- Choosing the sampling parameters leaves the items and the budget.
account-select_sampling :
    (state : RequestState) (ctx : BatchBuildContext)
    → ((select_sampling state ctx).batch.items ≡ ctx.batch.items)
      × ((select_sampling state ctx).token_budget ≡ ctx.token_budget)
account-select_sampling state ctx = ground arith

built_prefill :
    (p : ℕ) (sch : SequenceSchedulingState) (ctx : BatchBuildContext) (s : Scheduler)
    → (s.heap p).scheduling ≡ some sch
    → Safe s
    → BuildResult (some (build_prefill p sch ctx s)) ctx s
unfolding build_prefill
built_prefill p sch ctx s e v = elim (Bool-cases (leb prompt_len (prompt_start sch) || len == 0)) [
  | inl stop ↦ (ctx, s, rw (stop, build_prefill), Built-nothing ctx s v)
  | inr go ↦ (
    push_item (prefill (prefill_item state sch len sample)) len (select_sampling state ctx),
    set_scheduling s p (reserve_prefill sch len sample),
    rw (go, build_prefill),
    record {
      safe =
          set_request-Safe p (record state { scheduling = some (reserve_prefill sch len sample) }) s
            v (ground (arith, e), ground (arith, e), refl);
      same_waiting = refl;
      same_skip = refl;
      same_running = refl;
      same_account = ground (
        arith,
        account-select_sampling state ctx,
        total_tokens-append (select_sampling state ctx).batch.items
            (prefill (prefill_item state sch len sample) ∷ []),
        ap total_tokens (account-select_sampling state ctx).0,
      );
    },
  )
]
  where
    state : RequestState
    state = s.heap p

    prompt_len : ℕ
    prompt_len = length state.prompt_tokens

    len : ℕ
    len =
        chunk_length (prompt_len - prompt_start sch) s.limits.max_seq_prefill_tokens
          ctx.token_budget

    sample : Bool
    sample = chunk_needs_sample state sch len

last-is_some : (tokens : Tokens) → is_empty tokens ≡ false → (t : ℤ) × (last? tokens ≡ some t)
last-is_some [] h = absurd cc
last-is_some (t ∷ []) h = (t, refl)
last-is_some (t ∷ u ∷ ts) h = last-is_some (u ∷ ts) refl

decode_of_not_prefill :
    (phase : GenerationPhase) → is_prefill_phase phase ≡ false → is_decode_phase phase ≡ true
decode_of_not_prefill phase h = ground arith

-- Adding a decode item, over a state whose blocks cover the sequence's new table.
Built-decode :
    (p : ℕ) (sch : SequenceSchedulingState) (token : ℤ) (write_kv late : Bool)
    (ctx : BatchBuildContext) (s : Scheduler) (t : Scheduler)
    → 0 < ctx.token_budget
    → Safe (set_scheduling t p (reserve_decode sch write_kv))
    → t.waiting ≡ s.waiting
    → t.skip ≡ s.skip
    → t.running ≡ s.running
    → Built ctx s
        (add_decode p sch token write_kv late ctx t).0
        (add_decode p sch token write_kv late ctx t).1
Built-decode p sch token write_kv late ctx s t budget v a b c = record {
  safe = v;
  same_waiting = a;
  same_skip = b;
  same_running = c;
  same_account = ground (
    arith,
    total_tokens-append ctx.batch.items (decode (decode_item sch token write_kv late) ∷ []),
  );
}

module _ (p : ℕ) (sch : SequenceSchedulingState) (s : Scheduler)
    (e : (s.heap p).scheduling ≡ some sch) (v : Safe s) (runs : 0 < count p s.running) where
  owned_once : count p (owners s) ≡ 1
  owned_once = omega (arith, v.once p, count-append p s.running s.skip)

  -- Reserving for the sequence as it is.
  reserved-Safe : (write_kv : Bool) → Safe (set_scheduling s p (reserve_decode sch write_kv))
  reserved-Safe write_kv =
      set_request-Safe p (record (s.heap p) { scheduling = some (reserve_decode sch write_kv) }) s v
        (ground (arith, e), ground (arith, e), refl)

  -- Reserving after the table has grown by new blocks.
  grown-Safe :
      (write_kv : Bool) (n : ℕ) (kv : Kv) (blocks : BlockTable)
      → Served n s.kv kv blocks
      → Safe (
          set_scheduling
            (record s { kv = kv })
            p
            (reserve_decode (append_blocks sch blocks) write_kv))
  grown-Safe write_kv n kv blocks served = record {
    backed = record {
      inv = served.inv;
      sized = omega (arith, v.backed.sized, served.shape.same_size);
      covered = λ j. ground (
        arith,
        e,
        v.backed.covered j,
        served.gained j,
        count-append j sch.block_table.block_ids blocks.block_ids,
        held-update s.heap p
            (record (s.heap p) {
              scheduling = some (reserve_decode (append_blocks sch blocks) write_kv);
            })
            (owners s) j owned_once,
      );
    };
    once = v.once;
    placed = λ q h. ground (arith, v.placed q, e);
    prompted = λ q h. ground (arith, v.prompted q, e);
    release_build = v.release_build;
  }

  -- After a refusal, which leaks blocks.
  Refused-Safe :
      (kv : Kv) → Refused s.kv kv → Safe (record s { kv = kv; block_shortage_pending = true })
  Refused-Safe kv r = record {
    backed = record {
      inv = r.inv;
      sized = omega (arith, v.backed.sized, r.shape.same_size);
      covered = λ j. omega (arith, v.backed.covered j, r.gained j);
    };
    once = v.once;
    placed = v.placed;
    prompted = v.prompted;
    release_build = v.release_build;
  }

  -- When blocks are missing they are asked for.
  built_missing :
      (token : ℤ) (write_kv late : Bool) (ctx : BatchBuildContext) (n : ℕ)
      → 0 < n
      → 0 < ctx.token_budget
      → BuildResult
          (allocate_kv_blocks n s.kv >>= λ r.
            some (add_decode_blocks p sch token write_kv late ctx (record s { kv = r.1 }) r.0))
          ctx
          s
  built_missing token write_kv late ctx n some_missing budget =
      elim (Bool-cases (leb n (length (spare s.kv)))) [
        | inl enough ↦
            let (kv, blocks, run, served) =
              allocate_kv_blocks_enough n s.kv v.backed.inv some_missing (ground arith) in
            let t = record s { kv = kv } in
            let r = add_decode p (append_blocks sch blocks) token write_kv late ctx t in
            (
              r.0,
              r.1,
              rw run,
              Built-decode p (append_blocks sch blocks) token write_kv late ctx s t budget
                  (grown-Safe write_kv n kv blocks served) refl refl refl,
            )
        | inr short ↦
            let (kv, run, refused) = allocate_kv_blocks_leaks n s.kv v.backed.inv (ground arith) in
            (
              ctx,
              record s { kv = kv; block_shortage_pending = true },
              rw run,
              record {
                safe = Refused-Safe kv refused;
                same_waiting = refl;
                same_skip = refl;
                same_running = refl;
                same_account = refl;
              },
            )
      ]

  built_in_context :
      (token : ℤ) (write_kv late : Bool) (ctx : BatchBuildContext)
      → 0 < ctx.token_budget
      → BuildResult (decode_in_context p sch token write_kv late ctx s) ctx s
  unfolding decode_in_context
  built_in_context token write_kv late ctx budget = elim (Bool-cases over) [
    | inl limit ↦ elim (Bool-cases (reserved == 0)) [
      | inl none_reserved ↦ (
        ctx,
        send_terminal_event p s,
        rw (limit, decode_in_context) (rw none_reserved),
        Built-terminal p ctx s v,
      )
      | inr some_reserved ↦
          (ctx, s, rw (limit, decode_in_context) (rw some_reserved), Built-nothing ctx s v)
    ]
    | inr room ↦ elim (Bool-cases (missing == 0)) [
      | inl fits ↦ (
        (add_decode p sch token write_kv late ctx s).0,
        (add_decode p sch token write_kv late ctx s).1,
        rw (room, decode_in_context) (rw fits),
        Built-decode p sch token write_kv late ctx s s budget (reserved-Safe write_kv) refl refl
            refl,
      )
      | inr lacks ↦
          let (ctx', t, run, built) =
            built_missing token write_kv late ctx missing (ground arith) budget in
          (ctx', t, rw (room, decode_in_context) (rw lacks run), built)
    ]
  ]
    where
      reserved : ℕ
      reserved = sch.reservation.reserved_generation_tokens

      missing : ℕ
      missing = required_blocks sch write_kv s.kv.pool.block_size - size sch.block_table

      over : Bool
      over = leb (s.heap p).max_context_len (
          length (s.heap p).prompt_tokens
          + length (s.heap p).generated_tokens
          - sch.cursor.generated_tokens_in_prompt
          + reserved)

  -- The sampling parameters may be chosen first.
  built_selected :
      (m : Option (BatchBuildContext × Scheduler)) (ctx : BatchBuildContext)
      → BuildResult m (select_sampling (s.heap p) ctx) s
      → BuildResult m ctx s
  built_selected m ctx (ctx', t, run, built) = (
    ctx',
    t,
    run,
    record {
      safe = built.safe;
      same_waiting = built.same_waiting;
      same_skip = built.same_skip;
      same_running = built.same_running;
      same_account = ground (
        arith,
        built.same_account,
        account-select_sampling (s.heap p) ctx,
        ap total_tokens (account-select_sampling (s.heap p) ctx).0,
      );
    },
  )

  built_by_decode :
      (ctx : BatchBuildContext)
      → 0 < ctx.token_budget
      → BuildResult (build_decode p sch ctx s) ctx s
  unfolding build_decode
  built_by_decode ctx budget =
      built_selected (build_decode p sch ctx s) ctx (elim (Bool-cases full) [
        | inl h ↦ (ctx', s, rw (h, build_decode), Built-nothing ctx' s v)
        | inr h ↦ elim (Bool-cases (is_bootstrap sch.cursor.phase)) [
          | inr later ↦
              let (c, t, run, built) = built_in_context (pos 0) true true ctx' budget' in
              (c, t, rw (h, build_decode) (rw later run), built)
          | inl first ↦ elim (Bool-cases (ltb 0 sch.reservation.reserved_generation_tokens)) [
            | inl busy ↦
                (ctx', s, rw (h, build_decode) (rw first (rw busy)), Built-nothing ctx' s v)
            | inr free ↦
                let (token, last) =
                  last-is_some (s.heap p).prompt_tokens (v.prompted p (ground (arith, e))) in
                let (c, t, run, built) = built_in_context token false false ctx' budget' in
                (c, t, rw (h, build_decode) (rw first (rw free (rw last run))), built)
          ]
        ]
      ])
    where
      ctx' : BatchBuildContext
      ctx' = select_sampling (s.heap p) ctx

      budget' : 0 < ctx'.token_budget
      budget' = omega (arith, (account-select_sampling (s.heap p) ctx).1, budget)

      full : Bool
      full =
          leb (s.heap p).sampling.max_tokens
            (length (s.heap p).generated_tokens + sch.reservation.reserved_generation_tokens)

  built_by_schedule : (ctx : BatchBuildContext) → BuildResult (build_scheduled p sch ctx s) ctx s
  unfolding build_scheduled
  built_by_schedule ctx =
      elim (Bool-cases (ctx.token_budget == 0 || not (is_schedulable_state (s.heap p)))) [
        | inl stop ↦ (ctx, s, rw (stop, build_scheduled), Built-nothing ctx s v)
        | inr go ↦
            elim (Bool-cases
              (leb (s.heap p).sampling.max_tokens (length (s.heap p).generated_tokens))) [
                | inl full ↦ (
                  ctx,
                  send_terminal_event p s,
                  rw (go, build_scheduled) (rw full),
                  Built-terminal p ctx s v,
                )
                | inr more ↦ elim (Bool-cases (is_prefill_phase sch.cursor.phase)) [
                  | inl pre ↦
                      let (c, t, run, built) = built_prefill p sch ctx s e v in
                      (c, t, rw (go, build_scheduled) (rw more (rw pre run)), built)
                  | inr dec ↦
                      let (c, t, run, built) = built_by_decode ctx (ground arith) in
                      (
                        c,
                        t,
                        rw (go, build_scheduled)
                            (rw more
                              (rw dec (rw (decode_of_not_prefill sch.cursor.phase dec) run))),
                        built,
                      )
                ]
              ]
      ]

-- For a running request of a safe state, building its work fails no assertion, leaves the state
-- safe and the queues as they are, and takes the tokens of the new item, if there is one, off the
-- budget.
pub build_state_work_total :
    (p : ℕ) (ctx : BatchBuildContext) (s : Scheduler)
    → Safe s
    → 0 < count p s.running
    → BuildResult (build_state_work p ctx s) ctx s
unfolding build_state_work
build_state_work_total p ctx s v runs = elim (Option-cases (s.heap p).scheduling) [
  | inl e ↦ (ctx, s, rw (e, build_state_work), Built-nothing ctx s v)
  | inr (sch, e) ↦
      let (c, t, run, built) = built_by_schedule p sch s e v runs ctx in
      (c, t, rw (e, build_state_work) run, built)
]

Built-then :
    {ctx ctx' ctx2 : BatchBuildContext} {s t u : Scheduler}
    → Built ctx s ctx' t
    → Built ctx' t ctx2 u
    → Built ctx s ctx2 u
Built-then a b = record {
  safe = b.safe;
  same_waiting = b.same_waiting ∙ a.same_waiting;
  same_skip = b.same_skip ∙ a.same_skip;
  same_running = b.same_running ∙ a.same_running;
  same_account = b.same_account ∙ a.same_account;
}

build_running_total :
    (ps : List ℕ) (ctx : BatchBuildContext) (s : Scheduler)
    → Safe s
    → ((p : ℕ) → 0 < count p ps → 0 < count p s.running)
    → BuildResult (build_running ps ctx s) ctx s
unfolding build_running
build_running_total [] ctx s v all = (ctx, s, refl, Built-nothing ctx s v)
build_running_total (p ∷ ps) ctx s v all = elim (Bool-cases (ctx.token_budget == 0)) [
  | inl spent ↦ (ctx, s, rw (spent, build_running), Built-nothing ctx s v)
  | inr left ↦
      let (c, t, run, built) = build_state_work_total p ctx s v (ground (arith, all p)) in
      let (c', u, run', built') =
        build_running_total ps c t built.safe
          (λ q h. ground (arith, all q, ap (count q) built.same_running)) in
      (c', u, rw (left, build_running) (rw run run'), Built-then built built')
]

-- Building the work of all running requests of a safe state fails no assertion, leaves the state
-- safe and the queues as they are, and takes the tokens of the new items off the budget.
pub build_running_batch_total :
    (ctx : BatchBuildContext) (s : Scheduler)
    → Safe s
    → BuildResult (build_running_batch ctx s) ctx s
unfolding build_running_batch
build_running_batch_total ctx s v = build_running_total s.running ctx s v (λ p h. h)
