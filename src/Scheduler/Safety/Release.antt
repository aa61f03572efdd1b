-- ===== src/Scheduler/Safety/Release.antt =====
-- src/scheduler/scheduler.cpp, `release_scheduling_blocks`: a sequence that is released gives back
-- what it holds, and fails no assertion.
use cc_infer.Base.{
  ℕ, ◌+◌, ◌≡◌, ◌≢◌, refl, List, true, false, Option, none, some, arith, count, update, Option-cases,
  inl, inr,
}
use cc_infer.BlockCache.{Kv}
use cc_infer.BlockCache.Invariant.{refs}
use cc_infer.KvBlocks.Release.{release_request_blocks_total}
use cc_infer.Scheduler.{Scheduler, RequestState, SequenceSchedulingState, has_scheduling}
use cc_infer.Scheduler.Wait.{release_scheduling_blocks}
use cc_infer.Scheduler.Safety.{Backed, table_of, touched, held-update, held_member}

-- What the release of the sequence of `p` does.
pub record Freed (p : ℕ) (owners : List ℕ) (s : Scheduler) (heap : ℕ → RequestState) (kv : Kv)
    : Type 0 where
  pub backed : Backed heap kv owners
  pub idle_now : has_scheduling (heap p) ≡ false
  pub others : (q : ℕ) → q ≢ p → heap q ≡ s.heap q
  pub same_request : heap p ≡ record (s.heap p) { scheduling = none }
  pub lost : (j : ℕ) → refs kv j + count j (table_of (s.heap p)) ≡ refs s.kv j
  pub same_size : kv.pool.block_size ≡ s.kv.pool.block_size

abbrev pub ReleaseResult : ℕ → List ℕ → Scheduler → Type 0
ReleaseResult p owners s =
    (heap : ℕ → RequestState) × (kv : Kv) × (by_seq_id : ℕ → Option ℕ) × (release_scheduling_blocks
        p s
      ≡ some (touched s heap kv by_seq_id))
    × Freed p owners s heap kv

release_some :
    (p : ℕ) (owners : List ℕ) (s : Scheduler) (sch : SequenceSchedulingState)
    → (s.heap p).scheduling ≡ some sch
    → Backed s.heap s.kv owners
    → count p owners ≡ 1
    → ReleaseResult p owners s
unfolding release_scheduling_blocks
release_some p owners s sch e b one =
    let (kv, run, r) =
      release_request_blocks_total sch.block_table s.kv b.inv
        (λ j. ground (arith, b.covered j, held_member s.heap p owners j, e)) in
    (
      update s.heap p (record (s.heap p) { scheduling = none }),
      kv,
      update s.by_seq_id sch.seq_id none,
      rw (e, release_scheduling_blocks) (rw run),
      record {
        backed = record {
          inv = r.inv;
          sized = omega (arith, r.shape.same_size, b.sized);
          covered = λ j. ground (
            arith,
            b.covered j,
            r.lost j,
            e,
            held-update s.heap p (record (s.heap p) { scheduling = none }) owners j one,
          );
        };
        idle_now = ground arith;
        others = λ q ne. ground arith;
        same_request = ground arith;
        lost = λ j. ground (arith, b.covered j, r.lost j, e, held_member s.heap p owners j);
        same_size = r.shape.same_size;
      },
    )

release_none :
    (p : ℕ) (owners : List ℕ) (s : Scheduler)
    → (s.heap p).scheduling ≡ none
    → Backed s.heap s.kv owners
    → ReleaseResult p owners s
unfolding release_scheduling_blocks
release_none p owners s e b = (
  s.heap,
  s.kv,
  s.by_seq_id,
  rw (e, release_scheduling_blocks),
  record {
    backed = b;
    idle_now = rw e;
    others = λ q ne. refl;
    same_request = ground arith;
    lost = λ j. ground (arith, e);
    same_size = refl;
  },
)

-- While the tables of the requests `owners` are backed by references, releasing the sequence of a
-- request fails no assertion if the request, when it has a sequence, stands exactly once among the
-- owners: afterwards it has no sequence, it and the other requests are otherwise unchanged, each
-- block has lost exactly the references that the table of the sequence held, and the tables of the
-- owners are still backed.
pub release_scheduling_blocks_total :
    (p : ℕ) (owners : List ℕ) (s : Scheduler)
    → Backed s.heap s.kv owners
    → (has_scheduling (s.heap p) ≡ true → count p owners ≡ 1)
    → ReleaseResult p owners s
release_scheduling_blocks_total p owners s b one = elim (Option-cases (s.heap p).scheduling) [
  | inl e ↦ release_none p owners s e b
  | inr (sch, e) ↦ release_some p owners s sch e b (one (rw e))
]
