-- ===== src/Scheduler/Safety.antt =====
-- src/scheduler/scheduler.cpp: the resources of the scheduler. Each block that a running or skipped
-- request has in its table is backed by references in the pool.
pub mod Release
pub mod Work
pub mod Endings
pub mod Room
pub mod Skipped
pub mod Admit
pub mod Waiting
pub mod AdmitWaiting
pub mod Step
pub mod Drain
pub mod Submit
use cc_infer.Base.{
  ℕ, zero, suc, ◌+◌, ◌-◌, ◌≤◌, ◌<◌, ◌≡◌, ◌≢◌, refl, List, [], ◌∷◌, ◌++◌, Bool, true, false, Option,
  none, some, ◌==◌, if◌then◌else◌, arith, count, length, erase_first, update, is_empty,
}
use cc_infer.BlockPool.{Build, ndebug}
use cc_infer.BlockTable.{BlockTable}
use cc_infer.BlockCache.{Kv}
use cc_infer.BlockCache.Invariant.{KvInv, refs, no_pending}
use cc_infer.Scheduler.{Scheduler, RequestState, SequenceSchedulingState, has_scheduling}

abbrev pub table_of_scheduling : Option SequenceSchedulingState → List ℕ
table_of_scheduling none = []
table_of_scheduling (some sch) = sch.block_table.block_ids

abbrev pub table_of : RequestState → List ℕ
table_of state = table_of_scheduling state.scheduling

-- How often the tables of the requests have a block.
abbrev pub held : (ℕ → RequestState) → List ℕ → ℕ → ℕ
held heap [] j = 0
held heap (p ∷ ps) j = count j (table_of (heap p)) + held heap ps j

pub held-append :
    (heap : ℕ → RequestState) (ps qs : List ℕ) (j : ℕ)
    → held heap (ps ++ qs) j ≡ held heap ps j + held heap qs j
held-append heap [] qs j = omega arith
held-append heap (p ∷ ps) qs j = omega (arith, held-append heap ps qs j)

pub held_other :
    (heap : ℕ → RequestState) (p : ℕ) (state : RequestState) (ps : List ℕ) (j : ℕ)
    → count p ps ≡ 0
    → held (update heap p state) ps j ≡ held heap ps j
held_other heap p state [] j h = refl
held_other heap p state (q ∷ ps) j h = ground (arith, held_other heap p state ps j)

pub held-update :
    (heap : ℕ → RequestState) (p : ℕ) (state : RequestState) (ps : List ℕ) (j : ℕ)
    → count p ps ≡ 1
    → held (update heap p state) ps j + count j (table_of (heap p))
      ≡ held heap ps j + count j (table_of state)
held-update heap p state [] j h = absurd (omega arith)
held-update heap p state (q ∷ ps) j h =
    ground (arith, held-update heap p state ps j, held_other heap p state ps j)

pub held_member :
    (heap : ℕ → RequestState) (p : ℕ) (ps : List ℕ) (j : ℕ)
    → 0 < count p ps
    → count j (table_of (heap p)) ≤ held heap ps j
held_member heap p [] j h = absurd (omega arith)
held_member heap p (q ∷ ps) j h = ground (arith, held_member heap p ps j)

pub held-erase_first :
    (heap : ℕ → RequestState) (p : ℕ) (ps : List ℕ) (j : ℕ)
    → held heap (erase_first p ps) j ≤ held heap ps j
held-erase_first heap p [] j = omega arith
held-erase_first heap p (q ∷ ps) j = ground (arith, held-erase_first heap p ps j)

-- The resources, with `owners` the requests that hold blocks.
pub record Backed (heap : ℕ → RequestState) (kv : Kv) (owners : List ℕ) : Type 0 where
  pub inv : KvInv no_pending kv
  pub sized : 0 < kv.pool.block_size
  pub covered : (j : ℕ) → held heap owners j ≤ refs kv j

abbrev pub owners : Scheduler → List ℕ
owners s = s.running ++ s.skip

-- A request stands in one place at most, and only one that runs or is skipped has a sequence.
pub record Safe (s : Scheduler) : Type 0 where
  pub backed : Backed s.heap s.kv (owners s)
  pub once : (p : ℕ) → count p s.waiting + (count p s.skip + count p s.running) ≤ 1
  pub placed : (p : ℕ) → has_scheduling (s.heap p) ≡ true → 0 < count p s.skip + count p s.running
  pub prompted :
      (p : ℕ) → has_scheduling (s.heap p) ≡ true → is_empty (s.heap p).prompt_tokens ≡ false
  pub release_build : s.build ≡ ndebug

-- How often a request stands in the three queues.
abbrev pub places : Scheduler → ℕ → ℕ
places s p = count p s.waiting + (count p s.skip + count p s.running)

-- The parts of the state that the release of a sequence changes.
abbrev pub touched : Scheduler → (ℕ → RequestState) → Kv → (ℕ → Option ℕ) → Scheduler
touched s heap kv by_seq_id = record s { heap = heap; kv = kv; by_seq_id = by_seq_id }
