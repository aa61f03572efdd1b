-- ===== src/Scheduler/Safety/Admit.antt =====
-- src/scheduler/scheduler.cpp, `admit_one_waiting`: what it takes from the
-- cache and the pool for the head of the waiting list.
use cc_infer.Base.{
  ℕ, ◌+◌, ◌≤◌, ◌<◌, ◌≡◌, ap, ◌∙◌, List, [], ◌++◌, Bool, true, false, Option, some, ◌==◌, leb,
  assert, ◌>>=◌, arith, count, length, Bool-cases, inl, inr, ◌⊎◌, count-append,
}
use cc_infer.Errors.{ErrorCode, done, fail}
use cc_infer.BlockTable.{BlockTable, empty_table}
use cc_infer.BlockCache.{Kv, PrefixLookup, lookup_prefix_cache}
use cc_infer.BlockCache.Invariant.{KvInv, refs, no_pending}
use cc_infer.BlockCache.Lookup.{lookup_prefix_cache_longest}
use cc_infer.KvBlocks.{release_request_blocks}
use cc_infer.KvBlocks.Allocate.{spare, allocate_kv_blocks_enough, allocate_kv_blocks_leaks}
use cc_infer.KvBlocks.Release.{release_request_blocks_total}
use cc_infer.Scheduler.{Scheduler, has_scheduling}
use cc_infer.Scheduler.Admit.{allocate_missing}
use cc_infer.Scheduler.Safety.{held, Safe, owners, places}

pub assert-true {ℓ} : {A : Type ℓ} {b : Bool} {x r : Option A} → b ≡ true → x ≡ r → assert b x ≡ r
assert-true h e = rw (h, e)

pub bind_some {ℓ κ} :
    {A : Type ℓ} {B : Type κ} {m : Option A} {a : A} {r : Option B} (f : A → Option B)
    → m ≡ some a
    → f a ≡ r
    → (m >>= f) ≡ r
bind_some f h e = rw (h, e)

-- Besides the references of the requests those of `ids` are there, which no request holds yet.
pub record Reserved (s : Scheduler) (ids : List ℕ) (kv : Kv) : Type 0 where
  pub inv : KvInv no_pending kv
  pub sized : 0 < kv.pool.block_size
  pub room : (j : ℕ) → held s.heap (owners s) j + count j ids ≤ refs kv j

module _ (p : ℕ) (s : Scheduler) (v : Safe s) (absent : places s p ≡ 0) where
  pub no_sequence : has_scheduling (s.heap p) ≡ false
  no_sequence = ground (arith, v.placed p)

  -- The references of the table are given back.
  pub returned :
      (table : BlockTable) (kv : Kv)
      → Reserved s table.block_ids kv
      → (kv' : Kv) × (release_request_blocks table kv ≡ some kv') × Safe (record s { kv = kv' })
  returned table kv r =
      let (kv', run, l) =
        release_request_blocks_total table kv r.inv (λ j. omega (arith, r.room j)) in
      (
        kv',
        run,
        record {
          backed = record {
            inv = l.inv;
            sized = omega (arith, l.shape.same_size, r.sized);
            covered = λ j. omega (arith, l.lost j, r.room j);
          };
          once = v.once;
          placed = v.placed;
          prompted = v.prompted;
          release_build = v.release_build;
        },
      )

  pub looked_up :
      0 < length (s.heap p).prompt_tokens
      → (l : PrefixLookup) × (kv : Kv) × (lookup_prefix_cache s.build
            (s.heap p).prompt_tokens
            0
            s.kv
          ≡ some (l, kv))
        × Reserved s l.block_table.block_ids kv
  looked_up some_tokens =
      let (l, kv, run, blocks, shared, hits, parent, looked) =
        lookup_prefix_cache_longest (s.heap p).prompt_tokens 0 s.kv v.backed.inv some_tokens
          v.backed.sized in
      (
        l,
        kv,
        ap (λ b. lookup_prefix_cache b (s.heap p).prompt_tokens 0 s.kv) v.release_build ∙ run,
        record {
          inv = looked.inv;
          sized = omega (arith, looked.shape.same_size, v.backed.sized);
          room = λ j. omega (arith, looked.gained j, ap (count j) blocks, v.backed.covered j);
        },
      )

  abbrev pub MissingResult : ℕ → List ℕ → Kv → Type 0
  MissingResult n ids kv =
      (kv' : Kv) × (((blocks : BlockTable) × (allocate_missing n kv ≡ some (done blocks, kv'))
          × Reserved s (ids ++ blocks.block_ids) kv')
        ⊎ ((allocate_missing n kv ≡ some (fail ErrorCode.kv_block_exhausted, kv'))
            × Reserved s ids kv'))

  pub missing_total : (n : ℕ) (ids : List ℕ) (kv : Kv) → Reserved s ids kv → MissingResult n ids kv
  missing_total n ids kv r = elim (Bool-cases (n == 0)) [
    | inl nothing ↦ (
      kv,
      inl (
        empty_table,
        rw nothing,
        record {
          inv = r.inv;
          sized = r.sized;
          room = λ j. omega (arith, r.room j, count-append j ids []);
        },
      ),
    )
    | inr some_missing ↦ elim (Bool-cases (leb n (length (spare kv)))) [
      | inl enough ↦
          let (kv', blocks, run, served) =
            allocate_kv_blocks_enough n kv r.inv (ground arith) (ground arith) in
          (
            kv',
            inl (
              blocks,
              rw (some_missing, run),
              record {
                inv = served.inv;
                sized = omega (arith, served.shape.same_size, r.sized);
                room = λ j.
                    omega (arith, r.room j, served.gained j, count-append j ids blocks.block_ids);
              },
            ),
          )
      | inr short ↦
          let (kv', run, leaks) = allocate_kv_blocks_leaks n kv r.inv (ground arith) in
          (
            kv',
            inr (
              rw (some_missing, run),
              record {
                inv = leaks.inv;
                sized = omega (arith, leaks.shape.same_size, r.sized);
                room = λ j. omega (arith, r.room j, leaks.gained j);
              },
            ),
          )
    ]
  ]
