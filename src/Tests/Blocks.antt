-- ===== src/Tests/Blocks.antt =====
-- The pool and the blocks of requests at sample states.
use native.Mathlib.Omega.{arith}
use cc_infer.Base.{refl, true, none, ltb, ℕ, ◌+◌, ◌≤◌, ◌≡◌, [], ◌∷◌, some, ◌==◌, if◌then◌else◌}
use cc_infer.Base.Int.{pos}
use cc_infer.Errors.{ErrorCode, done, fail}
use cc_infer.BlockTable.{BlockTable}
use cc_infer.BlockPool.{is_free, BlockPool, init, num_free_blocks}
use cc_infer.BlockPool.Invariant.{WellFormed, init-WellFormed}
use cc_infer.BlockCache.{Kv}
use cc_infer.KvBlocks.{allocate_kv_blocks, release_request_blocks}
use cc_infer.KvBlocks.Evictions.{EvictResult, evict_until_total}
use cc_infer.KvBlocks.Allocate.{
  Served, Refused, allocate_kv_blocks_enough, allocate_kv_blocks_leaks,
}
use cc_infer.KvBlocks.Release.{Released, release_request_blocks_total}
use cc_infer.StatePool.{
  StatePool, mutable_kind, snapshot_kind, free, in_use, link_states, acquire_active, release_active,
  create,
}
use cc_infer.StatePool.Invariant.{
  StateInv, SameRest, AllFree, Frees, create-AllFree, acquire_active_given, release_active_total,
}
use cc_infer.Tests.Samples.{sample_kv, sample_kv-KvInv, held_kv, held_kv-KvInv}

init-WellFormed_example :
    (p : BlockPool) × (init (pos 4) (pos 2) ≡ done p)
    × WellFormed p
    × (num_free_blocks p ≡ 4)
    × (p.max_blocks ≡ 4)
    × (p.block_size ≡ 2)
    × ((id : ℕ) → is_free (p.blocks id) ≡ true)
init-WellFormed_example = init-WellFormed 4 2 (omega arith) (omega arith) (omega arith)

-- Two blocks are free, so that a request for three evicts the idle one.
evict_until_total_example : EvictResult 2 3 sample_kv
evict_until_total_example = evict_until_total 2 3 sample_kv sample_kv-KvInv (omega arith)

allocate_kv_blocks_enough_example :
    (t : Kv) × (table : BlockTable) × (allocate_kv_blocks 3 sample_kv ≡ some (done table, t))
    × Served 3 sample_kv t table
allocate_kv_blocks_enough_example =
    allocate_kv_blocks_enough 3 sample_kv sample_kv-KvInv (omega arith) (omega arith)

allocate_kv_blocks_leaks_example :
    (t : Kv) × (allocate_kv_blocks 4 sample_kv ≡ some (fail ErrorCode.kv_block_exhausted, t))
    × Refused sample_kv t
allocate_kv_blocks_leaks_example =
    allocate_kv_blocks_leaks 4 sample_kv sample_kv-KvInv (omega arith)

abbrev held_table : BlockTable
held_table = record { block_ids = 1 ∷ 2 ∷ []; shared_count = 1 }

held_covered :
    (j : ℕ)
    → (if j == 1 then 1 else 0) + ((if j == 2 then 1 else 0) + 0)
      ≤ (held_kv.pool.blocks j).ref_count
held_covered j = ground arith

release_request_blocks_total_example :
    (t : Kv) × (release_request_blocks held_table held_kv ≡ some t)
    × Released (1 ∷ 2 ∷ []) held_kv t
release_request_blocks_total_example =
    release_request_blocks_total held_table held_kv held_kv-KvInv held_covered

abbrev new_states : StatePool
new_states = create 2 1

create-AllFree_example : AllFree 2 1 new_states
create-AllFree_example = create-AllFree 2 1

acquire_active_given_example :
    (q : StatePool) × (acquire_active (λ id. none) 7 new_states ≡ some (none, q))
    × (q.active_by_seq 7 ≡ some 0)
    × SameRest 7 new_states q
unfolding create
acquire_active_given_example =
    acquire_active_given 7 0 (1 ∷ []) (λ id. none) new_states (create-AllFree 2 1).inv refl refl
      refl

-- Sequence 7 has state 0.
abbrev one_active : StatePool
one_active = record new_states {
  states = λ id. record {
    id = id;
    kind = if ltb id 2 then mutable_kind else snapshot_kind;
    status = if id == 0 then in_use else free;
  };
  mutable_free_list = 1 ∷ [];
  active_by_seq = λ seq. if seq == 7 then some 0 else none;
}

one_active-StateInv : StateInv one_active
unfolding create link_states
one_active-StateInv = record {
  mutable_linked = λ id. ground arith;
  snapshot_linked = λ id. ground arith;
  kinds = λ id. ground arith;
  own_id = λ id. refl;
  owned = λ seq id h. ground arith;
  alone = λ seq other id h k. ground arith;
}

release_active_total_example :
    (q : StatePool) × (release_active 7 one_active ≡ some (none, q))
    × (q.active_by_seq 7 ≡ none)
    × Frees 7 one_active q
    × SameRest 7 one_active q
release_active_total_example = release_active_total 7 one_active one_active-StateInv
