-- ===== src/KvBlocks.antt =====
-- src/scheduler/scheduler.cpp, `allocate_kv_blocks` and `release_request_blocks`: how the scheduler
-- takes blocks from the pool, with evictions from the cache, and gives them back.
--
-- `none` is a failed assertion, or that the fuel of the eviction loop ran out, which it does not:
-- each round takes a block off the LRU list, and the fuel is one more than its length.
pub mod Evictions
pub mod Allocate
pub mod Release
use cc_infer.Base.{
  ℕ, zero, suc, ◌+◌, List, [], ◌∷◌, Bool, true, false, Option, none, some, ltb, ◌==◌, if◌then◌else◌,
  ◌>>=◌, length, elem,
}
use cc_infer.Errors.{Result, done}
use cc_infer.BlockTable.{BlockTable, empty_table}
use cc_infer.BlockPool.{num_free_blocks, allocate_blocks, release_blocks, ref_count, recycle}
use cc_infer.BlockCache.{Kv, contains, evict_one, mark_idle}

unfoldable pub evict_until : ℕ → ℕ → Kv → Option Kv
evict_until zero num_blocks s = none
evict_until (suc fuel) num_blocks s = elim (ltb (num_free_blocks s.pool) num_blocks) [
  | false ↦ some s
  | true ↦
      evict_one s >>= λ r. elim r.0 [ true ↦ evict_until fuel num_blocks r.1 | false ↦ some r.1 ]
]

unfoldable pub allocate_kv_blocks : ℕ → Kv → Option (Result BlockTable × Kv)
unfolding evict_until
allocate_kv_blocks num_blocks s =
    if num_blocks == 0
    then some (done empty_table, s)
    else (evict_until (length s.cache.idle_lru + 1) num_blocks s >>= λ s'.
        allocate_blocks num_blocks s'.pool >>= λ r. some (r.0, record s' { pool = r.1 }))

-- The body of the second loop of `release_request_blocks`.
unfoldable pub settle : ℕ → Kv → Option Kv
settle id s = ref_count id s.pool >>= λ refs.
    if refs == 0
    then (if contains id s
        then mark_idle id s
        else (recycle id s.pool >>= λ pool. some (record s { pool = pool })))
    else some s

-- The second loop, with the set of the ids seen so far.
unfoldable pub settle_ids : List ℕ → List ℕ → Kv → Option Kv
settle_ids [] seen s = some s
settle_ids (id ∷ ids) seen s = elim (elem id seen) [
  | true ↦ settle_ids ids seen s
  | false ↦ settle id s >>= λ s'. settle_ids ids (id ∷ seen) s'
]

unfoldable pub release_request_blocks : BlockTable → Kv → Option Kv
unfolding settle settle_ids
release_request_blocks table s =
    release_blocks table s.pool >>= λ pool. settle_ids table.block_ids [] (record s { pool = pool })
