-- ===== src/StateCache.antt =====
-- src/cache/state_cache.h, src/cache/state_cache.cpp: snapshots of recurrent states by prefix hash.
--
-- The LRU list holds the entries themselves; an entry is known by its hash, which is unique. What the
-- device storage answers to a copy is a parameter. `none` is a failed assertion.
use cc_infer.Base.{
  ℕ, List, [], ◌∷◌, ◌++◌, Bool, true, false, ◌||◌, not, Option, none, some, ◌==◌, if◌then◌else◌,
  ◌>>=◌, length, update, is_empty,
}
use cc_infer.Base.Int.{ℤ, pos, negsuc, ltz}
use cc_infer.Errors.{ErrorCode, Result, done, fail}
use cc_infer.BlockCache.{inc64}
use cc_infer.StatePool.{
  StatePool, acquire_snapshot, release_snapshot, copy_active_to_snapshot,
  restore_snapshot_to_active,
}

pub record StateCacheEntry : Type 0 where
  pub prefix_hash : ℕ
  pub frontier_block_index : ℤ
  pub state_id : ℕ

pub record StateCache : Type 0 where
  pub frontier_depth : ℤ
  pub entries : List StateCacheEntry
  pub lru : List StateCacheEntry
  pub by_hash : ℕ → Option StateCacheEntry
  pub lookup_hits : ℕ
  pub lookup_misses : ℕ
  pub evictions : ℕ

-- The cache with the pool that it refers to.
pub record Snapshots : Type 0 where
  pub pool : StatePool
  pub cache : StateCache

abbrev pub SnapshotAnswer : Type 0
SnapshotAnswer = Option (Option ErrorCode × Snapshots)

pub has : ℕ → Snapshots → Bool
has hash s = elim (s.cache.by_hash hash) [ none ↦ false | some e ↦ true ]

-- -1 for a hash that is not cached.
pub state_id_of : ℕ → Snapshots → ℤ
state_id_of hash s = elim (s.cache.by_hash hash) [ none ↦ negsuc 0 | some e ↦ pos e.state_id ]

abbrev pub without : ℕ → List StateCacheEntry → List StateCacheEntry
without hash [] = []
without hash (e ∷ es) = if e.prefix_hash == hash then es else e ∷ without hash es

abbrev pub is_in_lru : ℕ → List StateCacheEntry → Bool
is_in_lru hash [] = false
is_in_lru hash (e ∷ es) = if e.prefix_hash == hash then true else is_in_lru hash es

pub erase_entry : StateCacheEntry → StateCache → StateCache
erase_entry e c = record c {
  lru = without e.prefix_hash c.lru;
  by_hash = update c.by_hash e.prefix_hash none;
  entries = without e.prefix_hash c.entries;
}

-- The entry `e` that the index has for the victim, the front of the LRU list.
abbrev evict_found : StateCacheEntry → StateCacheEntry → Snapshots → Option (Bool × Snapshots)
evict_found victim e s = release_snapshot (pos victim.state_id) s.pool >>= λ r. some (
  true,
  record {
    pool = r.1;
    cache = record (erase_entry e s.cache) { evictions = inc64 s.cache.evictions };
  },
)

pub evict_one : Snapshots → Option (Bool × Snapshots)
unfolding erase_entry
evict_one s = elim s.cache.lru [
  | [] ↦ some (false, s)
  | victim ∷ rest ↦ elim (s.cache.by_hash victim.prefix_hash) [
    | none ↦ none
    | some e ↦ evict_found victim e s
  ]
]

abbrev insert : ℕ → ℤ → ℕ → Snapshots → Snapshots
insert hash frontier_block state s =
    let e : StateCacheEntry = record {
      prefix_hash = hash;
      frontier_block_index = frontier_block;
      state_id = state;
    } in
    record s {
      cache = record (s.cache) {
        entries = s.cache.entries ++ e ∷ [];
        by_hash = update s.cache.by_hash hash (some e);
        lru = s.cache.lru ++ e ∷ [];
      };
    }

-- With the answer of `acquire_snapshot`: `copied` is that of the storage for the new state.
snapshot_into : (ℕ → Option ErrorCode) → ℕ → ℤ → ℤ → Result ℕ → Snapshots → SnapshotAnswer
snapshot_into copied hash frontier_block active_state (fail e) s = some (some e, s)
snapshot_into copied hash frontier_block active_state (done state) s =
    elim (copy_active_to_snapshot (copied state) active_state (pos state) s.pool) [
      | some e ↦ release_snapshot (pos state) s.pool >>= λ r. some (some e, record s { pool = r.1 })
      | none ↦ some (none, insert hash frontier_block state s)
    ]

-- A free snapshot, if need be by an eviction.
abbrev make_space : Snapshots → Option (Bool × Snapshots)
make_space s = if is_empty s.pool.snapshot_free_list then evict_one s else some (true, s)

pub snapshot : (ℕ → Option ErrorCode) → ℕ → ℤ → ℤ → Snapshots → SnapshotAnswer
unfolding snapshot_into
snapshot copied hash frontier_block active_state s =
    if ltz frontier_block (pos 0) || not (ltz frontier_block s.cache.frontier_depth)
    then some (some ErrorCode.invalid_argument, s)
    else if has hash s
    then some (none, s)
    else (make_space s >>= λ r.
        if r.0
        then (acquire_snapshot r.1.pool >>= λ a.
            snapshot_into copied hash frontier_block active_state a.0 (record (r.1) { pool = a.1 }))
        else some (some ErrorCode.max_sequences_reached, r.1))

-- The entry moves to the end of the LRU list.
abbrev touch : StateCacheEntry → StateCache → StateCache
touch e c = record c {
  lru = if is_in_lru e.prefix_hash c.lru then without e.prefix_hash c.lru ++ e ∷ [] else c.lru;
  lookup_hits = inc64 c.lookup_hits;
}

pub restore : (ℕ → Option ErrorCode) → ℕ → ℤ → Snapshots → Option ErrorCode × Snapshots
restore copied hash active_state s = elim (s.cache.by_hash hash) [
  | none ↦ (
    some ErrorCode.invalid_argument,
    record s { cache = record (s.cache) { lookup_misses = inc64 s.cache.lookup_misses } },
  )
  | some e ↦ (
    restore_snapshot_to_active (copied e.state_id) (pos e.state_id) active_state s.pool,
    record s { cache = touch e s.cache },
  )
]

pub record StateCacheStats : Type 0 where
  pub lookup_hits : ℕ
  pub lookup_misses : ℕ
  pub evictions : ℕ
  pub cached_snapshots : ℕ

pub stats : StateCache → StateCacheStats
stats c = record {
  lookup_hits = c.lookup_hits;
  lookup_misses = c.lookup_misses;
  evictions = c.evictions;
  cached_snapshots = length c.entries;
}
