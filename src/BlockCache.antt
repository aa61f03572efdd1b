-- ===== src/BlockCache.antt =====
-- src/cache/block_cache.h, src/cache/block_cache.cpp, src/cache/cache_stats.h: the cached KV
-- blocks, their index by prefix hash and the LRU list of the idle ones.
--
-- The cache holds a reference to the pool, so an operation works on both, `Kv`. A block has one
-- entry at most, and an iterator to an entry is the id of its block: the buckets of `by_hash` and
-- the idle list are lists of such ids, `by_block` gives the entry. An empty bucket is an absent
-- one, as in the code. `none` is a failed assertion.
pub mod Invariant
pub mod Lookup
pub mod Evict
pub mod Publish
use cc_infer.Base.{
  ℕ, zero, suc, ◌+◌, ◌-◌, ◌%◌, ◌^◌, ◌≤◌, List, [], ◌∷◌, ◌++◌, Bool, true, false, ◌&&◌, not, Option,
  none, some, ltb, leb, ◌==◌, if◌then◌else◌, assert, ◌>>=◌, length, count, elem, erase_first, last?,
  init_list, is_empty, update,
}
use cc_infer.BlockTable.{BlockTable, empty_table, push_back, set_shared_count}
use cc_infer.BlockPool.{BlockPool, Build}
use cc_infer.BlockPool
use cc_infer.PrefixCache.{Tokens, chain_hashes, chain_hashes_from}

pub record BlockCacheEntry : Type 0 where
  pub prefix_hash : ℕ
  pub block_id : ℕ

pub record BlockCache : Type 0 where
  pub entries : List BlockCacheEntry
  pub idle_lru : List ℕ
  pub by_hash : ℕ → List ℕ
  pub by_block : ℕ → Option BlockCacheEntry
  pub lookup_hits : ℕ
  pub lookup_misses : ℕ
  pub evictions : ℕ

pub record Kv : Type 0 where
  pub pool : BlockPool
  pub cache : BlockCache

abbrev pub empty_cache : BlockCache
empty_cache = record {
  entries = [];
  idle_lru = [];
  by_hash = λ h. [];
  by_block = λ id. none;
  lookup_hits = 0;
  lookup_misses = 0;
  evictions = 0;
}

pub record PrefixLookup : Type 0 where
  pub block_table : BlockTable
  pub prefix_hit_blocks : ℕ
  pub parent_hash : ℕ

-- `++` of a `uint64_t`.
abbrev pub inc64 : ℕ → ℕ
inc64 n = (n + 1) % 2 ^ 64

abbrev pub is_some {ℓ} : {A : Type ℓ} → Option A → Bool
is_some none = false
is_some (some a) = true

abbrev pub contains : ℕ → Kv → Bool
contains id s = is_some (s.cache.by_block id)

abbrev pub is_in_idle_lru : ℕ → Kv → Bool
is_in_idle_lru id s = elem id s.cache.idle_lru

abbrev pub is_idle : ℕ → Kv → Bool
is_idle id s = contains id s && is_in_idle_lru id s

abbrev pub unlink_idle : ℕ → BlockCache → BlockCache
unlink_idle id c = record c { idle_lru = erase_first id c.idle_lru }

-- A hit on an idle block takes it off the LRU list.
unfoldable pub promote : ℕ → Kv → Option Kv
unfolding BlockPool.ref_count
promote id s = BlockPool.ref_count id s.pool >>= λ refs.
    if refs == 0
    then assert (is_in_idle_lru id s) (some (record s { cache = unlink_idle id s.cache }))
    else some s

-- The body of the loop of `lookup_prefix_cache` on a hit.
unfoldable pub hit : Build → ℕ → Kv → Option Kv
unfolding promote BlockPool.retain_request
hit build id s = assert (contains id s) (
    promote id s >>= λ s'. BlockPool.retain_request build id s'.pool >>= λ pool. some (record {
      pool = pool;
      cache = record (s'.cache) { lookup_hits = inc64 s'.cache.lookup_hits };
    }))

abbrev pub note_miss : Kv → Kv
note_miss s = record s { cache = record (s.cache) { lookup_misses = inc64 s.cache.lookup_misses } }

abbrev pub extend_lookup : PrefixLookup → ℕ → ℕ → PrefixLookup
extend_lookup r id h = record {
  block_table = push_back r.block_table id;
  prefix_hit_blocks = r.prefix_hit_blocks + 1;
  parent_hash = h;
}

unfoldable pub lookup_loop : Build → List ℕ → PrefixLookup → Kv → Option (PrefixLookup × Kv)
lookup_loop build [] r s = some (r, s)
lookup_loop build (h ∷ hashes) r s = elim (s.cache.by_hash h) [
  | [] ↦ some (r, note_miss s)
  | id ∷ bucket ↦ hit build id s >>= λ s'. lookup_loop build hashes (extend_lookup r id h) s'
]

abbrev pub empty_lookup : PrefixLookup
empty_lookup = record { block_table = empty_table; prefix_hit_blocks = 0; parent_hash = 0 }

abbrev pub with_shared_count : PrefixLookup → PrefixLookup
with_shared_count r = record r { block_table = set_shared_count r.block_table r.prefix_hit_blocks }

unfoldable pub lookup_prefix_cache : Build → Tokens → ℕ → Kv → Option (PrefixLookup × Kv)
unfolding lookup_loop
lookup_prefix_cache build tokens namespace_salt s = assert (not (is_empty tokens)) (
    assert (ltb 0 s.pool.block_size) (
      chain_hashes tokens s.pool.block_size namespace_salt >>= λ hashes.
      lookup_loop build hashes empty_lookup s >>= λ r. some (with_shared_count r.0, r.1)))

abbrev pub insert_entry : ℕ → ℕ → BlockCache → BlockCache
insert_entry hash block_id c =
    let entry : BlockCacheEntry = record { prefix_hash = hash; block_id = block_id } in
    record c {
      entries = c.entries ++ entry ∷ [];
      by_block = update c.by_block block_id (some entry);
      by_hash = update c.by_hash hash (c.by_hash hash ++ block_id ∷ []);
    }

-- `publish_full_block` once the hash is computed, by what `by_block` has for the block.
unfoldable pub publish_hash : ℕ → ℕ → Option BlockCacheEntry → Kv → Option (ℕ × Kv)
publish_hash hash block_id (some entry) s = assert (entry.prefix_hash == hash) (some (hash, s))
publish_hash hash block_id none s = BlockPool.ref_count block_id s.pool >>= λ refs.
    assert (ltb 0 refs) (some (hash, record s { cache = insert_entry hash block_id s.cache }))

unfoldable pub publish_full_block : ℕ → Tokens → ℕ → ℕ → Kv → Option (ℕ × Kv)
unfolding publish_hash
publish_full_block parent_hash tokens block_id seed s =
    let block_size = s.pool.block_size in
    assert (ltb 0 block_size) (
      assert (leb block_size (length tokens)) (
        chain_hashes_from tokens block_size block_size parent_hash seed >>= λ hashes. front hashes))
  where
    front : List ℕ → Option (ℕ × Kv)
    front [] = none
    front (hash ∷ rest) = publish_hash hash block_id (s.cache.by_block block_id) s

unfoldable pub mark_idle : ℕ → Kv → Option Kv
mark_idle id s = assert (contains id s) (
    BlockPool.ref_count id s.pool >>= λ refs.
    assert ((refs == 0) && not (is_in_idle_lru id s))
      (some (record s { cache = record (s.cache) { idle_lru = s.cache.idle_lru ++ id ∷ [] } })))

-- `*pos = bucket.back(); bucket.pop_back();` at the first occurrence of `id`.
replace_first : ℕ → ℕ → List ℕ → List ℕ
replace_first id v [] = []
replace_first id v (x ∷ xs) = if id == x then v ∷ xs else x ∷ replace_first id v xs

pub swap_remove : ℕ → List ℕ → List ℕ
unfolding replace_first
swap_remove id bucket = elim (last? bucket) [
  | none ↦ []
  | some back ↦ replace_first id back (init_list bucket)
]

pub remove_entry : ℕ → List BlockCacheEntry → List BlockCacheEntry
remove_entry id [] = []
remove_entry id (e ∷ es) = if id == e.block_id then es else e ∷ remove_entry id es

-- On the entry that `by_block` has for the block.
pub erase_found : ℕ → Option BlockCacheEntry → BlockCache → Option BlockCache
erase_found id none c = none
erase_found id (some entry) c =
    let hash = entry.prefix_hash in
    let idle = if elem id c.idle_lru then erase_first id c.idle_lru else c.idle_lru in
    assert (elem id (c.by_hash hash)) (
      some (record c {
        idle_lru = idle;
        by_hash = update c.by_hash hash (swap_remove id (c.by_hash hash));
        by_block = update c.by_block id none;
        entries = remove_entry id c.entries;
      }))

unfoldable pub erase_entry : ℕ → BlockCache → Option BlockCache
unfolding erase_found
erase_entry id c = erase_found id (c.by_block id) c

-- `false` says that no block is idle.
unfoldable pub evict_one : Kv → Option (Bool × Kv)
evict_one s = elim s.cache.idle_lru [
  | [] ↦ some (false, s)
  | victim ∷ rest ↦ BlockPool.ref_count victim s.pool >>= λ refs. assert (refs == 0) (
      erase_entry victim s.cache >>= λ cache. BlockPool.recycle victim s.pool >>= λ pool.
      some
        (true, record { pool = pool; cache = record cache { evictions = inc64 cache.evictions } }))
]

abbrev pub num_cached_blocks : Kv → ℕ
num_cached_blocks s = length s.cache.entries

abbrev pub num_idle_blocks : Kv → ℕ
num_idle_blocks s = length s.cache.idle_lru

pub record BlockCacheStats : Type 0 where
  pub block_total : ℕ
  pub block_active : ℕ
  pub block_free : ℕ
  pub block_cached_idle : ℕ
  pub block_size : ℕ
  pub lookup_hits : ℕ
  pub lookup_misses : ℕ
  pub evictions : ℕ
  pub cached_blocks : ℕ

unfoldable pub stats : Kv → BlockCacheStats
unfolding BlockPool.num_free_blocks
stats s = record {
  block_total = s.pool.max_blocks;
  block_active = s.pool.max_blocks - BlockPool.num_free_blocks s.pool - num_idle_blocks s;
  block_free = BlockPool.num_free_blocks s.pool;
  block_cached_idle = num_idle_blocks s;
  block_size = s.pool.block_size;
  lookup_hits = s.cache.lookup_hits;
  lookup_misses = s.cache.lookup_misses;
  evictions = s.cache.evictions;
  cached_blocks = num_cached_blocks s;
}
