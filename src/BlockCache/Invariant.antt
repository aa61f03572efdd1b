-- ===== src/BlockCache/Invariant.antt =====
-- src/cache/block_cache.cpp: what holds of a pool and its cache between operations.
use cc_infer.Base.{
  ℕ, ◌+◌, ◌<◌, ◌≡◌, refl, ap, ◌∙◌, List, [], ◌∷◌, Bool, true, false, ◌&&◌, not, Option, none, some,
  ◌==◌, if◌then◌else◌, arith, count, erase_first, update, count-erase_first_ne,
  count-erase_first_self, elem_of_count,
}
use cc_infer.BlockPool.{ndebug, is_free}
use cc_infer.BlockPool.Invariant.{WellFormed}
use cc_infer.BlockCache.{Kv, BlockCacheEntry, contains, hit, inc64}

abbrev pub hashes_to : ℕ → Option BlockCacheEntry → Bool
hashes_to h none = false
hashes_to h (some e) = e.prefix_hash == h

-- How many entries a block has.
abbrev pub entry_count : ℕ → List BlockCacheEntry → ℕ
entry_count id [] = 0
entry_count id (e ∷ es) = (if id == e.block_id then 1 else 0) + entry_count id es

abbrev pub refs : Kv → ℕ → ℕ
refs s id = (s.pool.blocks id).ref_count

-- `pending` blocks have lost their last reference and wait to be made idle or recycled.
abbrev pub idle_links : (ℕ → Bool) → Kv → ℕ → ℕ
idle_links pending s id = if contains id s && ((refs s id == 0) && not (pending id)) then 1 else 0

pub record KvInv (pending : ℕ → Bool) (s : Kv) : Type 0 where
  pub pool : WellFormed s.pool
  pub keyed : (id : ℕ) (e : BlockCacheEntry) → s.cache.by_block id ≡ some e → e.block_id ≡ id
  pub ranged : (id : ℕ) → contains id s ≡ true → id < s.pool.max_blocks
  pub used : (id : ℕ) → contains id s ≡ true → is_free (s.pool.blocks id) ≡ false
  pub idle : (id : ℕ) → count id s.cache.idle_lru ≡ idle_links pending s id
  pub settled :
      (id : ℕ)
      → id < s.pool.max_blocks
      → is_free (s.pool.blocks id) ≡ false
      → refs s id ≡ 0
      → pending id ≡ false
      → contains id s ≡ true
  pub bucketed :
      (h id : ℕ)
      → count id (s.cache.by_hash h) ≡ (if hashes_to h (s.cache.by_block id) then 1 else 0)
  pub listed : (id : ℕ) → entry_count id s.cache.entries ≡ (if contains id s then 1 else 0)

abbrev pub no_pending : ℕ → Bool
no_pending id = false

-- What no operation of the cache changes.
pub record SameShape (s t : Kv) : Type 0 where
  pub same_max : t.pool.max_blocks ≡ s.pool.max_blocks
  pub same_size : t.pool.block_size ≡ s.pool.block_size

pub SameShape-refl : (s : Kv) → SameShape s s
SameShape-refl s = record { same_max = refl; same_size = refl }

pub SameShape-trans : {s t u : Kv} → SameShape s t → SameShape t u → SameShape s u
SameShape-trans a b = record {
  same_max = b.same_max ∙ a.same_max;
  same_size = b.same_size ∙ a.same_size;
}

-- The first block of a bucket is cached.
pub bucket_front :
    {pending : ℕ → Bool} (s : Kv) (h id : ℕ) (rest : List ℕ)
    → KvInv pending s
    → s.cache.by_hash h ≡ id ∷ rest
    → contains id s ≡ true
bucket_front s h id rest v e = ground (arith, v.bucketed h id, ap (count id) e)

-- The state after a hit.
abbrev pub hit_result : ℕ → Kv → Kv
hit_result id s = record {
  pool = record (s.pool) {
    blocks = update s.pool.blocks id (record (s.pool.blocks id) { ref_count = refs s id + 1 });
  };
  cache = record (s.cache) {
    idle_lru = if refs s id == 0 then erase_first id s.cache.idle_lru else s.cache.idle_lru;
    lookup_hits = inc64 s.cache.lookup_hits;
  };
}

pub hit-eq :
    (id : ℕ) (s : Kv)
    → KvInv no_pending s
    → contains id s ≡ true
    → hit ndebug id s ≡ some (hit_result id s)
unfolding hit
hit-eq id s v c =
    ground (arith, v.ranged id c, v.used id c, v.idle id, elem_of_count id s.cache.idle_lru)

pub hit_result-KvInv :
    (id : ℕ) (s : Kv)
    → KvInv no_pending s
    → contains id s ≡ true
    → KvInv no_pending (hit_result id s)
hit_result-KvInv id s v c = record {
  pool = record {
    linked = λ j. ground (arith, v.pool.linked j, v.used id c);
    unreferenced = λ j. ground (arith, v.pool.unreferenced j, v.used id c);
    own_id = λ j. ground (arith, v.pool.own_id j);
    outside = λ j. ground (arith, v.pool.outside j);
  };
  keyed = v.keyed;
  ranged = v.ranged;
  used = λ j h. ground (arith, v.used j h);
  idle = λ j. ground (
    arith,
    v.idle j,
    count-erase_first_self id s.cache.idle_lru,
    count-erase_first_ne j id s.cache.idle_lru,
  );
  settled = λ j r u z p. ground (arith, v.settled j r);
  bucketed = v.bucketed;
  listed = v.listed;
}
