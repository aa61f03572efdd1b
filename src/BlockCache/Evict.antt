-- ===== src/BlockCache/Evict.antt =====
-- src/cache/block_cache.cpp, `evict_one` and `erase_entry`: the least recently idle block goes.
use cc_infer.Base.{
  ℕ, ◌+◌, ◌%◌, ◌^◌, ◌-◌, ◌≡◌, ◌≢◌, refl, ap, List, [], ◌∷◌, ◌++◌, true, false, none, some, ◌==◌,
  if◌then◌else◌, arith, count, elem, erase_first, count-append, last?, init_list, update,
  elem_of_count, count_of_elem, count-erase_first_ne, count-erase_first_self, Option-cases, inl,
  inr,
}
use cc_infer.BlockPool.{free, recycle, ref_count}
use cc_infer.BlockCache.{
  Kv, BlockCacheEntry, contains, replace_first, swap_remove, remove_entry, erase_entry, evict_one,
  inc64,
}
use cc_infer.BlockCache.Invariant.{KvInv, refs, no_pending, entry_count, SameShape}

count-init_list :
    (a back : ℕ) (xs : List ℕ)
    → last? xs ≡ some back
    → count a xs ≡ count a (init_list xs) + (if a == back then 1 else 0)
count-init_list a back [] e = cc
count-init_list a back (x ∷ []) e = ground arith
count-init_list a back (x ∷ y ∷ xs) e = omega (arith, count-init_list a back (y ∷ xs) e)

count-replace_first :
    (a id v : ℕ) (xs : List ℕ)
    → count a (replace_first id v xs) + (if elem id xs then (if a == id then 1 else 0) else 0)
      ≡ count a xs + (if elem id xs then (if a == v then 1 else 0) else 0)
unfolding replace_first
count-replace_first a id v [] = refl
count-replace_first a id v (x ∷ xs) = ground (arith, count-replace_first a id v xs)

last?-some : (id : ℕ) (xs : List ℕ) → elem id xs ≡ true → (back : ℕ) × (last? xs ≡ some back)
last?-some id [] h = absurd cc
last?-some id (x ∷ []) h = (x, refl)
last?-some id (x ∷ y ∷ xs) h = last?-total x (y ∷ xs)
  where
    last?-total : (x : ℕ) (xs : List ℕ) → (back : ℕ) × (last? (x ∷ xs) ≡ some back)
    last?-total x [] = (x, refl)
    last?-total x (y ∷ xs) = last?-total y xs

-- The swap with the last element takes out one occurrence of the id and nothing else.
pub count-swap_remove :
    (a id : ℕ) (xs : List ℕ)
    → elem id xs ≡ true
    → count a (swap_remove id xs) + (if a == id then 1 else 0) ≡ count a xs
unfolding swap_remove
count-swap_remove a id xs h =
    let (back, e) = last?-some id xs h in
    ground (
      arith,
      e,
      count-init_list a back xs e,
      count-init_list id back xs e,
      count-replace_first a id back (init_list xs),
      count_of_elem id xs h,
      elem_of_count id (init_list xs),
    )

entry_count-remove_entry :
    (j id : ℕ) (es : List BlockCacheEntry)
    → entry_count j (remove_entry id es)
      ≡ (if j == id then entry_count j es - 1 else entry_count j es)
unfolding remove_entry
entry_count-remove_entry j id [] = ground arith
entry_count-remove_entry j id (e ∷ es) = ground (arith, entry_count-remove_entry j id es)

abbrev evicted : ℕ → BlockCacheEntry → Kv → Kv
evicted id e s = record {
  pool = record (s.pool) {
    blocks = update s.pool.blocks id (record (s.pool.blocks id) { status = free });
    free_list = s.pool.free_list ++ id ∷ [];
  };
  cache = record (s.cache) {
    idle_lru =
        if elem id s.cache.idle_lru then erase_first id s.cache.idle_lru else s.cache.idle_lru;
    by_hash = update s.cache.by_hash e.prefix_hash (swap_remove id (s.cache.by_hash e.prefix_hash));
    by_block = update s.cache.by_block id none;
    entries = remove_entry id s.cache.entries;
    evictions = inc64 s.cache.evictions;
  };
}

module _ (s : Kv) (id : ℕ) (rest : List ℕ) (v : KvInv no_pending s)
    (front : s.cache.idle_lru ≡ id ∷ rest) where
  front_idle : (contains id s ≡ true) × (refs s id ≡ 0)
  front_idle = ground (arith, v.idle id, ap (count id) front)

  module _ (e : BlockCacheEntry) (found : s.cache.by_block id ≡ some e) where
    in_bucket : elem id (s.cache.by_hash e.prefix_hash) ≡ true
    in_bucket =
        ground
          (arith, v.bucketed e.prefix_hash id, elem_of_count id (s.cache.by_hash e.prefix_hash))

    evict_one-eq : evict_one s ≡ some (true, evicted id e s)
    unfolding evict_one erase_entry recycle ref_count
    evict_one-eq = ground (arith, in_bucket, front_idle, v.ranged id, v.used id, front, found)

    evicted-KvInv : KvInv no_pending (evicted id e s)
    evicted-KvInv = record {
      pool = record {
        linked = λ j. ground (
          arith,
          v.pool.linked j,
          v.used id,
          v.ranged id,
          front_idle,
          count-append j s.pool.free_list (id ∷ []),
        );
        unreferenced = λ j. ground (arith, v.pool.unreferenced j, front_idle);
        own_id = λ j. ground (arith, v.pool.own_id j);
        outside = λ j. ground (arith, v.pool.outside j);
      };
      keyed = λ j f. ground (arith, v.keyed j f);
      ranged = λ j. ground (arith, v.ranged j);
      used = λ j. ground (arith, v.used j);
      idle = λ j. ground (
        arith,
        v.idle j,
        v.idle id,
        front_idle,
        elem_of_count id s.cache.idle_lru,
        count-erase_first_self id s.cache.idle_lru,
        count-erase_first_ne j id s.cache.idle_lru,
      );
      settled = λ j. ground (arith, v.settled j);
      bucketed = λ h j. ground (
        arith,
        v.bucketed h j,
        in_bucket,
        count-swap_remove j id (s.cache.by_hash e.prefix_hash) in_bucket,
      );
      listed = λ j. ground (arith, v.listed j, entry_count-remove_entry j id s.cache.entries);
    }

-- What evicting `id`, with `rest` behind it on the LRU list, does to the state.
pub record Evicted (id : ℕ) (rest : List ℕ) (s t : Kv) : Type 0 where
  pub inv : KvInv no_pending t
  pub shape : SameShape s t
  pub idle_rest : t.cache.idle_lru ≡ rest
  pub freed : t.pool.free_list ≡ s.pool.free_list ++ id ∷ []
  pub same_refs : (j : ℕ) → refs t j ≡ refs s j
  pub gone : contains id t ≡ false
  pub others : (j : ℕ) → j ≢ id → t.cache.by_block j ≡ s.cache.by_block j
  pub counted : t.cache.evictions ≡ (s.cache.evictions + 1) % 2 ^ 64
  pub buckets : (h j : ℕ) → j ≢ id → count j (t.cache.by_hash h) ≡ count j (s.cache.by_hash h)
  pub other_buckets :
      (e : BlockCacheEntry) (h : ℕ)
      → s.cache.by_block id ≡ some e
      → h ≢ e.prefix_hash
      → t.cache.by_hash h ≡ s.cache.by_hash h

-- From a state with the invariant, when some block is idle, an eviction succeeds and recycles the
-- least recently idle one: the head of the LRU list leaves the cache and goes to the end of the
-- free list, and the count of evictions goes up by one, modulo 2 ^ 64. The reference counts, the
-- entries by block of the other blocks and the buckets of the other hashes stay, and so does how
-- often another block stands in the bucket of the evicted one. The invariant holds.
pub evict_one_oldest :
    (s : Kv) (id : ℕ) (rest : List ℕ)
    → KvInv no_pending s
    → s.cache.idle_lru ≡ id ∷ rest
    → (t : Kv) × (evict_one s ≡ some (true, t)) × Evicted id rest s t
evict_one_oldest s id rest v front = elim (Option-cases (s.cache.by_block id)) [
  | inl absent ↦ absurd (ground (arith, front_idle s id rest v front))
  | inr (e, found) ↦ (
    evicted id e s,
    evict_one-eq s id rest v front e found,
    record {
      inv = evicted-KvInv s id rest v front e found;
      shape = record { same_max = refl; same_size = refl };
      idle_rest = ground (arith, front);
      freed = refl;
      same_refs = λ j. ground arith;
      gone = ground arith;
      others = λ j ne. ground arith;
      counted = refl;
      buckets = λ h j ne. ground (
        arith,
        count-swap_remove j id (s.cache.by_hash e.prefix_hash)
            (in_bucket s id rest v front e found),
      );
      other_buckets = λ f h same ne. ground (arith, found, same);
    },
  )
]

-- With no idle block an eviction changes nothing.
pub evict_one_empty : (s : Kv) → s.cache.idle_lru ≡ [] → evict_one s ≡ some (false, s)
unfolding evict_one
evict_one_empty s e = rw e
