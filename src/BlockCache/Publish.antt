-- ===== src/BlockCache/Publish.antt =====
-- src/cache/block_cache.cpp, `publish_full_block`: a full block enters the cache.
use cc_infer.Base.{
  ℕ, ◌+◌, ◌≤◌, ◌<◌, ◌≡◌, ◌≢◌, refl, ◌∙◌, List, [], ◌∷◌, ◌++◌, Bool, false, none, some, arith,
  length, count-append, lt→ltb, le→leb, take,
}
use cc_infer.BlockPool.{ref_count}
use cc_infer.BlockPool.Invariant.{referenced}
use cc_infer.PrefixCache.{Tokens, seeded}
use cc_infer.PrefixCache.Chain.{fold_hash, chain_hashes_from_one}
use cc_infer.BlockCache.{
  Kv, BlockCacheEntry, contains, insert_entry, publish_hash, publish_full_block,
}
use cc_infer.BlockCache.Invariant.{KvInv, refs, entry_count}

entry_count-append :
    (j : ℕ) (es fs : List BlockCacheEntry)
    → entry_count j (es ++ fs) ≡ entry_count j es + entry_count j fs
entry_count-append j [] fs = omega arith
entry_count-append j (e ∷ es) fs = omega (arith, entry_count-append j es fs)

abbrev published : ℕ → ℕ → Kv → Kv
published hash id s = record s { cache = insert_entry hash id s.cache }

published-KvInv :
    (pending : ℕ → Bool) (hash id : ℕ) (s : Kv)
    → KvInv pending s
    → s.cache.by_block id ≡ none
    → 0 < refs s id
    → KvInv pending (published hash id s)
published-KvInv pending hash id s v absent pos = record {
  pool = v.pool;
  keyed = λ j e. ground (arith, v.keyed j e);
  ranged = λ j. ground (arith, v.ranged j, referenced s.pool id v.pool pos);
  used = λ j. ground (arith, v.used j, referenced s.pool id v.pool pos);
  idle = λ j. ground (arith, v.idle j, v.idle id);
  settled = λ j. ground (arith, v.settled j);
  bucketed = λ h j. ground (arith, v.bucketed h j, count-append j (s.cache.by_hash h) (id ∷ []));
  listed = λ j. ground (
    arith,
    v.listed j,
    entry_count-append j s.cache.entries (record { prefix_hash = hash; block_id = id } ∷ []),
  );
}

-- What publishing `id` under `hash` does to the state.
pub record Published (pending : ℕ → Bool) (hash id : ℕ) (s t : Kv) : Type 0 where
  pub inv : KvInv pending t
  pub same_pool : t.pool ≡ s.pool
  pub same_idle : t.cache.idle_lru ≡ s.cache.idle_lru
  pub entry :
      (e : BlockCacheEntry) × (t.cache.by_block id ≡ some e)
      × (e.prefix_hash ≡ hash)
      × (e.block_id ≡ id)
  pub others : (j : ℕ) → j ≢ id → t.cache.by_block j ≡ s.cache.by_block j

-- The hash of a block behind a parent.
abbrev pub block_hash : ℕ → Tokens → ℕ → ℕ → ℕ
block_hash parent tokens seed block_size = fold_hash (seeded parent seed) (take block_size tokens)

publish_runs :
    (parent : ℕ) (tokens : Tokens) (id seed : ℕ) (s : Kv)
    → 0 < s.pool.block_size
    → s.pool.block_size ≤ length tokens
    → publish_full_block parent tokens id seed s
      ≡ publish_hash (block_hash parent tokens seed s.pool.block_size) id (s.cache.by_block id) s
unfolding publish_full_block
publish_runs parent tokens id seed s pos len = rw (
  lt→ltb 0 s.pool.block_size pos,
  le→leb s.pool.block_size (length tokens) len,
  chain_hashes_from_one tokens s.pool.block_size parent seed pos len,
)

-- From a state with the invariant and a positive block size, publishing at least `block_size`
-- tokens for a block that a request holds and that is not cached enters it under the hash of the
-- first `block_size` tokens behind the parent, and returns that hash. The pool, the LRU list and
-- the other entries stay, and the invariant holds.
pub publish_full_block_new :
    (pending : ℕ → Bool) (parent : ℕ) (tokens : Tokens) (id seed : ℕ) (s : Kv)
    → KvInv pending s
    → 0 < s.pool.block_size
    → s.pool.block_size ≤ length tokens
    → contains id s ≡ false
    → 0 < refs s id
    → (t : Kv) × (publish_full_block parent tokens id seed s
        ≡ some (block_hash parent tokens seed s.pool.block_size, t))
      × Published pending (block_hash parent tokens seed s.pool.block_size) id s t
unfolding publish_hash ref_count
publish_full_block_new pending parent tokens id seed s v size len fresh pos =
    let absent : s.cache.by_block id ≡ none = ground arith in
    let hash = block_hash parent tokens seed s.pool.block_size in
    (
      published hash id s,
      publish_runs parent tokens id seed s size len
          ∙ rw (absent, publish_hash) (ground (arith, referenced s.pool id v.pool pos)),
      record {
        inv = published-KvInv pending hash id s v absent pos;
        same_pool = refl;
        same_idle = refl;
        entry = (record { prefix_hash = hash; block_id = id }, ground arith, refl, refl);
        others = λ j ne. ground arith;
      },
    )
