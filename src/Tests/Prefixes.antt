-- ===== src/Tests/Prefixes.antt =====
-- Prefix hashes and the block cache at sample states.
use native.Mathlib.Omega.{arith}
use cc_infer.Base.{ℕ, ◌≡◌, refl, List, [], ◌∷◌, ◌++◌, true, none, some, length, take}
use cc_infer.BlockPool.{ndebug, checked}
use cc_infer.Base.Int.{to_u64}
use cc_infer.PrefixCache.{hash_combine, chain_hashes_from, chain_hashes, seeded}
use cc_infer.PrefixCache.Chain.{
  last_hash, fold_hash, chain, chain_hashes_from-eq-chain, chain_hashes-append_block,
}
use cc_infer.BlockCache.{Kv, PrefixLookup, lookup_prefix_cache, publish_full_block, evict_one}
use cc_infer.BlockCache.Invariant.{no_pending}
use cc_infer.BlockCache.Lookup.{
  lookup_hashes, lookup_blocks, prefix_blocks, Looked, lookup_prefix_cache_longest,
  lookup_prefix_cache_idle_asserts,
}
use cc_infer.BlockCache.Evict.{Evicted, evict_one_oldest}
use cc_infer.BlockCache.Publish.{Published, block_hash, publish_full_block_new}
use cc_infer.Tests.Samples.{
  first_tokens, next_tokens, sample_kv, sample_kv-KvInv, next_hash, held_kv, held_kv-KvInv,
}

chain_hashes_from-eq-chain_example :
    chain_hashes_from next_tokens 2 2 5 0 ≡ some (chain 2 1 next_tokens (seeded 5 0))
chain_hashes_from-eq-chain_example =
    chain_hashes_from-eq-chain next_tokens 2 2 5 0 (omega arith) (omega arith)

chain_hashes-append_block_example :
    (hashes : List ℕ) × (h : ℕ) × (chain_hashes first_tokens 2 0 ≡ some hashes)
    × (chain_hashes_from next_tokens 2 2 (last_hash 0 hashes) 0 ≡ some (h ∷ []))
    × (chain_hashes (first_tokens ++ next_tokens) 2 0 ≡ some (hashes ++ h ∷ []))
chain_hashes-append_block_example =
    chain_hashes-append_block 1 2 first_tokens next_tokens (omega arith) refl refl

lookup_prefix_cache_longest_example :
    (r : PrefixLookup) × (t : Kv) × (lookup_prefix_cache ndebug
        (first_tokens ++ next_tokens)
        0
        sample_kv
      ≡ some (r, t))
    × (r.block_table.block_ids ≡ lookup_blocks (first_tokens ++ next_tokens) 0 sample_kv)
    × (r.block_table.shared_count ≡ r.prefix_hit_blocks)
    × (r.prefix_hit_blocks ≡ length (lookup_blocks (first_tokens ++ next_tokens) 0 sample_kv))
    × (r.parent_hash
        ≡ last_hash 0
            (take r.prefix_hit_blocks (lookup_hashes (first_tokens ++ next_tokens) 0 sample_kv)))
    × Looked (lookup_blocks (first_tokens ++ next_tokens) 0 sample_kv) sample_kv t
lookup_prefix_cache_longest_example =
    lookup_prefix_cache_longest (first_tokens ++ next_tokens) 0 sample_kv sample_kv-KvInv
      (omega arith) (omega arith)

-- Both blocks are found.
found_both : lookup_blocks (first_tokens ++ next_tokens) 0 sample_kv ≡ 0 ∷ 1 ∷ []
unfolding prefix_blocks chain fold_hash hash_combine to_u64
found_both = refl

-- The first block is idle.
lookup_prefix_cache_idle_asserts_example :
    lookup_prefix_cache checked (first_tokens ++ next_tokens) 0 sample_kv ≡ none
unfolding prefix_blocks chain fold_hash hash_combine to_u64
lookup_prefix_cache_idle_asserts_example =
    lookup_prefix_cache_idle_asserts (first_tokens ++ next_tokens) 0 sample_kv 0 sample_kv-KvInv
      (omega arith) (omega arith) (omega arith) refl

evict_one_oldest_example :
    (t : Kv) × (evict_one sample_kv ≡ some (true, t)) × Evicted 0 [] sample_kv t
evict_one_oldest_example = evict_one_oldest sample_kv 0 [] sample_kv-KvInv refl

publish_full_block_new_example :
    (t : Kv) × (publish_full_block next_hash first_tokens 2 0 held_kv
      ≡ some (block_hash next_hash first_tokens 0 2, t))
    × Published no_pending (block_hash next_hash first_tokens 0 2) 2 held_kv t
publish_full_block_new_example =
    publish_full_block_new no_pending next_hash first_tokens 2 0 held_kv held_kv-KvInv (omega arith)
      (omega arith) refl (omega arith)
