-- ===== src/KvBlocks/Evictions.antt =====
-- src/scheduler/scheduler.cpp, the loop of `allocate_kv_blocks`: it evicts as few blocks as it can.
use cc_infer.Base.{
  ℕ, zero, suc, ◌-◌, ◌<◌, ◌≡◌, refl, sym, subst, ap, ◌∙◌, List, [], ◌∷◌, ◌++◌, min, some, ltb,
  arith, count, length, take, drop, length-append, append_assoc, append-nil, Bool-cases, inl, inr,
}
use cc_infer.BlockPool.{num_free_blocks}
use cc_infer.BlockCache.{Kv}
use cc_infer.BlockCache.Invariant.{
  KvInv, refs, no_pending, SameShape, SameShape-refl, SameShape-trans,
}
use cc_infer.BlockCache.Evict.{Evicted, evict_one_oldest, evict_one_empty}
use cc_infer.KvBlocks.{evict_until}

-- How many evictions it takes to have `n` free blocks, as far as there are idle ones.
abbrev pub evictions_for : ℕ → Kv → ℕ
evictions_for n s = min (n - length s.pool.free_list) (length s.cache.idle_lru)

-- The first `k` blocks of the LRU list have moved to the free list.
pub record Made (k : ℕ) (s t : Kv) : Type 0 where
  pub inv : KvInv no_pending t
  pub shape : SameShape s t
  pub same_refs : (j : ℕ) → refs t j ≡ refs s j
  pub freed : t.pool.free_list ≡ s.pool.free_list ++ take k s.cache.idle_lru
  pub idle_rest : t.cache.idle_lru ≡ drop k s.cache.idle_lru
  pub kept :
      (j : ℕ) → count j (take k s.cache.idle_lru) ≡ 0 → t.cache.by_block j ≡ s.cache.by_block j

Made-zero : (k : ℕ) (s : Kv) → k ≡ 0 → KvInv no_pending s → Made k s s
Made-zero zero s e v = record {
  inv = v;
  shape = SameShape-refl s;
  same_refs = λ j. refl;
  freed = sym (append-nil s.pool.free_list);
  idle_rest = refl;
  kept = λ j h. refl;
}
Made-zero (suc k) s e v = absurd (omega arith)

Made-suc :
    (k id : ℕ) (rest : List ℕ) (s t u : Kv)
    → s.cache.idle_lru ≡ id ∷ rest
    → Evicted id rest s t
    → Made k t u
    → Made (suc k) s u
Made-suc k id rest s t u e step m = record {
  inv = m.inv;
  shape = SameShape-trans step.shape m.shape;
  same_refs = λ j. m.same_refs j ∙ step.same_refs j;
  freed = rw e (
      m.freed
      ∙ rw (step.freed, step.idle_rest) (append_assoc s.pool.free_list (id ∷ []) (take k rest)));
  idle_rest = rw e (m.idle_rest ∙ ap (drop k) step.idle_rest);
  kept = λ j h. ground (
    arith,
    ap (λ l. count j (take (suc k) l)) e,
    ap (λ l. count j (take k l)) step.idle_rest,
    m.kept j,
    step.others j,
  );
}

abbrev pub EvictResult : ℕ → ℕ → Kv → Type 0
EvictResult fuel n s = (t : Kv) × (evict_until fuel n s ≡ some t) × Made (evictions_for n s) s t

evict_until_short :
    (fuel n : ℕ) (idle : List ℕ) (s : Kv)
    → s.cache.idle_lru ≡ idle
    → length s.pool.free_list < n
    → KvInv no_pending s
    → ((t : Kv) → KvInv no_pending t → length t.cache.idle_lru < length idle → EvictResult fuel n t)
    → EvictResult (suc fuel) n s
unfolding evict_until num_free_blocks
evict_until_short fuel n [] s e short v next =
    (s, ground (arith, evict_one_empty s e), Made-zero (evictions_for n s) s (rw e (omega arith)) v)
evict_until_short fuel n (id ∷ rest) s e short v next =
    let (t, run, step) = evict_one_oldest s id rest v e in
    let (u, run', made) = next t step.inv (rw step.idle_rest (omega arith)) in
    (
      u,
      ground (arith, run, run'),
      subst (λ k. Made k s u)
          (omega (
            arith,
            ap length step.freed,
            length-append s.pool.free_list (id ∷ []),
            ap length step.idle_rest,
            ap length e,
          ))
          (Made-suc (evictions_for n t) id rest s t u e step made),
    )

-- From a state with the invariant and with more fuel than there are idle blocks, the eviction loop
-- of `allocate_kv_blocks` ends, and has evicted the least recently idle blocks: as many as the free
-- list lacks to `n`, or all of them if these are fewer; the invariant holds.
pub evict_until_total :
    (fuel n : ℕ) (s : Kv)
    → KvInv no_pending s
    → length s.cache.idle_lru < fuel
    → EvictResult fuel n s
unfolding evict_until num_free_blocks
evict_until_total zero n s v h = absurd (omega arith)
evict_until_total (suc fuel) n s v h = elim (Bool-cases (ltb (length s.pool.free_list) n)) [
  | inl short ↦
      evict_until_short fuel n s.cache.idle_lru s refl (ground arith) v
        λ t w less. evict_until_total fuel n t w (omega arith)
  | inr enough ↦ (s, ground arith, Made-zero (evictions_for n s) s (ground arith) v)
]
