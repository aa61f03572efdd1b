-- ===== src/KvBlocks/Allocate.antt =====
-- src/scheduler/scheduler.cpp, `allocate_kv_blocks`, and src/block/block_pool.cpp,
-- `allocate_blocks`: what a request for blocks returns and what it does to the reference counts.
use cc_infer.Base.{
  ℕ, zero, suc, ◌+◌, ◌≤◌, ◌<◌, ◌≡◌, refl, sym, ap, ◌∙◌, List, [], ◌∷◌, ◌++◌, some, ◌>>=◌, arith,
  count, length, take, drop, length-append, append_assoc, append-nil, lt→ltb, length-take,
  take-append-drop, ==_ne, take_append, drop_append, take_all, drop_all,
}
use mathlib.Core.Path.{ap₂}
use cc_infer.Errors.{ErrorCode, done, fail}
use cc_infer.BlockTable.{BlockTable, empty_table, push_back}
use cc_infer.BlockPool.{BlockPool, allocate_loop, allocate_blocks}
use cc_infer.BlockPool.Invariant.{
  allocated, front_free, allocate_front, allocate_none, allocated-WellFormed,
}
use cc_infer.BlockCache.{Kv}
use cc_infer.BlockCache.Invariant.{
  KvInv, refs, no_pending, SameShape, SameShape-refl, SameShape-trans,
}
use cc_infer.KvBlocks.{evict_until, allocate_kv_blocks}
use cc_infer.KvBlocks.Evictions.{Made, evict_until_total, evictions_for}

abbrev with_pool : Kv → BlockPool → Kv
with_pool s p = record s { pool = p }

-- The blocks `ids` have gained a reference each.
pub record Gained (ids : List ℕ) (s t : Kv) : Type 0 where
  pub inv : KvInv no_pending t
  pub shape : SameShape s t
  pub gained : (j : ℕ) → refs t j ≡ refs s j + count j ids

allocated-KvInv :
    (s : Kv) (id : ℕ) (rest : List ℕ)
    → KvInv no_pending s
    → s.pool.free_list ≡ id ∷ rest
    → KvInv no_pending (with_pool s (allocated s.pool id rest))
allocated-KvInv s id rest v e =
    let f = front_free s.pool id rest v.pool e in
    record {
      pool = allocated-WellFormed s.pool id rest v.pool e;
      keyed = v.keyed;
      ranged = v.ranged;
      used = λ j. ground (arith, v.used j);
      idle = λ j. ground (arith, v.idle j, v.used id, f);
      settled = λ j. ground (arith, v.settled j);
      bucketed = v.bucketed;
      listed = v.listed;
    }

Gained-cons :
    (s : Kv) (id : ℕ) (rest ids : List ℕ) (t : Kv)
    → KvInv no_pending s
    → s.pool.free_list ≡ id ∷ rest
    → Gained ids (with_pool s (allocated s.pool id rest)) t
    → Gained (id ∷ ids) s t
Gained-cons s id rest ids t v e g = record {
  inv = g.inv;
  shape = record { same_max = g.shape.same_max; same_size = g.shape.same_size };
  gained =
      λ j. ground (arith, g.gained j, front_free s.pool id rest v.pool e, v.pool.unreferenced id);
}

Gained-nil : (s : Kv) → KvInv no_pending s → Gained [] s s
Gained-nil s v = record { inv = v; shape = SameShape-refl s; gained = λ j. omega arith }

abbrev with_ids : BlockTable → List ℕ → BlockTable
with_ids table ids = record table { block_ids = table.block_ids ++ ids }

allocate_loop_done :
    (n : ℕ) (table : BlockTable) (free : List ℕ) (s : Kv)
    → s.pool.free_list ≡ free
    → n ≤ length free
    → KvInv no_pending s
    → (p : BlockPool) × (allocate_loop n table s.pool
        ≡ some (done (with_ids table (take n free)), p))
      × Gained (take n free) s (with_pool s p)
      × (p.free_list ≡ drop n free)
unfolding allocate_loop
allocate_loop_done zero table free s e h v = (
  s.pool,
  ap (λ ids. some (done (record table { block_ids = ids }), s.pool))
      (sym (append-nil table.block_ids)),
  Gained-nil s v,
  e,
)
allocate_loop_done (suc n) table [] s e h v = absurd (omega arith)
allocate_loop_done (suc n) table (id ∷ rest) s e h v =
    let (p, run, g, left) =
      allocate_loop_done n (push_back table id) rest (with_pool s (allocated s.pool id rest)) refl
        (omega arith) (allocated-KvInv s id rest v e) in
    (
      p,
      rw (allocate_front s.pool id rest v.pool e, allocate_loop)
          (run
            ∙ ap (λ ids. some (done (record table { block_ids = ids }), p))
                (append_assoc table.block_ids (id ∷ []) (take n rest))),
      Gained-cons s id rest (take n rest) (with_pool s p) v e g,
      left,
    )

allocate_loop_fail :
    (n : ℕ) (table : BlockTable) (free : List ℕ) (s : Kv)
    → s.pool.free_list ≡ free
    → length free < n
    → KvInv no_pending s
    → (p : BlockPool) × (allocate_loop n table s.pool ≡ some (fail ErrorCode.kv_block_exhausted, p))
      × Gained free s (with_pool s p)
      × (p.free_list ≡ [])
unfolding allocate_loop
allocate_loop_fail zero table free s e h v = absurd (omega arith)
allocate_loop_fail (suc n) table [] s e h v =
    (s.pool, rw (allocate_none s.pool e, allocate_loop), Gained-nil s v, e)
allocate_loop_fail (suc n) table (id ∷ rest) s e h v =
    let (p, run, g, left) =
      allocate_loop_fail n (push_back table id) rest (with_pool s (allocated s.pool id rest)) refl
        (omega arith) (allocated-KvInv s id rest v e) in
    (
      p,
      rw (allocate_front s.pool id rest v.pool e, allocate_loop) run,
      Gained-cons s id rest rest (with_pool s p) v e g,
      left,
    )

-- The free blocks, and then the idle ones, least recently idle first: the order in which requests
-- get them.
abbrev pub spare : Kv → List ℕ
spare s = s.pool.free_list ++ s.cache.idle_lru

-- Evictions move blocks inside the spare list.
spare-Made : (k : ℕ) (s t : Kv) → Made k s t → spare t ≡ spare s
spare-Made k s t m =
    rw (m.freed, m.idle_rest)
      (append_assoc s.pool.free_list (take k s.cache.idle_lru) (drop k s.cache.idle_lru)
        ∙ ap (◌++◌ s.pool.free_list) (take-append-drop k s.cache.idle_lru))

length-free-Made :
    (n : ℕ) (s t : Kv)
    → Made (evictions_for n s) s t
    → length t.pool.free_list ≡ length s.pool.free_list + evictions_for n s
length-free-Made n s t m = omega (
  arith,
  ap length m.freed,
  length-append s.pool.free_list (take (evictions_for n s) s.cache.idle_lru),
  length-take (evictions_for n s) s.cache.idle_lru,
)

-- What a request for `n` blocks did that could be served.
pub record Served (n : ℕ) (s t : Kv) (table : BlockTable) : Type 0 where
  pub inv : KvInv no_pending t
  pub shape : SameShape s t
  pub blocks : table.block_ids ≡ take n (spare s)
  pub count_blocks : length table.block_ids ≡ n
  pub gained : (j : ℕ) → refs t j ≡ refs s j + count j table.block_ids
  pub left : spare t ≡ drop n (spare s)

-- What a request for blocks did that failed.
pub record Refused (s t : Kv) : Type 0 where
  pub inv : KvInv no_pending t
  pub shape : SameShape s t
  pub gained : (j : ℕ) → refs t j ≡ refs s j + count j (spare s)
  pub left : spare t ≡ []

allocate_kv_blocks_runs :
    (n : ℕ) (s t : Kv)
    → 0 < n
    → evict_until (length s.cache.idle_lru + 1) n s ≡ some t
    → allocate_kv_blocks n s
      ≡ (allocate_loop n empty_table t.pool >>= λ r. some (r.0, record t { pool = r.1 }))
unfolding allocate_kv_blocks allocate_blocks
allocate_kv_blocks_runs n s t pos evict = rw (==_ne n 0 (omega arith), evict, lt→ltb 0 n pos)

-- From a state with the invariant, a request for one block or more that the free and the idle
-- blocks together can cover is served: it gets the first ones, free before idle and least recently
-- idle first, with one reference each; no other block changes its references, the rest stays spare
-- in the same order, and the invariant holds.
pub allocate_kv_blocks_enough :
    (n : ℕ) (s : Kv)
    → KvInv no_pending s
    → 0 < n
    → n ≤ length (spare s)
    → (t : Kv) × (table : BlockTable) × (allocate_kv_blocks n s ≡ some (done table, t))
      × Served n s t table
allocate_kv_blocks_enough n s v pos enough =
    let (u, evict, made) = evict_until_total (length s.cache.idle_lru + 1) n s v (omega arith) in
    let fits : n ≤ length u.pool.free_list =
      omega (arith, length-free-Made n s u made, length-append s.pool.free_list s.cache.idle_lru) in
    let (p, run, g, left) =
      allocate_loop_done n empty_table u.pool.free_list u refl fits made.inv in
    let chosen : take n u.pool.free_list ≡ take n (spare s) =
      sym (take_append n u.pool.free_list u.cache.idle_lru fits)
      ∙ ap (take n) (spare-Made (evictions_for n s) s u made) in
    (
      with_pool u p,
      with_ids empty_table (take n u.pool.free_list),
      allocate_kv_blocks_runs n s u pos evict ∙ rw run,
      record {
        inv = g.inv;
        shape = SameShape-trans made.shape g.shape;
        blocks = chosen;
        count_blocks = omega (arith, length-take n u.pool.free_list);
        gained = λ j. omega (arith, g.gained j, made.same_refs j);
        left =
            ap (λ l. l ++ u.cache.idle_lru) left
            ∙ sym (drop_append n u.pool.free_list u.cache.idle_lru fits)
            ∙ ap (drop n) (spare-Made (evictions_for n s) s u made);
      },
    )

-- From a state with the invariant, a request for more blocks than are free or idle fails with
-- KVBlockExhausted and returns no table, but each free or idle block has gained a reference, and
-- none is free or idle any more; the invariant holds.
pub allocate_kv_blocks_leaks :
    (n : ℕ) (s : Kv)
    → KvInv no_pending s
    → length (spare s) < n
    → (t : Kv) × (allocate_kv_blocks n s ≡ some (fail ErrorCode.kv_block_exhausted, t))
      × Refused s t
allocate_kv_blocks_leaks n s v short =
    let (u, evict, made) = evict_until_total (length s.cache.idle_lru + 1) n s v (omega arith) in
    let total = length-append s.pool.free_list s.cache.idle_lru in
    let all : u.pool.free_list ≡ spare s =
      made.freed
      ∙ ap (◌++◌ s.pool.free_list)
          (take_all (evictions_for n s) s.cache.idle_lru (omega (arith, total))) in
    let none_idle : u.cache.idle_lru ≡ [] =
      made.idle_rest ∙ drop_all (evictions_for n s) s.cache.idle_lru (omega (arith, total)) in
    let (p, run, g, left) =
      allocate_loop_fail n empty_table u.pool.free_list u refl (omega (arith, ap length all))
        made.inv in
    (
      with_pool u p,
      allocate_kv_blocks_runs n s u (omega arith) evict ∙ rw run,
      record {
        inv = g.inv;
        shape = SameShape-trans made.shape g.shape;
        gained = λ j. omega (arith, g.gained j, made.same_refs j, ap (count j) all);
        left = ap₂ ◌++◌ left none_idle;
      },
    )
