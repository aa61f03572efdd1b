-- ===== src/KvBlocks/Release.antt =====
-- src/scheduler/scheduler.cpp, `release_request_blocks`: the references of a table are given back,
-- and the blocks that lose their last one become idle or free.
use cc_infer.Base.{
  ℕ, ◌+◌, ◌-◌, ◌≤◌, ◌<◌, ◌≡◌, ◌≢◌, refl, subst, ◌∙◌, fun_ext, List, [], ◌∷◌, ◌++◌, Bool, true,
  false, ◌&&◌, ◌||◌, not, some, ◌==◌, arith, count, elem, count-append, update, Bool-cases, inl,
  inr, count_of_elem,
}
use cc_infer.BlockTable.{BlockTable}
use cc_infer.BlockPool.{
  BlockPool, free, is_free, release_request, release_ids, release_blocks, recycle, ref_count,
}
use cc_infer.BlockPool.Invariant.{referenced}
use cc_infer.BlockCache.{Kv, contains, mark_idle}
use cc_infer.BlockCache.Invariant.{
  KvInv, refs, no_pending, SameShape, SameShape-refl, SameShape-trans,
}
use cc_infer.KvBlocks.{settle, settle_ids, release_request_blocks}

abbrev with_pool : Kv → BlockPool → Kv
with_pool s p = record s { pool = p }

-- The pending blocks may be named in another way.
KvInv-pending : {p q : ℕ → Bool} (s : Kv) → ((j : ℕ) → p j ≡ q j) → KvInv p s → KvInv q s
KvInv-pending s h v = subst (λ r. KvInv r s) (fun_ext h) v

abbrev released : ℕ → BlockPool → BlockPool
released id p = record p {
  blocks = update p.blocks id (record (p.blocks id) { ref_count = (p.blocks id).ref_count - 1 });
}

release_request-eq :
    (id : ℕ) (pending : ℕ → Bool) (s : Kv)
    → KvInv pending s
    → 0 < refs s id
    → release_request id s.pool ≡ some (refs s id - 1, released id s.pool)
unfolding release_request
release_request-eq id pending s v pos = ground (arith, referenced s.pool id v.pool pos)

released-KvInv :
    (id : ℕ) (pending : ℕ → Bool) (s : Kv)
    → KvInv pending s
    → 0 < refs s id
    → KvInv (λ j. pending j || (j == id)) (with_pool s (released id s.pool))
released-KvInv id pending s v pos = record {
  pool = record {
    linked = λ j. ground (arith, v.pool.linked j);
    unreferenced = λ j. ground (arith, v.pool.unreferenced j);
    own_id = λ j. ground (arith, v.pool.own_id j);
    outside = λ j. ground (arith, v.pool.outside j);
  };
  keyed = v.keyed;
  ranged = v.ranged;
  used = λ j. ground (arith, v.used j);
  idle = λ j. ground (arith, v.idle j);
  settled = λ j. ground (arith, v.settled j);
  bucketed = v.bucketed;
  listed = v.listed;
}

-- What giving back the references `ids` does, the blocks still pending.
record Dropped (ids : List ℕ) (pending : ℕ → Bool) (s t : Kv) : Type 0 where
  pub inv : KvInv (λ j. pending j || elem j ids) t
  pub shape : SameShape s t
  pub lost : (j : ℕ) → refs s j ≡ refs t j + count j ids
  pub same_status : (j : ℕ) → is_free (t.pool.blocks j) ≡ is_free (s.pool.blocks j)

abbrev Covered : List ℕ → Kv → Type 0
Covered ids s = (j : ℕ) → count j ids ≤ refs s j

release_ids_total :
    (ids : List ℕ) (pending : ℕ → Bool) (s : Kv)
    → KvInv pending s
    → Covered ids s
    → (p : BlockPool) × (release_ids ids s.pool ≡ some p) × Dropped ids pending s (with_pool s p)
unfolding release_ids
release_ids_total [] pending s v c = (
  s.pool,
  refl,
  record {
    inv = KvInv-pending s (λ j. ground arith) v;
    shape = SameShape-refl s;
    lost = λ j. omega arith;
    same_status = λ j. refl;
  },
)
release_ids_total (id ∷ ids) pending s v c =
    let pos : 0 < refs s id = ground (arith, c id) in
    let (p, run, d) =
      release_ids_total ids (λ j. pending j || (j == id)) (with_pool s (released id s.pool))
        (released-KvInv id pending s v pos) (λ j. ground (arith, c j)) in
    (
      p,
      rw (release_request-eq id pending s v pos, release_ids) run,
      record {
        inv = KvInv-pending (with_pool s p) (λ j. ground arith) d.inv;
        shape = record { same_max = d.shape.same_max; same_size = d.shape.same_size };
        lost = λ j. ground (arith, d.lost j);
        same_status = λ j. ground (arith, d.same_status j);
      },
    )

-- What the second loop changes.
record Settled (s t : Kv) : Type 0 where
  pub shape : SameShape s t
  pub same_refs : (j : ℕ) → refs t j ≡ refs s j
  pub same_index : t.cache.by_block ≡ s.cache.by_block

abbrev others_pending : (ℕ → Bool) → ℕ → ℕ → Bool
others_pending pending id j = pending j && not (j == id)

abbrev idled : ℕ → Kv → Kv
idled id s = record s { cache = record (s.cache) { idle_lru = s.cache.idle_lru ++ id ∷ [] } }

abbrev recycled : ℕ → Kv → Kv
recycled id s = record s {
  pool = record (s.pool) {
    blocks = update s.pool.blocks id (record (s.pool.blocks id) { status = free });
    free_list = s.pool.free_list ++ id ∷ [];
  };
}

-- What one round of the second loop does.
abbrev SettleResult : ℕ → (ℕ → Bool) → Kv → Type 0
SettleResult id pending s =
    (t : Kv) × (settle id s ≡ some t)
    × KvInv (others_pending pending id) t
    × Settled s t
    × ((j : ℕ) → j ≢ id → is_free (t.pool.blocks j) ≡ is_free (s.pool.blocks j))

module _ (id : ℕ) (pending : ℕ → Bool) (s : Kv) (v : KvInv pending s) (waits : pending id ≡ true)
    (used : is_free (s.pool.blocks id) ≡ false) (range : id < s.pool.max_blocks) where
  settle_held : 0 < refs s id → SettleResult id pending s
  unfolding settle ref_count
  settle_held pos = (
    s,
    ground arith,
    record {
      pool = v.pool;
      keyed = v.keyed;
      ranged = v.ranged;
      used = v.used;
      idle = λ j. ground (arith, v.idle j);
      settled = λ j. ground (arith, v.settled j);
      bucketed = v.bucketed;
      listed = v.listed;
    },
    record { shape = SameShape-refl s; same_refs = λ j. refl; same_index = refl },
    λ j ne. refl,
  )

  settle_cached : refs s id ≡ 0 → contains id s ≡ true → SettleResult id pending s
  unfolding settle ref_count mark_idle
  settle_cached zero_refs cached = (
    idled id s,
    ground (arith, v.idle id, count_of_elem id s.cache.idle_lru),
    record {
      pool = v.pool;
      keyed = v.keyed;
      ranged = v.ranged;
      used = v.used;
      idle = λ j. ground (arith, v.idle j, count-append j s.cache.idle_lru (id ∷ []));
      settled = λ j. ground (arith, v.settled j);
      bucketed = v.bucketed;
      listed = v.listed;
    },
    record {
      shape = record { same_max = refl; same_size = refl };
      same_refs = λ j. refl;
      same_index = refl;
    },
    λ j ne. refl,
  )

  settle_uncached : refs s id ≡ 0 → contains id s ≡ false → SettleResult id pending s
  unfolding settle ref_count recycle
  settle_uncached zero_refs fresh = (
    recycled id s,
    ground arith,
    record {
      pool = record {
        linked = λ j. ground (arith, v.pool.linked j, count-append j s.pool.free_list (id ∷ []));
        unreferenced = λ j. ground (arith, v.pool.unreferenced j);
        own_id = λ j. ground (arith, v.pool.own_id j);
        outside = λ j. ground (arith, v.pool.outside j);
      };
      keyed = v.keyed;
      ranged = v.ranged;
      used = λ j. ground (arith, v.used j);
      idle = λ j. ground (arith, v.idle j);
      settled = λ j. ground (arith, v.settled j);
      bucketed = v.bucketed;
      listed = v.listed;
    },
    record {
      shape = record { same_max = refl; same_size = refl };
      same_refs = λ j. ground arith;
      same_index = refl;
    },
    λ j ne. ground arith,
  )

  settle_total : SettleResult id pending s
  settle_total = elim (Bool-cases (refs s id == 0)) [
    | inr held ↦ settle_held (ground arith)
    | inl zero_refs ↦ elim (Bool-cases (contains id s)) [
      | inl cached ↦ settle_cached (ground arith) cached
      | inr fresh ↦ settle_uncached (ground arith) fresh
    ]
  ]

-- The blocks of the rest of the table that the second loop has yet to meet.
abbrev unsettled : List ℕ → List ℕ → ℕ → Bool
unsettled ids seen j = elem j ids && not (elem j seen)

abbrev InUse : (ℕ → Bool) → Kv → Type 0
InUse pending s =
    (j : ℕ) → pending j ≡ true → (is_free (s.pool.blocks j) ≡ false) × (j < s.pool.max_blocks)

settle_ids_total :
    (ids seen : List ℕ) (s : Kv)
    → KvInv (unsettled ids seen) s
    → InUse (unsettled ids seen) s
    → (t : Kv) × (settle_ids ids seen s ≡ some t) × KvInv no_pending t × Settled s t
unfolding settle_ids
settle_ids_total [] seen s v u =
    (s, refl, v, record { shape = SameShape-refl s; same_refs = λ j. refl; same_index = refl })
settle_ids_total (id ∷ ids) seen s v u = elim (Bool-cases (elem id seen)) [
  | inl old ↦
      let (t, run, w, changes) =
        settle_ids_total ids seen s (KvInv-pending s (λ j. ground arith) v)
          (λ j. ground (arith, u j)) in
      (t, rw (old, settle_ids) run, w, changes)
  | inr new ↦
      let (t, run, w, first, status) =
        settle_total id (unsettled (id ∷ ids) seen) s v (ground arith) (u id (ground arith)).0
          (u id (ground arith)).1 in
      let (t', run', w', later) =
        settle_ids_total ids (id ∷ seen) t (KvInv-pending t (λ j. ground arith) w)
          (λ j. ground (arith, u j, status j, first.shape.same_max)) in
      (
        t',
        rw (new, settle_ids) (rw run run'),
        w',
        record {
          shape = SameShape-trans first.shape later.shape;
          same_refs = λ j. later.same_refs j ∙ first.same_refs j;
          same_index = later.same_index ∙ first.same_index;
        },
      )
]

-- What releasing the references `ids` does.
pub record Released (ids : List ℕ) (s t : Kv) : Type 0 where
  pub inv : KvInv no_pending t
  pub shape : SameShape s t
  pub lost : (j : ℕ) → refs s j ≡ refs t j + count j ids
  pub same_index : t.cache.by_block ≡ s.cache.by_block

-- From a state with the invariant, and when the references of the table are there to give back,
-- releasing them succeeds: each block loses as many references as it stands in the table, the cache
-- index stays, and the invariant holds, so that the blocks without references are idle if they are
-- cached and free if not.
pub release_request_blocks_total :
    (table : BlockTable) (s : Kv)
    → KvInv no_pending s
    → ((j : ℕ) → count j table.block_ids ≤ refs s j)
    → (t : Kv) × (release_request_blocks table s ≡ some t) × Released table.block_ids s t
unfolding release_request_blocks release_blocks
release_request_blocks_total table s v c =
    let (p, run, d) = release_ids_total table.block_ids no_pending s v c in
    let (t, run', w, changes) =
      settle_ids_total table.block_ids [] (with_pool s p)
        (KvInv-pending (with_pool s p) (λ j. ground arith) d.inv)
        (λ j h. ground (
          arith,
          c j,
          count_of_elem j table.block_ids,
          referenced s.pool j v.pool,
          d.same_status j,
          d.shape.same_max,
        )) in
    (
      t,
      rw run run',
      record {
        inv = w;
        shape = SameShape-trans d.shape changes.shape;
        lost = λ j. omega (arith, d.lost j, changes.same_refs j);
        same_index = changes.same_index;
      },
    )
