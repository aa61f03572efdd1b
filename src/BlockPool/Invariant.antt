-- ===== src/BlockPool/Invariant.antt =====
-- src/block/block_pool.cpp: the well-formedness of a pool, and that each operation keeps it.
use cc_infer.Base.{
  ℕ, zero, suc, ◌+◌, ◌*◌, ◌≤◌, ◌<◌, ◌≡◌, refl, ap, List, [], ◌∷◌, true, false, ◌&&◌, some, ltb, leb,
  if◌then◌else◌, arith, count, length, update,
}
use cc_infer.Base.Int.{pos}
use cc_infer.Errors.{ErrorCode, done, fail}
use cc_infer.BlockPool.{
  BlockPool, free, in_use, is_free, allocate, init, link_blocks, int_max, num_free_blocks,
}

-- A block is linked once if it is free, and not at all otherwise.
abbrev pub links : BlockPool → ℕ → ℕ
links p id = if ltb id p.max_blocks && is_free (p.blocks id) then 1 else 0

pub record WellFormed (p : BlockPool) : Type 0 where
  pub linked : (id : ℕ) → count id p.free_list ≡ links p id
  pub unreferenced : (id : ℕ) → is_free (p.blocks id) ≡ true → (p.blocks id).ref_count ≡ 0
  pub own_id : (id : ℕ) → (p.blocks id).id ≡ id
  pub outside : (id : ℕ) → p.max_blocks ≤ id → is_free (p.blocks id) ≡ true

-- A block with references is in use and in range.
pub referenced :
    (p : BlockPool) (id : ℕ)
    → WellFormed p
    → 0 < (p.blocks id).ref_count
    → (is_free (p.blocks id) ≡ false) × (id < p.max_blocks)
referenced p id w h = ground (arith, w.unreferenced id, w.outside id)

count-link_blocks :
    (n i id : ℕ) → count id (link_blocks n i) ≡ (if leb i id && ltb id (i + n) then 1 else 0)
unfolding link_blocks
count-link_blocks zero i id = ground arith
count-link_blocks (suc n) i id = ground (arith, count-link_blocks n (suc i) id)

length-link_blocks : (n i : ℕ) → length (link_blocks n i) ≡ n
unfolding link_blocks
length-link_blocks zero i = refl
length-link_blocks (suc n) i = ap suc (length-link_blocks n (suc i))

-- A pool is made for positive sizes whose product fits an `int`; it is well formed, and every
-- block is free.
pub init-WellFormed :
    (max_blocks block_size : ℕ)
    → 0 < max_blocks
    → 0 < block_size
    → max_blocks * block_size ≤ int_max
    → (p : BlockPool) × (init (pos max_blocks) (pos block_size) ≡ done p)
      × WellFormed p
      × (num_free_blocks p ≡ max_blocks)
      × (p.max_blocks ≡ max_blocks)
      × (p.block_size ≡ block_size)
      × ((id : ℕ) → is_free (p.blocks id) ≡ true)
unfolding init num_free_blocks
init-WellFormed max_blocks block_size m b h = (
  record {
    blocks = λ i. record { id = i; ref_count = 0; status = free };
    free_list = link_blocks max_blocks 0;
    max_blocks = max_blocks;
    block_size = block_size;
  },
  ground arith,
  record {
    linked = λ id. ground (arith, count-link_blocks max_blocks 0 id);
    unreferenced = λ id h. refl;
    own_id = λ id. refl;
    outside = λ id h. refl;
  },
  length-link_blocks max_blocks 0,
  refl,
  refl,
  λ id. refl,
)

-- The pool after its first free block is given out.
abbrev pub allocated : BlockPool → ℕ → List ℕ → BlockPool
allocated p id rest = record p {
  blocks = update p.blocks id (record (p.blocks id) { ref_count = 1; status = in_use });
  free_list = rest;
}

pub front_free :
    (p : BlockPool) (id : ℕ) (rest : List ℕ)
    → WellFormed p
    → p.free_list ≡ id ∷ rest
    → (is_free (p.blocks id) ≡ true) × (id < p.max_blocks) × (count id rest ≡ 0)
front_free p id rest w h = ground (arith, w.linked id, ap (count id) h)

pub allocate_front :
    (p : BlockPool) (id : ℕ) (rest : List ℕ)
    → WellFormed p
    → p.free_list ≡ id ∷ rest
    → allocate p ≡ some (done id, allocated p id rest)
unfolding allocate
allocate_front p id rest w h =
    rw h (ground (arith, front_free p id rest w h, w.unreferenced id, w.own_id id))

pub allocate_none :
    (p : BlockPool) → p.free_list ≡ [] → allocate p ≡ some (fail ErrorCode.kv_block_exhausted, p)
unfolding allocate
allocate_none p h = rw h

pub allocated-WellFormed :
    (p : BlockPool) (id : ℕ) (rest : List ℕ)
    → WellFormed p
    → p.free_list ≡ id ∷ rest
    → WellFormed (allocated p id rest)
allocated-WellFormed p id rest w h = record {
  linked = λ j. ground (arith, w.linked j, ap (count j) h, front_free p id rest w h);
  unreferenced = λ j. ground (arith, w.unreferenced j);
  own_id = λ j. ground (arith, w.own_id j);
  outside = λ j. ground (arith, w.outside j, front_free p id rest w h);
}
