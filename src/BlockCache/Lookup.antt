-- ===== src/BlockCache/Lookup.antt =====
-- src/cache/block_cache.cpp, `lookup_prefix_cache`: the longest run of cached prefix blocks.
use cc_infer.Base.{
  ℕ, ◌+◌, ◌<◌, ◌≡◌, refl, sym, ap, ◌∙◌, List, [], ◌∷◌, ◌++◌, true, not, none, some, ◌==◌, ◌>>=◌,
  arith, count, length, take, append_assoc, is_empty, append-nil, lt→ltb, elem_of_count, ◌/◌,
  Bool-cases, inl, inr, subst,
}
use native.Mathlib.Nat.{zero-add}
use cc_infer.BlockPool.{Build, checked, ndebug}
use cc_infer.PrefixCache.{Tokens, seeded}
use cc_infer.PrefixCache.Chain.{last_hash, chain, chain_hashes-eq-chain}
use cc_infer.BlockCache.{
  Kv, contains, hit, PrefixLookup, empty_lookup, extend_lookup, lookup_loop, lookup_prefix_cache,
  note_miss, with_shared_count,
}
use cc_infer.BlockCache.Invariant.{
  KvInv, refs, no_pending, hit_result, hit-eq, hit_result-KvInv, bucket_front, SameShape,
  SameShape-refl,
}

-- The front blocks of the buckets, up to the first empty one.
unfoldable pub prefix_blocks : (ℕ → List ℕ) → List ℕ → List ℕ
prefix_blocks buckets [] = []
prefix_blocks buckets (h ∷ hashes) = elim (buckets h) [
  | [] ↦ []
  | id ∷ rest ↦ id ∷ prefix_blocks buckets hashes
]

-- What a lookup that started from `r` and found `blocks` returns.
pub record Found (buckets : ℕ → List ℕ) (hashes : List ℕ) (r r' : PrefixLookup) : Type 0 where
  pub blocks : r'.block_table.block_ids ≡ r.block_table.block_ids ++ prefix_blocks buckets hashes
  pub hits : r'.prefix_hit_blocks ≡ r.prefix_hit_blocks + length (prefix_blocks buckets hashes)
  pub parent :
      r'.parent_hash ≡ last_hash r.parent_hash (take (length (prefix_blocks buckets hashes)) hashes)

-- What a lookup does to the state: the found blocks gain a reference each.
pub record Looked (found : List ℕ) (s t : Kv) : Type 0 where
  pub inv : KvInv no_pending t
  pub shape : SameShape s t
  pub gained : (id : ℕ) → refs t id ≡ refs s id + count id found
  pub same_free : t.pool.free_list ≡ s.pool.free_list
  pub same_index : t.cache.by_block ≡ s.cache.by_block

note_miss-KvInv : (s : Kv) → KvInv no_pending s → KvInv no_pending (note_miss s)
note_miss-KvInv s v = record {
  pool = v.pool;
  keyed = v.keyed;
  ranged = v.ranged;
  used = v.used;
  idle = v.idle;
  settled = v.settled;
  bucketed = v.bucketed;
  listed = v.listed;
}

abbrev LoopResult : List ℕ → PrefixLookup → Kv → Type 0
LoopResult hashes r s =
    (r' : PrefixLookup) × (t : Kv) × (lookup_loop ndebug hashes r s ≡ some (r', t))
    × Found s.cache.by_hash hashes r r'
    × Looked (prefix_blocks s.cache.by_hash hashes) s t

lookup_loop_bucket :
    (h : ℕ) (hashes bucket : List ℕ) (r : PrefixLookup) (s : Kv)
    → s.cache.by_hash h ≡ bucket
    → KvInv no_pending s
    → ((id : ℕ) → contains id s ≡ true → LoopResult hashes (extend_lookup r id h) (hit_result id s))
    → LoopResult (h ∷ hashes) r s
unfolding lookup_loop prefix_blocks last_hash
lookup_loop_bucket h hashes [] r s e v next = (
  r,
  note_miss s,
  rw (e, lookup_loop),
  record {
    blocks = rw (e, prefix_blocks) (sym (append-nil r.block_table.block_ids));
    hits = rw (e, prefix_blocks) (omega arith);
    parent = rw (e, prefix_blocks);
  },
  record {
    inv = note_miss-KvInv s v;
    shape = record { same_max = refl; same_size = refl };
    gained = λ id. rw (e, prefix_blocks) (omega arith);
    same_free = refl;
    same_index = refl;
  },
)
lookup_loop_bucket h hashes (id ∷ rest) r s e v next =
    let cached = bucket_front s h id rest v e in
    let (r', t, run, found, looked) = next id cached in
    (
      r',
      t,
      rw (e, lookup_loop) (rw (hit-eq id s v cached) run),
      record {
        blocks =
            rw (e, prefix_blocks) (found.blocks ∙ append_assoc r.block_table.block_ids (id ∷ []) _);
        hits = rw (e, prefix_blocks) (omega (arith, found.hits));
        parent = rw (e, prefix_blocks) (found.parent);
      },
      record {
        inv = looked.inv;
        shape = record { same_max = looked.shape.same_max; same_size = looked.shape.same_size };
        gained = λ j. rw (e, prefix_blocks) (ground (arith, looked.gained j));
        same_free = looked.same_free;
        same_index = looked.same_index;
      },
    )

-- In a build without assertions the loop runs to the first empty bucket.
lookup_loop_total :
    (hashes : List ℕ) (r : PrefixLookup) (s : Kv) → KvInv no_pending s → LoopResult hashes r s
unfolding lookup_loop prefix_blocks last_hash
lookup_loop_total [] r s v = (
  r,
  s,
  refl,
  record { blocks = sym (append-nil r.block_table.block_ids); hits = omega arith; parent = refl },
  record {
    inv = v;
    shape = SameShape-refl s;
    gained = λ id. omega arith;
    same_free = refl;
    same_index = refl;
  },
)
lookup_loop_total (h ∷ hashes) r s v =
    lookup_loop_bucket h hashes (s.cache.by_hash h) r s refl v λ id cached.
      lookup_loop_total hashes (extend_lookup r id h) (hit_result id s)
        (hit_result-KvInv id s v cached)

-- The hashes of the full blocks of the tokens.
abbrev pub lookup_hashes : Tokens → ℕ → Kv → List ℕ
lookup_hashes tokens salt s =
    chain s.pool.block_size (length tokens / s.pool.block_size) tokens (seeded 0 salt)

abbrev pub lookup_blocks : Tokens → ℕ → Kv → List ℕ
lookup_blocks tokens salt s = prefix_blocks s.cache.by_hash (lookup_hashes tokens salt s)

not-is_empty : (tokens : Tokens) → 0 < length tokens → not (is_empty tokens) ≡ true
not-is_empty [] h = absurd (omega arith)
not-is_empty (t ∷ tokens) h = refl

lookup_runs :
    (build : Build) (tokens : Tokens) (salt : ℕ) (s : Kv)
    → 0 < length tokens
    → 0 < s.pool.block_size
    → lookup_prefix_cache build tokens salt s ≡ (
        lookup_loop build (lookup_hashes tokens salt s) empty_lookup s >>= λ r.
        some (with_shared_count r.0, r.1))
unfolding lookup_prefix_cache
lookup_runs build tokens salt s pos size = rw (
  not-is_empty tokens pos,
  lt→ltb 0 s.pool.block_size size,
  chain_hashes-eq-chain tokens s.pool.block_size salt size,
)

-- In a build without assertions, from a state with the invariant and a positive block size, the
-- lookup of a non-empty prompt succeeds and finds the longest run of leading full blocks whose
-- hashes are cached. The table holds the block at the front of the bucket of each hash, all of them
-- counted as shared; each gains one reference, the free list and the index by block stay, and the
-- invariant holds. The returned hash is that of the last block found.
pub lookup_prefix_cache_longest :
    (tokens : Tokens) (salt : ℕ) (s : Kv)
    → KvInv no_pending s
    → 0 < length tokens
    → 0 < s.pool.block_size
    → (r : PrefixLookup) × (t : Kv) × (lookup_prefix_cache ndebug tokens salt s ≡ some (r, t))
      × (r.block_table.block_ids ≡ lookup_blocks tokens salt s)
      × (r.block_table.shared_count ≡ r.prefix_hit_blocks)
      × (r.prefix_hit_blocks ≡ length (lookup_blocks tokens salt s))
      × (r.parent_hash ≡ last_hash 0 (take r.prefix_hit_blocks (lookup_hashes tokens salt s)))
      × Looked (lookup_blocks tokens salt s) s t
lookup_prefix_cache_longest tokens salt s v pos size =
    let (r, t, run, found, looked) =
      lookup_loop_total (lookup_hashes tokens salt s) empty_lookup s v in
    (
      with_shared_count r,
      t,
      lookup_runs ndebug tokens salt s pos size ∙ rw run,
      found.blocks,
      refl,
      found.hits ∙ zero-add _,
      found.parent
          ∙ ap (λ n. last_hash 0 (take n (lookup_hashes tokens salt s))) {y = r.prefix_hit_blocks}
              (sym (found.hits ∙ zero-add _)),
      looked,
    )

hit_checked_active :
    (id : ℕ) (s : Kv)
    → KvInv no_pending s
    → contains id s ≡ true
    → 0 < refs s id
    → hit checked id s ≡ some (hit_result id s)
unfolding hit
hit_checked_active id s v c pos = ground (arith, v.ranged id c, v.used id c)

hit_checked_idle :
    (id : ℕ) (s : Kv)
    → KvInv no_pending s
    → contains id s ≡ true
    → refs s id ≡ 0
    → hit checked id s ≡ none
unfolding hit
hit_checked_idle id s v c zero_refs =
    ground (arith, v.ranged id c, v.idle id, elem_of_count id s.cache.idle_lru)

lookup_checked_bucket :
    (h : ℕ) (hashes bucket : List ℕ) (r : PrefixLookup) (s : Kv) (id : ℕ)
    → s.cache.by_hash h ≡ bucket
    → KvInv no_pending s
    → 0 < count id (prefix_blocks s.cache.by_hash (h ∷ hashes))
    → refs s id ≡ 0
    → ((front : ℕ)
        → contains front s ≡ true
        → 0 < count id (prefix_blocks s.cache.by_hash hashes)
        → refs (hit_result front s) id ≡ 0
        → lookup_loop checked hashes (extend_lookup r front h) (hit_result front s) ≡ none)
    → lookup_loop checked (h ∷ hashes) r s ≡ none
unfolding lookup_loop prefix_blocks
lookup_checked_bucket h hashes [] r s id e v found idle next = absurd (
    omega (
      arith,
      subst
          (λ b.
            0 < count id (elim b [ [] ↦ [] | i ∷ _ ↦ i ∷ prefix_blocks s.cache.by_hash hashes ]))
          e found,
    ))
lookup_checked_bucket h hashes (front ∷ rest) r s id e v found idle next =
    let cached = bucket_front s h front rest v e in
    let found' : 0 < count id (front ∷ prefix_blocks s.cache.by_hash hashes) =
      subst
        (λ b. 0 < count id (elim b [ [] ↦ [] | i ∷ _ ↦ i ∷ prefix_blocks s.cache.by_hash hashes ]))
        e found in
    elim (Bool-cases (refs s front == 0)) [
      | inl z ↦ rw (e, lookup_loop) (rw (hit_checked_idle front s v cached (ground arith)))
      | inr nz ↦
          rw (e, lookup_loop)
            (rw (hit_checked_active front s v cached (ground arith))
              (next front cached (ground arith) (ground arith)))
    ]

lookup_loop_checked :
    (hashes : List ℕ) (r : PrefixLookup) (s : Kv) (id : ℕ)
    → KvInv no_pending s
    → 0 < count id (prefix_blocks s.cache.by_hash hashes)
    → refs s id ≡ 0
    → lookup_loop checked hashes r s ≡ none
unfolding prefix_blocks
lookup_loop_checked [] r s id v found idle = absurd (omega arith)
lookup_loop_checked (h ∷ hashes) r s id v found idle =
    lookup_checked_bucket h hashes (s.cache.by_hash h) r s id refl v found idle
      λ front cached found' idle'.
        lookup_loop_checked hashes (extend_lookup r front h) (hit_result front s) id
          (hit_result-KvInv front s v cached) found' idle'

-- With assertions compiled in, from a state with the invariant and a positive block size, the
-- lookup of a non-empty prompt fails an assertion when the run of cached blocks that it goes along
-- has a block without references in it.
pub lookup_prefix_cache_idle_asserts :
    (tokens : Tokens) (salt : ℕ) (s : Kv) (id : ℕ)
    → KvInv no_pending s
    → 0 < length tokens
    → 0 < s.pool.block_size
    → 0 < count id (lookup_blocks tokens salt s)
    → refs s id ≡ 0
    → lookup_prefix_cache checked tokens salt s ≡ none
lookup_prefix_cache_idle_asserts tokens salt s id v pos size found idle =
    lookup_runs checked tokens salt s pos size
    ∙ rw (lookup_loop_checked (lookup_hashes tokens salt s) empty_lookup s id v found idle)
