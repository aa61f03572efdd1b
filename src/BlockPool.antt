-- ===== src/BlockPool.antt =====
-- src/block/block.h, src/block/block_pool.h, src/block/block_pool.cpp: the pool of KV blocks.
--
-- The metadata array is a function from an id, read only below `max_blocks`; the intrusive free
-- list is the list of the ids that are linked into it. The mutex makes each operation atomic, so
-- an operation is one state transformer. `none` is a failed assertion.
pub mod Invariant
use cc_infer.Base.{
  ℕ, zero, suc, ◌+◌, ◌-◌, ◌*◌, ◌^◌, ◌≡◌, List, [], ◌∷◌, ◌++◌, Bool, true, false, ◌&&◌, ◌||◌, Option,
  none, some, ltb, leb, ◌==◌, if◌then◌else◌, assert, ◌>>=◌, length, update,
}
use cc_infer.Base.Int.{ℤ, pos, pos_part, lez}
use cc_infer.Errors.{ErrorCode, Result, done, fail}
use cc_infer.BlockTable.{BlockTable, empty_table, push_back}

pub data BlockStatus : Type 0 where
  free in_use : BlockStatus

pub record Block : Type 0 where
  pub id : ℕ
  pub ref_count : ℕ
  pub status : BlockStatus

abbrev pub is_free_status : BlockStatus → Bool
is_free_status free = true
is_free_status in_use = false

abbrev pub is_free : Block → Bool
is_free b = is_free_status b.status

abbrev pub is_in_use_status : BlockStatus → Bool
is_in_use_status free = false
is_in_use_status in_use = true

abbrev pub is_in_use : Block → Bool
is_in_use b = is_in_use_status b.status

pub record BlockPool : Type 0 where
  pub blocks : ℕ → Block
  pub free_list : List ℕ
  pub max_blocks : ℕ
  pub block_size : ℕ

-- The loop of `init` that makes and links the blocks `i`, ..., `i + n - 1`.
pub link_blocks : ℕ → ℕ → List ℕ
link_blocks zero i = []
link_blocks (suc n) i = i ∷ link_blocks n (suc i)

abbrev pub int_max : ℕ
int_max = 2 ^ 31 - 1

init_checked : ℕ → ℕ → Result BlockPool
init_checked max_blocks block_size =
    if ltb int_max (max_blocks * block_size)
    then fail ErrorCode.invalid_argument
    else done (record {
      blocks = λ i. record { id = i; ref_count = 0; status = free };
      free_list = link_blocks max_blocks 0;
      max_blocks = max_blocks;
      block_size = block_size;
    })

-- On a pool that is not initialised yet.
unfoldable pub init : ℤ → ℤ → Result BlockPool
unfolding init_checked
init max_blocks block_size =
    if lez max_blocks (pos 0) || lez block_size (pos 0)
    then fail ErrorCode.invalid_argument
    else init_checked (pos_part max_blocks) (pos_part block_size)

-- `allocate` when the free list is `linked`.
abbrev allocate_from : BlockPool → List ℕ → Option (Result ℕ × BlockPool)
allocate_from p [] = some (fail ErrorCode.kv_block_exhausted, p)
allocate_from p (front ∷ rest) =
    let block = p.blocks front in
    assert (is_free block && (block.ref_count == 0)) (
      some (
        done block.id,
        record p {
          blocks = update p.blocks front (record block { ref_count = 1; status = in_use });
          free_list = rest;
        },
      ))

unfoldable pub allocate : BlockPool → Option (Result ℕ × BlockPool)
allocate p = allocate_from p p.free_list

-- The loop of `allocate_blocks`. On failure the blocks pushed so far are dropped with the table.
unfoldable pub allocate_loop : ℕ → BlockTable → BlockPool → Option (Result BlockTable × BlockPool)
allocate_loop zero table p = some (done table, p)
allocate_loop (suc n) table p = elim (allocate p) [
  | none ↦ none
  | some (fail e, p') ↦ some (fail e, p')
  | some (done id, p') ↦ allocate_loop n (push_back table id) p'
]

unfoldable pub allocate_blocks : ℕ → BlockPool → Option (Result BlockTable × BlockPool)
unfolding allocate_loop
allocate_blocks num_blocks p = assert (ltb 0 num_blocks) (allocate_loop num_blocks empty_table p)

abbrev pub in_range : BlockPool → ℕ → Bool
in_range p id = ltb id p.max_blocks

abbrev pub set_block : BlockPool → ℕ → Block → BlockPool
set_block p id block = record p { blocks = update p.blocks id block }

-- Whether `assert` is compiled in. It is, unless `NDEBUG` is defined. The build matters in
-- `retain_request` alone: everywhere else the assertions are proved to hold.
pub data Build : Type 0 where
  checked ndebug : Build

abbrev is_retainable : Build → Block → Bool
is_retainable checked block = is_in_use block && ltb 0 block.ref_count
is_retainable ndebug block = true

unfoldable pub retain_request : Build → ℕ → BlockPool → Option BlockPool
retain_request build id p =
    let block = p.blocks id in
    assert (in_range p id && is_retainable build block)
      (some (set_block p id (record block { ref_count = block.ref_count + 1 })))

-- The remaining references, and the pool.
unfoldable pub release_request : ℕ → BlockPool → Option (ℕ × BlockPool)
release_request id p =
    let block = p.blocks id in
    assert (in_range p id && (is_in_use block && ltb 0 block.ref_count)) (
      some (block.ref_count - 1, set_block p id (record block { ref_count = block.ref_count - 1 })))

-- `release_blocks` on the ids of the table that are left.
unfoldable pub release_ids : List ℕ → BlockPool → Option BlockPool
release_ids [] p = some p
release_ids (id ∷ ids) p = release_request id p >>= λ r. release_ids ids r.1

unfoldable pub release_blocks : BlockTable → BlockPool → Option BlockPool
unfolding release_ids
release_blocks table p = release_ids table.block_ids p

unfoldable pub recycle : ℕ → BlockPool → Option BlockPool
recycle id p =
    let block = p.blocks id in
    assert (in_range p id && (is_in_use block && (block.ref_count == 0))) (
      some (record p {
        blocks = update p.blocks id (record block { status = free });
        free_list = p.free_list ++ id ∷ [];
      }))

unfoldable pub ref_count : ℕ → BlockPool → Option ℕ
ref_count id p = assert (in_range p id) (some (p.blocks id).ref_count)

unfoldable pub num_free_blocks : BlockPool → ℕ
num_free_blocks p = length p.free_list
