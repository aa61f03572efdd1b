-- ===== src/Config/Startup.antt =====
-- src/config/engine_config.cpp and the constructor of src/scheduler/scheduler.cpp: a configuration
-- that is accepted makes a scheduler.
use mathlib.Core.Path.{ap₂}
use cc_infer.Base.{
  ℕ, ◌*◌, ◌≤◌, ◌<◌, ◌≡◌, refl, ◌∙◌, Bool, true, false, none, some, arith, Bool-cases, inl, inr,
}
use cc_infer.Base.Int.{ℤ, pos, negsuc, pos_part, ltz}
use cc_infer.Errors.{done}
use cc_infer.BlockPool.{is_free, BlockPool, ndebug, int_max, init, num_free_blocks}
use cc_infer.BlockPool.Invariant.{WellFormed, init-WellFormed}
use cc_infer.BlockCache.{empty_cache}
use cc_infer.BlockCache.Invariant.{KvInv, no_pending}
use cc_infer.Config.{
  EngineConfig, in_ranges, context_capacity, validate, scheduler_over, new_scheduler,
}
use cc_infer.Scheduler.{Scheduler, RequestState, has_scheduling}
use cc_infer.Scheduler.Safety.{Safe}

-- What an accepted configuration says.
record Accepted (c : EngineConfig) : Type 0 where
  pub blocks : c.max_blocks ≡ pos (pos_part c.max_blocks)
  pub block_size : c.kv_block_size ≡ pos (pos_part c.kv_block_size)
  pub some_blocks : 0 < pos_part c.max_blocks
  pub some_size : 0 < pos_part c.kv_block_size
  pub fits_int : context_capacity c ≤ int_max
  pub default_fits : pos_part c.default_max_context_len ≤ context_capacity c

is_pos : (z : ℤ) → ltz (pos 0) z ≡ true → z ≡ pos (pos_part z)
is_pos (pos n) h = refl
is_pos (negsuc n) h = absurd cc

some_part : (z : ℤ) → ltz (pos 0) z ≡ true → 0 < pos_part z
some_part (pos n) h = ground arith
some_part (negsuc n) h = absurd cc

positive_sizes :
    (c : EngineConfig)
    → in_ranges c ≡ true
    → (ltz (pos 0) c.max_blocks ≡ true) × (ltz (pos 0) c.kv_block_size ≡ true)
unfolding in_ranges
positive_sizes c h = ground arith

validate-Accepted : (c : EngineConfig) → validate c ≡ none → Accepted c
unfolding validate
validate-Accepted c h = elim (Bool-cases (in_ranges c)) [
  | inr out ↦ absurd (ground (arith, h, out))
  | inl ok ↦
      let (blocks, size) = positive_sizes c ok in
      record {
        blocks = is_pos c.max_blocks blocks;
        block_size = is_pos c.kv_block_size size;
        some_blocks = some_part c.max_blocks blocks;
        some_size = some_part c.kv_block_size size;
        fits_int = ground (arith, h, ok);
        default_fits = ground (arith, h, ok);
      }
]

fresh-KvInv :
    (pool : BlockPool)
    → WellFormed pool
    → ((id : ℕ) → is_free (pool.blocks id) ≡ true)
    → KvInv no_pending (record { pool = pool; cache = empty_cache })
fresh-KvInv pool w all_free = record {
  pool = w;
  keyed = λ id e h. absurd cc;
  ranged = λ id h. absurd cc;
  used = λ id h. absurd cc;
  idle = λ id. refl;
  settled = λ id r u z p. ground (arith, all_free id);
  bucketed = λ h id. refl;
  listed = λ id. refl;
}

fresh-Safe :
    (c : EngineConfig) (blank : RequestState) (expired : ℕ → Bool) (pool : BlockPool)
    → KvInv no_pending (record { pool = pool; cache = empty_cache })
    → 0 < pool.block_size
    → has_scheduling blank ≡ false
    → Safe (scheduler_over ndebug c blank expired pool)
fresh-Safe c blank expired pool v size idle = record {
  backed = record { inv = v; sized = size; covered = λ j. omega arith };
  once = λ p. omega arith;
  placed = λ p h. ground (arith, idle, h);
  prompted = λ p h. ground (arith, idle, h);
  release_build = refl;
}

new_scheduler_runs :
    (c : EngineConfig) (blank : RequestState) (expired : ℕ → Bool) (pool : BlockPool)
    → init c.max_blocks c.kv_block_size ≡ done pool
    → new_scheduler ndebug c blank expired ≡ some (scheduler_over ndebug c blank expired pool)
unfolding new_scheduler
new_scheduler_runs c blank expired pool run = rw (run, new_scheduler)

-- A configuration that `validate` accepts makes a scheduler: the pool can be initialised, so that
-- the assertion of the constructor holds. In a build without assertions the new scheduler is safe,
-- it has every block of the configuration free, and the default context fits the pool.
pub new_scheduler-validate :
    (c : EngineConfig) (blank : RequestState) (expired : ℕ → Bool)
    → validate c ≡ none
    → has_scheduling blank ≡ false
    → (s : Scheduler) × (new_scheduler ndebug c blank expired ≡ some s)
      × Safe s
      × (num_free_blocks s.kv.pool ≡ pos_part c.max_blocks)
      × (pos_part c.default_max_context_len ≤ s.kv.pool.max_blocks * s.kv.pool.block_size)
new_scheduler-validate c blank expired ok idle =
    let a = validate-Accepted c ok in
    let (pool, run, w, all, same_max, same_size, all_free) =
      init-WellFormed (pos_part c.max_blocks) (pos_part c.kv_block_size) a.some_blocks a.some_size
        a.fits_int in
    (
      scheduler_over ndebug c blank expired pool,
      new_scheduler_runs c blank expired pool (ap₂ init a.blocks a.block_size ∙ run),
      fresh-Safe c blank expired pool (fresh-KvInv pool w all_free)
          (omega (arith, same_size, a.some_size)) idle,
      all,
      rw (same_max, same_size) a.default_fits,
    )
