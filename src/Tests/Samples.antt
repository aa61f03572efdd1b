-- ===== src/Tests/Samples.antt =====
-- Sample states: a pool of four blocks of two tokens. Block 0 is cached and idle, block 1 is cached
-- behind it and held once, blocks 2 and 3 are free; the one running request holds block 1.
use native.Mathlib.Omega.{arith}
use cc_infer.Base.{ℕ, refl, [], ◌∷◌, true, false, none, some, ◌==◌, if◌then◌else◌}
use cc_infer.Base.Int.{pos, negsuc}
use cc_infer.BlockPool.{BlockPool, Block, ndebug, free, in_use}
use cc_infer.BlockCache.{Kv, BlockCache, BlockCacheEntry}
use cc_infer.BlockCache.Invariant.{KvInv, no_pending}
use cc_infer.PrefixCache.{Tokens}
use cc_infer.Types.{active, SamplingParams}
use cc_infer.Scheduler.{
  Scheduler, RequestState, SequenceSchedulingState, Limits, decoding, no_reservation,
  BatchBuildContext,
}
use cc_infer.Scheduler.Safety.{Safe}

abbrev pub first_tokens : Tokens
first_tokens = pos 7 ∷ pos 8 ∷ []

abbrev pub next_tokens : Tokens
next_tokens = pos 9 ∷ pos 10 ∷ []

-- The chain hashes of the two blocks of tokens.
abbrev pub first_hash : ℕ
first_hash = 14813675350809534008

abbrev pub next_hash : ℕ
next_hash = 5217400152000372368

abbrev pub sample_block : ℕ → Block
sample_block id = record {
  id = id;
  ref_count = if id == 1 then 1 else 0;
  status = if id == 0 then in_use else if id == 1 then in_use else free;
}

abbrev pub sample_pool : BlockPool
sample_pool = record {
  blocks = sample_block;
  free_list = 2 ∷ 3 ∷ [];
  max_blocks = 4;
  block_size = 2;
}

abbrev pub first_entry : BlockCacheEntry
first_entry = record { prefix_hash = first_hash; block_id = 0 }

abbrev pub next_entry : BlockCacheEntry
next_entry = record { prefix_hash = next_hash; block_id = 1 }

abbrev pub sample_cache : BlockCache
sample_cache = record {
  entries = first_entry ∷ next_entry ∷ [];
  idle_lru = 0 ∷ [];
  by_hash = λ h. if h == first_hash then 0 ∷ [] else if h == next_hash then 1 ∷ [] else [];
  by_block = λ id. if id == 0 then some first_entry else if id == 1 then some next_entry else none;
  lookup_hits = 0;
  lookup_misses = 0;
  evictions = 0;
}

abbrev pub sample_kv : Kv
sample_kv = record { pool = sample_pool; cache = sample_cache }

pub sample_kv-KvInv : KvInv no_pending sample_kv
sample_kv-KvInv = record {
  pool = record {
    linked = λ id. ground arith;
    unreferenced = λ id h. ground arith;
    own_id = λ id. refl;
    outside = λ id h. ground arith;
  };
  keyed = λ id e h. ground arith;
  ranged = λ id h. ground arith;
  used = λ id h. ground arith;
  idle = λ id. ground arith;
  settled = λ id r u z p. ground arith;
  bucketed = λ h id. ground arith;
  listed = λ id. ground arith;
}

-- The same with block 2 given out.
abbrev pub held_kv : Kv
held_kv = record sample_kv {
  pool = record sample_pool {
    blocks = λ id.
        if id == 2 then record { id = 2; ref_count = 1; status = in_use } else sample_block id;
    free_list = 3 ∷ [];
  };
}

pub held_kv-KvInv : KvInv no_pending held_kv
held_kv-KvInv = record {
  pool = record {
    linked = λ id. ground arith;
    unreferenced = λ id h. ground arith;
    own_id = λ id. ground arith;
    outside = λ id h. ground arith;
  };
  keyed = λ id e h. ground arith;
  ranged = λ id h. ground arith;
  used = λ id h. ground arith;
  idle = λ id. ground arith;
  settled = λ id r u z p. ground arith;
  bucketed = λ h id. ground arith;
  listed = λ id. ground arith;
}

abbrev pub sample_sampling : SamplingParams
sample_sampling = record {
  max_tokens = 8;
  top_k = 0;
  top_p_bits = 0;
  temperature_bits = 0;
  seed = 42;
  eos_token_id = negsuc 0;
}

-- The sequence has three tokens in its context, the last of them generated.
abbrev pub sample_sequence : SequenceSchedulingState
sample_sequence = record {
  seq_id = 5;
  reservation = no_reservation;
  cursor = record { phase = decoding; prefill_cursor = 2; generated_tokens_in_prompt = 0 };
  block_table = record { block_ids = 1 ∷ []; shared_count = 0 };
  executed_frontier = 2;
  parent_hash = next_hash;
  pending_hash_tokens = [];
}

abbrev pub sample_request : RequestState
sample_request = record {
  request_id = 1;
  initial_prompt_tokens = next_tokens;
  prompt_tokens = next_tokens;
  status = active;
  generated_tokens = pos 11 ∷ [];
  sampling = sample_sampling;
  max_context_len = 8;
  sink = 1;
  scheduling = some sample_sequence;
}

-- A request that waits for its first admission.
abbrev pub waiting_request : RequestState
waiting_request = record sample_request {
  request_id = 2;
  prompt_tokens = first_tokens;
  initial_prompt_tokens = first_tokens;
  generated_tokens = [];
  scheduling = none;
}

abbrev pub sample_limits : Limits
sample_limits = record {
  max_sequences = 4;
  max_running_requests = 2;
  max_pending_requests = 4;
  max_token_budget = 16;
  max_seq_prefill_tokens = 8;
  default_max_context_len = 8;
}

abbrev pub sample_scheduler : Scheduler
sample_scheduler = record {
  limits = sample_limits;
  build = ndebug;
  heap = λ p. if p == 0 then sample_request else waiting_request;
  next_ptr = 2;
  requests = λ id. if id == 1 then some 0 else if id == 2 then some 1 else none;
  waiting = 1 ∷ [];
  skip = [];
  running = 0 ∷ [];
  by_seq_id = λ q. if q == 5 then some 0 else none;
  admission_paused = false;
  block_shortage_pending = false;
  accepting = true;
  next_batch_id = 1;
  next_seq_id = 6;
  kv = sample_kv;
  shutdown_requested = false;
  shutdown_done_sent = false;
  expired = λ sink. false;
  events = [];
  released_sequences = [];
}

pub sample_scheduler-Safe : Safe sample_scheduler
sample_scheduler-Safe = record {
  backed = record { inv = sample_kv-KvInv; sized = omega arith; covered = λ j. ground arith };
  once = λ p. ground arith;
  placed = λ p h. ground arith;
  prompted = λ p h. ground arith;
  release_build = refl;
}

abbrev pub sample_context : BatchBuildContext
sample_context = record {
  batch = record { batch_id = 1; items = []; sampling = sample_sampling };
  token_budget = 16;
  sampling_set = false;
}
