-- ===== src/Types.antt =====
-- src/base/types.h: the data that the scheduler, the executor and the HTTP server share.
--
-- A token is an integer as in PrefixCache; counts and lengths, `int` in the code, are numbers. The
-- two floats of the sampling parameters are bit patterns that nothing here reads. A sink is the
-- number of its channel.
use cc_infer.Base.{ℕ, List, Bool, Option}
use cc_infer.Base.Int.{ℤ}
use cc_infer.PrefixCache.{Tokens}
use cc_infer.BlockTable.{BlockTable}

pub data WorkKind : Type 0 where
  prefill_chunk decode_one_token : WorkKind

pub data RequestStatus : Type 0 where
  active finished cancelled failed : RequestStatus

pub record TokenSpan : Type 0 where
  pub start : ℕ
  pub length : ℕ

pub record PrefillChunk : Type 0 where
  pub seq_id : ℕ
  pub prompt_span : TokenSpan
  pub expected_context_len : Option ℕ
  pub needs_sample : Bool
  pub tokens : Tokens
  pub block_table : BlockTable

pub record DecodeOneToken : Type 0 where
  pub seq_id : ℕ
  pub input_token : ℤ
  pub expected_context_len : Option ℕ
  pub write_kv : Bool
  pub late_bind : Bool
  pub block_table : BlockTable

pub data WorkItem : Type 0 where
  prefill : PrefillChunk → WorkItem
  decode : DecodeOneToken → WorkItem

abbrev pub work_sequence_id : WorkItem → ℕ
work_sequence_id (prefill w) = w.seq_id
work_sequence_id (decode w) = w.seq_id

abbrev pub work_kind : WorkItem → WorkKind
work_kind (prefill w) = prefill_chunk
work_kind (decode w) = decode_one_token

abbrev pub work_token_count : WorkItem → ℕ
work_token_count (prefill w) = w.prompt_span.length
work_token_count (decode w) = 1

pub record SamplingParams : Type 0 where
  pub max_tokens : ℕ
  pub top_k : ℕ
  pub top_p_bits : ℕ
  pub temperature_bits : ℕ
  pub seed : ℕ
  pub eos_token_id : ℤ

pub record ScheduledBatch : Type 0 where
  pub batch_id : ℕ
  pub items : List WorkItem
  pub sampling : SamplingParams

pub record WorkItemResult : Type 0 where
  pub item_index : ℕ
  pub seq_id : ℕ
  pub kind : WorkKind
  pub sampled_tokens : Tokens
  pub tokens_consumed : ℕ
  pub eos : Bool
  pub stale : Bool

pub record BatchResult : Type 0 where
  pub batch_id : ℕ
  pub items : List WorkItemResult

pub record GeneratedToken : Type 0 where
  pub token_id : ℤ
  pub has_token : Bool
  pub finished : Bool

pub record SchedulerRequest : Type 0 where
  pub request_id : ℕ
  pub prompt_tokens : Tokens
  pub sampling : SamplingParams
  pub max_context_len : ℕ
  pub sink : ℕ

pub record Capacity : Type 0 where
  pub max_sequences : ℕ
  pub active_sequences : ℕ
  pub free_blocks : ℕ
  pub max_blocks : ℕ
  pub block_size : ℕ
  pub block_active : ℕ
  pub block_cached_idle : ℕ
  pub prefix_lookup_hits : ℕ
  pub prefix_lookup_misses : ℕ
  pub prefix_evictions : ℕ
  pub prefix_cached_blocks : ℕ
