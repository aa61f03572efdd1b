-- ===== src/Lib.antt =====
-- Verification of the core of ccInfer, a server for large language models.
--
-- The program. `Scheduler` (src/scheduler/scheduler.cpp) owns the requests: it admits waiting ones,
-- builds the batches that the engine loop (src/engine/engine_core.cpp) hands to the device worker,
-- and retires their results. The KV memory of a request is a table of block ids. `BlockPool`
-- (src/block/block_pool.cpp) owns the reference counts and the free list; `BlockCache`
-- (src/cache/block_cache.cpp) indexes full blocks by the chain hash of their prefix
-- (src/cache/prefix_cache.cpp) and keeps the blocks that no request holds in an LRU list, from which
-- the scheduler evicts when the free list runs short.
--
-- The files.
--   Base            lists, options, tests, 64-bit arithmetic, dictionaries.
--   Errors, Types   src/base/error.h, src/base/types.h.
--   Attempt         results of code that reserves memory, which may throw.
--   BlockTable      src/block/block_table.h.
--   BlockPool       src/block/block.h, block_pool.h, block_pool.cpp; Invariant: well-formedness.
--   PrefixCache     src/cache/prefix_cache.cpp; Chain: the hashes as a recursion on blocks.
--   BlockCache      src/cache/block_cache.h, block_cache.cpp; the state `Kv` is the cache with its
--                   pool. Invariant: the joint invariant; Lookup, Evict, Publish: its operations.
--   KvBlocks        `allocate_kv_blocks` and `release_request_blocks` of src/scheduler/scheduler.cpp.
--   Scheduler       src/scheduler/scheduler.h, scheduler.cpp: Events (submission, cancellation,
--                   messages), Work (batch building), Wait (suspension, preemption), Admit
--                   (admission, `schedule_step`), Retire (results), Cleanup (terminal requests,
--                   shutdown). Safety: the tables of the requests are backed by references.
--   Config          src/config/engine_config.cpp; Startup: the scheduler of a valid configuration.
--   StatePool       src/state/state.h, state_pool.cpp; Invariant: what holds of the states.
--   StateCache      src/cache/state_cache.h, state_cache.cpp.
--   Tokenizer       src/tokenizer/byte_level_bpe_tokenizer.h, byte_level_bpe_tokenizer.cpp: ByteMap
--                   (`build_byte_maps`), Bpe (`apply_bpe`), Encode, Decode, FromTokens
--                   (`load_from_vocab_and_merges`), FromJson (`load`), FromGguf
--                   (src/tokenizer/gguf_tokenizer.cpp), Create (`create_tokenizer`).
--                   RoundTrip: `encode`, then `decode`.
--   Gguf            src/checkpoint/gguf/reader.h, reader.cpp: Values (`parse_value`), Reader
--                   (`parse`), Tensors and Spans (sizes and places of tensors), Access (lookups);
--                   Bounds, Safety: the reads.
--   Engine          src/engine/engine_core.h, engine_core.cpp: the loop as a step relation; Queue, End:
--                   the batches in flight.
--   Tensor          the checked sizes of src/runtime/tensor.cpp.
--   ModelConfig     src/config/model_config.h, model_config.cpp.
--   GgufConfig      src/checkpoint/gguf/config_loader.cpp; Layers: the sequence of the layers.
--   Tests           sample states, and the theorems at them.
--
-- The model. State is passed explicitly. The requests that the C++ code shares through `RequestPtr`
-- live in a store, `heap`, and the queues hold their addresses, so that a change through one alias
-- is seen through all. A failed assertion is `none`; a `Result` is `Result`. The intrusive lists and
-- the maps from ids are lists of ids and functions. A sink is an identifier, and a message that is
-- sent is appended to `events`; which sinks have expired is part of the state. Token ids are
-- integers, counters that cannot be negative are natural numbers, and hashes and 64-bit counters
-- wrap around at 2 ^ 64. Coroutines of the scheduler never suspend between their state changes, so
-- that each is one function. A scheduling step reads `accepting` as one value, so that a shutdown
-- that another thread requests comes between two steps. A negative `max_tokens`, which the code
-- treats like 0, is 0.
--
-- `release_and_move_to_wait` reads an element of the running list that it has erased. The model
-- ends there, with `dangling` and the state at that point, and the theorems on the steps that may
-- make room say what holds then. No step of the engine loop follows.
--
-- `BlockPool::retain_request` takes whether assertions are compiled in (`Build`), because the code
-- behaves differently there. A safe state (`Safe`) is one of a build without assertions in that one
-- place, whose pool and cache satisfy their invariant, in which the tables of the running and the
-- skipped requests are backed by references and each request stands in one queue at most.
--
-- Fuel. `evict_until` has one more than the idle blocks, and each round takes one of them away;
-- `admit_loop` has one more than the waiting and skipped requests, and each round that goes on takes
-- one of them off its list. Each round of `apply_bpe` merges two symbols, each round of `encode`
-- moves on in the text, and each round of `decode` takes a symbol off the stream.
--
-- `parse` of the GGUF reader has as much fuel as the file has bytes, since each entry takes at least
-- one, and a value two for each byte, since arrays nest. A read outside the file is `none`.
-- Whether the library can reserve a vector of a given length is a parameter, and where it cannot the
-- code throws (`Attempt`).
--
-- Texts and tokens are lists of bytes, the hash maps of the tokenizer are lists of entries, and the
-- positions in a text are numbers. The JSON parser and the content of tokenizer.json are parameters
-- of `load`; the ranks of the merges are natural numbers, since there are fewer than 2 ^ 31 of them.
--
-- Not modelled: the executor and the device worker, the models and their kernels, the weight sources,
-- the Hugging Face files and the HTTP server, which drive the device, third-party code or sockets.
-- What the device storage of the states answers is a parameter of `acquire_active`, of the copies and
-- of `create_checked`.
pub mod Base
pub mod Attempt
pub mod Errors
pub mod BlockTable
pub mod BlockPool
pub mod PrefixCache
pub mod BlockCache
pub mod KvBlocks
pub mod Types
pub mod Scheduler
pub mod Config
pub mod StatePool
pub mod StateCache
pub mod Tokenizer
pub mod Gguf
pub mod Engine
pub mod Tensor
pub mod ModelConfig
pub mod GgufConfig
pub mod Tests
