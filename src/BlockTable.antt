-- ===== src/BlockTable.antt =====
-- src/block/block_table.h: the logical table of KV blocks of one sequence.
use cc_infer.Base.{ℕ, ◌*◌, List, [], ◌∷◌, ◌++◌, Bool, Option, length, get_elem?, is_empty}

pub record BlockTable : Type 0 where
  pub block_ids : List ℕ
  pub shared_count : ℕ

abbrev pub empty_table : BlockTable
empty_table = record { block_ids = []; shared_count = 0 }

abbrev pub push_back : BlockTable → ℕ → BlockTable
push_back t id = record t { block_ids = t.block_ids ++ id ∷ [] }

abbrev pub set_shared_count : BlockTable → ℕ → BlockTable
set_shared_count t n = record t { shared_count = n }

-- `none` is a read past the end.
abbrev pub at : BlockTable → ℕ → Option ℕ
at t i = get_elem? t.block_ids i

abbrev pub size : BlockTable → ℕ
size t = length t.block_ids

abbrev pub empty : BlockTable → Bool
empty t = is_empty t.block_ids

abbrev pub clear : BlockTable → BlockTable
clear t = record { block_ids = []; shared_count = 0 }

abbrev pub token_capacity : BlockTable → ℕ → ℕ
token_capacity t block_size = size t * block_size
