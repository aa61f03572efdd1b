-- ===== src/Tokenizer/Bpe.antt =====
-- src/tokenizer/byte_level_bpe_tokenizer.cpp, `apply_bpe`: adjacent symbols are merged, best rank
-- first. The loop has as much fuel as there are symbols, since each round merges some.
pub mod Normal
use cc_infer.Base.{
  ℕ, zero, suc, ◌+◌, ◌-◌, ◌^◌, List, [], ◌∷◌, ◌++◌, Bool, true, false, ◌&&◌, Option, none, some,
  ltb, ◌==◌, length, if◌then◌else◌,
}
use cc_infer.Base.Dict.{Dict, Key, find, list_key, pair_key}

-- Symbols are lists of bytes.
abbrev pub Symbols : Type 0
Symbols = List (List ℕ)

abbrev pub Ranks : Type 0
Ranks = Dict (List ℕ × List ℕ) ℕ

abbrev pub rank_of : Ranks → List ℕ → List ℕ → Option ℕ
rank_of ranks a b = find (a, b) ranks

-- The best rank so far and its position.
pub record Best : Type 0 where
  pub rank : ℕ
  pub at : ℕ

-- The pair at position `i` with its rank.
unfoldable pub better : Option ℕ → ℕ → Best → Best
better none i best = best
better (some r) i best = if ltb r best.rank then record { rank = r; at = i } else best

-- The inner loop from position `i` on.
unfoldable pub best_pair : Ranks → ℕ → Symbols → Best → Best
unfolding better
best_pair ranks i [] best = best
best_pair ranks i (a ∷ []) best = best
best_pair ranks i (a ∷ b ∷ rest) best =
    best_pair ranks (i + 1) (b ∷ rest) (better (rank_of ranks a b) i best)

abbrev pub has_rank : ℕ → Option ℕ → Bool
has_rank r none = false
has_rank r (some q) = q == r

-- All pairs of rank `r`, from left to right, become one symbol each.
unfoldable pub merge_all : Ranks → ℕ → Symbols → Symbols
merge_all ranks r [] = []
merge_all ranks r (a ∷ []) = a ∷ []
merge_all ranks r (a ∷ b ∷ rest) = elim (has_rank r (rank_of ranks a b)) [
  | true ↦ (a ++ b) ∷ merge_all ranks r rest
  | false ↦ a ∷ merge_all ranks r (b ∷ rest)
]

abbrev pub rank_max : ℕ
rank_max = 2 ^ 31 - 1

abbrev pub best_of : Ranks → Symbols → Best
best_of ranks symbols = best_pair ranks 0 symbols (record { rank = rank_max; at = length symbols })

unfoldable pub bpe_loop : Ranks → ℕ → Symbols → Symbols
unfolding best_pair merge_all
bpe_loop ranks zero symbols = symbols
bpe_loop ranks (suc fuel) symbols =
    let best = best_of ranks symbols in
    elim (ltb (length symbols) 2) [
      | true ↦ symbols
      | false ↦ elim (best.at == length symbols) [
        | true ↦ symbols
        | false ↦ bpe_loop ranks fuel (merge_all ranks best.rank symbols)
      ]
    ]

unfoldable pub apply_bpe : Ranks → Symbols → Symbols
unfolding bpe_loop
apply_bpe ranks symbols = bpe_loop ranks (length symbols) symbols
