-- ===== src/Tokenizer/Bpe/Normal.antt =====
-- src/tokenizer/byte_level_bpe_tokenizer.cpp, `apply_bpe`: what its result is.
use cc_infer.Base.{
  ℕ, zero, suc, ◌+◌, ◌≤◌, ◌<◌, ◌≡◌, refl, ap, ◌∙◌, List, [], ◌∷◌, ◌++◌, append_assoc, Option, none,
  some, ltb, ltb→lt, ◌==◌, ==_self, ==_ne, length, inl, inr, Bool-cases, arith,
}
use cc_infer.Tokenizer.Bpe.{
  Symbols, Ranks, rank_of, Best, better, best_pair, has_rank, merge_all, rank_max, best_of,
  bpe_loop, apply_bpe,
}

-- The text of the symbols.
abbrev pub flat : Symbols → List ℕ
flat [] = []
flat (s ∷ rest) = s ++ flat rest

-- Two adjacent symbols have rank `r`.
pub data HasPair (ranks : Ranks) (r : ℕ) : Symbols → Type 0 where
  here :
      {a b : List ℕ} {rest : Symbols} → rank_of ranks a b ≡ some r → HasPair ranks r (a ∷ b ∷ rest)
  there :
      {a b : List ℕ} {rest : Symbols} → HasPair ranks r (b ∷ rest) → HasPair ranks r (a ∷ b ∷ rest)

abbrev pub AtLeast : ℕ → Option ℕ → Type 0
AtLeast bound o = (r : ℕ) → o ≡ some r → bound ≤ r

-- No two adjacent symbols have a rank below the bound.
pub data NoPair (ranks : Ranks) (bound : ℕ) : Symbols → Type 0 where
  nothing : NoPair ranks bound []
  single : {a : List ℕ} → NoPair ranks bound (a ∷ [])
  pair :
      {a b : List ℕ} {rest : Symbols}
      → AtLeast bound (rank_of ranks a b)
      → NoPair ranks bound (b ∷ rest)
      → NoPair ranks bound (a ∷ b ∷ rest)

data Chosen (ranks : Ranks) (i : ℕ) (s : Symbols) (before after : Best) : Type 0 where
  kept : after ≡ before → NoPair ranks before.rank s → Chosen ranks i s before after
  improved : HasPair ranks after.rank s → after.at < i + length s → Chosen ranks i s before after

data Bettered (o : Option ℕ) (i : ℕ) (before after : Best) : Type 0 where
  same : after ≡ before → AtLeast before.rank o → Bettered o i before after
  lower : o ≡ some after.rank → after.at ≡ i → Bettered o i before after

better-Bettered : (o : Option ℕ) (i : ℕ) (best : Best) → Bettered o i best (better o i best)
unfolding better
better-Bettered none i best = same refl λ r e. absurd cc
better-Bettered (some q) i best = elim (Bool-cases (ltb q best.rank)) [
  | inl lt ↦ lower (rw lt) (rw lt)
  | inr ge ↦ same (rw ge) λ r e. ground (arith, ge, e)
]

best_pair-Chosen :
    (ranks : Ranks) (i : ℕ) (s : Symbols) (best : Best)
    → Chosen ranks i s best (best_pair ranks i s best)
unfolding best_pair
best_pair-Chosen ranks i [] best = kept refl nothing
best_pair-Chosen ranks i (a ∷ []) best = kept refl single
best_pair-Chosen ranks i (a ∷ b ∷ rest) best =
    elim (best_pair-Chosen ranks (i + 1) (b ∷ rest) (better (rank_of ranks a b) i best)) [
      | improved has lt ↦ improved (there has) (omega (arith, lt))
      | kept e none_left ↦ elim (better-Bettered (rank_of ranks a b) i best) [
        | same e' ge ↦ kept (e ∙ e') (pair ge (rw (← e') none_left))
        | lower found at ↦ improved (rw e (here found)) (rw e (omega (arith, at)))
      ]
    ]

flat-merge_all : (ranks : Ranks) (r : ℕ) (s : Symbols) → flat (merge_all ranks r s) ≡ flat s
unfolding merge_all
flat-merge_all ranks r [] = refl
flat-merge_all ranks r (a ∷ []) = refl
flat-merge_all ranks r (a ∷ b ∷ rest) = elim (Bool-cases (has_rank r (rank_of ranks a b))) [
  | inl merged ↦
      rw (merge_all, merged) (rw (flat-merge_all ranks r rest) (append_assoc a b (flat rest)))
  | inr apart ↦ rw (merge_all, apart) (ap (◌++◌ a) (flat-merge_all ranks r (b ∷ rest)))
]

length-merge_all : (ranks : Ranks) (r : ℕ) (s : Symbols) → length (merge_all ranks r s) ≤ length s
unfolding merge_all
length-merge_all ranks r [] = omega arith
length-merge_all ranks r (a ∷ []) = omega arith
length-merge_all ranks r (a ∷ b ∷ rest) = elim (Bool-cases (has_rank r (rank_of ranks a b))) [
  | inl merged ↦ rw (merge_all, merged) (omega (arith, length-merge_all ranks r rest))
  | inr apart ↦ rw (merge_all, apart) (omega (arith, length-merge_all ranks r (b ∷ rest)))
]

merge_all-shorter :
    (ranks : Ranks) (r : ℕ) (s : Symbols)
    → HasPair ranks r s
    → length (merge_all ranks r s) < length s
unfolding merge_all
merge_all-shorter ranks r [] has = elim has [ ]
merge_all-shorter ranks r (a ∷ []) has = elim has [ ]
merge_all-shorter ranks r (a ∷ b ∷ rest) (here e) =
    rw (merge_all, e, ==_self r) (omega (arith, length-merge_all ranks r rest))
merge_all-shorter ranks r (a ∷ b ∷ rest) (there has) =
    elim (Bool-cases (has_rank r (rank_of ranks a b))) [
      | inl merged ↦ rw (merge_all, merged) (omega (arith, length-merge_all ranks r rest))
      | inr apart ↦ rw (merge_all, apart) (omega (arith, merge_all-shorter ranks r (b ∷ rest) has))
    ]

short-NoPair : (ranks : Ranks) (bound : ℕ) (s : Symbols) → length s < 2 → NoPair ranks bound s
short-NoPair ranks bound [] h = nothing
short-NoPair ranks bound (a ∷ []) h = single
short-NoPair ranks bound (a ∷ b ∷ rest) h = absurd (omega arith)

flat-bpe_loop : (ranks : Ranks) (fuel : ℕ) (s : Symbols) → flat (bpe_loop ranks fuel s) ≡ flat s
unfolding bpe_loop
flat-bpe_loop ranks zero s = refl
flat-bpe_loop ranks (suc fuel) s = elim (Bool-cases (ltb (length s) 2)) [
  | inl few ↦ rw (bpe_loop, few) refl
  | inr many ↦ elim (Bool-cases ((best_of ranks s).at == length s)) [
    | inl over ↦ rw (bpe_loop, many, over) refl
    | inr more ↦ rw (bpe_loop, many, more) (flat-bpe_loop ranks fuel _ ∙ flat-merge_all ranks _ s)
  ]
]

bpe_loop-NoPair :
    (ranks : Ranks) (fuel : ℕ) (s : Symbols)
    → length s ≤ fuel
    → NoPair ranks rank_max (bpe_loop ranks fuel s)
unfolding bpe_loop
bpe_loop-NoPair ranks zero s h = short-NoPair ranks rank_max s (omega arith)
bpe_loop-NoPair ranks (suc fuel) s h = elim (Bool-cases (ltb (length s) 2)) [
  | inl few ↦ rw (bpe_loop, few) (short-NoPair ranks rank_max s (ltb→lt _ _ few))
  | inr many ↦ elim (best_pair-Chosen ranks 0 s (record { rank = rank_max; at = length s })) [
    | kept e none_left ↦ rw (bpe_loop, many, e, ==_self (length s)) none_left
    | improved has lt ↦
        rw (bpe_loop, many, ==_ne (best_of ranks s).at (length s) (omega (arith, lt)))
          (bpe_loop-NoPair ranks fuel _ (omega (arith, h, merge_all-shorter ranks _ s has)))
  ]
]

pub flat-apply_bpe : (ranks : Ranks) (s : Symbols) → flat (apply_bpe ranks s) ≡ flat s
unfolding apply_bpe
flat-apply_bpe ranks s = flat-bpe_loop ranks (length s) s

-- The result of the merges spells the same text as the symbols, and no two adjacent symbols of it
-- have a rank below the largest 32-bit number, so the fuel was enough for all merges.
pub apply_bpe-NoPair :
    (ranks : Ranks) (s : Symbols)
    → (flat (apply_bpe ranks s) ≡ flat s) × NoPair ranks rank_max (apply_bpe ranks s)
unfolding apply_bpe
apply_bpe-NoPair ranks s =
    (flat-apply_bpe ranks s, bpe_loop-NoPair ranks (length s) s (omega arith))
