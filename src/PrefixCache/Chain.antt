-- ===== src/PrefixCache/Chain.antt =====
-- src/cache/prefix_cache.cpp: the chain hashes against a recursion on the blocks of the list.
use native.Mathlib.Nat.{zero-add, suc-add}
use cc_infer.Base.{
  ℕ, zero, suc, ◌+◌, ◌*◌, ◌/◌, ◌≤◌, ◌<◌, ◌≡◌, refl, sym, ap, ◌∙◌, List, [], ◌∷◌, ◌++◌, some, arith,
  length, get_elem?, take, drop, length-drop, length-append, take_append, drop_append, drop_all,
  lt→ltb,
}
use cc_infer.Base.Int.{ℤ, to_u64}
use cc_infer.PrefixCache.{
  Tokens, hash_combine, hash_tokens, hash_blocks, seeded, chain_hashes_from, chain_hashes,
}

-- The hash after a run of tokens.
unfoldable pub fold_hash : ℕ → Tokens → ℕ
fold_hash h [] = h
fold_hash h (t ∷ ts) = fold_hash (hash_combine h (to_u64 t)) ts

-- The hashes of the first `n` blocks.
unfoldable pub chain : ℕ → ℕ → Tokens → ℕ → List ℕ
chain block_size zero tokens h = []
chain block_size (suc n) tokens h =
    fold_hash h (take block_size tokens)
    ∷ chain block_size n (drop block_size tokens) (fold_hash h (take block_size tokens))

-- The last hash of a chain, or the hash that it started from.
unfoldable pub last_hash : ℕ → List ℕ → ℕ
last_hash h [] = h
last_hash h (x ∷ xs) = last_hash x xs

get_elem?-drop :
    (i : ℕ) (xs : Tokens)
    → i < length xs
    → (t : ℤ) × (get_elem? xs i ≡ some t) × (drop i xs ≡ t ∷ drop (suc i) xs)
get_elem?-drop i [] h = elim h [ ]
get_elem?-drop zero (x ∷ xs) h = (x, refl, refl)
get_elem?-drop (suc i) (x ∷ xs) h = get_elem?-drop i xs (omega arith)

drop-nil : (n : ℕ) → drop {A = ℤ} n [] ≡ []
drop-nil zero = refl
drop-nil (suc n) = refl

drop-drop : (m n : ℕ) (xs : Tokens) → drop m (drop n xs) ≡ drop (n + m) xs
drop-drop m zero xs = ap (λ k. drop k xs) (omega arith)
drop-drop m (suc n) [] = drop-nil m ∙ sym (drop-nil (suc n + m))
drop-drop m (suc n) (x ∷ xs) =
    drop-drop m n xs ∙ ap (λ k. drop k (x ∷ xs)) {x = suc (n + m)} (omega arith)

hash_tokens-eq-fold :
    (n i : ℕ) (tokens : Tokens) (h : ℕ)
    → i + n ≤ length tokens
    → hash_tokens n i tokens h ≡ some (fold_hash h (take n (drop i tokens)))
unfolding hash_tokens fold_hash
hash_tokens-eq-fold zero i tokens h le = refl
hash_tokens-eq-fold (suc n) i tokens h le =
    let (t, found, rest) = get_elem?-drop i tokens (omega arith) in
    rw (found, rest)
      (hash_tokens-eq-fold n (suc i) tokens (hash_combine h (to_u64 t)) (omega arith))

-- The second loop, from block `b` on.
hash_blocks-eq-chain :
    (n b block_size : ℕ) (tokens : Tokens) (h : ℕ)
    → (b + n) * block_size ≤ length tokens
    → hash_blocks n b block_size tokens h
      ≡ some (chain block_size n (drop (b * block_size) tokens) h)
unfolding hash_blocks chain
hash_blocks-eq-chain zero b block_size tokens h le = refl
hash_blocks-eq-chain (suc n) b block_size tokens h le =
    let here = drop (b * block_size) tokens in
    rw
      (
        hash_tokens-eq-fold block_size (b * block_size) tokens h (grind arith),
        hash_blocks-eq-chain n (suc b) block_size tokens (fold_hash h (take block_size here))
            (grind arith),
        drop-drop block_size (b * block_size) tokens,
      )
      (ap
        (λ k. some (
          fold_hash h (take block_size here)
          ∷ chain block_size n (drop k tokens) (fold_hash h (take block_size here))))
        {x = suc b * block_size} (omega arith))

-- With a positive block size and at least the counted tokens at hand, the indexed loops give the
-- hashes of the recursion on blocks, one for each full block, and fail no assertion.
pub chain_hashes_from-eq-chain :
    (tokens : Tokens) (token_count block_size parent seed : ℕ)
    → 0 < block_size
    → token_count ≤ length tokens
    → chain_hashes_from tokens token_count block_size parent seed
      ≡ some (chain block_size (token_count / block_size) tokens (seeded parent seed))
unfolding chain_hashes_from
chain_hashes_from-eq-chain tokens token_count block_size parent seed pos le =
    rw (lt→ltb 0 block_size pos) (
      hash_blocks-eq-chain (token_count / block_size) 0 block_size tokens (seeded parent seed)
        (grind arith)
      ∙ ap
          (λ k.
            some (chain block_size (token_count / block_size) (drop k tokens) (seeded parent seed)))
          {x = 0 * block_size} {y = 0} (omega arith))

pub chain_hashes-eq-chain :
    (tokens : Tokens) (block_size seed : ℕ)
    → 0 < block_size
    → chain_hashes tokens block_size seed
      ≡ some (chain block_size (length tokens / block_size) tokens (seeded 0 seed))
unfolding chain_hashes
chain_hashes-eq-chain tokens block_size seed pos =
    chain_hashes_from-eq-chain tokens (length tokens) block_size 0 seed pos (omega arith)

-- One block has one hash.
pub chain_hashes_from_one :
    (tokens : Tokens) (block_size parent seed : ℕ)
    → 0 < block_size
    → block_size ≤ length tokens
    → chain_hashes_from tokens block_size block_size parent seed
      ≡ some (fold_hash (seeded parent seed) (take block_size tokens) ∷ [])
unfolding chain
chain_hashes_from_one tokens block_size parent seed pos le =
    chain_hashes_from-eq-chain tokens block_size block_size parent seed pos le
    ∙ ap (λ k. some (chain block_size k tokens (seeded parent seed))) {x = block_size / block_size}
        {y = 1} (div_self block_size pos)
  where
    div_self : (n : ℕ) → 0 < n → n / n ≡ 1
    div_self n h = grind arith

pub length-chain :
    (n block_size : ℕ) (tokens : Tokens) (h : ℕ) → length (chain block_size n tokens h) ≡ n
unfolding chain
length-chain zero block_size tokens h = refl
length-chain (suc n) block_size tokens h =
    ap suc
      (length-chain n block_size (drop block_size tokens) (fold_hash h (take block_size tokens)))

-- The blocks of a prefix hash the same whatever follows.
pub chain-append :
    (n block_size : ℕ) (xs ys : Tokens) (h : ℕ)
    → n * block_size ≤ length xs
    → chain block_size n (xs ++ ys) h ≡ chain block_size n xs h
unfolding chain
chain-append zero block_size xs ys h le = refl
chain-append (suc n) block_size xs ys h le =
    rw (take_append block_size xs ys (grind arith), drop_append block_size xs ys (grind arith))
      (ap (◌∷◌ (fold_hash h (take block_size xs))) (
        chain-append n block_size (drop block_size xs) ys (fold_hash h (take block_size xs))
          (grind (arith, length-drop block_size xs))))

-- A longer chain goes on from the last hash of a shorter one.
pub chain-add :
    (n m block_size : ℕ) (xs : Tokens) (h : ℕ)
    → chain block_size (n + m) xs h
      ≡ chain block_size n xs h
        ++ chain block_size m (drop (n * block_size) xs) (last_hash h (chain block_size n xs h))
unfolding chain last_hash
chain-add zero m block_size xs h =
    rw zero-add (ap (λ k. chain block_size m (drop k xs) h) {x = 0} (omega arith))
chain-add (suc n) m block_size xs h = rw suc-add (
    ap (◌∷◌ here) (
      chain-add n m block_size (drop block_size xs) here
      ∙ ap (λ ys. chain block_size n (drop block_size xs) here ++ chain block_size m ys after)
          (drop-drop (n * block_size) block_size xs
            ∙ ap (λ k. drop k xs) {x = block_size + n * block_size} (omega arith))))
  where
    here : ℕ
    here = fold_hash h (take block_size xs)

    after : ℕ
    after = last_hash here (chain block_size n (drop block_size xs) here)

-- Of whole blocks.
chain_hashes_from_blocks :
    (n block_size : ℕ) (xs : Tokens) (count parent : ℕ)
    → 0 < block_size
    → length xs ≡ n * block_size
    → count ≡ length xs
    → chain_hashes_from xs count block_size parent 0 ≡ some (chain block_size n xs parent)
chain_hashes_from_blocks n block_size xs count parent pos len all =
    chain_hashes_from-eq-chain xs count block_size parent 0 pos (omega arith)
    ∙ ap (λ k. some (chain block_size k xs parent)) {x = count / block_size}
        (rw (all, len) (grind arith))

chain_append_block :
    (n block_size : ℕ) (xs block : Tokens)
    → length xs ≡ n * block_size
    → length block ≡ block_size
    → chain block_size (n + 1) (xs ++ block) 0
      ≡ chain block_size n xs 0 ++ chain block_size 1 block (last_hash 0 (chain block_size n xs 0))
chain_append_block n block_size xs block len one =
    chain-add n 1 block_size (xs ++ block) 0
    ∙ rw (
      chain-append n block_size xs block 0 (omega arith),
      drop_append (n * block_size) xs block (omega arith),
      drop_all (n * block_size) xs (omega arith),
    )

-- Publishing block by block makes the hashes that a lookup of the whole prefix computes: for a
-- positive block size, `n` full blocks `xs` and one more full `block`, the hashes of `xs ++ block`
-- are those of `xs`, then the one of `block` with the last hash of `xs` as its parent, all with the
-- seed 0.
pub chain_hashes-append_block :
    (n block_size : ℕ) (xs block : Tokens)
    → 0 < block_size
    → length xs ≡ n * block_size
    → length block ≡ block_size
    → (hashes : List ℕ) × (h : ℕ) × (chain_hashes xs block_size 0 ≡ some hashes)
      × (chain_hashes_from block block_size block_size (last_hash 0 hashes) 0 ≡ some (h ∷ []))
      × (chain_hashes (xs ++ block) block_size 0 ≡ some (hashes ++ h ∷ []))
unfolding chain_hashes chain
chain_hashes-append_block n block_size xs block pos len one = (
  chain block_size n xs 0,
  fold_hash (last_hash 0 (chain block_size n xs 0)) (take block_size block),
  chain_hashes_from_blocks n block_size xs (length xs) 0 pos len refl,
  chain_hashes_from_blocks 1 block_size block block_size _ pos (omega arith) (sym one),
  chain_hashes_from_blocks (n + 1) block_size (xs ++ block) (length (xs ++ block)) 0 pos
        (omega (arith, length-append xs block)) refl
      ∙ ap some (chain_append_block n block_size xs block len one),
)
