-- ===== src/PrefixCache.antt =====
-- src/cache/prefix_cache.h, src/cache/prefix_cache.cpp: the chain hashes of full token blocks.
--
-- A token is an `int32_t`, written as the integer it stands for. `none` is a failed assertion or a
-- read past the end of the tokens.
pub mod Chain
use cc_infer.Base.{
  ℕ, zero, suc, ◌+◌, ◌*◌, ◌/◌, ◌%◌, ◌^◌, List, [], ◌∷◌, Option, none, some, bit_xor, ltb, ◌==◌,
  if◌then◌else◌, assert, ◌>>=◌, length, get_elem?,
}
use cc_infer.Base.Int.{ℤ, to_u64}

abbrev pub Tokens : Type 0
Tokens = List ℤ

unfoldable pub hash_combine : ℕ → ℕ → ℕ
hash_combine seed val =
    bit_xor seed ((val + 0x9e3779b97f4a7c15 + seed * 2 ^ 6 % 2 ^ 64 + seed / 2 ^ 2) % 2 ^ 64)

-- The inner loop: `n` tokens from position `i` on.
pub hash_tokens : ℕ → ℕ → Tokens → ℕ → Option ℕ
hash_tokens zero i tokens h = some h
hash_tokens (suc n) i tokens h =
    get_elem? tokens i >>= λ t. hash_tokens n (suc i) tokens (hash_combine h (to_u64 t))

-- The outer loop: `n` blocks from block `b` on.
pub hash_blocks : ℕ → ℕ → ℕ → Tokens → ℕ → Option (List ℕ)
hash_blocks zero b block_size tokens h = some []
hash_blocks (suc n) b block_size tokens h =
    hash_tokens block_size (b * block_size) tokens h >>= λ h'.
    hash_blocks n (suc b) block_size tokens h' >>= λ hashes. some (h' ∷ hashes)

abbrev pub seeded : ℕ → ℕ → ℕ
seeded parent_hash seed = if seed == 0 then parent_hash else hash_combine parent_hash seed

-- The overload with a parent hash, which the others call.
pub chain_hashes_from : Tokens → ℕ → ℕ → ℕ → ℕ → Option (List ℕ)
unfolding hash_blocks hash_tokens
chain_hashes_from tokens token_count block_size parent_hash seed =
    assert (ltb 0 block_size)
      (hash_blocks (token_count / block_size) 0 block_size tokens (seeded parent_hash seed))

pub chain_hashes : Tokens → ℕ → ℕ → Option (List ℕ)
unfolding chain_hashes_from
chain_hashes tokens block_size seed = chain_hashes_from tokens (length tokens) block_size 0 seed
