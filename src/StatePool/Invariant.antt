-- ===== src/StatePool/Invariant.antt =====
-- src/state/state_pool.cpp: what holds of the states between operations.
use cc_infer.Base.{
  ℕ, zero, suc, ◌+◌, ◌<◌, ◌≡◌, ◌≢◌, refl, ap, List, [], ◌∷◌, ◌++◌, true, false, ◌&&◌, Option, none,
  some, ltb, leb, if◌then◌else◌, arith, count, count-append, update, Option-cases, inl, inr,
}
use cc_infer.Base.Int.{pos}
use cc_infer.Errors.{ErrorCode}
use cc_infer.StatePool.{
  StatePool, free, in_use, is_free, is_mutable, acquire_active, release_active, is_snapshot_id,
  create, link_states,
}

-- A state is linked once into the list of its kind if it is free, and each sequence that has an
-- active state is the only one that has it.
pub record StateInv (p : StatePool) : Type 0 where
  pub mutable_linked :
      (id : ℕ)
      → count id p.mutable_free_list
        ≡ (if ltb id p.max_active && is_free (p.states id) then 1 else 0)
  pub snapshot_linked :
      (id : ℕ)
      → count id p.snapshot_free_list
        ≡ (if is_snapshot_id (pos id) p && is_free (p.states id) then 1 else 0)
  pub kinds : (id : ℕ) → is_mutable (p.states id) ≡ ltb id p.max_active
  pub own_id : (id : ℕ) → (p.states id).id ≡ id
  pub owned :
      (seq id : ℕ)
      → p.active_by_seq seq ≡ some id
      → (id < p.max_active) × (is_free (p.states id) ≡ false)
  pub alone :
      (seq other id : ℕ)
      → p.active_by_seq seq ≡ some id
      → p.active_by_seq other ≡ some id
      → seq ≡ other

-- What an operation on the active state of `seq` leaves alone.
pub record SameRest (seq : ℕ) (p q : StatePool) : Type 0 where
  pub inv : StateInv q
  pub others : (other : ℕ) → other ≢ seq → q.active_by_seq other ≡ p.active_by_seq other
  pub same_snapshots : q.snapshot_free_list ≡ p.snapshot_free_list

unchanged : (seq : ℕ) (p : StatePool) → StateInv p → SameRest seq p p
unchanged seq p v = record { inv = v; others = λ other ne. refl; same_snapshots = refl }

abbrev freed : ℕ → ℕ → StatePool → StatePool
freed seq id p = record p {
  active_by_seq = update p.active_by_seq seq none;
  states = update p.states id (record (p.states id) { status = free });
  mutable_free_list = p.mutable_free_list ++ id ∷ [];
}

freed-StateInv :
    (seq id : ℕ) (p : StatePool)
    → StateInv p
    → p.active_by_seq seq ≡ some id
    → StateInv (freed seq id p)
freed-StateInv seq id p v e = record {
  mutable_linked = λ j.
      ground
        (arith, v.mutable_linked j, v.owned seq id e, count-append j p.mutable_free_list (id ∷ []));
  snapshot_linked = λ j. ground (arith, v.snapshot_linked j, v.owned seq id e);
  kinds = λ j. ground (arith, v.kinds j, v.kinds id);
  own_id = λ j. ground (arith, v.own_id j, v.own_id id);
  owned = λ other j h. ground (arith, v.owned other j, v.alone seq other id, e);
  alone = λ other another j h k. ground (arith, v.alone other another j);
}

-- What the release of the active state of `seq` does to the states: that one is free, at the end of
-- its free list, and all others stay.
pub record Frees (seq : ℕ) (p q : StatePool) : Type 0 where
  pub put_back :
      (id : ℕ)
      → p.active_by_seq seq ≡ some id
      → (is_free (q.states id) ≡ true)
        × (q.mutable_free_list ≡ p.mutable_free_list ++ id ∷ [])
        × ((j : ℕ) → j ≢ id → q.states j ≡ p.states j)
  pub nothing_active : p.active_by_seq seq ≡ none → q ≡ p

-- In a pool with the invariant, releasing the active state of a sequence fails no assertion and
-- gives no error: exactly that state becomes free and goes to the end of the free list, and a pool
-- where the sequence has none stays as it is. Afterwards the sequence has none, the other sequences
-- keep theirs, the free snapshots stay, and the invariant holds.
pub release_active_total :
    (seq : ℕ) (p : StatePool)
    → StateInv p
    → (q : StatePool) × (release_active seq p ≡ some (none, q))
      × (q.active_by_seq seq ≡ none)
      × Frees seq p q
      × SameRest seq p q
unfolding release_active
release_active_total seq p v = elim (Option-cases (p.active_by_seq seq)) [
  | inl e ↦ (
    p,
    rw (e, release_active),
    e,
    record { put_back = λ id h. absurd (ground (arith, e, h)); nothing_active = λ h. refl },
    unchanged seq p v,
  )
  | inr (id, e) ↦ (
    freed seq id p,
    rw (e, release_active) (ground (arith, v.owned seq id e, v.kinds id)),
    ground arith,
    record {
      put_back =
          λ j h. (ground (arith, e, h), ground (arith, e, h), λ k ne. ground (arith, e, h, ne));
      nothing_active = λ h. absurd (ground (arith, e, h));
    },
    record {
      inv = freed-StateInv seq id p v e;
      others = λ other ne. ground arith;
      same_snapshots = refl;
    },
  )
]

abbrev given : ℕ → ℕ → List ℕ → StatePool → StatePool
given seq id rest p = record p {
  mutable_free_list = rest;
  states = update p.states id (record (p.states id) { status = in_use });
  active_by_seq = update p.active_by_seq seq (some (p.states id).id);
}

front_unused :
    (p : StatePool) (id : ℕ) (rest : List ℕ)
    → StateInv p
    → p.mutable_free_list ≡ id ∷ rest
    → (is_free (p.states id) ≡ true) × (id < p.max_active) × (count id rest ≡ 0)
front_unused p id rest v e = ground (arith, v.mutable_linked id, ap (count id) e)

given-StateInv :
    (seq id : ℕ) (rest : List ℕ) (p : StatePool)
    → StateInv p
    → p.mutable_free_list ≡ id ∷ rest
    → StateInv (given seq id rest p)
given-StateInv seq id rest p v e =
    let front = front_unused p id rest v e in
    record {
      mutable_linked = λ j. ground (arith, v.mutable_linked j, ap (count j) e, front);
      snapshot_linked = λ j. ground (arith, v.snapshot_linked j, front);
      kinds = λ j. ground (arith, v.kinds j, v.kinds id);
      own_id = λ j. ground (arith, v.own_id j, v.own_id id);
      owned = λ other j h. ground (arith, v.owned other j, front, v.own_id id);
      alone = λ other another j h k.
          ground (
            arith,
            v.alone other another j,
            v.owned other j,
            v.owned another j,
            front,
            v.own_id id,
          );
    }

-- In a pool with the invariant, when a mutable state is free and the storage zeroes it, a sequence
-- without an active state gets the first free one; the other sequences keep theirs, the free
-- snapshots stay, and the invariant holds.
pub acquire_active_given :
    (seq id : ℕ) (rest : List ℕ) (zero_state : ℕ → Option ErrorCode) (p : StatePool)
    → StateInv p
    → p.active_by_seq seq ≡ none
    → p.mutable_free_list ≡ id ∷ rest
    → zero_state id ≡ none
    → (q : StatePool) × (acquire_active zero_state seq p ≡ some (none, q))
      × (q.active_by_seq seq ≡ some id)
      × SameRest seq p q
unfolding acquire_active
acquire_active_given seq id rest zero_state p v none_yet e zeroed =
    let front = front_unused p id rest v e in
    (
      given seq id rest p,
      rw (none_yet, acquire_active) (rw e (ground (arith, front, v.kinds id, v.own_id id, zeroed))),
      ground (arith, v.own_id id),
      record {
        inv = given-StateInv seq id rest p v e;
        others = λ other ne. ground arith;
        same_snapshots = refl;
      },
    )

count-link_states :
    (n first id : ℕ)
    → count id (link_states n first) ≡ (if leb first id && ltb id (first + n) then 1 else 0)
unfolding link_states
count-link_states zero first id = ground arith
count-link_states (suc n) first id = ground (arith, count-link_states n (suc first) id)

-- A new pool satisfies the invariant.
pub create-StateInv : (max_active max_snapshots : ℕ) → StateInv (create max_active max_snapshots)
unfolding create
create-StateInv max_active max_snapshots = record {
  mutable_linked = λ id. ground (arith, count-link_states max_active 0 id);
  snapshot_linked = λ id. ground (arith, count-link_states max_snapshots max_active id);
  kinds = λ id. ground arith;
  own_id = λ id. refl;
  owned = λ seq id h. absurd cc;
  alone = λ seq other id h k. absurd cc;
}

-- A pool of `max_active` mutable states and `max_snapshots` snapshots, none of which is in use.
pub record AllFree (max_active max_snapshots : ℕ) (p : StatePool) : Type 0 where
  pub inv : StateInv p
  pub unused : (id : ℕ) → is_free (p.states id) ≡ true
  pub listed : (id : ℕ) → count id p.mutable_free_list ≡ (if ltb id max_active then 1 else 0)
  pub listed_snapshots :
      (id : ℕ)
      → count id p.snapshot_free_list
        ≡ (if leb max_active id && ltb id (max_active + max_snapshots) then 1 else 0)
  pub no_active : (seq : ℕ) → p.active_by_seq seq ≡ none

-- A new pool satisfies the invariant: every state is free and once in the free list of its kind,
-- the ids below `max_active` being the mutable ones, and no sequence has a state.
pub create-AllFree :
    (max_active max_snapshots : ℕ)
    → AllFree max_active max_snapshots (create max_active max_snapshots)
unfolding create
create-AllFree max_active max_snapshots = record {
  inv = create-StateInv max_active max_snapshots;
  unused = λ id. refl;
  listed = λ id. ground (arith, count-link_states max_active 0 id);
  listed_snapshots = λ id. ground (arith, count-link_states max_snapshots max_active id);
  no_active = λ seq. refl;
}
