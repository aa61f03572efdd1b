-- ===== src/StatePool.antt =====
-- src/state/state.h, src/state/state_pool.h, src/state/state_pool.cpp: the pool of recurrent states.
--
-- The states below `max_active` are mutable and belong to sequences; the ones above are snapshots.
-- What the device storage answers when it zeroes or copies a state is a parameter, `none` for
-- success. An operation is `none` when an assertion fails, and else the error, if any, and the pool.
pub mod Invariant
use cc_infer.Base.{
  ℕ, zero, suc, ◌+◌, List, [], ◌∷◌, ◌++◌, Bool, true, false, ◌&&◌, ◌||◌, Option, none, some, ltb,
  leb, assert, update, if◌then◌else◌,
}
use cc_infer.Base.Int.{ℤ, pos, negsuc, ltz, lez, pos_part}
use cc_infer.Errors.{ErrorCode, Result, done, fail}

pub data StateKind : Type 0 where
  mutable_kind snapshot_kind : StateKind

pub data StateStatus : Type 0 where
  free in_use : StateStatus

pub record State : Type 0 where
  pub id : ℕ
  pub kind : StateKind
  pub status : StateStatus

abbrev pub is_free_status : StateStatus → Bool
is_free_status free = true
is_free_status in_use = false

abbrev pub is_free : State → Bool
is_free m = is_free_status m.status

abbrev pub is_in_use : State → Bool
is_in_use m = elim m.status [ free ↦ false | in_use ↦ true ]

abbrev pub is_mutable_kind : StateKind → Bool
is_mutable_kind mutable_kind = true
is_mutable_kind snapshot_kind = false

abbrev pub is_mutable : State → Bool
is_mutable m = is_mutable_kind m.kind

abbrev pub is_snapshot : State → Bool
is_snapshot m = elim m.kind [ mutable_kind ↦ false | snapshot_kind ↦ true ]

pub record StatePool : Type 0 where
  pub states : ℕ → State
  pub max_active : ℕ
  pub max_snapshots : ℕ
  pub mutable_free_list : List ℕ
  pub snapshot_free_list : List ℕ
  pub active_by_seq : ℕ → Option ℕ

abbrev pub Answer : Type 0
Answer = Option (Option ErrorCode × StatePool)

abbrev set_status : ℕ → StateStatus → StatePool → (ℕ → State)
set_status id status p = update p.states id (record (p.states id) { status = status })

-- The free list of mutable states is `linked`.
abbrev acquire_from : (ℕ → Option ErrorCode) → ℕ → List ℕ → StatePool → Answer
acquire_from zero_state seq [] p = some (some ErrorCode.max_sequences_reached, p)
acquire_from zero_state seq (front ∷ rest) p =
    let meta = p.states front in
    assert (is_free meta && is_mutable meta) (elim (zero_state meta.id) [
      | some e ↦ some (some e, record p { mutable_free_list = rest ++ front ∷ [] })
      | none ↦ some (
        none,
        record p {
          mutable_free_list = rest;
          states = set_status front in_use p;
          active_by_seq = update p.active_by_seq seq (some meta.id);
        },
      )
    ])

-- A sequence that has an active state keeps it.
unfoldable pub acquire_active : (ℕ → Option ErrorCode) → ℕ → StatePool → Answer
acquire_active zero_state seq p = elim (p.active_by_seq seq) [
  | some state ↦ some (none, p)
  | none ↦ acquire_from zero_state seq p.mutable_free_list p
]

unfoldable pub release_active : ℕ → StatePool → Answer
release_active seq p = elim (p.active_by_seq seq) [
  | none ↦ some (none, p)
  | some state ↦
      assert (ltb state p.max_active && (is_in_use (p.states state) && is_mutable (p.states state)))
        (some (
          none,
          record p {
            active_by_seq = update p.active_by_seq seq none;
            states = set_status state free p;
            mutable_free_list = p.mutable_free_list ++ state ∷ [];
          },
        ))
]

pub active_state_of : ℕ → StatePool → Option ℕ
active_state_of seq p = p.active_by_seq seq

-- The free list of snapshots is `linked`.
abbrev snapshot_from : List ℕ → StatePool → Option (Result ℕ × StatePool)
snapshot_from [] p = some (fail ErrorCode.max_sequences_reached, p)
snapshot_from (front ∷ rest) p =
    let meta = p.states front in
    assert (is_free meta && is_snapshot meta) (
      some
        (done meta.id, record p { snapshot_free_list = rest; states = set_status front in_use p }))

unfoldable pub acquire_snapshot : StatePool → Option (Result ℕ × StatePool)
acquire_snapshot p = snapshot_from p.snapshot_free_list p

abbrev pub is_snapshot_id : ℤ → StatePool → Bool
is_snapshot_id (negsuc n) p = false
is_snapshot_id (pos n) p = leb p.max_active n && ltb n (p.max_active + p.max_snapshots)

unfoldable pub release_snapshot : ℤ → StatePool → Answer
release_snapshot (negsuc n) p = some (some ErrorCode.invalid_argument, p)
release_snapshot (pos n) p =
    if is_snapshot_id (pos n) p
    then assert (is_in_use (p.states n) && is_snapshot (p.states n)) (
        some (
          none,
          record p {
            states = set_status n free p;
            snapshot_free_list = p.snapshot_free_list ++ n ∷ [];
          },
        ))
    else some (some ErrorCode.invalid_argument, p)

abbrev is_active_id : ℤ → StatePool → Bool
is_active_id (negsuc n) p = false
is_active_id (pos n) p = ltb n p.max_active

-- The copies in both directions check the two ids in the same way; `copied` is the answer of the
-- storage.
pub copy_active_to_snapshot : Option ErrorCode → ℤ → ℤ → StatePool → Option ErrorCode
copy_active_to_snapshot copied active_state snapshot_state p =
    if is_active_id active_state p && is_snapshot_id snapshot_state p
    then copied
    else some ErrorCode.invalid_argument

pub restore_snapshot_to_active : Option ErrorCode → ℤ → ℤ → StatePool → Option ErrorCode
restore_snapshot_to_active copied snapshot_state active_state p =
    if is_active_id active_state p && is_snapshot_id snapshot_state p
    then copied
    else some ErrorCode.invalid_argument

-- The free lists of `create`: the ids from `first` on.
unfoldable pub link_states : ℕ → ℕ → List ℕ
link_states zero first = []
link_states (suc n) first = first ∷ link_states n (suc first)

-- For sizes that are checked, over storage that exists.
unfoldable pub create : ℕ → ℕ → StatePool
unfolding link_states
create max_active max_snapshots = record {
  states = λ i. record {
    id = i;
    kind = if ltb i max_active then mutable_kind else snapshot_kind;
    status = free;
  };
  max_active = max_active;
  max_snapshots = max_snapshots;
  mutable_free_list = link_states max_active 0;
  snapshot_free_list = link_states max_snapshots max_active;
  active_by_seq = λ seq. none;
}

-- `create` with its arguments and what the allocation of the device storage answers, `none` for
-- success.
unfoldable pub create_checked : Option ErrorCode → ℤ → ℤ → Result StatePool
unfolding create
create_checked storage max_active max_snapshots =
    if lez max_active (pos 0) || ltz max_snapshots (pos 0)
    then fail ErrorCode.invalid_argument
    else elim storage [
      | some e ↦ fail e
      | none ↦ done (create (pos_part max_active) (pos_part max_snapshots))
    ]
