-- ===== src/Scheduler/Safety/Endings.antt =====
-- src/scheduler/scheduler.cpp: code that may make room ends in a value, or at the read of an erased
-- element of the running list (`release_and_move_to_wait`).
use cc_infer.Base.{ℕ, ◌≡◌, [], false, Option, some}
use cc_infer.Scheduler.{Scheduler, has_scheduling}
use cc_infer.Scheduler.Wait.{Ending, ended, dangling, and_ended}
use cc_infer.Scheduler.Safety.{Safe, places}

-- The state at such a read: the request `p` has given its blocks back and stands in no queue.
pub record Stranded (p : ℕ) (t : Scheduler) : Type 0 where
  pub safe : Safe t
  pub gone : places t p ≡ 0
  pub no_sequence : has_scheduling (t.heap p) ≡ false
  pub no_skipped : t.skip ≡ []

-- The code ends in a value with the property `P`, or at such a read with the property `Q`.
pub data Reaches {A : Type 0} (P : A → Type 0) (Q : ℕ → Scheduler → Type 0)
    : Option (Ending A) → Type 0 where
  reaches : (a : A) → P a → Reaches P Q (some (ended a))
  strands : (p : ℕ) (t : Scheduler) → Q p t → Reaches P Q (some (dangling p t))

pub along :
    {A : Type 0} {P : A → Type 0} {Q : ℕ → Scheduler → Type 0} {x y : Option (Ending A)}
    → x ≡ y
    → Reaches P Q y
    → Reaches P Q x
along h r = rw h r

pub and_ended-Reaches :
    {A B : Type 0} {P : A → Type 0} {P' : B → Type 0} {Q Q' : ℕ → Scheduler → Type 0}
    {m : Option (Ending A)} {f : A → Option (Ending B)}
    → Reaches P Q m
    → ((p : ℕ) (t : Scheduler) → Q p t → Q' p t)
    → ((a : A) → P a → Reaches P' Q' (f a))
    → Reaches P' Q' (and_ended m f)
and_ended-Reaches (reaches a h) lost next = next a h
and_ended-Reaches (strands p t h) lost next = strands p t (lost p t h)
