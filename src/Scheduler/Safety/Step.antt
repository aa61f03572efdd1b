-- ===== src/Scheduler/Safety/Step.antt =====
-- src/scheduler/scheduler.cpp, `schedule_step`: a whole scheduling step.
use cc_infer.Base.{ℕ, ◌≡◌, false, some, if◌then◌else◌, is_empty}
use cc_infer.Scheduler.{Scheduler, BatchBuildContext}
use cc_infer.Scheduler.Admit.{StepResult, admit_one_skipped, admit_loop}
use cc_infer.Scheduler.Safety.{Safe}
use cc_infer.Scheduler.Safety.Endings.{Stranded, Reaches}
use cc_infer.Scheduler.Safety.Work.{account}

first_try : BatchBuildContext → Scheduler → StepResult
first_try ctx s = if is_empty s.skip then some (false, (ctx, s)) else admit_one_skipped ctx s

abbrev pub LoopEnds : ℕ → BatchBuildContext → Scheduler → Type 0
LoopEnds fuel ctx s =
    Reaches (λ r. Safe r.1 × (account r.0 ≡ account ctx)) Stranded (admit_loop fuel ctx s)
