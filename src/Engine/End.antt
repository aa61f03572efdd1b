-- ===== src/Engine/End.antt =====
-- src/engine/engine_core.cpp: when the loop has ended.
use cc_infer.Base.{ℕ, ◌≡◌, ap, ◌∙◌, List, [], ◌++◌, append-nil}
use cc_infer.Types.{ScheduledBatch}
use cc_infer.Engine.{
  EngineCore, at_top, finished, Label, Step, stops, posted, enters, leaves, full, nothing_scheduled,
  refused, executes, admits, waits, wakes, pops, received, drains, drained, ends,
}
use cc_infer.Engine.Queue.{queue, pending, Run, begins, quietly, handing, collecting, Run-queue}

-- No batch is in flight once the loop has ended.
EmptyAtEnd : EngineCore → Type 0
EmptyAtEnd e = e.phase ≡ finished → e.in_flight ≡ []

module _ (capacity : ℕ) where
  Step-EmptyAtEnd :
      {e next : EngineCore} {l : Label} → Step capacity e l next → EmptyAtEnd e → EmptyAtEnd next
  unfolding EmptyAtEnd
  Step-EmptyAtEnd stops before h = before h
  Step-EmptyAtEnd (posted s p) before h = before h
  Step-EmptyAtEnd (enters p a) before h = absurd cc
  Step-EmptyAtEnd (leaves p a f) before h = absurd cc
  Step-EmptyAtEnd (full p f) before h = absurd cc
  Step-EmptyAtEnd (nothing_scheduled p f s i) before h = absurd cc
  Step-EmptyAtEnd (refused error p f s i c) before h = absurd cc
  Step-EmptyAtEnd (executes batch p f s i) before h = absurd cc
  Step-EmptyAtEnd (admits p n c m) before h = absurd cc
  Step-EmptyAtEnd (waits p n c m) before h = absurd cc
  Step-EmptyAtEnd (wakes p) before h = absurd cc
  Step-EmptyAtEnd (pops batch p n) before h = absurd cc
  Step-EmptyAtEnd (received batch result p r c) before h = absurd cc
  Step-EmptyAtEnd (drains batch p n) before h = absurd cc
  Step-EmptyAtEnd (drained batch result p r) before h = absurd cc
  Step-EmptyAtEnd (ends p n c) before h = n

  Run-EmptyAtEnd :
      {start e : EngineCore} {handed collected : List ScheduledBatch}
      → EmptyAtEnd start
      → Run capacity start e handed collected
      → EmptyAtEnd e
  Run-EmptyAtEnd first begins = first
  Run-EmptyAtEnd first (quietly run step) = Step-EmptyAtEnd step (Run-EmptyAtEnd first run)
  Run-EmptyAtEnd first (handing run step) = Step-EmptyAtEnd step (Run-EmptyAtEnd first run)
  Run-EmptyAtEnd first (collecting run step) = Step-EmptyAtEnd step (Run-EmptyAtEnd first run)

  -- When a loop that started at its top without batches has ended, every batch that it handed to
  -- the executor has been collected, once and in the same order.
  pub Run-finished :
      {start e : EngineCore} {handed collected : List ScheduledBatch}
      → start.phase ≡ at_top
      → start.in_flight ≡ []
      → Run capacity start e handed collected
      → e.phase ≡ finished
      → handed ≡ collected
  unfolding queue pending EmptyAtEnd
  Run-finished {start} {e} {handed} {collected} top none_yet run ended =
      let at_start : queue start ≡ [] = ap (λ p. pending p ++ start.in_flight) top ∙ none_yet in
      let no_more : e.in_flight ≡ [] = Run-EmptyAtEnd (λ h. none_yet) run ended in
      let nothing_left : queue e ≡ [] = ap (λ p. pending p ++ e.in_flight) ended ∙ no_more in
      (Run-queue capacity at_start run).0
      ∙ ap (λ q. collected ++ q) nothing_left
      ∙ append-nil collected
