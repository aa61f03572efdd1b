-- ===== src/Engine/Queue.antt =====
-- src/engine/engine_core.cpp: the batches in flight are a bounded queue, and the loop ends when it
-- is empty.
use cc_infer.Base.{
  ℕ, ◌≤◌, ◌<◌, ◌≡◌, refl, sym, ap, ◌∙◌, List, [], ◌∷◌, ◌++◌, append_assoc, length, length-append,
  ltb→lt, subst, arith,
}
use cc_infer.Types.{ScheduledBatch}
use cc_infer.Engine.{
  EngineCore, Phase, at_top, filling, checking, idle, draining, awaiting, drain_awaiting, Label,
  silent, hands, collects, Step, stops, posted, enters, leaves, full, nothing_scheduled, refused,
  executes, admits, waits, wakes, pops, received, drains, drained, ends,
}

-- The batch whose result the loop waits for.
unfoldable pub pending : Phase → List ScheduledBatch
pending (awaiting batch) = batch ∷ []
pending (drain_awaiting batch) = batch ∷ []
pending _ = []

-- The batches that the executor has, oldest first.
unfoldable pub queue : EngineCore → List ScheduledBatch
unfolding pending
queue e = pending e.phase ++ e.in_flight

-- A queue of at most `capacity` batches.
pub data QueueStep (capacity : ℕ) : List ScheduledBatch → Label → List ScheduledBatch → Type 0 where
  keeps : {q : List ScheduledBatch} → QueueStep capacity q silent q
  pushes :
      {q : List ScheduledBatch} {batch : ScheduledBatch}
      → length q < capacity
      → QueueStep capacity q (hands batch) (q ++ batch ∷ [])
  takes :
      {q : List ScheduledBatch} {batch : ScheduledBatch}
      → QueueStep capacity (batch ∷ q) (collects batch) q

module _ (capacity : ℕ) where
  quiet : {q q' : List ScheduledBatch} → q ≡ q' → QueueStep capacity q silent q'
  quiet {q} e = subst (QueueStep capacity q silent) e keeps

  taken :
      {q q' : List ScheduledBatch} {batch : ScheduledBatch}
      → q ≡ batch ∷ q'
      → QueueStep capacity q (collects batch) q'
  taken {q'} {batch} e = subst (λ q. QueueStep capacity q (collects batch) q') (sym e) takes

  pushed :
      {q q' : List ScheduledBatch} (batch : ScheduledBatch)
      → length q < capacity
      → q ++ batch ∷ [] ≡ q'
      → QueueStep capacity q (hands batch) q'
  pushed {q} batch h e = subst (QueueStep capacity q (hands batch)) e (pushes h)

  phase_queue :
      (e : EngineCore) (phase : Phase) → e.phase ≡ phase → queue e ≡ pending phase ++ e.in_flight
  unfolding queue
  phase_queue e phase h = ap (λ p. pending p ++ e.in_flight) h

  -- Each step of the loop is a step of a queue of at most `max_concurrent_batches` batches: a batch
  -- that is handed over goes to its end, where there is room, the batch whose result is collected
  -- is its first, and every other step keeps it.
  pub Step-QueueStep :
      {e next : EngineCore} {l : Label}
      → Step capacity e l next
      → QueueStep capacity (queue e) l (queue next)
  unfolding queue pending
  Step-QueueStep stops = keeps
  Step-QueueStep (posted s p) = keeps
  Step-QueueStep (enters {e} h a) = quiet (phase_queue e at_top h)
  Step-QueueStep (leaves {e} h a f) = quiet (phase_queue e at_top h)
  Step-QueueStep (full {e} h f) = quiet (phase_queue e filling h)
  Step-QueueStep (nothing_scheduled {e} h f s i) = quiet (phase_queue e filling h)
  Step-QueueStep (refused {e} error h f s i c) = quiet (phase_queue e filling h)
  Step-QueueStep (executes {e} batch h f s i) =
      pushed batch (subst (λ q. length q < capacity) (sym (phase_queue e filling h)) (ltb→lt _ _ f))
        (append_assoc (pending e.phase) e.in_flight (batch ∷ []))
  Step-QueueStep (admits {e} h n c m) = quiet (phase_queue e checking h)
  Step-QueueStep (waits {e} h n c m) = quiet (phase_queue e checking h)
  Step-QueueStep (wakes {e} h) = quiet (phase_queue e idle h)
  Step-QueueStep (pops {e} batch h n) = quiet (phase_queue e checking h ∙ n)
  Step-QueueStep (received {e} batch result h r c) = taken (phase_queue e (awaiting batch) h)
  Step-QueueStep (drains {e} batch h n) = quiet (phase_queue e draining h ∙ n)
  Step-QueueStep (drained {e} batch result h r) = taken (phase_queue e (drain_awaiting batch) h)
  Step-QueueStep (ends {e} h n c) = quiet (phase_queue e draining h)

  -- A run of the loop from `start`, with the batches handed over and collected, in order.
  pub data Run (start : EngineCore)
      : EngineCore → List ScheduledBatch → List ScheduledBatch → Type 0 where
    begins : Run start start [] []
    quietly :
        {e next : EngineCore} {handed collected : List ScheduledBatch}
        → Run start e handed collected
        → Step capacity e silent next
        → Run start next handed collected
    handing :
        {e next : EngineCore} {handed collected : List ScheduledBatch} {batch : ScheduledBatch}
        → Run start e handed collected
        → Step capacity e (hands batch) next
        → Run start next (handed ++ batch ∷ []) collected
    collecting :
        {e next : EngineCore} {handed collected : List ScheduledBatch} {batch : ScheduledBatch}
        → Run start e handed collected
        → Step capacity e (collects batch) next
        → Run start next handed (collected ++ batch ∷ [])

  QueueStep-silent : {q q' : List ScheduledBatch} → QueueStep capacity q silent q' → q ≡ q'
  QueueStep-silent keeps = refl

  QueueStep-hands :
      {q q' : List ScheduledBatch} {batch : ScheduledBatch}
      → QueueStep capacity q (hands batch) q'
      → (length q < capacity) × (q' ≡ q ++ batch ∷ [])
  QueueStep-hands (pushes h) = (h, refl)

  QueueStep-collects :
      {q q' : List ScheduledBatch} {batch : ScheduledBatch}
      → QueueStep capacity q (collects batch) q'
      → q ≡ batch ∷ q'
  QueueStep-collects takes = refl

  -- From a start without batches, the batches handed over are those collected, in the same order,
  -- and those that the executor still has, of which there are at most `max_concurrent_batches`.
  pub Run-queue :
      {start e : EngineCore} {handed collected : List ScheduledBatch}
      → queue start ≡ []
      → Run start e handed collected
      → (handed ≡ collected ++ queue e) × (length (queue e) ≤ capacity)
  Run-queue none_yet begins = (sym none_yet, rw none_yet (omega arith))
  Run-queue none_yet (quietly run step) =
      let (same, fits) = Run-queue none_yet run in
      let e = QueueStep-silent (Step-QueueStep step) in (rw (← e) same, rw (← e) fits)
  Run-queue none_yet (handing {e} {next} {handed} {collected} {batch} run step) =
      let (same, fits) = Run-queue none_yet run in
      let (room, e') = QueueStep-hands (Step-QueueStep step) in
      (
        rw e' (ap (λ hs. hs ++ batch ∷ []) same ∙ append_assoc collected (queue e) (batch ∷ [])),
        rw e' (omega (arith, room, length-append (queue e) (batch ∷ []))),
      )
  Run-queue none_yet (collecting {e} {next} {handed} {collected} {batch} run step) =
      let (same, fits) = Run-queue none_yet run in
      let e' = QueueStep-collects (Step-QueueStep step) in
      (
        same ∙ ap (λ q. collected ++ q) e' ∙ sym (append_assoc collected (batch ∷ []) (queue next)),
        omega (arith, fits, ap length e'),
      )
