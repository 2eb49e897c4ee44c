-- ===== src/Factory/State/Backlog.antt =====
-- The factory's own queue of jobs: `maybe_enqueue` of ractor/src/factory/factoryimpl.rs. The
-- load-shedding loop takes fuel.
use ractor.Prelude.{ℕ, zero, suc, ◌&&◌, Option, none, some, ltb, leb, if◌then◌else◌}
use ractor.Factory.Job.{Job}
use ractor.Factory.Discard.{DiscardReason, DiscardMode, get_limit_and_mode}
use ractor.Factory.Effects.{Stat, Log, accept}
use ractor.Factory.Queues.Contract.{Queue}
use ractor.Factory.State.{
  FactoryState, Outcome, done, panicked, out_of_fuel, let_go, count_stat, refuse_newest,
}

module _ {K M R Q : Type 0} where
  -- One round of the load-shedding loop.
  unfoldable pub shed_from_queue :
      Option (Job K M × Q) → FactoryState K M R Q → Log K M → FactoryState K M R Q × Log K M
  shed_from_queue none s log = (s, log)
  shed_from_queue (some (job, queue)) s log = (
    record s { queue = queue },
    let_go DiscardReason.loadshed job s (count_stat Stat.job_discarded s log),
  )

module _ {K M R Q : Type 0} (queues : Queue K M Q) where
  -- `while self.queue.len() > limit`.
  unfoldable pub shed_queue :
      ℕ → ℕ → FactoryState K M R Q → Log K M → FactoryState K M R Q × Log K M
  shed_queue zero limit s log = (s, log)
  shed_queue (suc fuel) limit s log =
      let (s', log') = shed_from_queue (queues.discard_oldest s.queue) s log in
      let rest = shed_queue fuel limit s' log' in
      if ltb limit (queues.len s.queue) then rest else (s, log)

  unfoldable pub push_job :
      Job K M → FactoryState K M R Q → Log K M → Outcome (FactoryState K M R Q × Log K M)
  push_job job s log = elim (queues.push_back job s.queue) [
    | none ↦ panicked
    | some queue ↦ done (record s { queue = queue }, log)
  ]

  -- The loop takes as fuel the length of the queue.
  unfoldable pub shed_pushed :
      ℕ → Outcome (FactoryState K M R Q × Log K M) → Outcome (FactoryState K M R Q × Log K M)
  shed_pushed limit (done (s, log)) = done (shed_queue (queues.len s.queue) limit s log)
  shed_pushed limit panicked = panicked
  shed_pushed limit out_of_fuel = out_of_fuel

  unfoldable pub enqueue_within :
      Option (ℕ × DiscardMode)
      → Job K M
      → FactoryState K M R Q
      → Log K M
      → Outcome (FactoryState K M R Q × Log K M)
  enqueue_within (some (limit, DiscardMode.newest)) job s log =
      let (accepted, log') = accept job log in
      if queues.is_job_discardable job.key && leb limit (queues.len s.queue)
      then done (s, refuse_newest job s log)
      else push_job accepted s log'
  enqueue_within (some (limit, DiscardMode.oldest)) job s log =
      let (accepted, log') = accept job log in shed_pushed limit (push_job accepted s log')
  enqueue_within none job s log = let (accepted, log') = accept job log in push_job accepted s log'

  unfoldable pub maybe_enqueue :
      Job K M → FactoryState K M R Q → Log K M → Outcome (FactoryState K M R Q × Log K M)
  maybe_enqueue job s log = enqueue_within (get_limit_and_mode s.discard_settings) job s log
