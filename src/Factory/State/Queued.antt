-- ===== src/Factory/State/Queued.antt =====
-- A job that is queued (`maybe_enqueue` of ractor/src/factory/factoryimpl.rs) leaves the state sound.
use ractor.Prelude.{
  ℕ, zero, suc, ◌≡◌, refl, true, Option, none, some, arith, inl, inr, Bool-cases, Option-cases,
  is_some, ltb, leb, ◌&&◌,
}
use ractor.Factory.Job.{Job}
use ractor.Factory.Discard.{DiscardMode, get_limit_and_mode}
use ractor.Factory.Effects.{Log, accept}
use ractor.Factory.Queues.Contract.{Queue}
use ractor.Factory.State.{FactoryState, Outcome, done, panicked, out_of_fuel}
use ractor.Factory.State.Enqueue.{Returns}
use ractor.Factory.State.Backlog.{
  shed_from_queue, shed_queue, push_job, shed_pushed, enqueue_within, maybe_enqueue,
}
use ractor.Factory.State.Dispatched.{Accepts}
use ractor.Factory.State.Sound.{Sound, same-Sound}

module _ {K M R Q : Type 0} (dec : Discrete K) where
  -- It returns, with a sound state.
  abbrev pub ReturnsSound : Outcome (FactoryState K M R Q × Log K M) → Type 0
  ReturnsSound o = Returns (λ r. Sound dec r.0) o

module _ {K M R Q : Type 0} (dec : Discrete K) (queues : Queue K M Q) where
  shed_queue-Sound :
      (fuel limit : ℕ) (s : FactoryState K M R Q) (log : Log K M)
      → Sound dec s
      → Sound dec (shed_queue queues fuel limit s log).0
  unfolding shed_queue shed_from_queue
  shed_queue-Sound zero limit s log h = h
  shed_queue-Sound (suc fuel) limit s log h = elim (Bool-cases (ltb limit (queues.len s.queue))) [
    | inl e ↦ rw e (elim (Option-cases (queues.discard_oldest s.queue)) [
      | inl f ↦ rw (f, shed_from_queue) (shed_queue-Sound fuel limit s log h)
      | inr ((job, q), f) ↦
          rw (f, shed_from_queue)
            (shed_queue-Sound fuel limit (record s { queue = q }) _
              (same-Sound dec s _ refl refl h))
    ])
    | inr e ↦ rw e h
  ]

  push_job-Sound :
      (job : Job K M) (s : FactoryState K M R Q) (log : Log K M)
      → is_some (queues.push_back job s.queue) ≡ true
      → Sound dec s
      → ReturnsSound dec (push_job queues job s log)
  unfolding push_job
  push_job-Sound job s log taken h = elim (Option-cases (queues.push_back job s.queue)) [
    | inl e ↦ absurd (ground (arith, taken, e))
    | inr (q, e) ↦ rw (e, push_job) (same-Sound dec s _ refl refl h)
  ]

  shed_pushed-Sound :
      (limit : ℕ) (o : Outcome (FactoryState K M R Q × Log K M))
      → ReturnsSound dec o
      → ReturnsSound dec (shed_pushed queues limit o)
  unfolding shed_pushed
  shed_pushed-Sound limit (done (s, log)) h = shed_queue-Sound _ limit s log h
  shed_pushed-Sound limit panicked h = h
  shed_pushed-Sound limit out_of_fuel h = h

  pub maybe_enqueue-Sound :
      (job : Job K M) (s : FactoryState K M R Q) (log : Log K M)
      → Accepts queues s.queue
      → Sound dec s
      → ReturnsSound dec (maybe_enqueue queues job s log)
  unfolding maybe_enqueue enqueue_within
  maybe_enqueue-Sound job s log taken h = go (get_limit_and_mode s.discard_settings)
    where
      pushed : ReturnsSound dec (push_job queues (accept job log).0 s (accept job log).1)
      pushed = push_job-Sound (accept job log).0 s (accept job log).1 (taken (accept job log).0) h

      go :
          (mode : Option (ℕ × DiscardMode))
          → ReturnsSound dec (enqueue_within queues mode job s log)
      go none = pushed
      go (some (limit, DiscardMode.oldest)) = shed_pushed-Sound limit _ pushed
      go (some (limit, DiscardMode.newest)) =
          elim (Bool-cases (queues.is_job_discardable job.key && leb limit (queues.len s.queue))) [
            | inl e ↦ rw e h
            | inr e ↦ rw e pushed
          ]
