-- ===== src/Factory/State/Enqueue.antt =====
-- How long the factory's queue is after `maybe_enqueue` (ractor/src/factory/factoryimpl.rs).
use ractor.Prelude.{
  ℕ, zero, suc, ◌+◌, ◌≤◌, ◌<◌, ◌≡◌, refl, ap, subst, Bool, true, ◌&&◌, Option, none, some, ◌∷◌,
  arith, ltb, leb, if◌then◌else◌, is_some, length, length-append, min, Option-cases, Bool-cases,
  inl, inr,
}
use ractor.Factory.Job.{Job}
use ractor.Factory.Discard.{DiscardMode, get_limit_and_mode}
use ractor.Factory.Effects.{Log, accept}
use ractor.Factory.Queues.Contract.{Queue, Takes, Puts}
use ractor.Factory.State.{FactoryState, Outcome, done, panicked, out_of_fuel}
use ractor.Factory.State.Backlog.{
  shed_from_queue, shed_queue, push_job, shed_pushed, enqueue_within, maybe_enqueue,
}

-- The operation returns, and with this result.
abbrev pub Returns : {A : Type 0} → (A → Type 0) → Outcome A → Type 0
Returns P (done a) = P a
Returns P panicked = ⊥
Returns P out_of_fuel = ⊥

module _ {K M Q : Type 0} (queues : Queue K M Q) where
  abbrev OneLess : Q → Option (Job K M × Q) → Type 0
  OneLess q none = queues.len q ≡ 0
  OneLess q (some (job, q')) = queues.len q ≡ 1 + queues.len q'

  discard_oldest-OneLess : (q : Q) → OneLess q (queues.discard_oldest q)
  discard_oldest-OneLess q = go (queues.discard_oldest q) (queues.discard_jobs q)
    where
      go : (o : Option (Job K M × Q)) → Takes queues.jobs q o → OneLess q o
      go none e = omega (arith, ap length e, queues.len_jobs q)
      go (some (job, q')) (before, after, e, e') = omega (
        arith,
        ap length e,
        ap length e',
        queues.len_jobs q,
        queues.len_jobs q',
        length-append before (job ∷ after),
        length-append before after,
      )

  pub push_back-len :
      (job : Job K M) (q q' : Q)
      → queues.push_back job q ≡ some q'
      → queues.len q' ≡ 1 + queues.len q
  push_back-len job q q' h = go (subst (λ o. Puts queues.jobs job q o) h (queues.push_jobs job q))
    where
      go : Puts queues.jobs job q (some q') → queues.len q' ≡ 1 + queues.len q
      go (before, after, e, e') = omega (
        arith,
        ap length e,
        ap length e',
        queues.len_jobs q,
        queues.len_jobs q',
        length-append before (job ∷ after),
        length-append before after,
      )

-- The length that the settings ask for once a job has come in, of a queue that holds `n`.
abbrev pub len_after : Option (ℕ × DiscardMode) → Bool → ℕ → ℕ
len_after none discardable n = n + 1
len_after (some (limit, DiscardMode.oldest)) discardable n = min (n + 1) limit
len_after (some (limit, DiscardMode.newest)) discardable n =
    if discardable && leb limit n then n else n + 1

module _ {K M R Q : Type 0} (queues : Queue K M Q) where
  -- The queue that some rounds of the loop leave is as long as the limit allows.
  abbrev Within : ℕ → ℕ → FactoryState K M R Q → Log K M → Type 0
  Within fuel limit s log =
      queues.len (shed_queue queues fuel limit s log).0.queue ≡ min (queues.len s.queue) limit

  shed_step-Within :
      (fuel limit : ℕ) (s : FactoryState K M R Q) (log : Log K M) (o : Option (Job K M × Q))
      → OneLess queues s.queue o
      → queues.len s.queue ≤ suc fuel + limit
      → limit < queues.len s.queue
      → ((t : FactoryState K M R Q) (log' : Log K M)
          → queues.len t.queue ≤ fuel + limit
          → Within fuel limit t log')
      → let r = shed_from_queue o s log in
        queues.len (shed_queue queues fuel limit r.0 r.1).0.queue ≡ min (queues.len s.queue) limit
  unfolding shed_from_queue
  shed_step-Within fuel limit s log none l h e ih = absurd (omega arith)
  shed_step-Within fuel limit s log (some (job, q)) l h e ih =
      omega
        (arith, ih (record s { queue = q }) (shed_from_queue (some (job, q)) s log).1 (omega arith))

  shed_queue-Within :
      (fuel limit : ℕ) (s : FactoryState K M R Q) (log : Log K M)
      → queues.len s.queue ≤ fuel + limit
      → Within fuel limit s log
  unfolding shed_queue
  shed_queue-Within zero limit s log h = omega arith
  shed_queue-Within (suc fuel) limit s log h = elim (Bool-cases (ltb limit (queues.len s.queue))) [
    | inl e ↦ rw e (
        shed_step-Within fuel limit s log (queues.discard_oldest s.queue)
          (discard_oldest-OneLess queues s.queue) h (ground arith) (shed_queue-Within fuel limit))
    | inr e ↦ rw e (ground arith)
  ]

  push_job-len :
      (job : Job K M) (s : FactoryState K M R Q) (log : Log K M)
      → is_some (queues.push_back job s.queue) ≡ true
      → Returns (λ r. queues.len r.0.queue ≡ queues.len s.queue + 1) (push_job queues job s log)
  unfolding push_job
  push_job-len job s log h = elim (Option-cases (queues.push_back job s.queue)) [
    | inl e ↦ absurd (ground (arith, h, e))
    | inr (q, e) ↦ rw (e, push_job) (omega (arith, push_back-len queues job s.queue q e))
  ]

  shed_pushed-len :
      (limit n : ℕ) (o : Outcome (FactoryState K M R Q × Log K M))
      → Returns (λ r. queues.len r.0.queue ≡ n) o
      → Returns (λ r. queues.len r.0.queue ≡ min n limit) (shed_pushed queues limit o)
  unfolding shed_pushed
  shed_pushed-len limit n (done (s, log)) h =
      omega (arith, shed_queue-Within (queues.len s.queue) limit s log (omega arith))
  shed_pushed-len limit n panicked h = absurd h
  shed_pushed-len limit n out_of_fuel h = absurd h

  -- Where the queue takes the job, `maybe_enqueue` returns and leaves the queue exactly as long as
  -- the discard settings ask: one longer without a limit; at most the limit in Oldest mode, also
  -- for jobs that are not discardable; and in Newest mode as long as before if the job may be
  -- discarded and the limit is reached, one longer otherwise.
  pub maybe_enqueue-len :
      (job : Job K M) (s : FactoryState K M R Q) (log : Log K M)
      → is_some (queues.push_back (accept job log).0 s.queue) ≡ true
      → Returns
          (λ r.
            queues.len r.0.queue
            ≡ len_after
                (get_limit_and_mode s.discard_settings)
                (queues.is_job_discardable job.key)
                (queues.len s.queue))
          (maybe_enqueue queues job s log)
  unfolding maybe_enqueue enqueue_within
  maybe_enqueue-len job s log h = go (get_limit_and_mode s.discard_settings)
    where
      go :
          (mode : Option (ℕ × DiscardMode))
          → Returns
              (λ r.
                queues.len r.0.queue
                ≡ len_after mode (queues.is_job_discardable job.key) (queues.len s.queue))
              (enqueue_within queues mode job s log)
      go none = push_job-len (accept job log).0 s (accept job log).1 h
      go (some (limit, DiscardMode.oldest)) =
          shed_pushed-len limit (queues.len s.queue + 1)
            (push_job queues (accept job log).0 s (accept job log).1)
            (push_job-len (accept job log).0 s (accept job log).1 h)
      go (some (limit, DiscardMode.newest)) =
          elim (Bool-cases (queues.is_job_discardable job.key && leb limit (queues.len s.queue))) [
            | inl e ↦ rw e refl
            | inr e ↦ rw e (push_job-len (accept job log).0 s (accept job log).1 h)
          ]
