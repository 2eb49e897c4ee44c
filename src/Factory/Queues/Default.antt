-- ===== src/Factory/Queues/Default.antt =====
-- `DefaultQueue` of ractor/src/factory/queues.rs: first in, first out.
use ractor.Prelude.{
  ℕ, ◌+◌, ◌-◌, ◌≡◌, refl, sym, ap, true, not, Option, none, some, List, [], ◌∷◌, ◌++◌, keep, length,
  is_empty, if◌then◌else◌, arith, length-keep-le,
}
use mathlib.Core.List.{append-nil}
use ractor.Factory.Job.{Clock, Job, is_expired}
use ractor.Factory.Discard.{DiscardReason}
use ractor.Factory.Effects.{Log, discard_job}
use ractor.Factory.Queues.Contract.{Queue, Pops, Takes, Puts, front}

module _ {K M : Type 0} where
  -- `retain_mut` over the expired jobs, which go to the discard handler.
  unfoldable pub retain_live :
      Clock → Option ℕ → List (Job K M) → Log K M → List (Job K M) × Log K M
  retain_live c handler [] log = ([], log)
  retain_live c handler (job ∷ queue) log =
      let (rest, log') =
        retain_live c handler queue (
          if is_expired c job
          then discard_job handler DiscardReason.ttl_expired job log
          else log) in
      (if is_expired c job then rest else job ∷ rest, log')

  pub retain_live-keep :
      (c : Clock) (handler : Option ℕ) (queue : List (Job K M)) (log : Log K M)
      → (retain_live c handler queue log).0 ≡ keep (λ j. not (is_expired c j)) queue
  unfolding retain_live
  retain_live-keep c handler [] log = refl
  retain_live-keep c handler (job ∷ queue) log =
      let step =
        if is_expired c job then discard_job handler DiscardReason.ttl_expired job log else log in
      ground (arith, retain_live-keep c handler queue step)

  unfoldable pub default_pop_front : List (Job K M) → Option (Job K M × List (Job K M))
  default_pop_front [] = none
  default_pop_front (job ∷ queue) = some (job, queue)

  unfoldable pub default_push_back : Job K M → List (Job K M) → List (Job K M)
  default_push_back job queue = queue ++ job ∷ []

  unfoldable pub default_remove_expired_items :
      Clock → Option ℕ → List (Job K M) → Log K M → ℕ × List (Job K M) × Log K M
  default_remove_expired_items c handler queue log =
      let (live, log') = retain_live c handler queue log in (length queue - length live, live, log')

  pub default_pop-Pops : (q : List (Job K M)) → Pops (λ jobs. jobs) q (default_pop_front q)
  unfolding default_pop_front
  default_pop-Pops [] = refl
  default_pop-Pops (job ∷ q) = refl

  pub default_pop-Takes : (q : List (Job K M)) → Takes (λ jobs. jobs) q (default_pop_front q)
  unfolding default_pop_front
  default_pop-Takes [] = refl
  default_pop-Takes (job ∷ q) = ([], q, refl, refl)

  pub default_push-Puts :
      (job : Job K M) (q : List (Job K M))
      → Puts (λ jobs. jobs) job q (some (default_push_back job q))
  unfolding default_push_back
  default_push-Puts job q = (q, [], sym (append-nil q), refl)

  pub default_expired :
      (c : Clock) (handler : Option ℕ) (q : List (Job K M)) (log : Log K M)
      → let r = default_remove_expired_items c handler q log in
        (r.1 ≡ keep (λ j. not (is_expired c j)) q) × (r.0 + length r.1 ≡ length q)
  unfolding default_remove_expired_items
  default_expired c handler q log = (
    retain_live-keep c handler q log,
    omega (
      arith,
      ap length (retain_live-keep c handler q log),
      length-keep-le (λ j. not (is_expired c j)) q,
    ),
  )

-- `DefaultQueue` meets the contract: it serves in the order of arrival.
unfoldable pub default_queue : {K M : Type 0} → Queue K M (List (Job K M))
default_queue = record {
  len = length;
  empty? = is_empty;
  pop_front = default_pop_front;
  discard_oldest = default_pop_front;
  peek = front;
  push_back = λ job q. some (default_push_back job q);
  remove_expired_items = default_remove_expired_items;
  is_job_discardable = λ key. true;
  jobs = λ q. q;
  len_jobs = λ q. refl;
  empty_jobs = λ q. refl;
  peek_jobs = λ q. refl;
  pop_jobs = default_pop-Pops;
  discard_jobs = default_pop-Takes;
  push_jobs = default_push-Puts;
  expired_jobs = default_expired;
}
