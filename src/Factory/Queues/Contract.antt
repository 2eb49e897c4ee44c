-- ===== src/Factory/Queues/Contract.antt =====
-- The trait `Queue` of ractor/src/factory/queues.rs as an interface: its operations, and the laws
-- that the factory relies on. They are stated of `jobs`, the queued jobs in the order of service.
use ractor.Prelude.{
  ℕ, ◌+◌, ◌≡◌, Bool, not, Option, none, some, List, [], ◌∷◌, ◌++◌, keep, length, is_empty,
}
use ractor.Factory.Job.{Clock, Job, is_expired}
use ractor.Factory.Effects.{Log}

module _ {K M : Type 0} where
  abbrev pub front : List (Job K M) → Option (Job K M)
  front [] = none
  front (j ∷ js) = some j

  -- A queue that gives up one job: from the front, or from anywhere.
  module _ {Q : Type 0} (jobs : Q → List (Job K M)) where
    abbrev pub Pops : Q → Option (Job K M × Q) → Type 0
    Pops q none = jobs q ≡ []
    Pops q (some (job, q')) = jobs q ≡ job ∷ jobs q'

    abbrev pub Takes : Q → Option (Job K M × Q) → Type 0
    Takes q none = jobs q ≡ []
    Takes q (some (job, q')) =
        (before : List (Job K M)) × (after : List (Job K M)) × (jobs q ≡ before ++ job ∷ after)
        × (jobs q' ≡ before ++ after)

    -- A queue that takes one job in, or panics.
    abbrev pub Puts : Job K M → Q → Option Q → Type 0
    Puts job q none = Unit
    Puts job q (some q') =
        (before : List (Job K M)) × (after : List (Job K M)) × (jobs q ≡ before ++ after)
        × (jobs q' ≡ before ++ job ∷ after)

-- `push_back` is none where it panics, on a priority out of range.
pub record Queue (K M Q : Type 0) : Type 0 where
  pub len : Q → ℕ
  pub empty? : Q → Bool
  pub pop_front : Q → Option (Job K M × Q)
  pub discard_oldest : Q → Option (Job K M × Q)
  pub peek : Q → Option (Job K M)
  pub push_back : Job K M → Q → Option Q
  pub remove_expired_items : Clock → Option ℕ → Q → Log K M → ℕ × Q × Log K M
  pub is_job_discardable : K → Bool
  pub jobs : Q → List (Job K M)
  pub len_jobs : (q : Q) → len q ≡ length (jobs q)
  pub empty_jobs : (q : Q) → empty? q ≡ is_empty (jobs q)
  pub peek_jobs : (q : Q) → peek q ≡ front (jobs q)
  pub pop_jobs : (q : Q) → Pops jobs q (pop_front q)
  pub discard_jobs : (q : Q) → Takes jobs q (discard_oldest q)
  pub push_jobs : (job : Job K M) (q : Q) → Puts jobs job q (push_back job q)
  pub expired_jobs :
      (c : Clock) (handler : Option ℕ) (q : Q) (log : Log K M)
      → let r = remove_expired_items c handler q log in
        (jobs r.1 ≡ keep (λ j. not (is_expired c j)) (jobs q))
        × (r.0 + length (jobs r.1) ≡ length (jobs q))
