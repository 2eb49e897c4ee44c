-- ===== src/Factory/Queues/Priority.antt =====
-- `PriorityQueue` of ractor/src/factory/queues.rs: one queue for each priority, 0 the highest.
pub mod Laws
pub mod Order
use ractor.Prelude.{
  ℕ, zero, suc, ◌+◌, ◌<◌, ◌≡◌, refl, sym, ap, ◌∙◌, Bool, true, false, not, ◌&&◌, Option, none, some,
  List, [], ◌∷◌, ◌++◌, keep, length, length-append, is_empty, if◌then◌else◌, arith, get_elem?, set,
  replicate, get_or, Option-cases, inl, inr,
}
use mathlib.Core.List.{append-nil, append_assoc}
use ractor.Factory.Job.{Clock, Job, is_expired}
use ractor.Factory.Discard.{DiscardReason}
use ractor.Factory.Effects.{Log, discard_job}
use ractor.Factory.Queues.Contract.{Queue, Pops, Takes, Puts, front}
use ractor.Factory.Queues.Default.{retain_live, retain_live-keep}

-- `Priority` and `PriorityManager`, which the program's user implements.
pub record PriorityManager (K P : Type 0) : Type 0 where
  pub get_index : P → ℕ
  pub default_priority : P
  pub is_discardable : K → Bool
  pub get_priority : K → Option P

pub data StandardPriority : Type 0 where
  highest high important normal best_effort : StandardPriority

unfoldable pub standard_get_index : StandardPriority → ℕ
standard_get_index highest = 0
standard_get_index high = 1
standard_get_index important = 2
standard_get_index normal = 3
standard_get_index best_effort = 4

-- `From<usize>`: a number out of range is the default priority.
unfoldable pub standard_from : ℕ → StandardPriority
standard_from zero = highest
standard_from (suc zero) = high
standard_from (suc (suc zero)) = important
standard_from (suc (suc (suc zero))) = normal
standard_from (suc (suc (suc (suc zero)))) = best_effort
standard_from _ = normal

-- `PriorityQueue::queues`; the manager is an argument of the operations that consult it.
abbrev pub PriorityQueue : Type 0 → Type 0 → Type 0
PriorityQueue K M = List (List (Job K M))

module _ {K M : Type 0} where
  -- `PriorityQueue::new`.
  unfoldable pub new_priority_queue : ℕ → PriorityQueue K M
  new_priority_queue num_priorities = replicate num_priorities []

  unfoldable pub priority_len : PriorityQueue K M → ℕ
  priority_len [] = 0
  priority_len (q ∷ qs) = length q + priority_len qs

  unfoldable pub priority_is_empty : PriorityQueue K M → Bool
  priority_is_empty [] = true
  priority_is_empty (q ∷ qs) = is_empty q && priority_is_empty qs

  -- Put a queue that was passed over back in front.
  unfoldable pub passing :
      List (Job K M) → Option (Job K M × PriorityQueue K M) → Option (Job K M × PriorityQueue K M)
  passing q none = none
  passing q (some (job, qs)) = some (job, q ∷ qs)

  -- The first queue that is not empty, from the highest priority.
  unfoldable pub priority_pop_front : PriorityQueue K M → Option (Job K M × PriorityQueue K M)
  priority_pop_front [] = none
  priority_pop_front ([] ∷ qs) = passing [] (priority_pop_front qs)
  priority_pop_front ((job ∷ q) ∷ qs) = some (job, q ∷ qs)

  unfoldable pub pop_own : List (Job K M) → PriorityQueue K M → Option (Job K M × PriorityQueue K M)
  pop_own [] qs = none
  pop_own (job ∷ q) qs = some (job, q ∷ qs)

  unfoldable pub lowest_or :
      List (Job K M)
      → PriorityQueue K M
      → Option (Job K M × PriorityQueue K M)
      → Option (Job K M × PriorityQueue K M)
  lowest_or q qs none = pop_own q qs
  lowest_or q qs (some (job, qs')) = some (job, q ∷ qs')

  -- The first queue that is not empty, from the lowest priority.
  unfoldable pub priority_discard_oldest : PriorityQueue K M → Option (Job K M × PriorityQueue K M)
  priority_discard_oldest [] = none
  priority_discard_oldest (q ∷ qs) = lowest_or q qs (priority_discard_oldest qs)

  unfoldable pub priority_peek : PriorityQueue K M → Option (Job K M)
  priority_peek [] = none
  priority_peek ([] ∷ qs) = priority_peek qs
  priority_peek ((job ∷ q) ∷ qs) = some job

  -- Indexing panics where the priority is out of range.
  unfoldable pub priority_push_back :
      {P : Type 0} → PriorityManager K P → Job K M → PriorityQueue K M → Option (PriorityQueue K M)
  priority_push_back manager job qs =
      let idx =
        manager.get_index (get_or (manager.get_priority job.key) manager.default_priority) in
      elim (get_elem? qs idx) [ none ↦ none | some q ↦ some (set qs idx (q ++ job ∷ [])) ]

  -- `retain_mut` over one queue, beside the number of the removed jobs.
  unfoldable pub retain_counting :
      Clock → Option ℕ → ℕ → List (Job K M) → Log K M → ℕ × List (Job K M) × Log K M
  retain_counting c handler num_removed [] log = (num_removed, [], log)
  retain_counting c handler num_removed (job ∷ queue) log =
      let gone = is_expired c job in
      let (removed, rest, log') =
        retain_counting c handler (if gone then num_removed + 1 else num_removed) queue
          (if gone then discard_job handler DiscardReason.ttl_expired job log else log) in
      (removed, if gone then rest else job ∷ rest, log')

  unfoldable pub remove_expired_from :
      Clock → Option ℕ → ℕ → PriorityQueue K M → Log K M → ℕ × PriorityQueue K M × Log K M
  remove_expired_from c handler num_removed [] log = (num_removed, [], log)
  remove_expired_from c handler num_removed (q ∷ qs) log =
      let (removed, live, log') = retain_counting c handler num_removed q log in
      let (removed', qs', log'') = remove_expired_from c handler removed qs log' in
      (removed', live ∷ qs', log'')

  unfoldable pub priority_remove_expired_items :
      Clock → Option ℕ → PriorityQueue K M → Log K M → ℕ × PriorityQueue K M × Log K M
  priority_remove_expired_items c handler qs log = remove_expired_from c handler 0 qs log
