-- ===== src/Tests/Queues.antt =====
-- Queues.
use ractor.Prelude.{ℕ, true, none, [], ◌∷◌}
use ractor.Factory.Queues.Priority.{PriorityManager, PriorityQueue, priority_pop_front}
use ractor.Factory.Queues.Priority.Order.{ServedBy, Higher, priority_pop_front-ServedBy}
use ractor.Tests.Data.{job, stale_job}

abbrev manager : PriorityManager ℕ ℕ
manager = record {
  get_index = λ p. p;
  default_priority = 1;
  is_discardable = λ key. true;
  get_priority = λ key. none;
}

abbrev three : PriorityQueue ℕ ℕ
three = [] ∷ (job 5 1 ∷ stale_job 6 2 ∷ []) ∷ (job 7 3 ∷ []) ∷ []

priority_pop_front-ServedBy_example : ServedBy Higher three (priority_pop_front three)
priority_pop_front-ServedBy_example = priority_pop_front-ServedBy three
