-- ===== src/Factory/Queues/Priority/Order.antt =====
-- Which of the queues of a `PriorityQueue` (ractor/src/factory/queues.rs) serves, sheds and takes.
use ractor.Prelude.{
  ℕ, zero, suc, ◌<◌, ◌≡◌, refl, sym, eq_of_some, ap, Option, none, some, List, [], ◌∷◌, ◌++◌,
  length, arith, get_elem?, set, get_or, length-set,
}
use ractor.Factory.Job.{Job}
use ractor.Factory.Queues.Priority.{
  PriorityManager, StandardPriority, highest, high, important, normal, best_effort, PriorityQueue,
  standard_get_index, standard_from, passing, priority_pop_front, pop_own, lowest_or,
  priority_discard_oldest, priority_push_back,
}

abbrev pub Higher : ℕ → ℕ → Type 0
Higher i idx = i < idx

abbrev pub Lower : ℕ → ℕ → Type 0
Lower i idx = idx < i

module _ {K M : Type 0} where
  -- The job is the oldest of the queue at `idx`, all else stays, and every queue that `Above`
  -- names is empty.
  pub record Serves (Above : ℕ → ℕ → Type 0) (qs : PriorityQueue K M) (job : Job K M)
      (qs' : PriorityQueue K M) : Type 0 where
    pub idx : ℕ
    pub rest : List (Job K M)
    pub from : get_elem? qs idx ≡ some (job ∷ rest)
    pub left : qs' ≡ set qs idx rest
    pub empty_above : (i : ℕ) (q : List (Job K M)) → Above i idx → get_elem? qs i ≡ some q → q ≡ []

  abbrev pub AllEmpty : PriorityQueue K M → Type 0
  AllEmpty qs = (i : ℕ) (q : List (Job K M)) → get_elem? qs i ≡ some q → q ≡ []

  AllEmpty-nil : AllEmpty []
  AllEmpty-nil i q e = cc

  AllEmpty-cons : (qs : PriorityQueue K M) → AllEmpty qs → AllEmpty ([] ∷ qs)
  AllEmpty-cons qs h zero q e = sym (eq_of_some e)
  AllEmpty-cons qs h (suc i) q e = h i q e

  abbrev pub ServedBy :
      (ℕ → ℕ → Type 0) → PriorityQueue K M → Option (Job K M × PriorityQueue K M) → Type 0
  ServedBy Above qs none = AllEmpty qs
  ServedBy Above qs (some (job, qs')) = Serves Above qs job qs'

  passing-ServedBy :
      (qs : PriorityQueue K M) (r : Option (Job K M × PriorityQueue K M))
      → ServedBy Higher qs r
      → ServedBy Higher ([] ∷ qs) (passing [] r)
  unfolding passing
  passing-ServedBy qs none h = AllEmpty-cons qs h
  passing-ServedBy qs (some (job, qs')) s = record {
    idx = suc s.idx;
    rest = s.rest;
    from = s.from;
    left = ap (◌∷◌ []) s.left;
    empty_above = above;
  }
    where
      above : (i : ℕ) (q : List (Job K M)) → i < suc s.idx → get_elem? ([] ∷ qs) i ≡ some q → q ≡ []
      above zero q lt e = sym (eq_of_some e)
      above (suc i) q lt e = s.empty_above i q (omega arith) e

  -- `pop_front` serves the oldest job of the highest priority that has any, and changes no other
  -- queue; it serves none exactly where every queue is empty.
  pub priority_pop_front-ServedBy :
      (qs : PriorityQueue K M) → ServedBy Higher qs (priority_pop_front qs)
  unfolding priority_pop_front
  priority_pop_front-ServedBy [] = AllEmpty-nil
  priority_pop_front-ServedBy ([] ∷ qs) =
      passing-ServedBy qs (priority_pop_front qs) (priority_pop_front-ServedBy qs)
  priority_pop_front-ServedBy ((j ∷ q) ∷ qs) = record {
    idx = 0;
    rest = q;
    from = refl;
    left = refl;
    empty_above = λ i q' lt e. absurd (omega arith);
  }

  lowest_or-ServedBy :
      (q : List (Job K M)) (qs : PriorityQueue K M) (r : Option (Job K M × PriorityQueue K M))
      → ServedBy Lower qs r
      → ServedBy Lower (q ∷ qs) (lowest_or q qs r)
  unfolding lowest_or pop_own
  lowest_or-ServedBy [] qs none h = AllEmpty-cons qs h
  lowest_or-ServedBy (j ∷ q) qs none h = record {
    idx = 0;
    rest = q;
    from = refl;
    left = refl;
    empty_above = above;
  }
    where
      above : (i : ℕ) (q' : List (Job K M)) → 0 < i → get_elem? ((j ∷ q) ∷ qs) i ≡ some q' → q' ≡ []
      above zero q' lt e = absurd (omega arith)
      above (suc i) q' lt e = h i q' e
  lowest_or-ServedBy q qs (some (job, qs')) s = record {
    idx = suc s.idx;
    rest = s.rest;
    from = s.from;
    left = ap (◌∷◌ q) s.left;
    empty_above = above;
  }
    where
      above :
          (i : ℕ) (q' : List (Job K M)) → suc s.idx < i → get_elem? (q ∷ qs) i ≡ some q' → q' ≡ []
      above zero q' lt e = absurd (omega arith)
      above (suc i) q' lt e = s.empty_above i q' (omega arith) e

  -- `discard_oldest` sheds the oldest job of the lowest priority that has any, and changes no other
  -- queue; it sheds none exactly where every queue is empty.
  pub priority_discard_oldest-ServedBy :
      (qs : PriorityQueue K M) → ServedBy Lower qs (priority_discard_oldest qs)
  unfolding priority_discard_oldest
  priority_discard_oldest-ServedBy [] = AllEmpty-nil
  priority_discard_oldest-ServedBy (q ∷ qs) =
      lowest_or-ServedBy q qs (priority_discard_oldest qs) (priority_discard_oldest-ServedBy qs)

  get_elem?_total :
      (qs : PriorityQueue K M) (i : ℕ)
      → i < length qs
      → (q : List (Job K M)) × (get_elem? qs i ≡ some q)
  get_elem?_total [] i h = elim h [ ]
  get_elem?_total (q ∷ qs) zero h = (q, refl)
  get_elem?_total (q ∷ qs) (suc i) h = get_elem?_total qs i (omega arith)

  -- `push_back` does not panic where the job's priority, the default for a job that has none, is
  -- within the queue's number of priorities; the number of priorities stays.
  pub priority_push_back_total :
      {P : Type 0} (manager : PriorityManager K P) (job : Job K M) (qs : PriorityQueue K M)
      → manager.get_index (get_or (manager.get_priority job.key) manager.default_priority)
        < length qs
      → (qs' : PriorityQueue K M) × (priority_push_back manager job qs ≡ some qs')
        × (length qs' ≡ length qs)
  unfolding priority_push_back
  priority_push_back_total manager job qs h =
      let idx =
        manager.get_index (get_or (manager.get_priority job.key) manager.default_priority) in
      let (q, e) = get_elem?_total qs idx h in
      let qs' = set qs idx (q ++ job ∷ []) in
      (qs', rw (e, priority_push_back), length-set qs idx (q ++ job ∷ []))

-- The five standard priorities are numbered from 0 without a gap, and read back.
pub standard_from-get_index :
    (p : StandardPriority) → (standard_from (standard_get_index p) ≡ p) × (standard_get_index p < 5)
unfolding standard_from standard_get_index
standard_from-get_index highest = (refl, omega arith)
standard_from-get_index high = (refl, omega arith)
standard_from-get_index important = (refl, omega arith)
standard_from-get_index normal = (refl, omega arith)
standard_from-get_index best_effort = (refl, omega arith)
