-- ===== src/Factory/Queues/Priority/Laws.antt =====
-- `PriorityQueue` of ractor/src/factory/queues.rs meets the contract of a queue.
use ractor.Prelude.{
  ℕ, zero, suc, ◌+◌, ◌≡◌, refl, sym, ap, ◌∙◌, Bool, not, Option, none, some, List, [], ◌∷◌, ◌++◌,
  keep, length, length-append, is_empty, arith, get_elem?, set, get_or, eq_of_some, Option-cases,
  Bool-cases, ap₂, inl, inr,
}
use mathlib.Core.List.{append_assoc}
use ractor.Factory.Job.{Clock, Job, is_expired}
use ractor.Factory.Discard.{DiscardReason}
use ractor.Factory.Effects.{Log, discard_job}
use ractor.Factory.Queues.Contract.{Queue, Pops, Takes, Puts, front}
use ractor.Factory.Queues.Priority.{
  PriorityManager, PriorityQueue, priority_len, priority_is_empty, passing, priority_pop_front,
  pop_own, lowest_or, priority_discard_oldest, priority_peek, priority_push_back, retain_counting,
  remove_expired_from, priority_remove_expired_items,
}

module _ {K M : Type 0} where
  -- All jobs in the order of service.
  unfoldable pub all_jobs : PriorityQueue K M → List (Job K M)
  all_jobs [] = []
  all_jobs (q ∷ qs) = q ++ all_jobs qs

  pub priority_len-all_jobs : (qs : PriorityQueue K M) → priority_len qs ≡ length (all_jobs qs)
  unfolding priority_len all_jobs
  priority_len-all_jobs [] = refl
  priority_len-all_jobs (q ∷ qs) =
      omega (arith, length-append q (all_jobs qs), priority_len-all_jobs qs)

  pub priority_is_empty-all_jobs :
      (qs : PriorityQueue K M) → priority_is_empty qs ≡ is_empty (all_jobs qs)
  unfolding priority_is_empty all_jobs
  priority_is_empty-all_jobs [] = refl
  priority_is_empty-all_jobs ([] ∷ qs) = priority_is_empty-all_jobs qs
  priority_is_empty-all_jobs ((j ∷ q) ∷ qs) = refl

  pub priority_peek-all_jobs : (qs : PriorityQueue K M) → priority_peek qs ≡ front (all_jobs qs)
  unfolding priority_peek all_jobs
  priority_peek-all_jobs [] = refl
  priority_peek-all_jobs ([] ∷ qs) = priority_peek-all_jobs qs
  priority_peek-all_jobs ((j ∷ q) ∷ qs) = refl

  passing-Pops :
      (qs : PriorityQueue K M) (r : Option (Job K M × PriorityQueue K M))
      → Pops all_jobs qs r
      → Pops all_jobs ([] ∷ qs) (passing [] r)
  unfolding passing all_jobs
  passing-Pops qs none h = h
  passing-Pops qs (some (job, qs')) h = h

  pub priority_pop-Pops : (qs : PriorityQueue K M) → Pops all_jobs qs (priority_pop_front qs)
  unfolding priority_pop_front all_jobs
  priority_pop-Pops [] = refl
  priority_pop-Pops ([] ∷ qs) = passing-Pops qs (priority_pop_front qs) (priority_pop-Pops qs)
  priority_pop-Pops ((j ∷ q) ∷ qs) = refl

  lowest_or-Takes :
      (q : List (Job K M)) (qs : PriorityQueue K M) (r : Option (Job K M × PriorityQueue K M))
      → Takes all_jobs qs r
      → Takes all_jobs (q ∷ qs) (lowest_or q qs r)
  unfolding lowest_or pop_own all_jobs
  lowest_or-Takes [] qs none h = h
  lowest_or-Takes (j ∷ q) qs none h = ([], q ++ all_jobs qs, refl, refl)
  lowest_or-Takes q qs (some (job, qs')) (before, after, e, e') = (
    q ++ before,
    after,
    ap (◌++◌ q) e ∙ sym (append_assoc q before (job ∷ after)),
    ap (◌++◌ q) e' ∙ sym (append_assoc q before after),
  )

  pub priority_discard-Takes :
      (qs : PriorityQueue K M) → Takes all_jobs qs (priority_discard_oldest qs)
  unfolding priority_discard_oldest all_jobs
  priority_discard-Takes [] = refl
  priority_discard-Takes (q ∷ qs) =
      lowest_or-Takes q qs (priority_discard_oldest qs) (priority_discard-Takes qs)

  -- A job put at the end of one of the queues.
  set-Puts :
      (qs : PriorityQueue K M) (idx : ℕ) (q : List (Job K M)) (job : Job K M)
      → get_elem? qs idx ≡ some q
      → Puts all_jobs job qs (some (set qs idx (q ++ job ∷ [])))
  unfolding all_jobs
  set-Puts [] idx q job e = cc
  set-Puts (q' ∷ qs) zero q job e = (
    q,
    all_jobs qs,
    ap (λ x. x ++ all_jobs qs) (eq_of_some e),
    append_assoc q (job ∷ []) (all_jobs qs),
  )
  set-Puts (q' ∷ qs) (suc idx) q job e =
      let (before, after, old, new) = set-Puts qs idx q job e in
      (
        q' ++ before,
        after,
        ap (◌++◌ q') old ∙ sym (append_assoc q' before after),
        ap (◌++◌ q') new ∙ sym (append_assoc q' before (job ∷ after)),
      )

  pub priority_push-Puts :
      {P : Type 0} (manager : PriorityManager K P) (job : Job K M) (qs : PriorityQueue K M)
      → Puts all_jobs job qs (priority_push_back manager job qs)
  unfolding priority_push_back
  priority_push-Puts manager job qs = elim (Option-cases (get_elem? qs idx)) [
    | inl e ↦ rw (e, priority_push_back) tt
    | inr (q, e) ↦ rw (e, priority_push_back) (set-Puts qs idx q job e)
  ]
    where
      idx : ℕ
      idx = manager.get_index (get_or (manager.get_priority job.key) manager.default_priority)

  keep-append :
      (p : Job K M → Bool) (xs ys : List (Job K M)) → keep p (xs ++ ys) ≡ keep p xs ++ keep p ys
  keep-append p [] ys = refl
  keep-append p (x ∷ xs) ys = ground (arith, keep-append p xs ys)

  -- The jobs that stay, and how many went.
  abbrev Kept : Clock → ℕ → List (Job K M) → ℕ → List (Job K M) → Type 0
  Kept c before all removed live =
      (live ≡ keep (λ j. not (is_expired c j)) all) × (removed + length live ≡ before + length all)

  retain_counting-Kept :
      (c : Clock) (handler : Option ℕ) (n : ℕ) (q : List (Job K M)) (log : Log K M)
      → let r = retain_counting c handler n q log in Kept c n q r.0 r.1
  unfolding retain_counting
  retain_counting-Kept c handler n [] log = (refl, refl)
  retain_counting-Kept c handler n (job ∷ q) log = elim (Bool-cases (is_expired c job)) [
    | inl e ↦
        let ih =
          retain_counting-Kept c handler (n + 1) q
            (discard_job handler DiscardReason.ttl_expired job log) in
        rw e (ih.0, omega (arith, ih.1))
    | inr e ↦
        let ih = retain_counting-Kept c handler n q log in
        rw e (ap (◌∷◌ job) ih.0, omega (arith, ih.1))
  ]

  remove_expired-Kept :
      (c : Clock) (handler : Option ℕ) (n : ℕ) (qs : PriorityQueue K M) (log : Log K M)
      → let r = remove_expired_from c handler n qs log in Kept c n (all_jobs qs) r.0 (all_jobs r.1)
  unfolding remove_expired_from all_jobs
  remove_expired-Kept c handler n [] log = (refl, refl)
  remove_expired-Kept c handler n (q ∷ qs) log =
      let first = retain_counting c handler n q log in
      let own = retain_counting-Kept c handler n q log in
      let others = remove_expired-Kept c handler first.0 qs first.2 in
      let rest = remove_expired_from c handler first.0 qs first.2 in
      (
        ap₂ ◌++◌ own.0 others.0 ∙ sym (keep-append (λ j. not (is_expired c j)) q (all_jobs qs)),
        omega (
          arith,
          own.1,
          others.1,
          length-append q (all_jobs qs),
          length-append first.1 (all_jobs rest.1),
        ),
      )

  pub priority_expired :
      (c : Clock) (handler : Option ℕ) (qs : PriorityQueue K M) (log : Log K M)
      → let r = priority_remove_expired_items c handler qs log in
        (all_jobs r.1 ≡ keep (λ j. not (is_expired c j)) (all_jobs qs))
        × (r.0 + length (all_jobs r.1) ≡ length (all_jobs qs))
  unfolding priority_remove_expired_items
  priority_expired c handler qs log =
      let k = remove_expired-Kept c handler 0 qs log in (k.0, omega (arith, k.1))

  -- `PriorityQueue` meets the contract, for every priority manager.
  unfoldable pub priority_queue : {P : Type 0} → PriorityManager K P → Queue K M (PriorityQueue K M)
  priority_queue manager = record {
    len = priority_len;
    empty? = priority_is_empty;
    pop_front = priority_pop_front;
    discard_oldest = priority_discard_oldest;
    peek = priority_peek;
    push_back = priority_push_back manager;
    remove_expired_items = priority_remove_expired_items;
    is_job_discardable = manager.is_discardable;
    jobs = all_jobs;
    len_jobs = priority_len-all_jobs;
    empty_jobs = priority_is_empty-all_jobs;
    peek_jobs = priority_peek-all_jobs;
    pop_jobs = priority_pop-Pops;
    discard_jobs = priority_discard-Takes;
    push_jobs = priority_push-Puts manager;
    expired_jobs = priority_expired;
  }
