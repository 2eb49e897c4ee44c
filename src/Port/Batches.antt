-- ===== src/Port/Batches.antt =====
-- The port's task (`OutputPort::new` in ractor/src/port/output.rs) against one that takes a message at
-- a time.
use mathlib.Core.List.Perm
use ractor.Prelude.{
  ℕ, zero, suc, ◌≤◌, ◌<◌, ◌≡◌, refl, ap, subst, Bool, true, false, Option, none, some, List, [],
  ◌∷◌, ◌++◌, arith, take, drop, length, append-take-drop, length-drop-le, is_empty,
}
use ractor.Port.{
  Subscriber, Subscribers, OutportMessage, published, set_subscriber, dispatch_segment,
  dispatch_from, dispatch_batch, apply_taken, apply_subscriber, apply_replaced, replace_subscriber,
  push_subscriber, run_task, batch_limit,
}
use ractor.Port.Segments.{
  Same, Same-refl, Same-trans, dispatch_segment-Same, dispatch_segment-append,
}

module _ {I M R : Type 0} (dec : Discrete I) (duplicates : Bool) where
  -- Each published message goes to all subscribers before the next is looked at.
  unfoldable pub dispatch_each : List (OutportMessage I M R) → Subscribers I M R → Subscribers I M R
  dispatch_each [] p = p
  dispatch_each (published m ∷ ms) p = dispatch_each ms (dispatch_segment (m ∷ []) p)
  dispatch_each (set_subscriber taken ∷ ms) p =
      dispatch_each ms (apply_taken dec duplicates taken p)

module _ {I M R : Type 0} (dec : Discrete I) where
  push_subscriber-Same :
      (s : Subscriber I M R) (p q : Subscribers I M R)
      → Same p q
      → Same (push_subscriber s p) (push_subscriber s q)
  unfolding push_subscriber
  push_subscriber-Same s p q h = record {
    same_active = ap (λ ss. ss ++ (s ∷ [])) h.same_active;
    same_ended = h.same_ended;
  }

  apply_replaced-Same :
      (found : Option (List (Subscriber I M R) × Subscriber I M R)) (s : Subscriber I M R)
      (p q : Subscribers I M R)
      → Same p q
      → Same (apply_replaced dec found s p) (apply_replaced dec found s q)
  unfolding apply_replaced
  apply_replaced-Same none s p q h = push_subscriber-Same s p q h
  apply_replaced-Same (some (ts, old)) s p q h = record {
    same_active = refl;
    same_ended = Perm.append_right (old ∷ []) h.same_ended;
  }

  apply_subscriber-Same :
      (duplicates : Bool) (s : Subscriber I M R) (p q : Subscribers I M R)
      → Same p q
      → Same (apply_subscriber dec duplicates s p) (apply_subscriber dec duplicates s q)
  unfolding apply_subscriber
  apply_subscriber-Same true s p q h = push_subscriber-Same s p q h
  apply_subscriber-Same false s p q h =
      subst
        (λ ss.
          Same (apply_subscriber dec false s p)
            (apply_replaced dec (replace_subscriber dec s ss) s q))
        h.same_active (apply_replaced-Same (replace_subscriber dec s p.active) s p q h)

  apply_taken-Same :
      (duplicates : Bool) (taken : Option (Subscriber I M R)) (p q : Subscribers I M R)
      → Same p q
      → Same (apply_taken dec duplicates taken p) (apply_taken dec duplicates taken q)
  unfolding apply_taken
  apply_taken-Same duplicates none p q h = h
  apply_taken-Same duplicates (some s) p q h = apply_subscriber-Same duplicates s p q h

  dispatch_each-Same :
      (duplicates : Bool) (ms : List (OutportMessage I M R)) (p q : Subscribers I M R)
      → Same p q
      → Same (dispatch_each dec duplicates ms p) (dispatch_each dec duplicates ms q)
  unfolding dispatch_each
  dispatch_each-Same duplicates [] p q h = h
  dispatch_each-Same duplicates (published m ∷ ms) p q h =
      dispatch_each-Same duplicates ms _ _ (dispatch_segment-Same (m ∷ []) p q h)
  dispatch_each-Same duplicates (set_subscriber taken ∷ ms) p q h =
      dispatch_each-Same duplicates ms _ _ (apply_taken-Same duplicates taken p q h)

  dispatch_from-Same :
      (duplicates : Bool) (segment : List M) (ms : List (OutportMessage I M R))
      (p : Subscribers I M R)
      → Same
          (dispatch_from dec duplicates segment ms p)
          (dispatch_each dec duplicates ms (dispatch_segment segment p))
  unfolding dispatch_from dispatch_each apply_taken dispatch_segment
  dispatch_from-Same duplicates segment [] p = Same-refl _
  dispatch_from-Same duplicates segment (published m ∷ ms) p =
      Same-trans (dispatch_from-Same duplicates (segment ++ (m ∷ [])) ms p)
        (dispatch_each-Same duplicates ms _ _ (dispatch_segment-append segment (m ∷ []) p))
  dispatch_from-Same duplicates segment (set_subscriber taken ∷ ms) p =
      dispatch_from-Same duplicates [] ms
        (apply_taken dec duplicates taken (dispatch_segment segment p))

  dispatch_each-append :
      (duplicates : Bool) (xs ys : List (OutportMessage I M R)) (p : Subscribers I M R)
      → dispatch_each dec duplicates (xs ++ ys) p
        ≡ dispatch_each dec duplicates ys (dispatch_each dec duplicates xs p)
  unfolding dispatch_each
  dispatch_each-append duplicates [] ys p = refl
  dispatch_each-append duplicates (published m ∷ xs) ys p = dispatch_each-append duplicates xs ys _
  dispatch_each-append duplicates (set_subscriber taken ∷ xs) ys p =
      dispatch_each-append duplicates xs ys _

  pub dispatch_batch-Same :
      (duplicates : Bool) (batch : List (OutportMessage I M R)) (p : Subscribers I M R)
      → Same (dispatch_batch dec duplicates batch p) (dispatch_each dec duplicates batch p)
  unfolding dispatch_batch dispatch_segment
  dispatch_batch-Same duplicates batch p = dispatch_from-Same duplicates [] batch p

length-drop_pos :
    {A : Type 0} (n : ℕ) (xs : List A)
    → 1 ≤ n
    → is_empty xs ≡ false
    → length (drop n xs) < length xs
length-drop_pos (suc n) (x ∷ xs) h e = omega (arith, length-drop-le n xs)
length-drop_pos zero xs h e = absurd (omega arith)
length-drop_pos (suc n) [] h e = absurd (ground arith)

batch_limit_pos : (len : ℕ) → 1 ≤ batch_limit len
unfolding batch_limit
batch_limit_pos len = ground arith

-- A batch, and then the rest a message at a time.
batch_then :
    {I M R : Type 0} (dec : Discrete I) (duplicates : Bool) (limit : ℕ)
    (sent : List (OutportMessage I M R)) (p : Subscribers I M R)
    → Same
        (dispatch_each dec duplicates
          (drop limit sent)
          (dispatch_batch dec duplicates (take limit sent) p))
        (dispatch_each dec duplicates sent p)
batch_then dec duplicates limit sent p =
    subst
      (λ ms.
        Same
          (dispatch_each dec duplicates (drop limit sent)
            (dispatch_batch dec duplicates (take limit sent) p))
          (dispatch_each dec duplicates ms p))
      (append-take-drop limit sent)
      (rw (dispatch_each-append dec duplicates (take limit sent) (drop limit sent) p) (
        dispatch_each-Same dec duplicates (drop limit sent) _ _
          (dispatch_batch-Same dec duplicates (take limit sent) p)))

-- What the task has done once it has had as many turns as messages are sent, whatever the numbers that
-- it reads at each: it has taken them all, the subscribers are those of a task that takes a message at a
-- time, each with the same messages received in the same order, and the same ones were let go.
pub run_task-Same :
    {I M R : Type 0} (dec : Discrete I) (duplicates : Bool) (lens : List ℕ)
    (sent : List (OutportMessage I M R)) (p : Subscribers I M R)
    → length sent ≤ length lens
    → ((run_task dec duplicates lens sent p).0 ≡ [])
      × Same (run_task dec duplicates lens sent p).1 (dispatch_each dec duplicates sent p)
unfolding run_task dispatch_each
run_task-Same dec duplicates [] [] p h = (refl, Same-refl p)
run_task-Same dec duplicates [] (m ∷ sent) p h = absurd (omega arith)
run_task-Same dec duplicates (len ∷ lens) [] p h = (refl, Same-refl p)
run_task-Same dec duplicates (len ∷ lens) (m ∷ sent) p h =
    let limit = batch_limit len in
    let now = take limit (m ∷ sent) in
    let later = drop limit (m ∷ sent) in
    let rest =
      run_task-Same dec duplicates lens later (dispatch_batch dec duplicates now p)
        (omega (arith, length-drop_pos limit (m ∷ sent) (batch_limit_pos len) refl)) in
    (rest.0, Same-trans rest.1 (batch_then dec duplicates limit (m ∷ sent) p))
