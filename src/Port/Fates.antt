-- ===== src/Port/Fates.antt =====
-- What a port of ractor/src/port/output.rs owes to each subscription, told from what is sent to the port
-- alone, where an actor may subscribe more than once, as with `OutputPort::default`.
use mathlib.Core.List.{append_assoc, append-nil}
use mathlib.Core.List.Perm
use ractor.Prelude.{
  ℕ, ◌≤◌, ◌≡◌, refl, ap, sym, subst, Bool, true, none, some, List, [], ◌∷◌, ◌++◌, if◌then◌else◌,
  arith, length,
}
use ractor.Port.{
  Subscriber, Subscribers, OutportMessage, published, set_subscriber, serve, serve_all,
  dispatch_segment, apply_taken, apply_subscriber, push_subscriber, run_task, no_subscribers,
}
use ractor.Port.Segments.{
  Same, Same-refl, Same-trans, active-append, ended-append, serve_all-nil, ended-nil,
}
use ractor.Port.Batches.{dispatch_each, run_task-Same}

module _ {I M R : Type 0} where
  abbrev pub all_published : List (OutportMessage I M R) → List M
  all_published [] = []
  all_published (published m ∷ ms) = m ∷ all_published ms
  all_published (set_subscriber taken ∷ ms) = all_published ms

  -- Each subscriber takes, in order, what is published after it came, up to the first message that its
  -- actor does not take; it stays exactly if there is none.
  unfoldable pub fates : List (OutportMessage I M R) → Subscribers I M R
  fates [] = no_subscribers
  fates (published m ∷ ms) = fates ms
  fates (set_subscriber none ∷ ms) = fates ms
  fates (set_subscriber (some s) ∷ ms) =
      let served : Subscriber I M R × Bool = serve (all_published ms) s in
      let rest : Subscribers I M R = fates ms in
      record {
        active = if served.1 then served.0 ∷ rest.active else rest.active;
        ended = if served.1 then rest.ended else served.0 ∷ rest.ended;
      }

  active_both :
      (ms : List M) (ss ts : List (Subscriber I M R))
      → (serve_all ms (ss ++ ts)).active ≡ (serve_all ms ss).active ++ (serve_all ms ts).active
  unfolding serve_all
  active_both ms [] ts = refl
  active_both ms (s ∷ ss) ts = ground (arith, active_both ms ss ts)

  ended_both :
      (ms : List M) (ss ts : List (Subscriber I M R))
      → (serve_all ms (ss ++ ts)).ended ≡ (serve_all ms ss).ended ++ (serve_all ms ts).ended
  unfolding serve_all
  ended_both ms [] ts = refl
  ended_both ms (s ∷ ss) ts = ground (arith, ended_both ms ss ts)

  -- Those that are there already take what is published, then come the fates of the others.
  served_then : List (OutportMessage I M R) → Subscribers I M R → Subscribers I M R
  served_then ms p = record {
    active = (serve_all (all_published ms) p.active).active ++ (fates ms).active;
    ended = p.ended ++ (serve_all (all_published ms) p.active).ended ++ (fates ms).ended;
  }

  served_then_nil : (p : Subscribers I M R) → served_then [] p ≡ p
  unfolding served_then fates
  served_then_nil p =
      ground
        (arith, serve_all-nil p.active, ended-nil p.active, append-nil p.active, append-nil p.ended)

  served_then_published :
      (m : M) (ms : List (OutportMessage I M R)) (p : Subscribers I M R)
      → Same (served_then ms (dispatch_segment (m ∷ []) p)) (served_then (published m ∷ ms) p)
  unfolding served_then dispatch_segment fates
  served_then_published m ms p = record {
    same_active =
        ap (λ ss. ss ++ (fates ms).active)
          (sym (active-append (m ∷ []) (all_published ms) p.active));
    same_ended = Perm.append_right (fates ms).ended (
        rw append_assoc (
          Perm.append_left p.ended
            (Perm.symm (ended-append (m ∷ []) (all_published ms) p.active))));
  }

  served_then_subscriber :
      (s : Subscriber I M R) (ms : List (OutportMessage I M R)) (p : Subscribers I M R)
      → served_then ms (push_subscriber s p) ≡ served_then (set_subscriber (some s) ∷ ms) p
  unfolding served_then push_subscriber fates serve_all
  served_then_subscriber s ms p = ground (
    arith,
    active_both (all_published ms) p.active (s ∷ []),
    ended_both (all_published ms) p.active (s ∷ []),
    append_assoc (serve_all (all_published ms) p.active).active
        (serve_all (all_published ms) (s ∷ [])).active (fates ms).active,
    append_assoc p.ended (serve_all (all_published ms) p.active).ended
        (serve_all (all_published ms) (s ∷ [])).ended,
    append_assoc (p.ended ++ (serve_all (all_published ms) p.active).ended)
        (serve_all (all_published ms) (s ∷ [])).ended (fates ms).ended,
  )

  dispatch_each-served_then :
      (dec : Discrete I) (ms : List (OutportMessage I M R)) (p : Subscribers I M R)
      → Same (dispatch_each dec true ms p) (served_then ms p)
  unfolding dispatch_each apply_taken apply_subscriber served_then fates
  dispatch_each-served_then dec [] p = subst (Same p) (sym (served_then_nil p)) (Same-refl p)
  dispatch_each-served_then dec (published m ∷ ms) p =
      Same-trans (dispatch_each-served_then dec ms _) (served_then_published m ms p)
  dispatch_each-served_then dec (set_subscriber none ∷ ms) p = dispatch_each-served_then dec ms p
  dispatch_each-served_then dec (set_subscriber (some s) ∷ ms) p =
      subst (Same _) (served_then_subscriber s ms p)
        (dispatch_each-served_then dec ms (push_subscriber s p))

-- On a port as `OutputPort::default` makes it, once the task has had as many turns as messages are sent,
-- whatever the numbers that it reads: each subscription has received, in order, the conversions of what
-- was published after it came, up to the first message that its actor did not take; those whose
-- actors took all are the subscribers, in order, and the others were let go.
pub run_task-fates :
    {I M R : Type 0} (dec : Discrete I) (lens : List ℕ) (sent : List (OutportMessage I M R))
    → length sent ≤ length lens
    → Same (run_task dec true lens sent no_subscribers).1 (fates sent)
unfolding served_then serve_all
run_task-fates dec lens sent h =
    Same-trans (run_task-Same dec true lens sent no_subscribers h).1
      (dispatch_each-served_then dec sent no_subscribers)
