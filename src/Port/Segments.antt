-- ===== src/Port/Segments.antt =====
-- A segment of a batch (`dispatch_batch` in ractor/src/port/output.rs) may be cut: its parts one after
-- the other do what it does at once, up to the order in which subscribers are let go.
use mathlib.Core.List.{Perm, perm_middle, append_assoc, append-nil}
use mathlib.Core.List.Perm
use ractor.Prelude.{
  ◌≡◌, refl, ap, ◌∙◌, inl, inr, List, [], ◌∷◌, ◌++◌, if◌then◌else◌, arith, Bool-cases,
}
use ractor.Port.{Subscriber, Subscribers, send, serve, serve_all, dispatch_segment}

module _ {I M R : Type 0} where
  pub serve-append :
      (xs ys : List M) (s : Subscriber I M R)
      → serve (xs ++ ys) s ≡ (if (serve xs s).1 then serve ys (serve xs s).0 else serve xs s)
  unfolding serve
  serve-append [] ys s = refl
  serve-append (x ∷ xs) ys s = ground (arith, serve-append xs ys (send x s).0)

  pub active-append :
      (xs ys : List M) (ss : List (Subscriber I M R))
      → (serve_all (xs ++ ys) ss).active ≡ (serve_all ys (serve_all xs ss).active).active
  unfolding serve_all
  active-append xs ys [] = refl
  active-append xs ys (s ∷ ss) = ground (arith, active-append xs ys ss, serve-append xs ys s)

  pub serve_all-nil : (ss : List (Subscriber I M R)) → (serve_all [] ss).active ≡ ss
  unfolding serve_all serve
  serve_all-nil [] = refl
  serve_all-nil (s ∷ ss) = ap (◌∷◌ s) (serve_all-nil ss)

  pub ended-nil : (ss : List (Subscriber I M R)) → (serve_all [] ss).ended ≡ []
  unfolding serve_all serve
  ended-nil [] = refl
  ended-nil (s ∷ ss) = ended-nil ss

  pub ended-append :
      (xs ys : List M) (ss : List (Subscriber I M R))
      → Perm
          (serve_all (xs ++ ys) ss).ended
          ((serve_all xs ss).ended ++ (serve_all ys (serve_all xs ss).active).ended)
  unfolding serve_all
  ended-append xs ys [] = Perm.nil
  ended-append xs ys (s ∷ ss) = rw (serve-append xs ys s) (elim (Bool-cases (serve xs s).1) [
    | inr h ↦ rw h (Perm.cons (serve xs s).0 (ended-append xs ys ss))
    | inl h ↦ rw h (elim (Bool-cases (serve ys (serve xs s).0).1) [
      | inl k ↦ rw k (ended-append xs ys ss)
      | inr k ↦ rw k (
          Perm.trans (Perm.cons _ (ended-append xs ys ss))
            (Perm.symm (perm_middle (serve_all xs ss).ended _)))
    ])
  ])

-- The same subscribers in the same order, and the same ones let go.
pub record Same {I M R : Type 0} (p q : Subscribers I M R) : Type 0 where
  pub same_active : p.active ≡ q.active
  pub same_ended : Perm p.ended q.ended

module _ {I M R : Type 0} where
  pub Same-refl : (p : Subscribers I M R) → Same p p
  Same-refl p = record { same_active = refl; same_ended = Perm.refl p.ended }

  pub Same-trans : {p q r : Subscribers I M R} → Same p q → Same q r → Same p r
  Same-trans h k = record {
    same_active = h.same_active ∙ k.same_active;
    same_ended = Perm.trans h.same_ended k.same_ended;
  }

  -- Without the test for an empty segment.
  pub dispatch_segment-serve_all :
      (ms : List M) (p : Subscribers I M R)
      → dispatch_segment ms p ≡ record {
        active = (serve_all ms p.active).active;
        ended = p.ended ++ (serve_all ms p.active).ended;
      }
  unfolding dispatch_segment
  dispatch_segment-serve_all [] p =
      ground (arith, serve_all-nil p.active, ended-nil p.active, append-nil p.ended)
  dispatch_segment-serve_all (m ∷ ms) p = refl

  pub dispatch_segment-Same :
      (ms : List M) (p q : Subscribers I M R)
      → Same p q
      → Same (dispatch_segment ms p) (dispatch_segment ms q)
  dispatch_segment-Same ms p q h =
      rw (dispatch_segment-serve_all ms p, dispatch_segment-serve_all ms q, h.same_active)
        (record {
          same_active = refl;
          same_ended = Perm.append_right (serve_all ms q.active).ended h.same_ended;
        })

  pub dispatch_segment-append :
      (xs ys : List M) (p : Subscribers I M R)
      → Same (dispatch_segment (xs ++ ys) p) (dispatch_segment ys (dispatch_segment xs p))
  dispatch_segment-append xs ys p =
      rw
        (
          dispatch_segment-serve_all (xs ++ ys) p,
          dispatch_segment-serve_all xs p,
          dispatch_segment-serve_all ys,
        )
        (record {
          same_active = active-append xs ys p.active;
          same_ended = rw append_assoc (Perm.append_left p.ended (ended-append xs ys p.active));
        })
