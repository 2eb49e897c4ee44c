-- ===== src/Actor/Supervision/Terminated.antt =====
-- `terminate` (ractor/src/actor/actor_cell.rs) reaches every descendant of an actor.
use ractor.Prelude.{
  ℕ, zero, suc, ◌+◌, ◌≤◌, ◌≡◌, refl, sym, ap, ◌∙◌, true, false, Option, none, some, List, [], ◌∷◌,
  ◌++◌, length, length-append, arith, ℕ_discrete, if◌then◌else◌, ◌⊎◌, inl, inr, ◌||◌, subst,
}
use ractor.Actor.Status.{draining, at_least}
use ractor.Actor.Supervision.{
  Actors, child_ids, take_children, kill_live, terminate_all, count_children, terminate,
}
use ractor.Actor.Supervision.Visit.{
  is_in, children_in, visit, visit-status, visit-killed, visit-children, visited-children,
}

-- An actor, and what it supervises, directly or not.
pub data Descends (s : Actors) (root : ℕ) : ℕ → Type 0 where
  itself : Descends s root root
  below :
      (id child : ℕ)
      → Descends s root id
      → is_in child (children_in s id) ≡ true
      → Descends s root child

-- The actor takes no more children, and was killed if it was live.
pub record Ended (before : Actors) (id : ℕ) (after : Actors) : Type 0 where
  pub childless : (after id).tree.children ≡ none
  pub signalled : at_least draining (before id).status ≡ false → (after id).killed ≡ true

-- What the worklist leaves as it is.
record Keeps (before after : Actors) : Type 0 where
  closed : (id : ℕ) → (before id).tree.children ≡ none → (after id).tree.children ≡ none
  killed : (id : ℕ) → (before id).killed ≡ true → (after id).killed ≡ true

record Reaches (pending : List ℕ) (before : Actors) (result : Option Actors) : Type 0 where
  after : Actors
  returns : result ≡ some after
  keeps : Keeps before after
  reached :
      (root id : ℕ) → is_in root pending ≡ true → Descends before root id → Ended before id after

is_in-append : (x : ℕ) (xs ys : List ℕ) → is_in x (xs ++ ys) ≡ is_in x xs || is_in x ys
is_in-append x [] ys = refl
is_in-append x (y ∷ xs) ys = ground (arith, is_in-append x xs ys)

count_children-visit :
    (ids : List ℕ) (id : ℕ) (s : Actors)
    → count_children ids (visit id s) + (if is_in id ids then length (children_in s id) else 0)
      ≤ count_children ids s
unfolding count_children
count_children-visit [] id s = omega arith
count_children-visit (i ∷ ids) id s = ground (
  arith,
  count_children-visit ids id s,
  visit-children id i s,
  ap (λ o. length (child_ids o)) (visit-children id i s),
)

-- A child of the actor that a turn visits is then pending.
child_pending :
    (a parent child : ℕ) (rest : List ℕ) (s : Actors)
    → parent ≡ a
    → is_in child (children_in s parent) ≡ true
    → is_in child (children_in s a ++ rest) ≡ true
child_pending a parent child rest s same e =
    is_in-append child (children_in s a) rest
    ∙ ap (λ b. b || is_in child rest) (subst (λ p. is_in child (children_in s p) ≡ true) same e)

-- A descendant is what a turn visits, or is below what is then pending.
still_below :
    (a root : ℕ) (rest : List ℕ) (s : Actors) (id : ℕ)
    → is_in root (a ∷ rest) ≡ true
    → Descends s root id
    → (id ≡ a)
      ⊎ ((next : ℕ) × (is_in next (children_in s a ++ rest) ≡ true) × Descends (visit a s) next id)
still_below a root rest s id h itself = elim (ℕ_discrete a root) [
  | yes e ↦ inl (sym e)
  | no n ↦ inr (root, ground (arith, is_in-append root (children_in s a) rest), itself)
]
still_below a root rest s id h (below parent child path e) =
    elim (still_below a root rest s parent h path) [
      | inl same ↦ inr (child, child_pending a parent child rest s same e, itself)
      | inr (next, pending, path') ↦ elim (ℕ_discrete a parent) [
        | yes same ↦ inr (child, child_pending a parent child rest s (sym same) e, itself)
        | no n ↦ inr (
          next,
          pending,
          below parent child path'
              (ap (λ o. is_in child (child_ids o)) (visit-children a parent s ∙ ground arith) ∙ e),
        )
      ]
    ]

visit-Keeps : (id : ℕ) (s : Actors) → Keeps s (visit id s)
visit-Keeps id s = record {
  closed = λ x h. ground (arith, visit-children id x s);
  killed = λ x h. ground (arith, visit-killed id x s);
}

-- What a turn visits is ended, whatever comes after.
visit-Ended : (id : ℕ) (s after : Actors) → Keeps (visit id s) after → Ended s id after
visit-Ended id s after k = record {
  childless = k.closed id (visit-children id id s ∙ ground arith);
  signalled = λ live. k.killed id (visit-killed id id s ∙ ground arith);
}

Ended-before : (id x : ℕ) (s after : Actors) → Ended (visit id s) x after → Ended s x after
Ended-before id x s after e = record {
  childless = e.childless;
  signalled = λ live. e.signalled (ap (at_least draining) (visit-status id x s) ∙ live);
}

-- Only the actors of a list have children.
abbrev pub Closed : List ℕ → Actors → Type 0
Closed ids s = (id : ℕ) → is_in id ids ≡ false → children_in s id ≡ []

visit-Closed : (ids : List ℕ) (id : ℕ) (s : Actors) → Closed ids s → Closed ids (visit id s)
visit-Closed ids id s closed x h = ap child_ids (visit-children id x s) ∙ ground (arith, closed x h)

visit-measure :
    (fuel a : ℕ) (rest ids : List ℕ) (s : Actors)
    → length (a ∷ rest) + count_children ids s ≤ suc fuel
    → Closed ids s
    → length (children_in s a ++ rest) + count_children ids (visit a s) ≤ fuel
visit-measure fuel a rest ids s h closed =
    ground (arith, length-append (children_in s a) rest, count_children-visit ids a s, outside)
  where
    outside : is_in a ids ≡ false → length (children_in s a) ≡ 0
    outside n = ap length (closed a n)

nothing_pending : (s : Actors) → Reaches [] s (some s)
nothing_pending s = record {
  after = s;
  returns = refl;
  keeps = record { closed = λ id e. e; killed = λ id e. e };
  reached = λ root id e path. ground arith;
}

terminate_all-Reaches :
    (fuel : ℕ) (pending ids : List ℕ) (s : Actors)
    → length pending + count_children ids s ≤ fuel
    → Closed ids s
    → Reaches pending s (terminate_all fuel pending s)
unfolding terminate_all visit
terminate_all-Reaches zero (a ∷ rest) ids s h closed = absurd (none_left h)
  where
    none_left : suc (length rest) + count_children ids s ≤ 0 → ⊥
    none_left e = omega arith
terminate_all-Reaches zero [] ids s h closed = nothing_pending s
terminate_all-Reaches (suc fuel) [] ids s h closed = nothing_pending s
terminate_all-Reaches (suc fuel) (a ∷ rest) ids s h closed =
    let ih =
      terminate_all-Reaches fuel ((take_children a (kill_live a s)).0 ++ rest) ids (visit a s)
        (subst (λ cells. length (cells ++ rest) + count_children ids (visit a s) ≤ fuel)
          (sym (visited-children a s)) (visit-measure fuel a rest ids s h closed))
        (visit-Closed ids a s closed) in
    record {
      after = ih.after;
      returns = ih.returns;
      keeps = record {
        closed = λ id e. ih.keeps.closed id ((visit-Keeps a s).closed id e);
        killed = λ id e. ih.keeps.killed id ((visit-Keeps a s).killed id e);
      };
      reached = λ root id e path. elim (still_below a root rest s id e path) [
        | inl same ↦ subst (λ i. Ended s i ih.after) (sym same) (visit-Ended a s ih.after ih.keeps)
        | inr (next, pending, path') ↦ Ended-before a id s ih.after (
            ih.reached next id
              (subst (λ cells. is_in next (cells ++ rest) ≡ true) (sym (visited-children a s))
                pending)
              path')
      ];
    }

-- With nothing else done in between, `terminate` returns, and has ended the actor and all that
-- descend from it: none of them takes a child any more, and each that was not yet draining, stopping
-- or stopped was killed. `ids` are the actors that have children.
pub terminate-ends :
    (ids : List ℕ) (root : ℕ) (s : Actors)
    → Closed ids s
    → (after : Actors) × (terminate ids root s ≡ some after)
      × ((id : ℕ) → Descends s root id → Ended s id after)
unfolding terminate
terminate-ends ids root s closed =
    let r =
      terminate_all-Reaches (suc (count_children ids s)) (root ∷ []) ids s (omega arith) closed in
    (r.after, r.returns, λ id path. r.reached root id (ground arith) path)
