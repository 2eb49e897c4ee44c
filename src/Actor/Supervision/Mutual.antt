-- ===== src/Actor/Supervision/Mutual.antt =====
-- The two directions of the supervision tree (ractor/src/actor/supervision.rs) agree.
use ractor.Prelude.{
  ℕ, ◌≡◌, refl, ap, Bool, true, false, Option, none, some, List, [], ◌∷◌, arith, is_some,
  if◌then◌else◌, ◌||◌,
}
use ractor.Prelude.Map.{Set, lookup}
use ractor.Actor.Status.{draining, at_least}
use ractor.Actor.Supervision.{
  Operation, linking, unlinking, taking, killing, advancing, perform, perform_all, new_actor,
  default_tree, set_status, kill, ActorCell, Actors, update, set_supervisor, close_children,
  add_child, remove_child, is_supervisor, link_to, link, unlink, child_ids, take_children,
  has_child,
}
use ractor.Actor.Supervision.Ties.{
  child_of-add_child, child_of-remove_child, supervised-add_child, supervised-remove_child,
  child_of-set_supervisor, supervised-set_supervisor, child_of-leave_previous,
  supervised-leave_previous, child_of-orphan, supervised-orphan, any-child_ids,
  child_of-close_children, supervised-close_children,
}

-- An actor is among another's children exactly if that one is its supervisor.
pub Mutual : Actors → Type 0
Mutual s =
    (child parent : ℕ)
    → has_child (s parent).tree.children child ≡ is_supervisor (s child).tree.supervisor parent

link_to-Mutual :
    (child supervisor : ℕ) (m : Set ℕ) (s : Actors)
    → (s supervisor).tree.children ≡ some m
    → Mutual s
    → Mutual (link_to child supervisor (some m) s).1
unfolding link_to Mutual is_supervisor
link_to-Mutual child supervisor m s open_tree t c p =
    let joined = add_child child supervisor s in
    let moved = update child (set_supervisor (some supervisor)) joined in
    let current = (s child).tree.supervisor in
    ground (
      arith,
      t c p,
      child_of-add_child child supervisor p c s (ap is_some open_tree),
      supervised-add_child child supervisor c s,
      child_of-leave_previous child p c current moved,
      supervised-leave_previous child c current moved,
      child_of-set_supervisor child p c (some supervisor) joined,
      supervised-set_supervisor child c (some supervisor) joined,
    )

link-Mutual : (child supervisor : ℕ) (s : Actors) → Mutual s → Mutual (link child supervisor s).1
unfolding link link_to
link-Mutual child supervisor s t =
    by_test (at_least draining (s child).status || at_least draining (s supervisor).status)
  where
    by_children :
        (children : Option (Set ℕ))
        → (s supervisor).tree.children ≡ children
        → Mutual (link_to child supervisor children s).1
    by_children none e = t
    by_children (some m) e = link_to-Mutual child supervisor m s e t

    by_test :
        (refused : Bool)
        → Mutual
            (if refused
              then (false, s)
              else link_to child supervisor (s supervisor).tree.children s).1
    by_test true = t
    by_test false = by_children (s supervisor).tree.children refl

unlink-Mutual : (child supervisor : ℕ) (s : Actors) → Mutual s → Mutual (unlink child supervisor s)
unfolding unlink Mutual is_supervisor
unlink-Mutual child supervisor s t c p =
    let removed = remove_child child supervisor s in
    ground (
      arith,
      t c p,
      child_of-remove_child child supervisor p c s,
      supervised-remove_child child supervisor c s,
      child_of-set_supervisor child p c none removed,
      supervised-set_supervisor child c none removed,
    )

take_children-Mutual : (parent : ℕ) (s : Actors) → Mutual s → Mutual (take_children parent s).1
unfolding take_children Mutual is_supervisor
take_children-Mutual parent s t c p =
    let cells = child_ids (s parent).tree.children in
    let closed = update parent close_children s in
    ground (
      arith,
      t c p,
      t c parent,
      any-child_ids c (s parent).tree.children,
      child_of-orphan parent p c cells closed,
      supervised-orphan parent c cells closed,
      child_of-close_children parent p c s,
      supervised-close_children parent c s,
    )

-- What is not of the tree changes neither direction.
update-Mutual :
    (id : ℕ) (change : ActorCell → ActorCell) (s : Actors)
    → ((a : ActorCell) → (change a).tree ≡ a.tree)
    → Mutual s
    → Mutual (update id change s)
unfolding update Mutual
update-Mutual id change s same t c p =
    ground (arith, t c p, ap (λ r. r.children) (same (s p)), ap (λ r. r.supervisor) (same (s c)))

perform-Mutual : (op : Operation) (s : Actors) → Mutual s → Mutual (perform op s)
unfolding perform kill set_status
perform-Mutual (linking child supervisor) s t = link-Mutual child supervisor s t
perform-Mutual (unlinking child supervisor) s t = unlink-Mutual child supervisor s t
perform-Mutual (taking parent) s t = take_children-Mutual parent s t
perform-Mutual (killing id) s t = update-Mutual id kill s (λ a. refl) t
perform-Mutual (advancing status id) s t = update-Mutual id (set_status status) s (λ a. refl) t

perform_all_from : (ops : List Operation) (s : Actors) → Mutual s → Mutual (perform_all ops s)
unfolding perform_all
perform_all_from [] s t = t
perform_all_from (op ∷ ops) s t = perform_all_from ops (perform op s) (perform-Mutual op s t)

-- Whatever is done to new actors, in whatever order, an actor is among another's children exactly if
-- that one is its supervisor.
pub perform_all-Mutual : (ops : List Operation) → Mutual (perform_all ops (λ id. new_actor))
unfolding Mutual new_actor default_tree is_supervisor lookup
perform_all-Mutual ops = perform_all_from ops (λ id. new_actor) new-Mutual
  where
    new-Mutual : Mutual (λ id. new_actor)
    new-Mutual c p = refl
