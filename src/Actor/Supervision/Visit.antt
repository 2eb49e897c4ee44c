-- ===== src/Actor/Supervision/Visit.antt =====
-- One turn of `terminate` (ractor/src/actor/actor_cell.rs): an actor is killed if it is live, and its
-- children are taken.
use ractor.Prelude.{
  ℕ, ◌≡◌, refl, ◌∙◌, Bool, true, none, List, [], ◌∷◌, any, arith, ◌==◌, if◌then◌else◌,
}
use ractor.Actor.Status.{draining, at_least}
use ractor.Actor.Supervision.{
  Actors, update, set_supervisor, close_children, child_ids, orphan, orphan_one, take_children,
  kill, kill_live,
}

-- An actor is in a list of ids.
abbrev pub is_in : ℕ → List ℕ → Bool
is_in id ids = any ids (λ i. i == id)

abbrev pub children_in : Actors → ℕ → List ℕ
children_in s id = child_ids (s id).tree.children

-- What one turn of the worklist does to an actor.
unfoldable pub visit : ℕ → Actors → Actors
unfolding take_children
visit id s = (take_children id (kill_live id s)).1

orphan_one-rest :
    (parent c x : ℕ) (s : Actors)
    → ((orphan_one parent c s x).status ≡ (s x).status)
      × ((orphan_one parent c s x).killed ≡ (s x).killed)
      × ((orphan_one parent c s x).tree.children ≡ (s x).tree.children)
unfolding orphan_one update set_supervisor
orphan_one-rest parent c x s = (ground arith, ground arith, ground arith)

orphan-rest :
    (parent x : ℕ) (cells : List ℕ) (s : Actors)
    → ((orphan parent cells s x).status ≡ (s x).status)
      × ((orphan parent cells s x).killed ≡ (s x).killed)
      × ((orphan parent cells s x).tree.children ≡ (s x).tree.children)
unfolding orphan
orphan-rest parent x [] s = (refl, refl, refl)
orphan-rest parent x (c ∷ cells) s =
    let (a, b, d) = orphan-rest parent x cells (orphan_one parent c s) in
    let (a', b', d') = orphan_one-rest parent c x s in (a ∙ a', b ∙ b', d ∙ d')

pub visit-status : (id x : ℕ) (s : Actors) → (visit id s x).status ≡ (s x).status
unfolding visit kill_live update kill close_children
visit-status id x s =
    (orphan-rest id x (children_in (kill_live id s) id)
      (update id close_children (kill_live id s))).0
    ∙ ground arith

pub visit-killed :
    (id x : ℕ) (s : Actors)
    → (visit id s x).killed ≡ (
        if id == x
        then (if at_least draining (s x).status then (s x).killed else true)
        else (s x).killed)
unfolding visit kill_live update kill close_children
visit-killed id x s =
    (orphan-rest id x (children_in (kill_live id s) id)
      (update id close_children (kill_live id s))).1
    ∙ ground arith

pub visit-children :
    (id x : ℕ) (s : Actors)
    → (visit id s x).tree.children ≡ (if id == x then none else (s x).tree.children)
unfolding visit kill_live update kill close_children
visit-children id x s =
    (orphan-rest id x (children_in (kill_live id s) id)
      (update id close_children (kill_live id s))).2
    ∙ ground arith

pub visited-children :
    (id : ℕ) (s : Actors) → (take_children id (kill_live id s)).0 ≡ children_in s id
unfolding take_children kill_live update kill
visited-children id s = ground arith
