-- ===== src/Actor/Supervision/Ties.antt =====
-- What the steps of an operation on the supervision tree (ractor/src/actor/supervision.rs) do to
-- either direction of it.
use ractor.Prelude.{
  any, ◌&&◌, ℕ, ◌≡◌, refl, ◌∙◌, Bool, true, false, Option, none, some, List, [], ◌∷◌, arith, ◌==◌,
  ℕ_discrete, is_some, if◌then◌else◌,
}
use ractor.Prelude.Map.{Set, lookup, insert, remove, keys, lookup-insert, lookup-remove}
use ractor.Actor.Supervision.{
  Actors, update, change_children, set_supervisor, close_children, add_child, remove_child,
  is_supervisor, leave_previous, child_ids, orphan, orphan_one, has_child, map_children,
}

pub has_child-insert :
    (id child : ℕ) (o : Option (Set ℕ))
    → is_some o ≡ true
    → has_child (map_children (insert ℕ_discrete id tt) o) child
      ≡ (if id == child then true else has_child o child)
has_child-insert id child none h = ground arith
has_child-insert id child (some m) h = ground (arith, lookup-insert ℕ_discrete id child tt m)

pub has_child-remove :
    (id child : ℕ) (o : Option (Set ℕ))
    → has_child (map_children (remove ℕ_discrete id) o) child
      ≡ (if id == child then false else has_child o child)
has_child-remove id child none = ground arith
has_child-remove id child (some m) = ground (arith, lookup-remove ℕ_discrete id child m)

abbrev pub child_of : Actors → ℕ → ℕ → Bool
child_of s parent child = has_child (s parent).tree.children child

abbrev pub supervised : Actors → ℕ → Option ℕ
supervised s child = (s child).tree.supervisor

pub child_of-add_child :
    (c p j x : ℕ) (s : Actors)
    → is_some (s p).tree.children ≡ true
    → child_of (add_child c p s) j x
      ≡ (if p == j then (if c == x then true else child_of s j x) else child_of s j x)
unfolding add_child update change_children
child_of-add_child c p j x s h = ground (arith, has_child-insert c x (s j).tree.children)

pub child_of-remove_child :
    (c p j x : ℕ) (s : Actors)
    → child_of (remove_child c p s) j x
      ≡ (if p == j then (if c == x then false else child_of s j x) else child_of s j x)
unfolding remove_child update change_children
child_of-remove_child c p j x s = ground (arith, has_child-remove c x (s j).tree.children)

pub supervised-add_child :
    (c p x : ℕ) (s : Actors) → supervised (add_child c p s) x ≡ supervised s x
unfolding add_child update change_children
supervised-add_child c p x s = ground arith

pub supervised-remove_child :
    (c p x : ℕ) (s : Actors) → supervised (remove_child c p s) x ≡ supervised s x
unfolding remove_child update change_children
supervised-remove_child c p x s = ground arith

pub child_of-set_supervisor :
    (c j x : ℕ) (o : Option ℕ) (s : Actors)
    → child_of (update c (set_supervisor o) s) j x ≡ child_of s j x
unfolding update set_supervisor
child_of-set_supervisor c j x o s = ground arith

pub supervised-set_supervisor :
    (c x : ℕ) (o : Option ℕ) (s : Actors)
    → supervised (update c (set_supervisor o) s) x ≡ (if c == x then o else supervised s x)
unfolding update set_supervisor
supervised-set_supervisor c x o s = ground arith

pub child_of-leave_previous :
    (c j x : ℕ) (o : Option ℕ) (s : Actors)
    → child_of (leave_previous c o s) j x
      ≡ (if is_supervisor o j then (if c == x then false else child_of s j x) else child_of s j x)
unfolding leave_previous is_supervisor
child_of-leave_previous c j x none s = ground arith
child_of-leave_previous c j x (some p) s = ground (arith, child_of-remove_child c p j x s)

pub supervised-leave_previous :
    (c x : ℕ) (o : Option ℕ) (s : Actors) → supervised (leave_previous c o s) x ≡ supervised s x
unfolding leave_previous
supervised-leave_previous c x none s = refl
supervised-leave_previous c x (some p) s = supervised-remove_child c p x s

pub child_of-orphan_one :
    (parent c j x : ℕ) (s : Actors) → child_of (orphan_one parent c s) j x ≡ child_of s j x
unfolding orphan_one
child_of-orphan_one parent c j x s = ground (arith, child_of-set_supervisor c j x none s)

pub supervised-orphan_one :
    (parent c x : ℕ) (s : Actors)
    → supervised (orphan_one parent c s) x
      ≡ (if is_supervisor (supervised s x) parent && (c == x) then none else supervised s x)
unfolding orphan_one
supervised-orphan_one parent c x s = ground (arith, supervised-set_supervisor c x none s)

pub child_of-orphan :
    (parent j x : ℕ) (cells : List ℕ) (s : Actors)
    → child_of (orphan parent cells s) j x ≡ child_of s j x
unfolding orphan
child_of-orphan parent j x [] s = refl
child_of-orphan parent j x (c ∷ cells) s =
    child_of-orphan parent j x cells (orphan_one parent c s) ∙ child_of-orphan_one parent c j x s

pub supervised-orphan :
    (parent x : ℕ) (cells : List ℕ) (s : Actors)
    → supervised (orphan parent cells s) x ≡ (
        if is_supervisor (supervised s x) parent && any cells (λ c. c == x)
        then none
        else supervised s x)
unfolding orphan is_supervisor
supervised-orphan parent x [] s = ground arith
supervised-orphan parent x (c ∷ cells) s = ground (
  arith,
  supervised-orphan parent x cells (orphan_one parent c s),
  supervised-orphan_one parent c x s,
)

pub any-keys : (x : ℕ) (m : Set ℕ) → any (keys m) (λ c. c == x) ≡ is_some (lookup ℕ_discrete x m)
unfolding lookup
any-keys x [] = refl
any-keys x ((c, v) ∷ m) = ground (arith, any-keys x m)

pub any-child_ids : (x : ℕ) (o : Option (Set ℕ)) → any (child_ids o) (λ c. c == x) ≡ has_child o x
any-child_ids x none = refl
any-child_ids x (some m) = any-keys x m

pub child_of-close_children :
    (parent j x : ℕ) (s : Actors)
    → child_of (update parent close_children s) j x
      ≡ (if parent == j then false else child_of s j x)
unfolding update close_children
child_of-close_children parent j x s = ground arith

pub supervised-close_children :
    (parent x : ℕ) (s : Actors) → supervised (update parent close_children s) x ≡ supervised s x
unfolding update close_children
supervised-close_children parent x s = ground arith
