-- ===== src/Actor/Supervision.antt =====
-- The supervision tree, `SupervisionTree` of ractor/src/actor/supervision.rs, and `terminate` of
-- ractor/src/actor/actor_cell.rs, on all actors by their ids. An operation on the tree is atomic, as
-- the tree's lock makes it.
pub mod Ties
pub mod Mutual
pub mod Visit
pub mod Terminated
use ractor.Prelude.{
  ℕ, zero, suc, Bool, true, false, not, ◌&&◌, ◌||◌, Option, none, some, List, [], ◌∷◌, ◌++◌,
  if◌then◌else◌, ite, ◌==◌, ◌+◌, ℕ_discrete, length,
}
use ractor.Prelude.Map.{Set, insert, remove, contains_key, keys}
use ractor.Actor.Status.{ActorStatus, draining, at_least, advance, unstarted}

pub record SupervisionTree : Type 0 where
  pub children : Option (Set ℕ)
  pub supervisor : Option ℕ

-- What an actor's cell shares. `killed` tells whether the kill signal was sent.
pub record ActorCell : Type 0 where
  pub status : ActorStatus
  pub killed : Bool
  pub tree : SupervisionTree

abbrev pub Actors : Type 0
Actors = ℕ → ActorCell

-- `SupervisionTree::default`.
unfoldable pub default_tree : SupervisionTree
default_tree = record { children = some []; supervisor = none }

unfoldable pub update : ℕ → (ActorCell → ActorCell) → Actors → Actors
update id change s j = ite (ℕ_discrete id j) (change (s j)) (s j)

abbrev pub map_children : (Set ℕ → Set ℕ) → Option (Set ℕ) → Option (Set ℕ)
map_children f none = none
map_children f (some children) = some (f children)

unfoldable pub change_children : (Set ℕ → Set ℕ) → ActorCell → ActorCell
change_children f a = record a {
  tree = record (a.tree) { children = map_children f a.tree.children };
}

unfoldable pub set_supervisor : Option ℕ → ActorCell → ActorCell
set_supervisor supervisor a = record a { tree = record (a.tree) { supervisor = supervisor } }

unfoldable pub close_children : ActorCell → ActorCell
close_children a = record a { tree = record (a.tree) { children = none } }

unfoldable pub add_child : ℕ → ℕ → Actors → Actors
add_child child parent s = update parent (change_children (insert ℕ_discrete child tt)) s

unfoldable pub remove_child : ℕ → ℕ → Actors → Actors
remove_child child parent s = update parent (change_children (remove ℕ_discrete child)) s

unfoldable pub is_supervisor : Option ℕ → ℕ → Bool
is_supervisor none id = false
is_supervisor (some current) id = current == id

unfoldable pub leave_previous : ℕ → Option ℕ → Actors → Actors
leave_previous child none s = s
leave_previous child (some previous) s = remove_child child previous s

-- A closed tree takes no children.
unfoldable pub link_to : ℕ → ℕ → Option (Set ℕ) → Actors → Bool × Actors
link_to child supervisor none s = (false, s)
link_to child supervisor (some new_children) s =
    let current = (s child).tree.supervisor in
    let joined = add_child child supervisor s in
    if is_supervisor current supervisor then (true, joined) else (
      true,
      leave_previous child current (update child (set_supervisor (some supervisor)) joined),
    )

unfoldable pub link : ℕ → ℕ → Actors → Bool × Actors
link child supervisor s =
    if at_least draining (s child).status || at_least draining (s supervisor).status
    then (false, s)
    else link_to child supervisor (s supervisor).tree.children s

unfoldable pub unlink : ℕ → ℕ → Actors → Actors
unlink child supervisor s =
    if is_supervisor (s child).tree.supervisor supervisor
    then update child (set_supervisor none) (remove_child child supervisor s)
    else s

abbrev pub child_ids : Option (Set ℕ) → List ℕ
child_ids none = []
child_ids (some children) = keys children

unfoldable pub orphan_one : ℕ → ℕ → Actors → Actors
orphan_one parent child s =
    if is_supervisor (s child).tree.supervisor parent
    then update child (set_supervisor none) s
    else s

unfoldable pub orphan : ℕ → List ℕ → Actors → Actors
orphan parent [] s = s
orphan parent (child ∷ children) s = orphan parent children (orphan_one parent child s)

unfoldable pub take_children : ℕ → Actors → List ℕ × Actors
take_children parent s =
    let cells = child_ids (s parent).tree.children in
    (cells, orphan parent cells (update parent close_children s))

unfoldable pub kill : ActorCell → ActorCell
kill a = record a { killed = true }

unfoldable pub kill_live : ℕ → Actors → Actors
kill_live id s = if at_least draining (s id).status then s else update id kill s

-- `terminate`, from a worklist; none where the fuel does not suffice.
unfoldable pub terminate_all : ℕ → List ℕ → Actors → Option Actors
terminate_all fuel [] s = some s
terminate_all zero (id ∷ pending) s = none
terminate_all (suc fuel) (id ∷ pending) s =
    let (cells, s') = take_children id (kill_live id s) in terminate_all fuel (cells ++ pending) s'

-- As many turns as there are actors to visit: the first, and the children of `ids`.
unfoldable pub count_children : List ℕ → Actors → ℕ
count_children [] s = 0
count_children (id ∷ ids) s = length (child_ids (s id).tree.children) + count_children ids s

unfoldable pub terminate : List ℕ → ℕ → Actors → Option Actors
terminate ids id s = terminate_all (suc (count_children ids s)) (id ∷ []) s

-- A child as its supervisor's tree has it.
abbrev pub has_child : Option (Set ℕ) → ℕ → Bool
has_child none child = false
has_child (some children) child = contains_key ℕ_discrete child children

-- `ActorProperties::set_status`.
unfoldable pub set_status : ActorStatus → ActorCell → ActorCell
set_status status a = record a { status = advance status a.status }

unfoldable pub new_actor : ActorCell
new_actor = record { status = unstarted; killed = false; tree = default_tree }

-- What is done to the actors, in the order in which the tree's lock admits it.
pub data Operation : Type 0 where
  linking unlinking : ℕ → ℕ → Operation
  taking killing : ℕ → Operation
  advancing : ActorStatus → ℕ → Operation

unfoldable pub perform : Operation → Actors → Actors
perform (linking child supervisor) s = (link child supervisor s).1
perform (unlinking child supervisor) s = unlink child supervisor s
perform (taking parent) s = (take_children parent s).1
perform (killing id) s = update id kill s
perform (advancing status id) s = update id (set_status status) s

unfoldable pub perform_all : List Operation → Actors → Actors
perform_all [] s = s
perform_all (op ∷ ops) s = perform_all ops (perform op s)
