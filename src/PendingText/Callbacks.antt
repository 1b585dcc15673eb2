-- ===== src/PendingText/Callbacks.antt =====
-- The callbacks of browser/parser/Parser.zig that change the tree, with the text that is pending.
-- `removeNode`, `_insertNodeRelative` and `appendAllChildren` of browser/Frame.zig are their effect
-- on the lists of children. Allocations succeed, no script runs, no node is inserted before itself
-- or moves its children to itself. The build is a release build.
pub mod Ideal
pub mod Flushes
use zenpanda.Prelude.{
  ℕ, zero, suc, List, [], ◌∷◌, ◌++◌, Option, none, some, Bool, true, false, ◌||◌, ◌==◌,
  if◌then◌else◌,
}
use zenpanda.PendingText.{
  Kid, text_kid, other_kid, State, set, flush_pending_text, append_text_chunk,
}

abbrev pub same : Kid → Kid → Bool
same (text_kid a) (text_kid b) = a == b
same (other_kid a) (other_kid b) = a == b
same (text_kid a) (other_kid b) = false
same (other_kid a) (text_kid b) = false

abbrev has : Kid → List Kid → Bool
has k [] = false
has k (x ∷ xs) = same k x || has k xs

-- `_parent`, which a node has where the list of one of the nodes below `n` holds it
abbrev pub parent_node : ℕ → (ℕ → List Kid) → Kid → Option ℕ
parent_node zero c k = none
parent_node (suc n) c k = if has k (c n) then some n else parent_node n c k

abbrev pub without : Kid → List Kid → List Kid
without k [] = []
without k (x ∷ xs) = if same k x then xs else x ∷ without k xs

abbrev pub remove_node : (ℕ → List Kid) → Option ℕ → Kid → ℕ → List Kid
remove_node c none k = c
remove_node c (some p) k = set c p (without k (c p))

abbrev pub append_new : (ℕ → List Kid) → ℕ → Kid → ℕ → List Kid
append_new c p k = set c p (c p ++ (k ∷ []))

abbrev pub before : Kid → Kid → List Kid → List Kid
before sibling k [] = []
before sibling k (x ∷ xs) = if same sibling x then k ∷ x ∷ xs else x ∷ before sibling k xs

abbrev pub insert_before : (ℕ → List Kid) → ℕ → Kid → Kid → ℕ → List Kid
insert_before c p sibling k = set c p (before sibling k (c p))

-- one round for each of the children that there were at first
abbrev move_all : List Kid → (ℕ → List Kid) → ℕ → ℕ → ℕ → List Kid
move_all [] c p target = c
move_all (k ∷ ks) c p target = move_all ks (append_new (remove_node c (some p) k) target k) p target

abbrev pub append_all_children : (ℕ → List Kid) → ℕ → ℕ → ℕ → List Kid
append_all_children c p target = move_all (c p) c p target

pub data Item : Type 0 where
  node_item : Kid → Item
  text_item : List ℕ → Item

-- where an error arose; where no allocation fails and no script runs it is one of these two
pub data Source : Type 0 where
  append_before_sibling : Source
  append_based_on_parent_node : Source

pub data Callback : Type 0 where
  create_node : Callback
  append : ℕ → Item → Callback
  remove_from_parent : Kid → Callback
  reparent_children : ℕ → ℕ → Callback
  insert : Kid → Item → Callback
  insert_or_append : Kid → ℕ → Item → Callback
  pop : Callback

pub record Parser : Type 0 where
  pub state : State
  pub err : Option Source

abbrev insert_node : State → ℕ → Kid → Item → State
insert_node s p sibling (node_item k) = record s {
  children = insert_before (remove_node s.children (parent_node s.next s.children k) k) p sibling k;
}
insert_node s p sibling (text_item txt) = record s {
  data' = set s.data' s.next txt;
  children = insert_before s.children p sibling (text_kid s.next);
  next = suc s.next;
}

abbrev pub insert_at : State → Option Source → Source → Kid → Item → Option ℕ → Parser
insert_at s err source sibling item none = record { state = s; err = some source }
insert_at s err source sibling item (some p) = record {
  state = insert_node s p sibling item;
  err = err;
}

abbrev pub inserted : State → Option Source → Source → Kid → Item → Parser
inserted s err source sibling item =
    insert_at s err source sibling item (parent_node s.next s.children sibling)

abbrev pub append_before_sibling_callback : Parser → Source → Kid → Item → Parser
append_before_sibling_callback m source sibling item =
    inserted (flush_pending_text m.state) m.err source sibling item

abbrev pub appended : State → ℕ → Kid → State
appended s p k = record s {
  children = append_new (remove_node s.children (parent_node s.next s.children k) k) p k;
}

abbrev pub append_callback : State → ℕ → Item → State
append_callback s p (node_item k) = appended (flush_pending_text s) p k
append_callback s p (text_item txt) = append_text_chunk s p txt

abbrev pub removed : State → Kid → State
removed s k = record s { children = remove_node s.children (parent_node s.next s.children k) k }

abbrev pub remove_from_parent_callback : State → Kid → State
remove_from_parent_callback s k = removed (flush_pending_text s) k

abbrev pub reparented : State → ℕ → ℕ → State
reparented s p target = record s { children = append_all_children s.children p target }

abbrev pub reparent_children_callback : State → ℕ → ℕ → State
reparent_children_callback s p target = reparented (flush_pending_text s) p target

abbrev pub by_parent : Parser → Kid → ℕ → Item → Option ℕ → Parser
by_parent m element prev item (some p) =
    append_before_sibling_callback m append_based_on_parent_node element item
by_parent m element prev item none = record m { state = append_callback m.state prev item }

abbrev pub append_based_on_parent_node_callback : Parser → Kid → ℕ → Item → Parser
append_based_on_parent_node_callback m element prev item =
    by_parent m element prev item (parent_node m.state.next m.state.children element)

unfoldable pub call : Callback → Parser → Parser
unfolding set
call create_node m = record m { state = record m.state { next = suc m.state.next } }
call (append p item) m = record m { state = append_callback m.state p item }
call (remove_from_parent k) m = record m { state = remove_from_parent_callback m.state k }
call (reparent_children p target) m = record m {
  state = reparent_children_callback m.state p target;
}
call (insert sibling item) m = append_before_sibling_callback m append_before_sibling sibling item
call (insert_or_append element prev item) m =
    append_based_on_parent_node_callback m element prev item
call pop m = record m { state = flush_pending_text m.state }

unfoldable pub calls : List Callback → Parser → Parser
calls [] m = m
calls (c ∷ cs) m = calls cs (call c m)
