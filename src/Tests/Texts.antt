-- ===== src/Tests/Texts.antt =====
-- Text in two chunks behind an element, through browser/parser/Parser.zig.
use zenpanda.Prelude.{List, [], ◌∷◌, ◌++◌, none, some, ◌≡◌, refl, ◌==◌, if◌then◌else◌}
use zenpanda.PendingText.{other_kid, text_kid, State, set, flush_pending_text, append_text_chunk}
use zenpanda.PendingText.Shown.{shown, insert_text}
use zenpanda.PendingText.Chunks.{append_text_chunk-insert_text}
use zenpanda.PendingText.Runs.{append_chunks, joined_up, flush-append_chunks}
use zenpanda.PendingText.Callbacks.{
  text_item, node_item, append_before_sibling, Callback, create_node, append, remove_from_parent,
  insert, insert_or_append, Parser, call, calls,
}
use zenpanda.PendingText.Callbacks.Ideal.{change, changes}
use zenpanda.PendingText.Callbacks.Flushes.{call-change}
use zenpanda.Tests.Page.{input}

-- an element in the node 1, and nothing pending
abbrev bare : State
bare = record {
  data' = λ t. [];
  children = λ p. other_kid 2 ∷ [];
  next = 3;
  pending_text = none;
  buf = [];
}

-- a run of one chunk pending in the text node 3
abbrev begun : State
begun = record bare {
  data' = λ t. input;
  children = λ p. text_kid 3 ∷ [];
  next = 4;
  pending_text = some (record { parent = 1; text_node = 3 });
}

append_text_chunk-insert_text_example :
    shown (append_text_chunk begun 1 input) ≡ insert_text (shown begun) 1 input
append_text_chunk-insert_text_example = append_text_chunk-insert_text begun 1 input (λ e. refl)

-- `bare` with the one child under the node 1 only
abbrev tree : State
tree = record bare { children = λ p. if p == 1 then other_kid 2 ∷ [] else [] }

flush-append_chunks_example :
    let s' = flush_pending_text (append_chunks bare 1 (input ∷ input ∷ [])) in
    let g = insert_text (shown bare) 1 (input ++ joined_up (input ∷ [])) in
    (s'.data' ≡ g.text) × (s'.children ≡ g.children) × (s'.pending_text ≡ none) × (s'.buf ≡ [])
flush-append_chunks_example = flush-append_chunks bare 1 input (input ∷ []) (λ e. refl)

abbrev fostered : Parser
fostered =
    calls
      (insert (other_kid 2) (text_item input)
        ∷ insert (other_kid 2) (text_item input)
        ∷ remove_from_parent (other_kid 2)
        ∷ insert (other_kid 2) (text_item input)
        ∷ [])
      (record { state = tree; err = none })

-- Two texts in front of a sibling are two text nodes.
two_nodes : fostered.state.children 1 ≡ text_kid 3 ∷ text_kid 4 ∷ []
unfolding calls call set flush_pending_text
two_nodes = refl

-- There is no place in front of a sibling that has been removed.
no_parent : fostered.err ≡ some append_before_sibling
unfolding calls call set flush_pending_text
no_parent = refl

-- A text behind the element 2, a comment node in front of it, text twice, and its removal.
call-change_example :
    let cs : List Callback =
      append 1 (text_item input)
      ∷ create_node
      ∷ insert (other_kid 2) (node_item (other_kid 4))
      ∷ insert_or_append (other_kid 2) 0 (text_item input)
      ∷ append 1 (text_item input)
      ∷ [] in
    let m : Parser = record { state = tree; err = none } in
    let m' = call (remove_from_parent (other_kid 2)) (calls cs m) in
    let v =
      change
        (remove_from_parent (other_kid 2))
        (changes cs (record { page = shown tree; err = none })) in
    (m'.state.data' ≡ v.page.text)
    × (m'.state.children ≡ v.page.children)
    × (m'.err ≡ v.err)
    × (m'.state.pending_text ≡ none)
    × (m'.state.buf ≡ [])
call-change_example =
    call-change
      (append 1 (text_item input)
        ∷ create_node
        ∷ insert (other_kid 2) (node_item (other_kid 4))
        ∷ insert_or_append (other_kid 2) 0 (text_item input)
        ∷ append 1 (text_item input)
        ∷ [])
      (remove_from_parent (other_kid 2)) (record { state = tree; err = none }) (λ e. refl) refl
