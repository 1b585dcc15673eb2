-- ===== src/PendingText/Callbacks/Flushes.antt =====
-- The flushes of browser/parser/Parser.zig before its changes of the tree, against a page without
-- pending text.
use zenpanda.Prelude.{
  ℕ, Bool, true, false, arith, ◌≡◌, refl, ap, ◌∙◌, sym, List, [], ◌∷◌, Option, none, some, subst,
}
use zenpanda.PendingText.{Kid, State, flush_pending_text}
use zenpanda.PendingText.Shown.{Page, shown, Idle, IsValid, flushed}
use zenpanda.PendingText.Chunks.{append_text_chunk-insert_text}
use zenpanda.PendingText.Runs.{append_text_chunk-IsValid, Idle-text}
use zenpanda.PendingText.Callbacks.{
  Item, node_item, text_item, Source, append_before_sibling, append_based_on_parent_node, Callback,
  create_node, append, remove_from_parent, reparent_children, insert, insert_or_append, pop, Parser,
  parent_node, insert_at, inserted, append_before_sibling_callback, append_callback, appended,
  removed, reparented, by_parent, call, calls,
}
use zenpanda.PendingText.Callbacks.Ideal.{View, put_at, put, put_last, put_by, change, changes}

abbrev seen : Parser → View
seen m = record { page = shown m.state; err = m.err }

abbrev Follows : Parser → View → Type 0
Follows m v = (seen m ≡ v) × IsValid m.state

abbrev Settles : Parser → View → Type 0
Settles m v = (seen m ≡ v) × Idle m.state

follows : (m : Parser) (v : View) → Settles m v → Follows m v
follows m v h = (h.0, λ e. h.1.buf_empty)

-- The callbacks that flush whatever the tree is.
abbrev pub flushes : Callback → Bool
flushes create_node = false
flushes (append p (node_item k)) = true
flushes (append p (text_item txt)) = false
flushes (remove_from_parent k) = true
flushes (reparent_children p target) = true
flushes (insert sibling item) = true
flushes (insert_or_append element prev (node_item k)) = true
flushes (insert_or_append element prev (text_item txt)) = false
flushes pop = true

abbrev idle : (ℕ → List ℕ) → (ℕ → List Kid) → ℕ → State
idle d c n = record { data' = d; children = c; next = n; pending_text = none; buf = [] }

at_rest : {d : ℕ → List ℕ} {c : ℕ → List Kid} {n : ℕ} → Idle (idle d c n)
at_rest = record { pending_none = refl; buf_empty = refl }

-- What holds on idle states holds behind a flush.
behind_flush :
    (op : State → Parser) (gop : Page → View)
    → ((d : ℕ → List ℕ) (c : ℕ → List Kid) (n : ℕ)
        → Settles (op (idle d c n)) (gop (shown (idle d c n))))
    → (s : State) → IsValid s
    → Settles (op (flush_pending_text s)) (gop (shown s))
behind_flush op gop h s valid =
    let f = flushed s.data' s.children s.next s.pending_text s.buf valid in
    let t = flush_pending_text s in
    let same : t ≡ idle t.data' t.children t.next = cc (f.1.pending_none, f.1.buf_empty) in
    subst (λ g. Settles (op t) (gop g)) f.0
      (subst (λ z. Settles (op z) (gop (shown z))) (sym same) (h t.data' t.children t.next))

module _ (d : ℕ → List ℕ) (c : ℕ → List Kid) (n : ℕ) (err : Option Source) where
  insert_at-idle :
      (source : Source) (sibling : Kid) (item : Item) (o : Option ℕ)
      → Settles
          (insert_at (idle d c n) err source sibling item o)
          (put_at (shown (idle d c n)) err source sibling item o)
  unfolding shown
  insert_at-idle source sibling item none = (refl, at_rest)
  insert_at-idle source sibling (node_item k) (some p) = (refl, at_rest)
  insert_at-idle source sibling (text_item txt) (some p) = (refl, at_rest)

module _ (s : State) (err : Option Source) (valid : IsValid s) where
  abbrev m : Parser
  m = record { state = s; err = err }

  insert_lem :
      (source : Source) (sibling : Kid) (item : Item)
      → Settles
          (append_before_sibling_callback m source sibling item)
          (put (shown s) err source sibling item)
  insert_lem source sibling item =
      behind_flush (λ z. inserted z err source sibling item) (λ g. put g err source sibling item)
        (λ d c n.
          unfold shown in insert_at-idle d c n err source sibling item (parent_node n c sibling))
        s valid

  append_node :
      (p : ℕ) (k : Kid)
      → Settles
          (record m { state = append_callback s p (node_item k) })
          (record { page = put_last (shown s) p (node_item k); err = err })
  append_node p k =
      behind_flush (λ z. record { state = appended z p k; err = err })
        (λ g. record { page = put_last g p (node_item k); err = err })
        (λ d c n. unfold shown in (refl, at_rest)) s valid

  append_text :
      (p : ℕ) (txt : List ℕ)
      → Follows
          (record m { state = append_callback s p (text_item txt) })
          (record { page = put_last (shown s) p (text_item txt); err = err })
  append_text p txt = (
    ap (λ g. record { page = g; err = err }) (append_text_chunk-insert_text s p txt valid),
    append_text_chunk-IsValid s p txt,
  )

  by_parent_node :
      (element : Kid) (prev : ℕ) (k : Kid) (o : Option ℕ)
      → Settles
          (by_parent m element prev (node_item k) o)
          (put_by (seen m) element prev (node_item k) o)
  by_parent_node element prev k none = append_node prev k
  by_parent_node element prev k (some p) =
      insert_lem append_based_on_parent_node element (node_item k)

  by_parent_text :
      (element : Kid) (prev : ℕ) (txt : List ℕ) (o : Option ℕ)
      → Follows
          (by_parent m element prev (text_item txt) o)
          (put_by (seen m) element prev (text_item txt) o)
  by_parent_text element prev txt none = append_text prev txt
  by_parent_text element prev txt (some p) =
      follows (append_before_sibling_callback m append_based_on_parent_node element (text_item txt))
        (put (shown s) err append_based_on_parent_node element (text_item txt))
        (insert_lem append_based_on_parent_node element (text_item txt))

  call-Settles : (c : Callback) → flushes c ≡ true → Settles (call c m) (change c (seen m))
  unfolding call change
  call-Settles create_node e = absurd (ground (arith, e))
  call-Settles (append p (node_item k)) e = append_node p k
  call-Settles (append p (text_item txt)) e = absurd (ground (arith, e))
  call-Settles (remove_from_parent k) e =
      behind_flush (λ z. record { state = removed z k; err = err })
        (λ g. change (remove_from_parent k) (record { page = g; err = err }))
        (λ d c n. unfold shown in (refl, at_rest)) s valid
  call-Settles (reparent_children p target) e =
      behind_flush (λ z. record { state = reparented z p target; err = err })
        (λ g. change (reparent_children p target) (record { page = g; err = err }))
        (λ d c n. unfold shown in (refl, at_rest)) s valid
  call-Settles (insert sibling item) e = insert_lem append_before_sibling sibling item
  call-Settles (insert_or_append element prev (node_item k)) e =
      unfold shown in by_parent_node element prev k (parent_node s.next s.children element)
  call-Settles (insert_or_append element prev (text_item txt)) e = absurd (ground (arith, e))
  call-Settles pop e =
      behind_flush (λ z. record { state = z; err = err }) (λ g. record { page = g; err = err })
        (λ d c n. (refl, at_rest)) s valid

  settled : (c : Callback) → flushes c ≡ true → Follows (call c m) (change c (seen m))
  settled c e = follows (call c m) (change c (seen m)) (call-Settles c e)

  call-Follows : (c : Callback) → Follows (call c m) (change c (seen m))
  call-Follows create_node = unfold call change shown in (refl, valid)
  call-Follows (append p (text_item txt)) = unfold call change in append_text p txt
  call-Follows (insert_or_append element prev (text_item txt)) =
      unfold call change shown in
      by_parent_text element prev txt (parent_node s.next s.children element)
  call-Follows (append p (node_item k)) = settled (append p (node_item k)) refl
  call-Follows (remove_from_parent k) = settled (remove_from_parent k) refl
  call-Follows (reparent_children p target) = settled (reparent_children p target) refl
  call-Follows (insert sibling item) = settled (insert sibling item) refl
  call-Follows (insert_or_append element prev (node_item k)) =
      settled (insert_or_append element prev (node_item k)) refl
  call-Follows pop = settled pop refl

calls-Follows :
    (cs : List Callback) (m : Parser) → IsValid m.state → Follows (calls cs m) (changes cs (seen m))
unfolding calls changes
calls-Follows [] m valid = (refl, valid)
calls-Follows (c ∷ cs) m valid =
    let r = call-Follows m.state m.err valid c in
    let rest = calls-Follows cs (call c m) r.1 in (rest.0 ∙ ap (changes cs) r.0, rest.1)

-- From a state whose buffer is in use only while a run is pending, any sequence of the callbacks
-- that create nodes, append, insert before a sibling, remove, move children or end an element, and
-- then one of them that flushes (all do but the creation of a node and those that append text),
-- leave the data of the text nodes, the children and the error as the changes of a page do on which
-- each text is in its node at once, with nothing pending and an empty buffer.
pub call-change :
    (cs : List Callback) (c : Callback) (m : Parser)
    → IsValid m.state
    → flushes c ≡ true
    → let m' = call c (calls cs m) in
      let v = change c (changes cs (record { page = shown m.state; err = m.err })) in
      (m'.state.data' ≡ v.page.text)
      × (m'.state.children ≡ v.page.children)
      × (m'.err ≡ v.err)
      × (m'.state.pending_text ≡ none)
      × (m'.state.buf ≡ [])
call-change cs c m valid e =
    let r = calls-Follows cs m valid in
    let t = calls cs m in
    let f = call-Settles t.state t.err r.1 c e in
    let view = f.0 ∙ ap (change c) r.0 in
    (
      sym (Idle-text (call c t).state f.1) ∙ ap (λ (v : View). v.page.text) view,
      unfold shown in ap (λ (v : View). v.page.children) view,
      ap (λ (v : View). v.err) view,
      f.1.pending_none,
      f.1.buf_empty,
    )
