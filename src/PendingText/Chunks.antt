-- ===== src/PendingText/Chunks.antt =====
-- Text that html5ever passes in chunks, through `appendTextChunk` of browser/parser/Parser.zig.
use zenpanda.Prelude.{
  ℕ, ◌≡◌, refl, ap, ◌∙◌, sym, fun_ext, List, [], ◌∷◌, ◌++◌, Option, none, some, true, ◌==◌, ==_refl,
  ==_iff, ◌&&◌, inl, inr, Bool-cases, arith, subst,
}
use zenpanda.PendingText.{
  Kid, text_kid, other_kid, Pending, State, set, last_child, flush_pending_text, fresh_run,
  run_behind, seeded, append_text_chunk, is_text,
}
use zenpanda.PendingText.Shown.{text_at, shown, insert_behind, insert_text, Idle, IsValid, flushed}

front_empty : (xs ys : List ℕ) → xs ++ ys ≡ [] → xs ≡ []
front_empty [] ys e = refl
front_empty (x ∷ xs) ys e = absurd (ground (arith, e))

-- A buffer with the whole text of its node shows as that text.
joined :
    (d : ℕ → List ℕ) (p t : ℕ) (xs : List ℕ)
    → (xs ≡ [] → d t ≡ [])
    → text_at (some (record { parent = p; text_node = t })) xs d ≡ set d t xs
unfolding set
joined d p t [] e = fun_ext λ q. elim (Bool-cases (t == q)) [
  | inl h ↦ rw h (ap d (sym ((==_iff t q).0 h)) ∙ e refl)
  | inr h ↦ rw h
]
joined d p t (x ∷ xs) e = refl

-- A chunk onto a run that is pending.
more :
    (d : ℕ → List ℕ) (pt : Pending) (buf txt : List ℕ)
    → text_at (some pt) (seeded (d pt.text_node) buf ++ txt) d
      ≡ set (text_at (some pt) buf d) pt.text_node (text_at (some pt) buf d pt.text_node ++ txt)
more d pt [] txt =
    joined d pt.parent pt.text_node (d pt.text_node ++ txt) (front_empty (d pt.text_node) txt)
more d pt (b ∷ bs) txt =
    unfold set in
    fun_ext λ q. elim (Bool-cases (pt.text_node == q)) [
      | inl h ↦ rw (h, ==_refl pt.text_node)
      | inr h ↦ rw h
    ]

module _ (d : ℕ → List ℕ) (c : ℕ → List Kid) (n parent : ℕ) (txt : List ℕ) where
  abbrev idle : State
  idle = record { data' = d; children = c; next = n; pending_text = none; buf = [] }

  fresh_at :
      (o : Option Kid)
      → shown (run_behind idle parent txt o) ≡ insert_behind (shown idle) parent txt o
  unfolding shown
  fresh_at none = refl
  fresh_at (some (other_kid k)) = refl
  fresh_at (some (text_kid t)) =
      ap (λ f. record { text = f; children = c; next = n })
        (joined d parent t (d t ++ txt) (front_empty (d t) txt))

  fresh : shown (fresh_run idle parent txt) ≡ insert_text (shown idle) parent txt
  unfolding fresh_run insert_text shown
  fresh = fresh_at (last_child (c parent))

fresh_lem :
    (s : State) (parent : ℕ) (txt : List ℕ)
    → Idle s
    → shown (fresh_run s parent txt) ≡ insert_text (shown s) parent txt
fresh_lem s parent txt idle =
    let same : s ≡ record s { pending_text = none; buf = [] } =
      cc (idle.pending_none, idle.buf_empty) in
    subst (λ z. shown (fresh_run z parent txt) ≡ insert_text (shown z) parent txt) (sym same)
      (fresh s.data' s.children s.next parent txt)

is_text_lem : (o : Option Kid) (t : ℕ) → is_text o t ≡ true → o ≡ some (text_kid t)
is_text_lem none t e = absurd (ground (arith, e))
is_text_lem (some (other_kid k)) t e = absurd (ground (arith, e))
is_text_lem (some (text_kid k)) t e = ap (λ z. some (text_kid z)) ((==_iff k t).0 e)

module _ (d : ℕ → List ℕ) (c : ℕ → List Kid) (n : ℕ) (buf : List ℕ) (parent : ℕ)
    (txt : List ℕ) where
  abbrev state : Option Pending → State
  state o = record { data' = d; children = c; next = n; pending_text = o; buf = buf }

  chunk_case :
      (o : Option Pending)
      → IsValid (state o)
      → shown (append_text_chunk (state o) parent txt) ≡ insert_text (shown (state o)) parent txt
  unfolding append_text_chunk
  chunk_case none valid =
      fresh_lem (state none) parent txt (record { pending_none = refl; buf_empty = valid refl })
  chunk_case (some pt) valid =
      elim (Bool-cases (pt.parent == parent && is_text (last_child (c parent)) pt.text_node)) [
        | inl e ↦
            let last : last_child (c parent) ≡ some (text_kid pt.text_node) =
              is_text_lem (last_child (c parent)) pt.text_node (ground (arith, e)) in
            rw e (
              unfold shown insert_text in
              rw last (ap (λ f. record { text = f; children = c; next = n }) (more d pt buf txt)))
        | inr e ↦
            let f = flushed d c n (some pt) buf valid in
            rw e (
              fresh_lem (flush_pending_text (state (some pt))) parent txt f.1
              ∙ ap (λ g. insert_text g parent txt) f.0)
      ]

-- From a state whose buffer is in use only while a run is pending, what the page shows after
-- `appendTextChunk`, a pending run shown in its node, is what it showed before with the chunk
-- inserted.
pub append_text_chunk-insert_text :
    (s : State) (parent : ℕ) (txt : List ℕ)
    → IsValid s
    → shown (append_text_chunk s parent txt) ≡ insert_text (shown s) parent txt
append_text_chunk-insert_text s parent txt valid =
    chunk_case s.data' s.children s.next s.buf parent txt s.pending_text valid
