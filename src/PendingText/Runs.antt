-- ===== src/PendingText/Runs.antt =====
-- A run of text in many chunks, which browser/parser/Parser.zig commits to its node at once.
use zenpanda.Prelude.{
  ℕ, suc, ◌≡◌, refl, ap, ◌∙◌, sym, fun_ext, List, [], ◌∷◌, ◌++◌, append_assoc, append-nil, Option,
  none, some, ◌==◌, ==_refl, ◌&&◌, inl, inr, Bool-cases, arith,
}
use zenpanda.PendingText.{
  Kid, text_kid, other_kid, Pending, State, set, last_child, flush_pending_text, fresh_run,
  run_behind, append_text_chunk, is_text,
}
use zenpanda.PendingText.Shown.{Page, shown, insert_behind, insert_text, Idle, IsValid, flushed}
use zenpanda.PendingText.Chunks.{append_text_chunk-insert_text}

pub append_chunks : State → ℕ → List (List ℕ) → State
append_chunks s parent [] = s
append_chunks s parent (c ∷ cs) = append_chunks (append_text_chunk s parent c) parent cs

abbrev pub joined_up : List (List ℕ) → List ℕ
joined_up [] = []
joined_up (c ∷ cs) = c ++ joined_up cs

set-set : {A : Type 0} (f : ℕ → A) (k : ℕ) (a b : A) → set (set f k a) k b ≡ set f k b
unfolding set
set-set f k a b = fun_ext λ q. elim (Bool-cases (k == q)) [ inl e ↦ rw e | inr e ↦ rw e ]

set_at : {A : Type 0} (f : ℕ → A) (k : ℕ) (a : A) → set f k a k ≡ a
unfolding set
set_at f k a = rw (==_refl k)

last_child-append : (ks : List Kid) (k : Kid) → last_child (ks ++ (k ∷ [])) ≡ some k
unfolding last_child
last_child-append [] k = refl
last_child-append (k' ∷ []) k = refl
last_child-append (k' ∷ k'' ∷ ks) k = last_child-append (k'' ∷ ks) k

module _ (g : Page) (parent : ℕ) (x y : List ℕ) where
  abbrev new_node : List ℕ → Page
  new_node txt = record {
    text = set g.text g.next txt;
    children = set g.children parent (g.children parent ++ (text_kid g.next ∷ []));
    next = suc g.next;
  }

  onto_new : insert_text (new_node x) parent y ≡ new_node (x ++ y)
  unfolding insert_text
  onto_new =
      let last : last_child ((new_node x).children parent) ≡ some (text_kid g.next) =
        ap last_child (set_at g.children parent (g.children parent ++ (text_kid g.next ∷ [])))
        ∙ last_child-append (g.children parent) (text_kid g.next) in
      rw last (
        ap (λ f. record (new_node x) { text = f })
          (set-set g.text g.next x (set g.text g.next x g.next ++ y)
            ∙ ap (λ z. set g.text g.next (z ++ y)) (set_at g.text g.next x)))

  again :
      (o : Option Kid)
      → last_child (g.children parent) ≡ o
      → insert_text (insert_behind g parent x o) parent y ≡ insert_behind g parent (x ++ y) o
  unfolding insert_text
  again (some (text_kid t)) e = rw e (
      ap (λ f. record g { text = f })
        (set-set g.text t (g.text t ++ x) (set g.text t (g.text t ++ x) t ++ y)
          ∙ ap (set g.text t) (rw (set_at g.text t (g.text t ++ x)) (append_assoc (g.text t) x y))))
  again none e = onto_new
  again (some (other_kid k)) e = onto_new

-- Two insertions at the same place are one.
insert_text-insert_text :
    (g : Page) (parent : ℕ) (x y : List ℕ)
    → insert_text (insert_text g parent x) parent y ≡ insert_text g parent (x ++ y)
unfolding insert_text
insert_text-insert_text g parent x y = again g parent x y (last_child (g.children parent)) refl

run_pending :
    (s : State) (parent : ℕ) (txt : List ℕ) (o : Option Kid)
    → (run_behind s parent txt o).pending_text ≡ none
    → ⊥
run_pending s parent txt none e = ground (arith, e)
run_pending s parent txt (some (other_kid k)) e = ground (arith, e)
run_pending s parent txt (some (text_kid t)) e = ground (arith, e)

fresh_pending : (s : State) (parent : ℕ) (txt : List ℕ) → IsValid (fresh_run s parent txt)
unfolding fresh_run
fresh_pending s parent txt e = absurd (run_pending s parent txt (last_child (s.children parent)) e)

module _ (d : ℕ → List ℕ) (c : ℕ → List Kid) (n : ℕ) (buf : List ℕ) (parent : ℕ)
    (txt : List ℕ) where
  abbrev state : Option Pending → State
  state o = record { data' = d; children = c; next = n; pending_text = o; buf = buf }

  chunk-IsValid : (o : Option Pending) → IsValid (append_text_chunk (state o) parent txt)
  unfolding append_text_chunk
  chunk-IsValid none = fresh_pending (state none) parent txt
  chunk-IsValid (some pt) =
      elim (Bool-cases (pt.parent == parent && is_text (last_child (c parent)) pt.text_node)) [
        | inl e ↦ rw e (λ z. absurd (ground (arith, z)))
        | inr e ↦ rw e (fresh_pending (flush_pending_text (state (some pt))) parent txt)
      ]

pub append_text_chunk-IsValid :
    (s : State) (parent : ℕ) (txt : List ℕ) → IsValid (append_text_chunk s parent txt)
append_text_chunk-IsValid s parent txt =
    chunk-IsValid s.data' s.children s.next s.buf parent txt s.pending_text

chunks_lem :
    (cs : List (List ℕ)) (s : State) (g : Page) (parent : ℕ) (c : List ℕ)
    → IsValid s
    → shown s ≡ insert_text g parent c
    → (shown (append_chunks s parent cs) ≡ insert_text g parent (c ++ joined_up cs))
      × IsValid (append_chunks s parent cs)
unfolding append_chunks
chunks_lem [] s g parent c valid e = (e ∙ ap (insert_text g parent) (sym (append-nil c)), valid)
chunks_lem (c' ∷ cs) s g parent c valid e =
    let r =
      chunks_lem cs (append_text_chunk s parent c') g parent (c ++ c')
        (append_text_chunk-IsValid s parent c')
        (append_text_chunk-insert_text s parent c' valid
          ∙ ap (λ z. insert_text z parent c') e
          ∙ insert_text-insert_text g parent c c') in
    (r.0 ∙ ap (insert_text g parent) (append_assoc c c' (joined_up cs)), r.1)

pub Idle-text : (s : State) → Idle s → (shown s).text ≡ s.data'
unfolding shown
Idle-text s idle = rw idle.pending_none

-- From a state whose buffer is in use only while a run is pending, `appendTextChunk` of one or more
-- chunks under one parent and `flushPendingText` at the end leave the text nodes and the children
-- as one insertion of the joined text does (which joins a text node in last place and makes a new
-- one otherwise), with nothing pending and an empty buffer.
pub flush-append_chunks :
    (s : State) (parent : ℕ) (c : List ℕ) (cs : List (List ℕ))
    → IsValid s
    → let s' = flush_pending_text (append_chunks s parent (c ∷ cs)) in
      let g = insert_text (shown s) parent (c ++ joined_up cs) in
      (s'.data' ≡ g.text) × (s'.children ≡ g.children) × (s'.pending_text ≡ none) × (s'.buf ≡ [])
unfolding append_chunks
flush-append_chunks s parent c cs valid =
    let r =
      chunks_lem cs (append_text_chunk s parent c) (shown s) parent c
        (append_text_chunk-IsValid s parent c) (append_text_chunk-insert_text s parent c valid) in
    let t = append_chunks (append_text_chunk s parent c) parent cs in
    let f = flushed t.data' t.children t.next t.pending_text t.buf r.1 in
    let i = f.1 in
    (
      sym (Idle-text (flush_pending_text t) i) ∙ ap (λ (g : Page). g.text) (f.0 ∙ r.0),
      unfold shown in ap (λ (g : Page). g.children) (f.0 ∙ r.0),
      i.pending_none,
      i.buf_empty,
    )
