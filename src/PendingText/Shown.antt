-- ===== src/PendingText/Shown.antt =====
-- What a page shows once the pending text of browser/parser/Parser.zig is flushed, and what a text
-- insertion means on it.
use zenpanda.Prelude.{
  ℕ, suc, ◌≡◌, refl, List, [], ◌∷◌, ◌++◌, Option, none, some, ◌==◌, if◌then◌else◌,
}
use zenpanda.PendingText.{Kid, text_kid, Pending, State, set, last_child, flush_pending_text}

-- The nodes with their texts.
pub record Page : Type 0 where
  pub text : ℕ → List ℕ
  pub children : ℕ → List Kid
  pub next : ℕ

abbrev pub text_at : Option Pending → List ℕ → (ℕ → List ℕ) → ℕ → List ℕ
text_at none buf d t = d t
text_at (some pt) [] d t = d t
text_at (some pt) (b ∷ bs) d t = if pt.text_node == t then b ∷ bs else d t

-- A run that is pending shows in its node.
unfoldable pub shown : State → Page
shown s = record {
  text = text_at s.pending_text s.buf s.data';
  children = s.children;
  next = s.next;
}

-- Text behind a text node joins it, and makes a node of its own otherwise.
abbrev pub insert_behind : Page → ℕ → List ℕ → Option Kid → Page
insert_behind g parent txt (some (text_kid t)) = record g { text = set g.text t (g.text t ++ txt) }
insert_behind g parent txt _ = record g {
  text = set g.text g.next txt;
  children = set g.children parent (g.children parent ++ (text_kid g.next ∷ []));
  next = suc g.next;
}

unfoldable pub insert_text : Page → ℕ → List ℕ → Page
insert_text g parent txt = insert_behind g parent txt (last_child (g.children parent))

pub record Idle (s : State) : Type 0 where
  pub pending_none : s.pending_text ≡ none
  pub buf_empty : s.buf ≡ []

-- The buffer is in use only while a run is pending.
abbrev pub IsValid : State → Type 0
IsValid s = s.pending_text ≡ none → s.buf ≡ []

pub flushed :
    (d : ℕ → List ℕ) (c : ℕ → List Kid) (n : ℕ) (o : Option Pending) (buf : List ℕ)
    → let s : State = record { data' = d; children = c; next = n; pending_text = o; buf = buf } in
      IsValid s → (shown (flush_pending_text s) ≡ shown s) × Idle (flush_pending_text s)
unfolding flush_pending_text shown set
flushed d c n none buf valid = (refl, record { pending_none = refl; buf_empty = valid refl })
flushed d c n (some pt) [] valid = (refl, record { pending_none = refl; buf_empty = refl })
flushed d c n (some pt) (b ∷ bs) valid = (refl, record { pending_none = refl; buf_empty = refl })
