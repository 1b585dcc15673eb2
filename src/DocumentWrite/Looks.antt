-- ===== src/DocumentWrite/Looks.antt =====
-- `looksLikeNewDocument` of browser/webapi/Document.zig, in the `write` that asks it.
use zenpanda.Prelude.{
  ℕ, List, ◌≡◌, refl, ap, Option, none, some, Bool, false, if◌then◌else◌, Bool-cases, inl, inr,
  ◌||◌,
}
use zenpanda.Html5ever.{Ptr, Html5ever}
use zenpanda.Types.{Ref}
use zenpanda.Machine.{World, Machine, Run, pure, ◌>>=◌, and_then}
use zenpanda.Code.{Code}
use zenpanda.Document.{Callbacks}
use zenpanda.DocumentWrite.{
  Document, Reply, success, invalid_state_error, Hooks, refuses, is_streamed, is_absent, joined,
  looks_like_new_document, written, open_document, write_internal,
}

module _ {w : World} (code : Code w) (lib : Html5ever w.Parser) (hooks : Hooks w.Client)
    (document ctx : Ref) (cb : Callbacks) (buffer : Ptr) where
  -- a document that has a parser is not opened again
  pub open-has_parser :
      (d : Document) (p : Ptr) (m : Machine w)
      → refuses d.moment ≡ false
      → d.script_created_parser ≡ some p
      → open_document code lib hooks document ctx cb buffer d m ≡ pure (success, d) m
  unfolding open_document
  open-has_parser d p m allowed has = elim (Bool-cases d.moment.is_parsing) [
    | inl e ↦ rw allowed (rw e refl)
    | inr e ↦ rw allowed (rw e (rw has refl))
  ]

  -- `write` that opens the document where it has no parser, whatever the markup looks like
  unfoldable pub write_unasked :
      (List ℕ → Document → Run w (Reply × Document))
      → List (List ℕ)
      → Bool
      → Document
      → Run w (Reply × Document)
  unfolding joined
  write_unasked write_inline text append_newline d =
      if refuses d.moment
      then pure (invalid_state_error, d)
      else let html = joined text append_newline in
        if is_streamed d.moment
        then (do
          opened ←
              if is_absent d.script_created_parser
              then open_document code lib hooks document ctx cb buffer d
              else pure (success, d)
          written code lib hooks document ctx cb buffer html opened)
        else write_inline html d

  module _ (write_inline : List ℕ → Document → Run w (Reply × Document)) (text : List (List ℕ))
      (append_newline : Bool) where
    abbrev html : List ℕ
    unfolding joined
    html = joined text append_newline

    opening :
        (d : Document) (o : Option Ptr) (m : Machine w)
        → refuses d.moment ≡ false
        → d.script_created_parser ≡ o
        → (if is_absent o || looks_like_new_document html
              then open_document code lib hooks document ctx cb buffer d
              else pure (success, d))
            m
          ≡ (if is_absent o
                then open_document code lib hooks document ctx cb buffer d
                else pure (success, d))
              m
    opening d none m allowed has = refl
    opening d (some p) m allowed has = elim (Bool-cases (looks_like_new_document html)) [
      | inl e ↦ rw e (open-has_parser d p m allowed has)
      | inr e ↦ rw e refl
    ]

    -- `write` does the same, for every document, markup and machine, as a `write` that does not ask
    -- whether the markup looks like a new document and opens the document only where it has no
    -- parser.
    pub write_internal-write_unasked :
        (d : Document) (m : Machine w)
        → write_internal code lib hooks document ctx cb buffer write_inline text append_newline d m
          ≡ write_unasked write_inline text append_newline d m
    unfolding write_internal write_unasked
    write_internal-write_unasked d m = elim (Bool-cases (refuses d.moment)) [
      | inl e ↦ rw e refl
      | inr e ↦ elim (Bool-cases (is_streamed d.moment)) [
        | inl s ↦ rw e (
            rw s (
              ap
                (λ o.
                  and_then o (λ opened. written code lib hooks document ctx cb buffer html opened))
                (opening d d.script_created_parser m e refl)))
        | inr s ↦ rw e (rw s refl)
      ]
    ]
