-- ===== src/DocumentWrite/Sequences.antt =====
-- Commands on a document of browser/webapi/Document.zig one after another, and what a `close` at
-- their end leaves.
use zenpanda.Prelude.{
  ℕ, ◌≡◌, ◌≢◌, refl, ap, ◌∙◌, subst, List, [], ◌∷◌, ◌++◌, Option, none, some, Bool, true, false,
}
use zenpanda.Html5ever.{Ptr, null, Html5ever}
use zenpanda.Types.{Ref}
use zenpanda.Machine.{Heap, Machine, Outcome, Run, returned, aborted, and_then}
use zenpanda.Sink.{Ending, normal, unwinding}
use zenpanda.Document.{Callbacks}
use zenpanda.Session.Strings.{KeepsStrings}
use zenpanda.Embedder.{Dom, embedded, embedder}
use zenpanda.Embedder.Ideal.{Ideal, ideal_run}
use zenpanda.DocumentWrite.{Moment, Document, Reply, refuses, Command, closes, changes, executes}
use zenpanda.DocumentWrite.Ideal.{
  PageHooks, hooks, flushed, IdealDocument, Answer, answered, stopped, ideal_complete,
  ideal_finished, ideal_closing, ideal_close, ideal_execute, Ended, ended, halted, ideal_reply,
  ideal_after, ideal_executes,
}
use zenpanda.DocumentWrite.Holds.{Stands, RepliesAsIdeal}
use zenpanda.DocumentWrite.Steps.{with_parser, with_state}
use zenpanda.DocumentWrite.Commands.{execute-ideal}

module _ (dom : Dom) {P : Type 0} (lib : Html5ever P) (document : Ref) (page : PageHooks dom) where
  -- if all commands were answered, then no parser is left
  abbrev LeavesNone : Moment → Option (Ended dom document page lib) → Type 0
  LeavesNone t none = Unit {0}
  LeavesNone t (some halted) = Unit {0}
  LeavesNone t (some (ended rs e)) = (e.parser ≡ none) × (e.moment ≡ t)

  LeavesNone-reply :
      (t : Moment) (r : Reply) (o : Option (Ended dom document page lib))
      → LeavesNone t o
      → LeavesNone t (ideal_reply dom document page lib r o)
  LeavesNone-reply t r none l = tt
  LeavesNone-reply t r (some halted) l = tt
  LeavesNone-reply t r (some (ended rs e)) l = l

  LeavesNone-after :
      (t : Moment) (a : Option (Answer dom document page lib))
      (k : IdealDocument dom document page lib → Option (Ended dom document page lib))
      → ((e : IdealDocument dom document page lib) → LeavesNone t (k e))
      → LeavesNone t (ideal_after dom document page lib a k)
  LeavesNone-after t none k l = tt
  LeavesNone-after t (some stopped) k l = tt
  LeavesNone-after t (some (answered r e)) k l = LeavesNone-reply t r (k e) (l e)

  module _ (t : Moment) (i : Ideal dom) where
    abbrev last : Option (Answer dom document page lib) → Option (Ended dom document page lib)
    last a = ideal_after dom document page lib a λ e. some (ended [] e)

    completed_leaves :
        (q : Option P) (bi : Bool × Ideal dom)
        → LeavesNone t (
            last (ideal_complete dom document page lib (with_state dom lib document page t q i) bi))
    completed_leaves q (true, j) = (refl, refl)
    completed_leaves q (false, j) = (refl, refl)

    finished_leaves :
        (q : Option P) (o : Option (Ending (Unit {0}) × Ideal dom))
        → LeavesNone t
            (last (ideal_finished dom document page lib (with_state dom lib document page t q i) o))
    finished_leaves q none = tt
    finished_leaves q (some (normal u, j)) = completed_leaves q (flushed dom document page j)
    finished_leaves q (some (unwinding u, j)) = tt

    closing_leaves :
        (q : Option P)
        → LeavesNone t
            (last (ideal_closing dom document page lib (with_state dom lib document page t q i) q))
    closing_leaves none = (refl, refl)
    closing_leaves (some st) = finished_leaves (some st) (ideal_run dom document i (lib.finish st))

    close_leaves :
        (q : Option P)
        → refuses t ≡ false
        → LeavesNone t
            (last (ideal_close dom document page lib (with_state dom lib document page t q i)))
    close_leaves q a = rw a (closing_leaves q)

  executes-LeavesNone :
      (t : Moment) (cs : List Command) (e : IdealDocument dom document page lib)
      → refuses t ≡ false
      → LeavesNone t (ideal_executes dom document page lib (cs ++ changes t ∷ closes ∷ []) e)
  unfolding ideal_executes ideal_execute
  executes-LeavesNone t [] e a = LeavesNone-reply t _ _ (close_leaves t e.ideal e.parser a)
  executes-LeavesNone t (c ∷ cs) e a =
      LeavesNone-after t (ideal_execute dom document page lib c e) _
        λ e'. executes-LeavesNone t cs e' a

module _ (dom : Dom) {P D : Type 0} (lib : Html5ever P) (self document : Ref) (cb : Callbacks)
    (keeps : KeepsStrings dom lib document) (page : PageHooks dom) (buffer : Ptr)
    (buffer_ne_null : buffer ≢ null) (h : Heap (embedded dom P D))
    (write_inline : List ℕ → Document → Run (embedded dom P D) (Reply × Document)) where
  -- The outcome of commands with these replies, after which the document stands as the ideal one.
  pub record EndsWith (o : Outcome (Machine (embedded dom P D)) (List Reply × Document))
      (rs : List Reply) (e : IdealDocument dom document page lib) : Type 0 where
    pub pointer : Option Ptr
    pub machine' : Machine (embedded dom P D)
    pub equation : o ≡ returned (rs, with_parser e.moment pointer) machine'
    pub stands : Stands dom lib self document cb h machine' pointer e.parser e.ideal

  abbrev pub EndsAsIdeal :
      Outcome (Machine (embedded dom P D)) (List Reply × Document)
      → Option (Ended dom document page lib)
      → Type 0
  EndsAsIdeal o none = Unit {0}
  EndsAsIdeal o (some (ended rs e)) = EndsWith o rs e
  EndsAsIdeal o (some halted) = o ≡ aborted

  abbrev pub run_all :
      List Command
      → Document
      → Machine (embedded dom P D)
      → Outcome (Machine (embedded dom P D)) (List Reply × Document)
  run_all =
      executes (embedder dom P D self cb) lib (hooks dom document page) document self cb buffer
        write_inline

  replied :
      (r : Reply) (x : Outcome (Machine (embedded dom P D)) (List Reply × Document))
      (o : Option (Ended dom document page lib))
      → EndsAsIdeal x o
      → EndsAsIdeal
          (and_then x λ rs m. returned (r ∷ rs.0, rs.1) m)
          (ideal_reply dom document page lib r o)
  replied r x none f = tt
  replied r x (some halted) f = rw f refl
  replied r x (some (ended rs e)) f = record {
    pointer = f.pointer;
    machine' = f.machine';
    equation = rw f.equation refl;
    stands = f.stands;
  }

  after_command :
      (cs : List Command) (x : Outcome (Machine (embedded dom P D)) (Reply × Document))
      (a : Option (Answer dom document page lib))
      → RepliesAsIdeal dom lib self document cb h page x a
      → ((t : Moment) (m : Machine (embedded dom P D)) (i : Ideal dom) (o : Option Ptr)
            (q : Option P)
          → Stands dom lib self document cb h m o q i
          → EndsAsIdeal
              (run_all cs (with_parser t o) m)
              (ideal_executes dom document page lib cs (with_state dom lib document page t q i)))
      → EndsAsIdeal
          (and_then x λ r m. and_then (run_all cs r.1 m) λ rs m'. returned (r.0 ∷ rs.0, rs.1) m')
          (ideal_after dom document page lib a λ e. ideal_executes dom document page lib cs e)
  after_command cs x none f rec = tt
  after_command cs x (some stopped) f rec = rw f refl
  after_command cs x (some (answered r e)) f rec = rw f.equation (
      replied r (run_all cs (with_parser e.moment f.pointer) f.machine') _
        (rec e.moment f.machine' e.ideal f.pointer e.parser f.stands))

  -- A document of the browser on which a script calls `open`, `write`, `writeln` and `close` in any
  -- order, with changes of its flags in between, where the document has no parser or one that
  -- lives, no inline script of the parser itself writes, and the strings of the parser are in
  -- memory when it passes them: the replies, errors included, and the page are those of the same
  -- calls with no pointers in between, or the process is aborted where making or finishing the
  -- parser panics there; after each sequence the document has a parser exactly where it has one
  -- there, that parser lives, and nothing else is left in the heap.
  pub executes-ideal :
      (cs : List Command) (t : Moment) (m : Machine (embedded dom P D)) (i : Ideal dom)
      (o : Option Ptr) (q : Option P)
      → Stands dom lib self document cb h m o q i
      → EndsAsIdeal
          (run_all cs (with_parser t o) m)
          (ideal_executes dom document page lib cs (with_state dom lib document page t q i))
  unfolding executes ideal_executes
  executes-ideal [] t m i o q stands = record {
    pointer = o;
    machine' = m;
    equation = refl;
    stands = stands;
  }
  executes-ideal (c ∷ cs) t m i o q stands =
      after_command cs _ (ideal_execute dom document page lib c _)
        (execute-ideal dom lib self document cb keeps page buffer buffer_ne_null h write_inline c t
          m i o q stands)
        (executes-ideal cs)

  -- no parser, and the heap as it was
  pub record Freed (o : Outcome (Machine (embedded dom P D)) (List Reply × Document))
      (rs : List Reply) (t : Moment) : Type 0 where
    pub machine' : Machine (embedded dom P D)
    pub equation : o ≡ returned (rs, with_parser t none) machine'
    pub heap_eq : machine'.heap ≡ h

  freed :
      (o : Outcome (Machine (embedded dom P D)) (List Reply × Document)) (rs : List Reply)
      (t : Moment) (e : IdealDocument dom document page lib) (p : Option Ptr)
      (m' : Machine (embedded dom P D))
      → o ≡ returned (rs, with_parser e.moment p) m'
      → (q : Option P) → Stands dom lib self document cb h m' p q e.ideal
      → q ≡ none
      → e.moment ≡ t
      → Freed o rs t
  freed o rs t e none m' eq none idle z same = record {
    machine' = m';
    equation = eq ∙ ap (λ x. returned (rs, with_parser x none) m') same;
    heap_eq = idle.heap_eq;
  }
  freed o rs t e (some p) m' eq (some st) live z same = absurd cc
  freed o rs t e none m' eq (some st) stands z same = absurd stands
  freed o rs t e (some p) m' eq none stands z same = absurd stands

  -- Under the same conditions: any sequence of calls on a document after which its flags allow
  -- markup and `close` is called, all of them being answered, ends with a document that has no
  -- parser, and with the heap that there was before the first of them without a parser, so that all
  -- that the parsers in between had allocated is freed.
  pub executes-closes :
      (cs : List Command) (t u : Moment) (m : Machine (embedded dom P D)) (i : Ideal dom)
      (o : Option Ptr) (q : Option P) (rs : List Reply) (e : IdealDocument dom document page lib)
      → Stands dom lib self document cb h m o q i
      → refuses u ≡ false
      → ideal_executes dom document page lib
          (cs ++ changes u ∷ closes ∷ [])
          (with_state dom lib document page t q i)
        ≡ some (ended rs e)
      → Freed (run_all (cs ++ changes u ∷ closes ∷ []) (with_parser t o) m) rs u
  executes-closes cs t u m i o q rs e stands a eq =
      let f : EndsWith (run_all (cs ++ changes u ∷ closes ∷ []) (with_parser t o) m) rs e =
        subst (EndsAsIdeal _) eq
          (executes-ideal (cs ++ changes u ∷ closes ∷ []) t m i o q stands) in
      let l : (e.parser ≡ none) × (e.moment ≡ u) = subst (LeavesNone dom lib document page u) eq (
        executes-LeavesNone dom lib document page u cs (with_state dom lib document page t q i)
          a) in
      freed _ rs u e f.pointer f.machine' f.equation e.parser f.stands l.0 l.1
