-- ===== src/Tests/Total.antt =====
-- A run of the small parser that keeps to its handles, over html5ever/lib.rs.
use zenpanda.Prelude.{ℕ, Option, none, some, ◌≡◌, ◌≢◌, refl, ap, subst, arith}
use zenpanda.Html5ever.{null, Prog}
use zenpanda.Memory.{read_slice, write_slice}
use zenpanda.Document.{html5ever_parse_document}
use zenpanda.Embedder.{embedder, put, add_node}
use zenpanda.Embedder.Ideal.{ideal_run, ideal_call, ideal_create}
use zenpanda.Embedder.Documents.{followed_by}
use zenpanda.Embedder.Allowed.{Known, AllowedRun, Total, html5ever_parse_document-Total}
use zenpanda.Tests.Page.{page, document, self, callbacks, html, input, start, ideal, start-Ready}
use zenpanda.Tests.Parser.{parser, set_up, read_all, whole-Readable}

abbrev len : ℕ
len = 2

html_ne_null : html ≢ null
html_ne_null e = omega (arith, e)

len_ne_zero : len ≢ 0
len_ne_zero e = omega (arith, e)

abbrev from_some : {A : Type 0} → A → Option A → A
from_some a none = a
from_some a (some b) = b

-- What holds of the one value holds of the other.
same_answer :
    {A : Type 0} (Q : A → Type 0) (o : Option A) (a b : A) → o ≡ some a → o ≡ some b → Q a → Q b
same_answer Q o a b e f q = subst Q (cc (ap (from_some a) e, ap (from_some a) f)) q

abbrev program : Prog (Unit {0})
program = followed_by set_up λ p. read_all input

program-AllowedRun : AllowedRun page document ideal program
unfolding followed_by ideal_call ideal_create add_node put
program-AllowedRun = (
  tt,
  λ u i e.
      same_answer (λ ui. AllowedRun page document ui.1 (read_all input)) _ (tt, ideal) (u, i) refl e
        (
          tt,
          λ r j f. (
            same_answer (λ rj. Known page rj.1 document × Known page rj.1 rj.0) _ _ (r, j) refl f
                ((_, refl), (_, refl)),
            λ v k z. tt,
          ),
        ),
)

html5ever_parse_document-Total_example :
    Total page self document callbacks start
      (html5ever_parse_document
        (embedder page (Unit {0}) ℕ self callbacks)
        parser
        html
        len
        document
        self
        callbacks
        start)
      (ideal_run page document ideal program)
unfolding read_slice write_slice
html5ever_parse_document-Total_example =
    html5ever_parse_document-Total page self document callbacks start parser ideal html len
      start-Ready html_ne_null len_ne_zero (whole-Readable _ _ ideal) program-AllowedRun
