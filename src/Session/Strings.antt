-- ===== src/Session/Strings.antt =====
-- The strings of the parser behind a `Streaming` of browser/parser/Parser.zig.
use zenpanda.Prelude.{ℕ, List}
use zenpanda.Html5ever.{Html5ever}
use zenpanda.Memory.{Bytes}
use zenpanda.Types.{Ref}
use zenpanda.Embedder.{Dom}
use zenpanda.Embedder.Ideal.{Ideal}
use zenpanda.Embedder.Related.{Readable}

-- The strings that the parser passes are in memory then, whatever was there before it ran.
pub record KeepsStrings (dom : Dom) {P : Type 0} (lib : Html5ever P) (document : Ref) : Type 0 where
  pub parse_document :
      (i : Ideal dom) (b : Bytes) → Readable dom document i b (lib.parse_document lib.default_opts)
  pub process :
      (st : P) (c : List ℕ) (i : Ideal dom) (b : Bytes)
      → Readable dom document i b (lib.process st c)
  pub finish : (st : P) (i : Ideal dom) (b : Bytes) → Readable dom document i b (lib.finish st)
