-- ===== src/Tests/Sessions.antt =====
-- The strings of a parser for a `Streaming` of browser/parser/Parser.zig.
use zenpanda.Prelude.{◌≢◌, arith}
use zenpanda.Html5ever.{Ptr, null}
use zenpanda.Session.Strings.{KeepsStrings}
use zenpanda.Tests.Page.{page, document}
use zenpanda.Tests.Parser.{parser, read_all-Readable}

abbrev buffer : Ptr
buffer = 5000

buffer_ne_null : buffer ≢ null
buffer_ne_null e = omega (arith, e)

parser-KeepsStrings : KeepsStrings page parser document
parser-KeepsStrings = record {
  parse_document = λ i b. (tt, λ r j e. tt);
  process = λ st c i b. read_all-Readable b c i;
  finish = λ st i b. (tt, λ r j e. tt);
}
