-- ===== src/Encoding/Handles.antt =====
-- The handles of encodings in html5ever/lib.rs: the address of a static `Encoding`.
use zenpanda.Prelude.{ℕ, ◌≡◌, some, List, [], arith, ◌==◌, ◌||◌, if◌then◌else◌}
use zenpanda.Html5ever.{Ptr, null}
use zenpanda.EncodingRs.{EncodingRs}
use zenpanda.Memory.{Bytes, read_slice}
use zenpanda.Machine.{World, Machine, returned, from_raw_parts}
use zenpanda.Encoding.{deref_encoding, input_or_empty}

module _ {w : World} (enc : EncodingRs w.Decoder) where
  pub deref_lem :
      (m : Machine w) (handle : Ptr) (e : enc.Encoding)
      → enc.at_address handle ≡ some e
      → deref_encoding enc handle m ≡ returned e m
  unfolding deref_encoding
  deref_lem m handle e at = rw at

-- The input that a pointer and a length stand for.
abbrev pub input_of : Bytes → Ptr → ℕ → List ℕ
input_of b p n = if p == null || n == 0 then [] else read_slice b p n

pub input_lem :
    {w : World} (m : Machine w) (p : Ptr) (n : ℕ)
    → input_or_empty p n m ≡ returned (input_of m.bytes p n) m
unfolding input_or_empty from_raw_parts
input_lem m p n = ground arith
