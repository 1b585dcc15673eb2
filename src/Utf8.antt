-- ===== src/Utf8.antt =====
-- `std::str::from_utf8`, as html5ever/lib.rs uses it: a byte at a time over the ranges of
-- well-formed UTF-8.
pub mod WellFormed
pub mod Accepts
use zenpanda.Prelude.{
  ℕ, zero, suc, Bool, false, ◌&&◌, List, [], ◌∷◌, Option, none, some, ltb, leb, ◌==◌, if◌then◌else◌,
}

-- How many continuation bytes are due, and the range of the next one.
pub record Scan : Type 0 where
  pub need : ℕ
  pub low : ℕ
  pub high : ℕ

abbrev pub due : ℕ → ℕ → ℕ → Scan
due n lo hi = record { need = n; low = lo; high = hi }

abbrev pub boundary : Scan
boundary = due 0 0x80 0xbf

unfoldable pub lead : ℕ → Option Scan
lead b =
    if ltb b 0x80
    then some boundary
    else if ltb b 0xc2
    then none
    else if ltb b 0xe0
    then some (due 1 0x80 0xbf)
    else if b == 0xe0
    then some (due 2 0xa0 0xbf)
    else if b == 0xed
    then some (due 2 0x80 0x9f)
    else if ltb b 0xf0
    then some (due 2 0x80 0xbf)
    else if b == 0xf0
    then some (due 3 0x90 0xbf)
    else if ltb b 0xf4
    then some (due 3 0x80 0xbf)
    else if b == 0xf4
    then some (due 3 0x80 0x8f)
    else none

unfoldable continuation : ℕ → ℕ → ℕ → ℕ → Option Scan
continuation n lo hi b = if leb lo b && leb b hi then some (due n 0x80 0xbf) else none

unfoldable scan_byte : Scan → ℕ → Option Scan
unfolding lead continuation
scan_byte s b = elim s.need [ zero ↦ lead b | suc n ↦ continuation n s.low s.high b ]

unfoldable scan_bytes : Option Scan → List ℕ → Option Scan
scan_bytes o [] = o
scan_bytes none (b ∷ bs) = none
scan_bytes (some s) (b ∷ bs) = scan_bytes (scan_byte s b) bs

unfoldable at_boundary : Option Scan → Bool
at_boundary none = false
at_boundary (some s) = s.need == 0

-- `std::str::from_utf8(bytes).is_ok()`
unfoldable pub from_utf8_ok : List ℕ → Bool
unfolding scan_byte scan_bytes at_boundary
from_utf8_ok bytes = at_boundary (scan_bytes (some boundary) bytes)
