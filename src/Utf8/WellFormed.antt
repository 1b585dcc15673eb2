-- ===== src/Utf8/WellFormed.antt =====
-- What `std::str::from_utf8` accepts: the table of well-formed UTF-8 of the Unicode standard, as the
-- guard of `html5ever_streaming_parser_feed` and `encoding_encode_with_ncr` in html5ever/lib.rs.
use zenpanda.Prelude.{
  ℕ, zero, suc, ◌≤◌, ◌<◌, ◌≡◌, refl, ap, ◌∙◌, false, List, [], ◌∷◌, ◌++◌, take, length, Option,
  none, some, arith, ◌⊎◌,
}
use zenpanda.Utf8.{Scan, due, boundary, lead, continuation, scan_byte, scan_bytes, at_boundary}

abbrev pub In : ℕ → ℕ → ℕ → Type 0
In lo hi b = (lo ≤ b) × (b ≤ hi)

abbrev pub Tail : ℕ → Type 0
Tail = In 0x80 0xbf

-- which second bytes go with a first byte of three
abbrev pub Second3 : ℕ → ℕ → Type 0
Second3 a b =
    ((a ≡ 0xe0) × In 0xa0 0xbf b)
    ⊎ (In 0xe1 0xec a × Tail b)
    ⊎ ((a ≡ 0xed) × In 0x80 0x9f b)
    ⊎ (In 0xee 0xef a × Tail b)

-- and with a first byte of four
abbrev pub Second4 : ℕ → ℕ → Type 0
Second4 a b =
    ((a ≡ 0xf0) × In 0x90 0xbf b) ⊎ (In 0xf1 0xf3 a × Tail b) ⊎ ((a ≡ 0xf4) × In 0x80 0x8f b)

-- The bytes of one character.
pub data Char : List ℕ → Type 0 where
  one : (a : ℕ) → a < 0x80 → Char (a ∷ [])
  two : (a b : ℕ) → In 0xc2 0xdf a → Tail b → Char (a ∷ b ∷ [])
  three : (a b c : ℕ) → Second3 a b → Tail c → Char (a ∷ b ∷ c ∷ [])
  four : (a b c d : ℕ) → Second4 a b → Tail c → Tail d → Char (a ∷ b ∷ c ∷ d ∷ [])

pub data WellFormed : List ℕ → Type 0 where
  empty : WellFormed []
  more : (c bs : List ℕ) → Char c → WellFormed bs → WellFormed (c ++ bs)

pub scan_bytes-append :
    (o : Option Scan) (xs ys : List ℕ) → scan_bytes o (xs ++ ys) ≡ scan_bytes (scan_bytes o xs) ys
unfolding scan_bytes
scan_bytes-append o [] ys = refl
scan_bytes-append none (x ∷ xs) [] = refl
scan_bytes-append none (x ∷ xs) (y ∷ ys) = refl
scan_bytes-append (some s) (x ∷ xs) ys = scan_bytes-append (scan_byte s x) xs ys

lead_two : (a : ℕ) → In 0xc2 0xdf a → lead a ≡ some (due 1 0x80 0xbf)
unfolding lead
lead_two a h = ground arith

tail_lem : (n b : ℕ) → Tail b → continuation n 0x80 0xbf b ≡ some (due n 0x80 0xbf)
unfolding continuation
tail_lem n b h = ground arith

second3 : (a b : ℕ) → Second3 a b → scan_bytes (some boundary) (a ∷ b ∷ []) ≡ some (due 1 0x80 0xbf)
unfolding scan_bytes scan_byte lead continuation
second3 a b h = ground arith

second4 : (a b : ℕ) → Second4 a b → scan_bytes (some boundary) (a ∷ b ∷ []) ≡ some (due 2 0x80 0xbf)
unfolding scan_bytes scan_byte lead continuation
second4 a b h = ground arith

-- The scan of the bytes of a character ends where it began.
scan_char : (c : List ℕ) → Char c → scan_bytes (some boundary) c ≡ some boundary
unfolding scan_bytes
scan_char _ (one a h) = unfold scan_byte lead in ground arith
scan_char _ (two a b h t) = unfold scan_byte in rw (lead_two a h, scan_bytes) (tail_lem 0 b t)
scan_char _ (three a b c h t) =
    scan_bytes-append (some boundary) (a ∷ b ∷ []) (c ∷ [])
    ∙ ap (λ o. scan_bytes o (c ∷ [])) (second3 a b h)
    ∙ unfold scan_byte in tail_lem 0 c t
scan_char _ (four a b c d h t u) =
    scan_bytes-append (some boundary) (a ∷ b ∷ []) (c ∷ d ∷ [])
    ∙ ap (λ o. scan_bytes o (c ∷ d ∷ [])) (second4 a b h)
    ∙ unfold scan_byte in rw (tail_lem 1 c t, scan_bytes) (tail_lem 0 d u)

pub scan_bytes-WellFormed :
    (bs : List ℕ) → WellFormed bs → scan_bytes (some boundary) bs ≡ some boundary
unfolding scan_bytes
scan_bytes-WellFormed _ empty = refl
scan_bytes-WellFormed _ (more c bs h w) =
    scan_bytes-append (some boundary) c bs ∙ rw (scan_char c h) (scan_bytes-WellFormed bs w)

-- A character cut short is due more bytes.
pub scan_cut :
    (c : List ℕ) (n : ℕ)
    → Char c
    → 0 < n
    → n < length c
    → at_boundary (scan_bytes (some boundary) (take n c)) ≡ false
unfolding scan_bytes at_boundary
scan_cut _ zero h l u = absurd (omega arith)
scan_cut _ (suc n) (one a h) l u = absurd (omega arith)
scan_cut _ (suc zero) (two a b h t) l u = unfold scan_byte in rw (lead_two a h)
scan_cut _ (suc (suc n)) (two a b h t) l u = absurd (omega arith)
scan_cut _ (suc zero) (three a b c h t) l u = unfold scan_byte lead in ground arith
scan_cut _ (suc (suc zero)) (three a b c h t) l u = ap at_boundary (second3 a b h)
scan_cut _ (suc (suc (suc n))) (three a b c h t) l u = absurd (omega arith)
scan_cut _ (suc zero) (four a b c d h t v) l u = unfold scan_byte lead in ground arith
scan_cut _ (suc (suc zero)) (four a b c d h t v) l u = ap at_boundary (second4 a b h)
scan_cut _ (suc (suc (suc zero))) (four a b c d h t v) l u =
    ap at_boundary (scan_bytes-append (some boundary) (a ∷ b ∷ []) (c ∷ []))
    ∙ ap (λ o. at_boundary (scan_bytes o (c ∷ []))) (second4 a b h)
    ∙ unfold scan_byte in rw (tail_lem 1 c t)
scan_cut _ (suc (suc (suc (suc n)))) (four a b c d h t v) l u = absurd (omega arith)
