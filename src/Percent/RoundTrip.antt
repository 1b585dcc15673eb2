-- ===== src/Percent/RoundTrip.antt =====
-- `percentEncodeSegment` of browser/URL.zig, undone and repeated.
use zenpanda.Prelude.{
  ℕ, ◌≡◌, refl, ap, ◌∙◌, sym, List, [], ◌∷◌, true, false, ◌&&◌, ◌+◌, ◌*◌, &&-true, ||-false, ◌==◌,
  Bool-cases, inl, inr, ==_iff,
}
use zenpanda.Percent.{
  EncodeSet, should_percent_encode, is_escape, is_hex, digit, put_encoded, encode_from,
  needs_encoding, percent_encode_segment, unescape_from, has_percent, unescape,
}
use zenpanda.Percent.Reference.{
  percent_decode, AllBytes, unescape_from-hexes, encode_from-plain, unescape_from-put_encoded,
  encode_from-put_encoded,
}

-- An escape is a percent sign and two digits.
module _ (c h1 h2 : ℕ) (e : is_escape c h1 h2 ≡ true) where
  parts : ((c == b'%') ≡ true) × (is_hex h1 ≡ true) × (is_hex h2 ≡ true)
  parts =
      let a = &&-true (c == b'%' && is_hex h1) (is_hex h2) e in
      let b = &&-true (c == b'%') (is_hex h1) a.0 in (b.0, b.1, a.1)

  is_percent : c ≡ b'%'
  is_percent = (==_iff c b'%').0 parts.0

  unescape_from-escape :
      (r : List ℕ) → unescape_from (c ∷ h1 ∷ h2 ∷ r) ≡ (digit h1 * 16 + digit h2) ∷ unescape_from r
  unescape_from-escape r =
      ap (λ x. unescape_from (x ∷ h1 ∷ h2 ∷ r)) is_percent
      ∙ unescape_from-hexes h1 h2 parts.1 parts.2 r

  encode_from-escape :
      (s : EncodeSet) (r : List ℕ) → encode_from s (c ∷ h1 ∷ h2 ∷ r) ≡ c ∷ h1 ∷ h2 ∷ encode_from s r
  unfolding encode_from
  encode_from-escape s r = rw (e, encode_from) refl

unescape_from-encode_from :
    (s : EncodeSet) (xs : List ℕ)
    → AllBytes xs
    → unescape_from (encode_from s xs) ≡ percent_decode xs
unfolding encode_from percent_decode unescape_from
unescape_from-encode_from s [] bytes = refl
unescape_from-encode_from s (c ∷ []) bytes = unescape_from-put_encoded s c bytes.0 []
unescape_from-encode_from s (c ∷ h1 ∷ []) bytes =
    unescape_from-put_encoded s c bytes.0 (encode_from s (h1 ∷ []))
    ∙ ap (λ r. c ∷ r) (unescape_from-encode_from s (h1 ∷ []) bytes.1)
unescape_from-encode_from s (c ∷ h1 ∷ h2 ∷ r) bytes = elim (Bool-cases (is_escape c h1 h2)) [
  | inl e ↦
      rw (e, encode_from, percent_decode)
        (unescape_from-escape c h1 h2 e (encode_from s r)
          ∙ ap (λ x. (digit h1 * 16 + digit h2) ∷ x) (unescape_from-encode_from s r bytes.1.1.1))
  | inr e ↦
      rw (e, encode_from, percent_decode)
        (unescape_from-put_encoded s c bytes.0 (encode_from s (h1 ∷ h2 ∷ r))
          ∙ ap (λ x. c ∷ x) (unescape_from-encode_from s (h1 ∷ h2 ∷ r) bytes.1))
]

encode_from-encode_from :
    (s : EncodeSet) (xs : List ℕ)
    → AllBytes xs
    → encode_from s (encode_from s xs) ≡ encode_from s xs
unfolding encode_from
encode_from-encode_from s [] bytes = refl
encode_from-encode_from s (c ∷ []) bytes = encode_from-put_encoded s c bytes.0 []
encode_from-encode_from s (c ∷ h1 ∷ []) bytes =
    encode_from-put_encoded s c bytes.0 (encode_from s (h1 ∷ []))
    ∙ ap (put_encoded s c) (encode_from-encode_from s (h1 ∷ []) bytes.1)
encode_from-encode_from s (c ∷ h1 ∷ h2 ∷ r) bytes = elim (Bool-cases (is_escape c h1 h2)) [
  | inl e ↦
      rw (e, encode_from)
        (encode_from-escape c h1 h2 e s (encode_from s r)
          ∙ ap (λ x. c ∷ h1 ∷ h2 ∷ x) (encode_from-encode_from s r bytes.1.1.1))
  | inr e ↦
      rw (e, encode_from)
        (encode_from-put_encoded s c bytes.0 (encode_from s (h1 ∷ h2 ∷ r))
          ∙ ap (put_encoded s c) (encode_from-encode_from s (h1 ∷ h2 ∷ r) bytes.1))
]

-- A segment that needs no encoding is left alone by the loop too.
unencoded : (s : EncodeSet) (xs : List ℕ) → needs_encoding s xs ≡ false → encode_from s xs ≡ xs
unfolding needs_encoding encode_from
unencoded s [] e = refl
unencoded s (c ∷ xs) e =
    let p = ||-false (should_percent_encode s c) (needs_encoding s xs) e in
    encode_from-plain s c p.0 xs ∙ ap (λ r. c ∷ r) (unencoded s xs p.1)

pub percent_encode_segment_lem :
    (s : EncodeSet) (xs : List ℕ) → percent_encode_segment s xs ≡ encode_from s xs
unfolding percent_encode_segment
percent_encode_segment_lem s xs = elim (Bool-cases (needs_encoding s xs)) [
  | inl e ↦ rw e refl
  | inr e ↦ rw e (sym (unencoded s xs e))
]

unmarked : (xs : List ℕ) → has_percent xs ≡ false → unescape_from xs ≡ xs
unfolding has_percent unescape_from
unmarked [] e = refl
unmarked (c ∷ []) e = refl
unmarked (c ∷ h1 ∷ []) e = refl
unmarked (c ∷ h1 ∷ h2 ∷ r) e =
    let p = ||-false (c == b'%') (has_percent (h1 ∷ h2 ∷ r)) e in
    rw (p.0, unescape_from) (ap (λ x. c ∷ x) (unmarked (h1 ∷ h2 ∷ r) p.1))

unescape_lem : (xs : List ℕ) → unescape xs ≡ unescape_from xs
unfolding unescape
unescape_lem xs = elim (Bool-cases (has_percent xs)) [
  | inl e ↦ rw e refl
  | inr e ↦ rw e (sym (unmarked xs e))
]

-- For every list of bytes and every set of characters: `unescape` of what `percentEncodeSegment`
-- makes of it is the percent decoding of the URL standard, which turns each percent sign with two
-- digits into a byte and keeps all else.
pub unescape-percent_encode_segment :
    (s : EncodeSet) (xs : List ℕ)
    → AllBytes xs
    → unescape (percent_encode_segment s xs) ≡ percent_decode xs
unescape-percent_encode_segment s xs bytes =
    unescape_lem (percent_encode_segment s xs)
    ∙ ap unescape_from (percent_encode_segment_lem s xs)
    ∙ unescape_from-encode_from s xs bytes

-- For every list of bytes and every set of characters, `percentEncodeSegment` of its own result is
-- that result.
pub percent_encode_segment_twice :
    (s : EncodeSet) (xs : List ℕ)
    → AllBytes xs
    → percent_encode_segment s (percent_encode_segment s xs) ≡ percent_encode_segment s xs
percent_encode_segment_twice s xs bytes =
    percent_encode_segment_lem s (percent_encode_segment s xs)
    ∙ ap (encode_from s) (percent_encode_segment_lem s xs)
    ∙ encode_from-encode_from s xs bytes
    ∙ sym (percent_encode_segment_lem s xs)
