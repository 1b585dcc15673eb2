-- ===== src/Percent/Reference.antt =====
-- The percent decoding of the URL standard, against `percentEncodeSegment` and `unescape` of
-- browser/URL.zig.
use zenpanda.Prelude.{
  ℕ, ◌+◌, ◌*◌, ◌/◌, ◌%◌, ◌<◌, ◌≡◌, refl, ap, ◌∙◌, sym, List, [], ◌∷◌, some, true, false, ◌==◌,
  arith, Bool-cases, inl, inr, ==_iff,
}
use zenpanda.Percent.{
  EncodeSet, should_percent_encode, is_hex, is_escape, digit, upper_hex, hex_of, put_encoded,
  encode_from, parse_int, unescape_from,
}

-- a byte for each escape, and everything else as it is
unfoldable pub percent_decode : List ℕ → List ℕ
percent_decode [] = []
percent_decode (c ∷ []) = c ∷ []
percent_decode (c ∷ h1 ∷ []) = c ∷ percent_decode (h1 ∷ [])
percent_decode (c ∷ h1 ∷ h2 ∷ rest) = elim (is_escape c h1 h2) [
  | true ↦ (digit h1 * 16 + digit h2) ∷ percent_decode rest
  | false ↦ c ∷ percent_decode (h1 ∷ h2 ∷ rest)
]

abbrev pub AllBytes : List ℕ → Type 0
AllBytes [] = Unit {0}
AllBytes (c ∷ cs) = (c < 256) × AllBytes cs

upper_hex-is_hex : (d : ℕ) → d < 16 → is_hex (upper_hex d) ≡ true
upper_hex-is_hex d l = ground arith

digit-upper_hex : (d : ℕ) → d < 16 → digit (upper_hex d) ≡ d
digit-upper_hex d l = ground arith

percent-encoded : (s : EncodeSet) → should_percent_encode s b'%' ≡ true
unfolding should_percent_encode
percent-encoded s = refl

module _ (h1 h2 : ℕ) (first : is_hex h1 ≡ true) (second : is_hex h2 ≡ true) where
  parse_int-hexes : parse_int h1 h2 ≡ some (digit h1 * 16 + digit h2)
  unfolding parse_int
  parse_int-hexes = rw first (rw second refl)

  hexes_escape : is_escape b'%' h1 h2 ≡ true
  hexes_escape = rw first (rw second refl)

  pub unescape_from-hexes :
      (r : List ℕ)
      → unescape_from (b'%' ∷ h1 ∷ h2 ∷ r) ≡ (digit h1 * 16 + digit h2) ∷ unescape_from r
  unfolding unescape_from
  unescape_from-hexes r = rw (parse_int-hexes, unescape_from) refl

  pub encode_from-hexes :
      (s : EncodeSet) (r : List ℕ)
      → encode_from s (b'%' ∷ h1 ∷ h2 ∷ r) ≡ b'%' ∷ h1 ∷ h2 ∷ encode_from s r
  unfolding encode_from
  encode_from-hexes s r = rw (hexes_escape, encode_from) refl

module _ (c : ℕ) (byte : c < 256) where
  high : c / 16 < 16
  high = omega (arith, byte)

  low : c % 16 < 16
  low = omega arith

  whole : c / 16 * 16 + c % 16 ≡ c
  whole = omega arith

  unescape_from-hex_of : (r : List ℕ) → unescape_from (hex_of c r) ≡ c ∷ unescape_from r
  unfolding hex_of
  unescape_from-hex_of r =
      unescape_from-hexes (upper_hex (c / 16)) (upper_hex (c % 16)) (upper_hex-is_hex (c / 16) high)
        (upper_hex-is_hex (c % 16) low) r
      ∙ ap (λ x. x ∷ unescape_from r)
          (ap (λ x. x * 16 + digit (upper_hex (c % 16))) (digit-upper_hex (c / 16) high)
            ∙ ap (λ x. c / 16 * 16 + x) (digit-upper_hex (c % 16) low)
            ∙ whole)

  encode_from-hex_of :
      (s : EncodeSet) (r : List ℕ) → encode_from s (hex_of c r) ≡ hex_of c (encode_from s r)
  unfolding hex_of
  encode_from-hex_of s r =
      encode_from-hexes (upper_hex (c / 16)) (upper_hex (c % 16)) (upper_hex-is_hex (c / 16) high)
        (upper_hex-is_hex (c % 16) low) s r

-- A character that stands for itself is no percent sign.
pub plain : (s : EncodeSet) (c : ℕ) → should_percent_encode s c ≡ false → (c == b'%') ≡ false
plain s c e = elim (Bool-cases (c == b'%')) [
  | inl z ↦
      let same : c ≡ b'%' = (==_iff c b'%').0 z in
      let no : true ≡ false =
        sym (percent-encoded s) ∙ ap (should_percent_encode s) (sym same) ∙ e in
      absurd cc
  | inr z ↦ z
]

module _ (s : EncodeSet) (c : ℕ) (e : should_percent_encode s c ≡ false) where
  pub unescape_from-plain : (r : List ℕ) → unescape_from (c ∷ r) ≡ c ∷ unescape_from r
  unfolding unescape_from
  unescape_from-plain [] = refl
  unescape_from-plain (h1 ∷ []) = refl
  unescape_from-plain (h1 ∷ h2 ∷ r) = rw (plain s c e, unescape_from) refl

  pub encode_from-plain : (r : List ℕ) → encode_from s (c ∷ r) ≡ c ∷ encode_from s r
  unfolding encode_from put_encoded
  encode_from-plain [] = rw (e, put_encoded) refl
  encode_from-plain (h1 ∷ []) = rw (e, put_encoded) refl
  encode_from-plain (h1 ∷ h2 ∷ r) =
      let no : is_escape c h1 h2 ≡ false = rw (plain s c e) refl in
      rw (no, encode_from) (rw (e, put_encoded) refl)

module _ (s : EncodeSet) (c : ℕ) (byte : c < 256) (r : List ℕ) where
  pub unescape_from-put_encoded : unescape_from (put_encoded s c r) ≡ c ∷ unescape_from r
  unfolding put_encoded
  unescape_from-put_encoded = elim (Bool-cases (should_percent_encode s c)) [
    | inl e ↦ rw e (unescape_from-hex_of c byte r)
    | inr e ↦ rw e (unescape_from-plain s c e r)
  ]

  pub encode_from-put_encoded :
      encode_from s (put_encoded s c r) ≡ put_encoded s c (encode_from s r)
  unfolding put_encoded
  encode_from-put_encoded = elim (Bool-cases (should_percent_encode s c)) [
    | inl e ↦ rw e (encode_from-hex_of c byte s r)
    | inr e ↦ rw e (encode_from-plain s c e r)
  ]
