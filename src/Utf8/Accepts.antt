-- ===== src/Utf8/Accepts.antt =====
-- `std::str::from_utf8` accepts well-formed UTF-8 and nothing else, as html5ever/lib.rs relies on
-- when it looks at each chunk on its own.
use zenpanda.Prelude.{
  ℕ, zero, suc, ◌≤◌, ◌<◌, ◌≡◌, refl, ap, ◌∙◌, true, false, List, [], ◌∷◌, ◌++◌, take, drop, length,
  Option, none, some, arith, ◌⊎◌, inl, inr, subst, sym, ◌≢◌, ◌↔◌,
}
use zenpanda.Utf8.{
  Scan, due, boundary, lead, continuation, scan_byte, scan_bytes, at_boundary, from_utf8_ok,
}
use zenpanda.Utf8.WellFormed.{
  In, Tail, Char, WellFormed, scan_bytes-append, scan_bytes-WellFormed, scan_cut,
}

lead-Tail : (b : ℕ) → Tail b → lead b ≡ none
unfolding lead
lead-Tail b h = ground arith

scan_none : (bs : List ℕ) → scan_bytes none bs ≡ none
unfolding scan_bytes
scan_none [] = refl
scan_none (b ∷ bs) = refl

scan_bytes-Tail : (b : ℕ) (bs : List ℕ) → Tail b → scan_bytes (some boundary) (b ∷ bs) ≡ none
unfolding scan_bytes scan_byte
scan_bytes-Tail b bs t = rw (lead-Tail b t) (scan_none bs)

scan_rest :
    (c : List ℕ) (n : ℕ) (bs : List ℕ)
    → Char c
    → 0 < n
    → n < length c
    → scan_bytes (some boundary) (drop n c ++ bs) ≡ none
scan_rest _ zero bs h l u = absurd (omega arith)
scan_rest _ (suc n) bs (Char.one a h) l u = absurd (omega arith)
scan_rest _ (suc zero) bs (Char.two a b h t) l u = scan_bytes-Tail b bs t
scan_rest _ (suc (suc n)) bs (Char.two a b h t) l u = absurd (omega arith)
scan_rest _ (suc zero) bs (Char.three a b c h t) l u =
    scan_bytes-Tail b (c ∷ bs) (ground (arith, h))
scan_rest _ (suc (suc zero)) bs (Char.three a b c h t) l u = scan_bytes-Tail c bs t
scan_rest _ (suc (suc (suc n))) bs (Char.three a b c h t) l u = absurd (omega arith)
scan_rest _ (suc zero) bs (Char.four a b c d h t v) l u =
    scan_bytes-Tail b (c ∷ d ∷ bs) (ground (arith, h))
scan_rest _ (suc (suc zero)) bs (Char.four a b c d h t v) l u = scan_bytes-Tail c (d ∷ bs) t
scan_rest _ (suc (suc (suc zero))) bs (Char.four a b c d h t v) l u = scan_bytes-Tail d bs v
scan_rest _ (suc (suc (suc (suc n)))) bs (Char.four a b c d h t v) l u = absurd (omega arith)

-- What a scan that ends well still has to see.
Follows : ℕ → ℕ → ℕ → List ℕ → Type 0
Follows n lo hi bs =
    (b : ℕ) × (cs : List ℕ) × (bs ≡ b ∷ cs)
    × In lo hi b
    × (at_boundary (scan_bytes (some (due n 0x80 0xbf)) cs) ≡ true)

continuation_cases :
    (n lo hi b : ℕ)
    → (In lo hi b × (continuation n lo hi b ≡ some (due n 0x80 0xbf)))
      ⊎ (continuation n lo hi b ≡ none)
unfolding continuation
continuation_cases n lo hi b = ground arith

false_ne_true : false ≢ true
false_ne_true e = ground (arith, e)

follows :
    (n lo hi : ℕ) (bs : List ℕ)
    → at_boundary (scan_bytes (some (due (suc n) lo hi)) bs) ≡ true
    → Follows n lo hi bs
unfolding Follows scan_bytes at_boundary scan_byte
follows n lo hi [] e = absurd (ground (arith, e))
follows n lo hi (b ∷ cs) e = elim (continuation_cases n lo hi b) [
  | inl (h, c) ↦ (b, cs, refl, h, subst (λ o. at_boundary (scan_bytes o cs) ≡ true) c e)
  | inr c ↦ absurd (
      false_ne_true (
        ap at_boundary (sym (scan_none cs))
        ∙ subst (λ o. at_boundary (scan_bytes o cs) ≡ true) c e))
]

LeadCases : ℕ → Type 0
LeadCases a =
    ((a < 0x80) × (lead a ≡ some boundary))
    ⊎ (In 0xc2 0xdf a × (lead a ≡ some (due 1 0x80 0xbf)))
    ⊎ ((a ≡ 0xe0) × (lead a ≡ some (due 2 0xa0 0xbf)))
    ⊎ (In 0xe1 0xec a × (lead a ≡ some (due 2 0x80 0xbf)))
    ⊎ ((a ≡ 0xed) × (lead a ≡ some (due 2 0x80 0x9f)))
    ⊎ (In 0xee 0xef a × (lead a ≡ some (due 2 0x80 0xbf)))
    ⊎ ((a ≡ 0xf0) × (lead a ≡ some (due 3 0x90 0xbf)))
    ⊎ (In 0xf1 0xf3 a × (lead a ≡ some (due 3 0x80 0xbf)))
    ⊎ ((a ≡ 0xf4) × (lead a ≡ some (due 3 0x80 0x8f)))
    ⊎ (lead a ≡ none)

lead-LeadCases : (a : ℕ) → LeadCases a
unfolding LeadCases lead
lead-LeadCases a = ground arith

-- The rest of the text, and how a character of each length is completed.
module _ (n a : ℕ)
    (rec : (cs : List ℕ)
      → length cs ≤ n
      → at_boundary (scan_bytes (some boundary) cs) ≡ true
      → WellFormed cs) where
  Ends : ℕ → ℕ → ℕ → List ℕ → Type 0
  Ends k lo hi bs = at_boundary (scan_bytes (some (due k lo hi)) bs) ≡ true

  of_two :
      (lo hi : ℕ)
      → ((b : ℕ) → In lo hi b → Char (a ∷ b ∷ []))
      → (bs : List ℕ) → length bs ≤ n
      → Ends 1 lo hi bs
      → WellFormed (a ∷ bs)
  unfolding Ends Follows
  of_two lo hi char bs l e =
      let (b, cs, same, h, e') = follows 0 lo hi bs e in
      subst (λ xs. WellFormed (a ∷ xs)) (sym same)
        (WellFormed.more (a ∷ b ∷ []) cs (char b h) (rec cs (omega (arith, l, ap length same)) e'))

  of_three :
      (lo hi : ℕ)
      → ((b c : ℕ) → In lo hi b → Tail c → Char (a ∷ b ∷ c ∷ []))
      → (bs : List ℕ) → length bs ≤ n
      → Ends 2 lo hi bs
      → WellFormed (a ∷ bs)
  unfolding Ends Follows
  of_three lo hi char bs l e =
      let (b, cs, same, h, e') = follows 1 lo hi bs e in
      let (c, ds, same', t, e'') = follows 0 0x80 0xbf cs e' in
      subst (λ xs. WellFormed (a ∷ xs)) (sym (same ∙ ap (λ xs. b ∷ xs) same'))
        (WellFormed.more (a ∷ b ∷ c ∷ []) ds (char b c h t)
          (rec ds (omega (arith, l, ap length same, ap length same')) e''))

  of_four :
      (lo hi : ℕ)
      → ((b c d : ℕ) → In lo hi b → Tail c → Tail d → Char (a ∷ b ∷ c ∷ d ∷ []))
      → (bs : List ℕ) → length bs ≤ n
      → Ends 3 lo hi bs
      → WellFormed (a ∷ bs)
  unfolding Ends Follows
  of_four lo hi char bs l e =
      let (b, cs, same, h, e') = follows 2 lo hi bs e in
      let (c, ds, same', t, e'') = follows 1 0x80 0xbf cs e' in
      let (d, es, same'', u, e''') = follows 0 0x80 0xbf ds e'' in
      subst (λ xs. WellFormed (a ∷ xs))
        (sym (same ∙ ap (λ xs. b ∷ xs) (same' ∙ ap (λ xs. c ∷ xs) same'')))
        (WellFormed.more (a ∷ b ∷ c ∷ d ∷ []) es (char b c d h t u)
          (rec es (omega (arith, l, ap length same, ap length same', ap length same'')) e'''))

  from_lead :
      (bs : List ℕ)
      → length bs ≤ n
      → at_boundary (scan_bytes (lead a) bs) ≡ true
      → WellFormed (a ∷ bs)
  unfolding LeadCases Ends at_boundary
  from_lead bs l e =
      let start : (o : Option Scan) → lead a ≡ o → at_boundary (scan_bytes o bs) ≡ true =
        λ o z. subst (λ x. at_boundary (scan_bytes x bs) ≡ true) z e in
      elim (lead-LeadCases a) [
        | inl (h, z) ↦ WellFormed.more (a ∷ []) bs (Char.one a h) (rec bs l (start _ z))
        | inr (inl (h, z)) ↦ of_two 0x80 0xbf (λ b. Char.two a b h) bs l (start _ z)
        | inr (inr (inl (h, z))) ↦
            of_three 0xa0 0xbf (λ b c i. Char.three a b c (inl (h, i))) bs l (start _ z)
        | inr (inr (inr (inl (h, z)))) ↦
            of_three 0x80 0xbf (λ b c i. Char.three a b c (inr (inl (h, i)))) bs l (start _ z)
        | inr (inr (inr (inr (inl (h, z))))) ↦
            of_three 0x80 0x9f (λ b c i. Char.three a b c (inr (inr (inl (h, i))))) bs l (start _ z)
        | inr (inr (inr (inr (inr (inl (h, z)))))) ↦
            of_three 0x80 0xbf (λ b c i. Char.three a b c (inr (inr (inr (h, i))))) bs l (start _ z)
        | inr (inr (inr (inr (inr (inr (inl (h, z))))))) ↦
            of_four 0x90 0xbf (λ b c d i. Char.four a b c d (inl (h, i))) bs l (start _ z)
        | inr (inr (inr (inr (inr (inr (inr (inl (h, z)))))))) ↦
            of_four 0x80 0xbf (λ b c d i. Char.four a b c d (inr (inl (h, i)))) bs l (start _ z)
        | inr (inr (inr (inr (inr (inr (inr (inr (inl (h, z))))))))) ↦
            of_four 0x80 0x8f (λ b c d i. Char.four a b c d (inr (inr (h, i)))) bs l (start _ z)
        | inr (inr (inr (inr (inr (inr (inr (inr (inr z)))))))) ↦
            absurd (false_ne_true (ap at_boundary (sym (scan_none bs)) ∙ start _ z))
      ]

sound :
    (n : ℕ) (bs : List ℕ)
    → length bs ≤ n
    → at_boundary (scan_bytes (some boundary) bs) ≡ true
    → WellFormed bs
unfolding scan_bytes scan_byte
sound n [] l e = WellFormed.empty
sound zero (a ∷ bs) l e = absurd (omega arith)
sound (suc n) (a ∷ bs) l e = from_lead n a (sound n) bs (omega arith) e

-- The test for UTF-8 that guards `html5ever_streaming_parser_feed` and `encoding_encode_with_ncr`
-- accepts a list of bytes exactly when it is a sequence of characters in the table of well-formed
-- UTF-8 of the Unicode standard.
pub from_utf8_ok-WellFormed : (bs : List ℕ) → (from_utf8_ok bs ≡ true) ↔ WellFormed bs
unfolding from_utf8_ok
from_utf8_ok-WellFormed bs =
    (sound (length bs) bs (omega arith), λ w. unfold at_boundary in rw (scan_bytes-WellFormed bs w))

-- Text that is cut within a character is refused on both sides of the cut.
pub from_utf8_ok-cut :
    (before c behind : List ℕ) (n : ℕ)
    → WellFormed before
    → Char c
    → 0 < n
    → n < length c
    → (from_utf8_ok (before ++ take n c) ≡ false) × (from_utf8_ok (drop n c ++ behind) ≡ false)
unfolding from_utf8_ok
from_utf8_ok-cut before c behind n w h l u = (
  rw (scan_bytes-append (some boundary) before (take n c))
      (rw (scan_bytes-WellFormed before w) (scan_cut c n h l u)),
  unfold at_boundary in rw (scan_rest c n behind h l u),
)
