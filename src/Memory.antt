-- ===== src/Memory.antt =====
-- Byte memory, read and written through a pointer and a length (`std::slice::from_raw_parts` and
-- `from_raw_parts_mut`).
use zenpanda.Prelude.{
  ℕ, zero, suc, ◌+◌, ◌≤◌, ◌<◌, ◌≡◌, refl, sym, ◌∙◌, take, ap, ◌⊎◌, inl, inr, List, [], ◌∷◌, length,
  arith, ◌==◌, if◌then◌else◌,
}
use zenpanda.Html5ever.{Ptr, Str}

abbrev pub Bytes : Type 0
Bytes = Ptr → ℕ

unfoldable pub read_slice : Bytes → Ptr → ℕ → List ℕ
read_slice b p zero = []
read_slice b p (suc n) = b p ∷ read_slice b (suc p) n

unfoldable pub write_byte : Bytes → Ptr → ℕ → Bytes
write_byte b p v q = if p == q then v else b q

unfoldable pub write_slice : Bytes → Ptr → List ℕ → Bytes
unfolding write_byte
write_slice b p [] = b
write_slice b p (v ∷ vs) = write_slice (write_byte b p v) (suc p) vs

-- The bytes of `s` stand where `s` says.
abbrev pub Holds : Bytes → Str → Type 0
Holds b s = read_slice b s.at (length s.text) ≡ s.text

pub length-read_slice : (b : Bytes) (p n : ℕ) → length (read_slice b p n) ≡ n
unfolding read_slice
length-read_slice b p zero = refl
length-read_slice b p (suc n) = ap suc (length-read_slice b (suc p) n)

-- A write changes nothing before or behind the bytes that it covers.
pub write_slice_outside :
    (b : Bytes) (p : ℕ) (vs : List ℕ) (q : ℕ)
    → (q < p) ⊎ (p + length vs ≤ q)
    → write_slice b p vs q ≡ b q
unfolding write_slice
write_slice_outside b p [] q h = refl
write_slice_outside b p (v ∷ vs) q h =
    ground (arith, write_slice_outside (write_byte b p v) (suc p) vs q)

read_slice_same :
    (b c : Bytes) (p n : ℕ)
    → ((q : ℕ) → p ≤ q → q < p + n → b q ≡ c q)
    → read_slice b p n ≡ read_slice c p n
unfolding read_slice
read_slice_same b c p zero h = refl
read_slice_same b c p (suc n) h =
    let head : b p ≡ c p = h p (omega arith) (omega arith) in
    cc (head, read_slice_same b c (suc p) n λ q l u. h q (omega arith) (omega arith))

-- What has been written is read back.
pub read_slice-write_slice :
    (b : Bytes) (p : ℕ) (vs : List ℕ) → read_slice (write_slice b p vs) p (length vs) ≡ vs
unfolding read_slice write_slice
read_slice-write_slice b p [] = refl
read_slice-write_slice b p (v ∷ vs) =
    let first : write_slice (write_byte b p v) (suc p) vs p ≡ v =
      ground (arith, write_slice_outside (write_byte b p v) (suc p) vs p) in
    cc (first, read_slice-write_slice (write_byte b p v) (suc p) vs)

-- A slice apart from the written one reads as before.
pub read_slice-write_slice_apart :
    (b : Bytes) (p : ℕ) (vs : List ℕ) (q n : ℕ)
    → (q + n ≤ p) ⊎ (p + length vs ≤ q)
    → read_slice (write_slice b p vs) q n ≡ read_slice b q n
read_slice-write_slice_apart b p vs q n apart = read_slice_same (write_slice b p vs) b q n λ r l u.
    write_slice_outside b p vs r
      (elim apart [ inl before ↦ inl (omega arith) | inr behind ↦ inr (omega arith) ])

-- The first bytes of a slice are its slice of that length.
pub take-read_slice : (b : Bytes) (p k n : ℕ) → k ≤ n → take k (read_slice b p n) ≡ read_slice b p k
unfolding read_slice
take-read_slice b p zero n l = refl
take-read_slice b p (suc k) zero l = absurd (omega (arith, l))
take-read_slice b p (suc k) (suc n) l =
    ap (λ xs. b p ∷ xs) (take-read_slice b (suc p) k n (omega (arith, l)))

pub read_slice-written :
    (b : Bytes) (p k : ℕ) (vs : List ℕ)
    → k ≤ length vs
    → read_slice (write_slice b p vs) p k ≡ take k vs
read_slice-written b p k vs l =
    sym (take-read_slice (write_slice b p vs) p k (length vs) l)
    ∙ ap (take k) (read_slice-write_slice b p vs)
