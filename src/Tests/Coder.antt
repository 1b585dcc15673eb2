-- ===== src/Tests/Coder.antt =====
-- A coder that copies as much as fits, in place of encoding_rs.
use zenpanda.Prelude.{
  ℕ, suc, zero, ◌≤◌, take, sym, ◌∙◌, true, List, [], ◌∷◌, Option, none, some, ◌≡◌, ◌+◌, refl, ap,
  length, min, arith, false, ltb, if◌then◌else◌, ◌==◌,
}
use zenpanda.EncodingRs.{EncodingRs, Coded, input_empty, output_full}
use zenpanda.Encoding.Bounds.{Bounded, Documented}
use zenpanda.TextDecoder.Ideal.{WritesOnly, blank}
use zenpanda.Percent.Query.{EncodesOnly}

unfoldable pub fill : List ℕ → List ℕ → List ℕ
fill [] out = out
fill (x ∷ xs) [] = []
fill (x ∷ xs) (o ∷ out) = x ∷ fill xs out

length-fill : (xs out : List ℕ) → length (fill xs out) ≡ length out
unfolding fill
length-fill [] out = refl
length-fill (x ∷ xs) [] = refl
length-fill (x ∷ xs) (o ∷ out) = ap suc (length-fill xs out)

-- The state counts the calls.
unfoldable pub copy : ℕ → List ℕ → List ℕ → Coded ℕ
unfolding fill
copy d xs out = record {
  state = suc d;
  result = if ltb (length out) (length xs) then output_full else input_empty;
  read = min (length xs) (length out);
  written = min (length xs) (length out);
  had_errors = false;
  output = fill xs out;
}

pub copy-Bounded : (d : ℕ) (xs out : List ℕ) → Bounded (copy d xs out) xs out
unfolding copy
copy-Bounded d xs out = record {
  read = omega arith;
  written = omega arith;
  output_length = length-fill xs out;
}

abbrev at_number : ℕ → Option ℕ
at_number zero = none
at_number (suc e) = some e

abbrev label_number : List ℕ → Option ℕ
label_number [] = none
label_number (x ∷ []) = none
label_number (x ∷ y ∷ xs) = some y

-- Encodings are numbers, of which 0 is UTF-8; a label of one byte is unknown.
abbrev pub coder : EncodingRs ℕ
coder = record {
  Encoding = ℕ;
  Encoder = ℕ;
  address = suc;
  at_address = at_number;
  utf_8 = 0;
  for_label = label_number;
  name = λ e. record { at = 100; text = e ∷ [] };
  decode = λ e xs. xs;
  new_decoder = λ e. e;
  finished = λ d. false;
  max_utf8_buffer_length = λ d n. some n;
  decode_to_utf8 = λ d xs out last. copy d xs out;
  new_encoder = λ e. e;
  max_buffer_length_from_utf8_if_no_unmappables = λ e n. if e == 0 then some n else some (n + 10);
  encode_from_utf8 = λ e xs out last. copy e xs out;
}

pub coder-Documented : Documented coder
coder-Documented = record {
  address_ne_null = λ e z. absurd (omega (arith, z));
  at_address-address = λ e. refl;
  finished-new_decoder = λ e. refl;
  finished-decode_to_utf8 = λ d xs out e. refl;
  decode_to_utf8 = λ d xs out last. copy-Bounded d xs out;
  encode_from_utf8 = λ e xs out last. copy-Bounded e xs out;
}

take-fill :
    (k : ℕ) (xs out : List ℕ) → k ≤ length xs → k ≤ length out → take k (fill xs out) ≡ take k xs
unfolding fill
take-fill zero xs out l n = refl
take-fill (suc k) [] out l n = absurd (omega (arith, l))
take-fill (suc k) (x ∷ xs) [] l n = absurd (omega (arith, n))
take-fill (suc k) (x ∷ xs) (o ∷ out) l n =
    ap (λ ys. x ∷ ys) (take-fill k xs out (omega (arith, l)) (omega (arith, n)))

length-blank : (n : ℕ) → length (blank n) ≡ n
unfolding blank
length-blank zero = refl
length-blank (suc n) = ap suc (length-blank n)

pub coder-WritesOnly : WritesOnly coder
unfolding copy
coder-WritesOnly = record {
  state = λ d xs out last. refl;
  had_errors = λ d xs out last. refl;
  result = λ d xs out last.
      let k : ℕ = min (length xs) (length out) in
      let same : length (blank (length out)) ≡ length out = length-blank (length out) in
      ap (λ n. take (min (length xs) n) (fill xs (blank (length out)))) same
      ∙ take-fill k xs (blank (length out)) (omega arith) (omega (arith, same))
      ∙ sym (take-fill k xs out (omega arith) (omega arith));
}

-- the same, but for every input an error
abbrev pub failing : EncodingRs ℕ
failing = record coder {
  decode_to_utf8 = λ d xs out last. record (copy d xs out) { had_errors = true };
}

pub failing-Documented : Documented failing
failing-Documented = record {
  address_ne_null = coder-Documented.address_ne_null;
  at_address-address = coder-Documented.at_address-address;
  finished-new_decoder = λ e. refl;
  finished-decode_to_utf8 = λ d xs out e. refl;
  decode_to_utf8 = λ d xs out last. record {
    read = (copy-Bounded d xs out).read;
    written = (copy-Bounded d xs out).written;
    output_length = (copy-Bounded d xs out).output_length;
  };
  encode_from_utf8 = coder-Documented.encode_from_utf8;
}

pub failing-WritesOnly : WritesOnly failing
failing-WritesOnly = record {
  state = coder-WritesOnly.state;
  had_errors = λ d xs out last. refl;
  result = coder-WritesOnly.result;
}

pub coder-EncodesOnly : EncodesOnly coder
unfolding copy
coder-EncodesOnly = record {
  status = λ e xs out last.
      ap (λ n. if ltb n (length xs) then output_full else input_empty) (length-blank (length out));
  result = coder-WritesOnly.result;
}
