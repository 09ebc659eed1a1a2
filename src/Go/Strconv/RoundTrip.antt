-- ===== src/Go/Strconv/RoundTrip.antt =====
-- A printed number is read back, in base 10 and in base 16.
use native.Mathlib.Decide.{dec_lt}
use filestore_hsz.Prelude.{
  ℕ, zero, suc, ◌+◌, ◌*◌, ◌/◌, ◌%◌, ◌^◌, ◌≤◌, ◌<◌, ◌≡◌, ◌≢◌, refl, ap, ◌∙◌, Text, true, false, some,
  [], ◌∷◌, ◌++◌, ltb, ◌==◌, ℤ, neg, ltb_ℤ, pos, negsuc, length, arith, Bool-cases, inl, inr,
}
use filestore_hsz.Go.Strconv.{
  digit_char, digit_of, digits, format_uint, format_int, parse_digits, parse_uint, parse_int, atoi,
  signed, value, max_u64,
}

digit_of-digit_char : (d : ℕ) → d < 36 → digit_of (digit_char d) ≡ some d
unfolding digit_of digit_char
digit_of-digit_char d h = ground arith

-- How many digits a number has: `k + 1`.
abbrev pub HasDigits : ℕ → ℕ → ℕ → Type 0
HasDigits base zero n = n < base
HasDigits base (suc k) n = (base ≤ n) × HasDigits base k (n / base)

module _ (base : ℕ) (low : 2 ≤ base) (high : base ≤ 36) where
  read_digit :
      (d n : ℕ) (s : Text)
      → d < base
      → n * base + d ≤ max_u64
      → parse_digits base (digit_char d ∷ s) n ≡ parse_digits base s (n * base + d)
  unfolding parse_digits
  read_digit d n s h fits = ground (arith, digit_of-digit_char d)

  quotient_lt : (f n : ℕ) → n < suc f → base ≤ n → n / base < f
  quotient_lt f n h le = grind arith

  digits_last : (f n : ℕ) (s : Text) → n < base → digits (suc f) base n s ≡ digit_char n ∷ s
  unfolding digits
  digits_last f n s h = ground arith

  digits_more :
      (f n : ℕ) (s : Text)
      → base ≤ n
      → digits (suc f) base n s ≡ digits f base (n / base) (digit_char (n % base) ∷ s)
  unfolding digits
  digits_more f n s h = ground arith

  parse-digits :
      (f n : ℕ) (s : Text)
      → n < f
      → n ≤ max_u64
      → parse_digits base (digits f base n s) 0 ≡ parse_digits base s n
  parse-digits zero n s h fits = elim h [ ]
  parse-digits (suc f) n s h fits = elim (dec_lt n base) [
    | yes last ↦
        rw (digits_last f n s last)
          (read_digit n 0 s last (omega arith) ∙ ap (parse_digits base s) (omega arith))
    | no more ↦ rw (digits_more f n s (omega arith)) (
        parse-digits f (n / base) (digit_char (n % base) ∷ s) (quotient_lt f n h (omega arith))
          (grind arith)
        ∙ read_digit (n % base) (n / base) s (grind arith) (grind arith)
        ∙ ap (parse_digits base s) (grind arith))
  ]

  digits-ne-nil : (f n : ℕ) (s : Text) → n < f → digits f base n s ≢ []
  unfolding digits
  digits-ne-nil zero n s h = elim h [ ]
  digits-ne-nil (suc f) n s h =
      ground (arith, digits-ne-nil f (n / base) (digit_char (n % base) ∷ s), quotient_lt f n h)

  parse_uint-ne-nil : (s : Text) → s ≢ [] → parse_uint base s ≡ parse_digits base s 0
  unfolding parse_uint
  parse_uint-ne-nil [] h = absurd (h refl)
  parse_uint-ne-nil (c ∷ s) h = refl

  -- `ParseUint` reads what `FormatUint` prints.
  pub parse_uint-format_uint :
      (n : ℕ) → n ≤ max_u64 → parse_uint base (format_uint base n) ≡ value n
  unfolding format_uint parse_digits
  parse_uint-format_uint n fits =
      parse_uint-ne-nil _ (digits-ne-nil (suc n) n [] (omega arith))
      ∙ parse-digits (suc n) n [] (omega arith) fits

  length-digits :
      (f k n : ℕ) (s : Text)
      → n < f
      → HasDigits base k n
      → length (digits f base n s) ≡ k + 1 + length s
  length-digits zero k n s h d = elim h [ ]
  length-digits (suc f) zero n s h d = rw (digits_last f n s d) (omega arith)
  length-digits (suc f) (suc k) n s h d = rw (digits_more f n s d.0) (
      length-digits f k (n / base) (digit_char (n % base) ∷ s) (quotient_lt f n h d.0) d.1
      ∙ omega arith)

  pub length-format_uint : (k n : ℕ) → HasDigits base k n → length (format_uint base n) ≡ k + 1
  unfolding format_uint
  length-format_uint k n d = length-digits (suc n) k n [] (omega arith) d ∙ omega arith

-- A text that begins with a sign is no unsigned number.
minus_refused : (base c n : ℕ) (s : Text) → c ≡ b'-' → parse_uint base (c ∷ s) ≢ value n
unfolding parse_uint parse_digits digit_of
minus_refused base c n s e h = ground arith

plus_refused : (base c n : ℕ) (s : Text) → c ≡ b'+' → parse_uint base (c ∷ s) ≢ value n
unfolding parse_uint parse_digits digit_of
plus_refused base c n s e h = ground arith

unsigned :
    (base n : ℕ) (s : Text)
    → parse_uint base s ≡ value n
    → parse_int base s ≡ signed false (value n)
unfolding parse_int
unsigned base n [] h = refused h
  where
    refused : parse_uint base [] ≡ value n → parse_int base [] ≡ signed false (value n)
    refused e = cc
unsigned base n (c ∷ s) h = elim (Bool-cases (c == b'-')) [
  | inl minus ↦ absurd (minus_refused base c n s (ground arith) h)
  | inr no_minus ↦ elim (Bool-cases (c == b'+')) [
    | inl plus ↦ absurd (plus_refused base c n s (ground arith) h)
    | inr no_plus ↦ rw (no_minus, no_plus) (ap (signed false) h)
  ]
]

-- `ParseInt` in base 10 reads back every int64 that `%d` prints.
pub parse_int-decimal :
    (i : ℤ)
    → ltb_ℤ i (neg (2 ^ 63)) ≡ false
    → ltb_ℤ i (pos (2 ^ 63)) ≡ true
    → parse_int 10 (format_int i) ≡ record { number = i; failed = false }
unfolding format_int signed parse_int
parse_int-decimal (pos n) low high =
    unsigned 10 n (format_uint 10 n)
      (parse_uint-format_uint 10 (omega arith) (omega arith) n (ground arith))
    ∙ ground arith
parse_int-decimal (negsuc n) low high =
    rw (parse_uint-format_uint 10 (omega arith) (omega arith) (suc n) (ground arith), parse_int)
      (ground arith)

-- `Atoi` reads back every int64 that `%d` prints.
pub atoi-format_int :
    (i : ℤ)
    → ltb_ℤ i (neg (2 ^ 63)) ≡ false
    → ltb_ℤ i (pos (2 ^ 63)) ≡ true
    → atoi (format_int i) ≡ record { number = i; failed = false }
unfolding atoi
atoi-format_int = parse_int-decimal

-- `ParseInt(s, 16, 0)` reads back what `%x` prints of an int64 that is not negative.
pub parse_int-hex :
    (n : ℕ)
    → n < 2 ^ 63
    → parse_int 16 (format_uint 16 n) ≡ record { number = pos n; failed = false }
unfolding signed
parse_int-hex n h =
    unsigned 16 n (format_uint 16 n)
      (parse_uint-format_uint 16 (omega arith) (omega arith) n (omega arith))
    ∙ ground arith

append_one : (s t : Text) (d : ℕ) → s ++ d ∷ t ≡ (s ++ d ∷ []) ++ t
append_one [] t d = refl
append_one (c ∷ s) t d = ap (λ (u : Text). c ∷ u) (append_one s t d)

digits-append :
    (base : ℕ) (low : 2 ≤ base) (high : base ≤ 36) (f n : ℕ) (t : Text)
    → (s : Text) × (digits f base n t ≡ s ++ t)
unfolding digits
digits-append base low high zero n t = ([], refl)
digits-append base low high (suc f) n t = elim (Bool-cases (ltb n base)) [
  | inl last ↦ (digit_char n ∷ [], digits_last base low high f n t (ground arith))
  | inr more ↦
      let (s, e) = digits-append base low high f (n / base) (digit_char (n % base) ∷ t) in
      (
        s ++ digit_char (n % base) ∷ [],
        digits_more base low high f n t (ground arith) ∙ e ∙ append_one s t (digit_char (n % base)),
      )
]

digit_char-low : (d : ℕ) → 48 ≤ digit_char d
unfolding digit_char
digit_char-low d = ground arith

-- What is printed ends in a digit, and no digit is below `0`.
pub format_uint-last :
    (base : ℕ) (low : 2 ≤ base) (high : base ≤ 36) (n : ℕ)
    → (s : Text) × (c : ℕ) × (48 ≤ c) × (format_uint base n ≡ s ++ c ∷ [])
unfolding format_uint
format_uint-last base low high n = elim (Bool-cases (ltb n base)) [
  | inl last ↦ ([], digit_char n, digit_char-low n, digits_last base low high n n [] (ground arith))
  | inr more ↦
      let (s, e) = digits-append base low high n (n / base) (digit_char (n % base) ∷ []) in
      (
        s,
        digit_char (n % base),
        digit_char-low (n % base),
        digits_more base low high n n [] (ground arith) ∙ e,
      )
]
