-- ===== src/Go/Strconv.antt =====
-- The conversions of Go's `strconv` and `fmt` that the program uses: `%x`, `%d`, `Atoi` and
-- `ParseInt`, on 64-bit integers.
pub mod RoundTrip
use filestore_hsz.Prelude.{
  ℕ, zero, suc, ◌+◌, ◌-◌, ◌*◌, ◌/◌, ◌%◌, ◌^◌, Text, Bool, true, false, Option, none, some, List, [],
  ◌∷◌, ℤ, pos, negsuc, neg, ltb, leb, ◌==◌, ◌&&◌, if◌then◌else◌,
}

-- A digit as it is printed, and as it is read: letters of either case.
digit_char : ℕ → ℕ
digit_char d = if ltb d 10 then b'0' + d else b'a' + (d - 10)

digit_of : ℕ → Option ℕ
digit_of c =
    if leb b'0' c && leb c b'9'
    then some (c - b'0')
    else if leb b'a' c && leb c b'z'
    then some (c - b'a' + 10)
    else if leb b'A' c && leb c b'Z'
    then some (c - b'A' + 10)
    else none

-- The loop of `FormatUint`: a round for each digit, the last digit first.
digits : ℕ → ℕ → ℕ → Text → Text
digits zero base n acc = acc
digits (suc f) base n acc = elim (ltb n base) [
  | true ↦ digit_char n ∷ acc
  | false ↦ digits f base (n / base) (digit_char (n % base) ∷ acc)
]

unfoldable pub format_uint : ℕ → ℕ → Text
unfolding digits digit_char
format_uint base n = digits (suc n) base n []

unfoldable pub format_int : ℤ → Text
unfolding format_uint
format_int (pos n) = format_uint 10 n
format_int (negsuc n) = b'-' ∷ format_uint 10 (suc n)

abbrev pub max_u64 : ℕ
max_u64 = 2 ^ 64 - 1

pub data Parsed : Type 0 where
  value : ℕ → Parsed
  syntax range : Parsed

-- The loop of `ParseUint`.
parse_digits : ℕ → Text → ℕ → Parsed
parse_digits base [] n = value n
parse_digits base (c ∷ s) n = elim (digit_of c) [
  | none ↦ syntax
  | some d ↦
      let rest = parse_digits base s (n * base + d) in
      if leb base d then syntax else if ltb max_u64 (n * base + d) then range else rest
]

pub parse_uint : ℕ → Text → Parsed
parse_uint base [] = syntax
parse_uint base (c ∷ s) = parse_digits base (c ∷ s) 0

-- What a failed conversion leaves in the value is read by the program too: 0, or the nearest
-- 64-bit integer.
pub record IntResult : Type 0 where
  pub number : ℤ
  pub failed : Bool

signed : Bool → Parsed → IntResult
signed negative syntax = record { number = pos 0; failed = true }
signed false range = record { number = pos (2 ^ 63 - 1); failed = true }
signed true range = record { number = neg (2 ^ 63); failed = true }
signed false (value n) =
    if leb (2 ^ 63) n
    then record { number = pos (2 ^ 63 - 1); failed = true }
    else record { number = pos n; failed = false }
signed true (value n) =
    if ltb (2 ^ 63) n
    then record { number = neg (2 ^ 63); failed = true }
    else record { number = neg n; failed = false }

unfoldable pub parse_int : ℕ → Text → IntResult
unfolding digit_of parse_digits parse_uint signed
parse_int base [] = record { number = pos 0; failed = true }
parse_int base (c ∷ s) =
    if c == b'-'
    then signed true (parse_uint base s)
    else if c == b'+'
    then signed false (parse_uint base s)
    else signed false (parse_uint base (c ∷ s))

-- `strconv.Atoi`
unfoldable pub atoi : Text → IntResult
unfolding parse_int
atoi = parse_int 10
