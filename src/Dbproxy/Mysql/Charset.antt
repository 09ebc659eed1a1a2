-- ===== src/Dbproxy/Mysql/Charset.antt =====
-- The columns of doc/table.sql over a connection with `charset=utf8` (service/dbproxy/config/db.go): a text
-- is stored as it is if it is UTF-8 of at most three bytes a character and no longer than the column.
use filestore_hsz.Prelude.{
  ℕ, zero, suc, ◌≤◌, ◌<◌, ◌^◌, ◌≡◌, refl, Text, length, ltb, leb, ◌==◌, ltb_ℤ, neg, ℤ, pos, negsuc,
  [], ◌∷◌, ◌++◌, Bool, true, false, ◌&&◌, arith, if◌then◌else◌,
}

-- How many bytes follow a first byte, and from where to where the next one is. No byte is from 1 to 0.
abbrev Follow : Type 0
Follow = ℕ × ℕ × ℕ

unfoldable pub follow : ℕ → Follow
follow b =
    if ltb b 0x80
    then (0, 0, 0)
    else if ltb b 0xC2
    then (1, 1, 0)
    else if ltb b 0xE0
    then (1, 0x80, 0xBF)
    else if b == 0xE0
    then (2, 0xA0, 0xBF)
    else if b == 0xED
    then (2, 0x80, 0x9F)
    else if ltb b 0xF0
    then (2, 0x80, 0xBF)
    else (1, 1, 0)

unfoldable pub follows : Follow → Text → Bool
unfolding follow
follows (zero, lo, hi) [] = true
follows (suc n, lo, hi) [] = false
follows (zero, lo, hi) (b ∷ t) = follows (follow b) t
follows (suc n, lo, hi) (b ∷ t) = leb lo b && leb b hi && follows (n, 0x80, 0xBF) t

unfoldable pub is_utf8mb3 : Text → Bool
unfolding follows
is_utf8mb3 t = follows (0, 0, 0) t

-- A text that a column of `n` characters takes as it is.
abbrev pub Fits : Text → ℕ → Type 0
Fits t n = (length t ≤ n) × (is_utf8mb3 t ≡ true)

-- A `char` column gives a text back without the blanks at its end.
unfoldable pub ends_in_blank : Text → Bool
ends_in_blank [] = false
ends_in_blank (b ∷ []) = b == 32
ends_in_blank (a ∷ b ∷ t) = ends_in_blank (b ∷ t)

abbrev pub FitsChar : Text → ℕ → Type 0
FitsChar t n = Fits t n × (ends_in_blank t ≡ false)

pub ends_in_blank-append :
    (s t : Text) (c : ℕ) → 48 ≤ c → ends_in_blank (s ++ (t ++ c ∷ [])) ≡ false
unfolding ends_in_blank
ends_in_blank-append [] [] c high = ground arith
ends_in_blank-append [] (a ∷ []) c high = ground arith
ends_in_blank-append [] (a ∷ b ∷ t) c high = ends_in_blank-append [] (b ∷ t) c high
ends_in_blank-append (a ∷ []) [] c high = ground arith
ends_in_blank-append (a ∷ []) (b ∷ t) c high = ends_in_blank-append [] (b ∷ t) c high
ends_in_blank-append (a ∷ b ∷ s) t c high = ends_in_blank-append (b ∷ s) t c high

-- An `int(11)`
abbrev pub IsInt32 : ℤ → Type 0
IsInt32 (pos n) = n < 2 ^ 31
IsInt32 (negsuc n) = n < 2 ^ 31

-- A `bigint(20)`
abbrev pub IsInt64 : ℤ → Type 0
IsInt64 (pos n) = n < 2 ^ 63
IsInt64 (negsuc n) = n < 2 ^ 63

follows-append :
    (n lo hi : ℕ) (s t : Text)
    → follows (n, lo, hi) s ≡ true
    → is_utf8mb3 t ≡ true
    → follows (n, lo, hi) (s ++ t) ≡ true
unfolding follows is_utf8mb3
follows-append zero lo hi [] [] a b = refl
follows-append zero lo hi [] (c ∷ t) a b = b
follows-append (suc n) lo hi [] t a b = cc
follows-append zero lo hi (c ∷ s) t a b =
    let (n, lo', hi') = follow c in follows-append n lo' hi' s t a b
follows-append (suc n) lo hi (c ∷ s) t a b =
    let in_range : (leb lo c && leb c hi) ≡ true = ground arith in
    let rest : follows (n, 0x80, 0xBF) s ≡ true = ground arith in
    rw (in_range, follows-append n 0x80 0xBF s t rest b) refl

pub is_utf8mb3-append :
    (s t : Text) → is_utf8mb3 s ≡ true → is_utf8mb3 t ≡ true → is_utf8mb3 (s ++ t) ≡ true
unfolding is_utf8mb3
is_utf8mb3-append s t a b = follows-append 0 0 0 s t a b

pub in_range-IsInt64 :
    (s : ℤ) → ltb_ℤ s (neg (2 ^ 63)) ≡ false → ltb_ℤ s (pos (2 ^ 63)) ≡ true → IsInt64 s
in_range-IsInt64 (pos n) low high = ground arith
in_range-IsInt64 (negsuc n) low high = ground arith
