-- ===== src/Go/Float.antt =====
-- float64, where a program divides one integer by another: the conversion and the quotient are rounded to 53
-- bits, to the nearest and halfway to the even one.
pub mod Ceil
use filestore_hsz.Prelude.{
  ℕ, zero, suc, ◌+◌, ◌-◌, ◌*◌, ◌/◌, ◌%◌, ◌^◌, ltb, ◌==◌, if◌then◌else◌, ◌||◌, ◌&&◌,
}

-- The integer nearest to `a / b`.
unfoldable pub round_quotient : ℕ → ℕ → ℕ
round_quotient a b =
    if ltb (2 * (a % b)) b || (2 * (a % b) == b && a / b % 2 == 0) then a / b else a / b + 1

-- The power of two in whose multiples a float64 counts that is not below `n`.
unfoldable pub step_of : ℕ → ℕ → ℕ
step_of zero n = 1
step_of (suc fuel) n = let rest = step_of fuel (n / 2) in if ltb n (2 ^ 53) then 1 else 2 * rest

-- `float64(n)`. An int64 has at most 11 bits to lose.
unfoldable pub float_of : ℕ → ℕ
float_of n = round_quotient n (step_of 11 n) * step_of 11 n

-- One over the step of the float64s about `m / d`: the least power of two by which the quotient has 53 bits.
unfoldable pub unit_of : ℕ → ℕ → ℕ → ℕ
unit_of zero m d = 1
unit_of (suc fuel) m d =
    let rest = unit_of fuel (2 * m) d in if ltb m (2 ^ 52 * d) then 2 * rest else 1

-- The fuel is enough for a quotient by a `d` below 2 ^ 33. One that has 53 bits before the point, which no
-- int64 by five megabytes has, would be rounded to an integer.
unfoldable pub units : ℕ → ℕ → ℕ
units m d = unit_of 85 m d

-- `math.Ceil` and `math.Floor` of `float64(n) / float64(d)`.
unfoldable pub ceil_quotient : ℕ → ℕ → ℕ
ceil_quotient n d =
    let u = units (float_of n) d in (round_quotient (float_of n * u) d + (u - 1)) / u

unfoldable pub floor_quotient : ℕ → ℕ → ℕ
floor_quotient n d = let u = units (float_of n) d in round_quotient (float_of n * u) d / u
