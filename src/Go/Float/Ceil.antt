-- ===== src/Go/Float/Ceil.antt =====
-- The ceiling of a quotient of float64: below 2 ^ 53 it is the integer ceiling.
use native.Mathlib.Nat.{
  pow-succ', div-add-mod', mod-lt, mul-le-mul_right, div-lt_iff_lt-mul, lt-div-mul-add, div-one,
  mod-one,
}
use filestore_hsz.Prelude.{
  ℕ, zero, suc, ◌+◌, ◌-◌, ◌*◌, ◌/◌, ◌%◌, ◌^◌, ◌≤◌, ◌<◌, ◌≡◌, ap, ltb, leb, ◌==◌, arith, Bool-cases,
  inl, inr, ◌||◌, ◌&&◌,
}
use filestore_hsz.Go.Float.{round_quotient, step_of, float_of, unit_of, units, ceil_quotient}

-- What is rounded is half a step away at most.
round_quotient-near :
    (a b : ℕ)
    → 0 < b
    → (2 * (round_quotient a b * b) ≤ 2 * a + b) × (2 * a ≤ 2 * (round_quotient a b * b) + b)
unfolding round_quotient
round_quotient-near a b positive =
    let e = div-add-mod' a b in
    let h = mod-lt a positive in
    elim (Bool-cases (ltb (2 * (a % b)) b || (2 * (a % b) == b && a / b % 2 == 0))) [
      | inl down ↦ rw down (let low : 2 * (a % b) ≤ b = ground arith in (omega arith, omega arith))
      | inr up ↦ rw up (let high : b ≤ 2 * (a % b) = ground arith in (omega arith, omega arith))
    ]

float_of-small : (n : ℕ) → n < 2 ^ 53 → float_of n ≡ n
unfolding float_of step_of round_quotient
float_of-small n small = ground (arith, div-one n, mod-one n)

step_of-positive : (f n : ℕ) → 0 < step_of f n
unfolding step_of
step_of-positive zero n = omega arith
step_of-positive (suc f) n = ground (arith, step_of-positive f (n / 2))

step_of-few : (f n : ℕ) → step_of f n ≤ 2 ^ f
unfolding step_of
step_of-few zero n = omega arith
step_of-few (suc f) n = elim (Bool-cases (ltb n (2 ^ 53))) [
  | inl small ↦
      rw small (omega (arith, step_of-few f (n / 2), step_of-positive f (n / 2), pow-succ' 2 f))
  | inr large ↦ rw large (omega (arith, step_of-few f (n / 2), pow-succ' 2 f))
]

float_of-few : (n : ℕ) → n < 2 ^ 63 → float_of n ≤ 2 ^ 64
unfolding float_of
float_of-few n fits =
    omega
      (arith, (round_quotient-near n (step_of 11 n) (step_of-positive 11 n)).0, step_of-few 11 n)

unit_of-positive : (f m d : ℕ) → 0 < unit_of f m d
unfolding unit_of
unit_of-positive zero m d = omega arith
unit_of-positive (suc f) m d = ground (arith, unit_of-positive f (2 * m) d)

-- With its unit the quotient has 53 bits.
unit_of-enough : (f m d : ℕ) → 2 ^ 52 * d ≤ m * 2 ^ f → 2 ^ 52 * d ≤ m * unit_of f m d
unfolding unit_of
unit_of-enough zero m d h = omega arith
unit_of-enough (suc f) m d h = elim (Bool-cases (ltb m (2 ^ 52 * d))) [
  | inl less ↦ rw less (
      omega
        (arith, unit_of-enough f (2 * m) d (omega (arith, ap (λ (x : ℕ). m * x) (pow-succ' 2 f)))))
  | inr whole ↦ rw whole (ground arith)
]

-- The unit is more than half the divisor where the dividend has less than 53 bits.
units-large : (m d : ℕ) → 0 < m → m < 2 ^ 53 → 0 < d → d < 2 ^ 33 → d < 2 * units m d
unfolding units
units-large m d positive small some_ few =
    let enough = unit_of-enough 85 m d (omega arith) in
    let below : (m + 1) * unit_of 85 m d ≤ 2 ^ 53 * unit_of 85 m d =
      mul-le-mul_right (unit_of 85 m d) (omega arith) in
    omega (arith, unit_of-positive 85 m d)

holds :
    (n d u q k : ℕ)
    → 0 < u
    → d < 2 * u
    → 2 * (n * u) ≤ 2 * (q * d) + d
    → q + (u - 1) < k * u + u
    → n ≤ k * d
holds n d u q k positive large high above = elim (Bool-cases (leb n (k * d))) [
  | inl fits ↦ ground arith
  | inr more ↦
      let over : (k * d + 1) * u ≤ n * u = mul-le-mul_right u (ground arith) in
      let few : q * d ≤ k * u * d = mul-le-mul_right d (omega arith) in omega arith
]

least :
    (n d u q j : ℕ)
    → 0 < u
    → 0 < d
    → 2 * (q * d) ≤ 2 * (n * u) + d
    → n ≤ j * d
    → q + (u - 1) < suc j * u
least n d u q j positive some_ low h = elim (Bool-cases (leb q (j * u))) [
  | inl fits ↦ let few : q ≤ j * u = ground arith in omega arith
  | inr more ↦
      let over : (j * u + 1) * d ≤ q * d = mul-le-mul_right d (ground arith) in
      let few : n * u ≤ j * d * u = mul-le-mul_right u h in omega arith
]

-- Of a dividend of less than 53 bits the ceiling is the least number of divisors that hold it.
pub ceil_quotient-covers :
    (n d : ℕ)
    → 0 < n
    → n < 2 ^ 53
    → 0 < d
    → d < 2 ^ 33
    → (n ≤ ceil_quotient n d * d) × ((j : ℕ) → n ≤ j * d → ceil_quotient n d ≤ j)
unfolding ceil_quotient units
ceil_quotient-covers n d positive small some_ few = rw (float_of-small n small) (
    let u : ℕ = units n d in
    let q : ℕ = round_quotient (n * u) d in
    let one : 0 < u = unit_of-positive 85 n d in
    let (low, high) = round_quotient-near (n * u) d some_ in
    (
      holds n d u q ((q + (u - 1)) / u) one (units-large n d positive small some_ few) high
          (lt-div-mul-add one),
      λ j h.
          let less : (q + (u - 1)) / u < suc j =
            (div-lt_iff_lt-mul one).1 (least n d u q j one some_ low h) in
          omega arith,
    ))

-- The ceiling is at most the dividend and a little more.
pub ceil_quotient-few : (n : ℕ) → n < 2 ^ 63 → ceil_quotient n (5 * 1024 * 1024) < 2 ^ 63
unfolding ceil_quotient units
ceil_quotient-few n fits =
    let m : ℕ = float_of n in
    let u : ℕ = units m 5242880 in
    let q : ℕ = round_quotient (m * u) 5242880 in
    let one : 0 < u = unit_of-positive 85 m 5242880 in
    let (low, high) = round_quotient-near (m * u) 5242880 (omega arith) in
    let few : m * u ≤ 2 ^ 64 * u = mul-le-mul_right u (float_of-few n fits) in
    (div-lt_iff_lt-mul one).1 (omega arith)
