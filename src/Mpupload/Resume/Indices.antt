-- ===== src/Mpupload/Resume/Indices.antt =====
-- Lists of indices of chunks: those that a test fails, and how many different ones there are.
use filestore_hsz.Prelude.{
  ℕ, zero, suc, ◌+◌, ◌<◌, ◌≤◌, ◌^◌, ◌≡◌, refl, sym, ap, ◌∙◌, Text, text_eq, text_eq_iff,
  text_eq_refl, length, take, ℤ, pos, eqb_ℤ, List, [], ◌∷◌, ◌++◌, map, Bool, true, false, ◌==◌,
  ==_iff, ◌||◌, if◌then◌else◌, All, Bool-cases, inl, inr, arith,
}
use filestore_hsz.Go.Strconv.{atoi}
use filestore_hsz.Upload.Multipart.Keys.Session.{occurs, distinct}
use filestore_hsz.Mpupload.Choose.{contain, rounds, missing}
use filestore_hsz.Mpupload.Resume.{decimal, mem, IsIndex, atoi-decimal}

-- The indices above `lo`, `left` of them, that fail a test.
abbrev pub unseen : (ℕ → Bool) → (left lo : ℕ) → List ℕ
unseen has zero lo = []
unseen has (suc left) lo =
    let rest = unseen has left (suc lo) in if has (suc lo) then rest else suc lo ∷ rest

unseen-same :
    (f g : ℕ → Bool) (left lo : ℕ)
    → ((k : ℕ) → lo < k → f k ≡ g k)
    → unseen f left lo ≡ unseen g left lo
unseen-same f g zero lo same = refl
unseen-same f g (suc left) lo same =
    rw (same (suc lo) (omega arith), unseen-same f g left (suc lo) (λ k h. same k (omega arith)))
      refl

pub missing-unseen :
    (ex : List ℤ) (has : ℕ → Bool) (left lo : ℕ)
    → ((k : ℕ) → (contain eqb_ℤ ex (pos k)).0 ≡ has k)
    → missing ex left lo ≡ unseen has left lo
missing-unseen ex has zero lo same = refl
missing-unseen ex has (suc left) lo same =
    rw (same (suc lo), missing-unseen ex has left (suc lo) same) refl

pub length-unseen : (has : ℕ → Bool) (left lo : ℕ) → length (unseen has left lo) ≤ left
length-unseen has zero lo = omega arith
length-unseen has (suc left) lo = ground (arith, length-unseen has left (suc lo))

pub take-whole : (n : ℕ) (is : List ℕ) → length is ≤ n → take n is ≡ is
take-whole zero [] h = refl
take-whole (suc n) [] h = refl
take-whole zero (i ∷ is) h = let no : ⊥ = omega arith in elim no [ ]
take-whole (suc n) (i ∷ is) h = ap (λ (l : List ℕ). i ∷ l) (take-whole n is (omega arith))

-- An index that fails the test is among them.
pub mem-unseen :
    (has : ℕ → Bool) (k left lo : ℕ)
    → lo < k
    → k ≤ lo + left
    → has k ≡ false
    → mem k (unseen has left lo) ≡ true
mem-unseen has k zero lo above below fails = let no : ⊥ = omega arith in elim no [ ]
mem-unseen has k (suc left) lo above below fails = elim (Bool-cases (suc lo == k)) [
  | inl next ↦
      let e : suc lo ≡ k = (==_iff (suc lo) k).0 next in rw (e, fails) (ground (arith, ==_iff k k))
  | inr later ↦
      let beyond : suc lo < k = ground (arith, ==_iff (suc lo) k) in
      let found = mem-unseen has k left (suc lo) beyond (omega arith) fails in
      elim (Bool-cases (has (suc lo))) [
        | inl passes ↦ rw passes found
        | inr skipped ↦ rw (skipped, later) found
      ]
]

unseen-none :
    (has : ℕ → Bool) (left lo : ℕ)
    → ((k : ℕ) → lo < k → k ≤ lo + left → has k ≡ true)
    → unseen has left lo ≡ []
unseen-none has zero lo all = refl
unseen-none has (suc left) lo all =
    rw (all (suc lo) (omega arith) (omega arith))
      (unseen-none has left (suc lo) (λ k a b. all k (omega arith) (omega arith)))

other_index : (i k : ℕ) (b : Bool) → i < k → (i == k || b) ≡ b
other_index i k b h = ground (arith, ==_iff i k)

-- One index more that passes is one less that fails.
unseen-one :
    (has : ℕ → Bool) (i left lo : ℕ)
    → lo < i
    → i ≤ lo + left
    → has i ≡ false
    → suc (length (unseen (λ k. i == k || has k) left lo)) ≡ length (unseen has left lo)
unseen-one has i zero lo above below fails = let no : ⊥ = omega arith in elim no [ ]
unseen-one has i (suc left) lo above below fails = elim (Bool-cases (i == suc lo)) [
  | inl next ↦
      let e : i ≡ suc lo = (==_iff i (suc lo)).0 next in
      let free : has (suc lo) ≡ false = ap has (sym e) ∙ fails in
      let rest : unseen (λ k. i == k || has k) left (suc lo) ≡ unseen has left (suc lo) =
        unseen-same (λ k. i == k || has k) has left (suc lo)
          (λ k h. other_index i k (has k) (omega arith)) in
      rw (next, free, rest) refl
  | inr later ↦
      let beyond : suc lo < i = ground (arith, ==_iff i (suc lo)) in
      let rest = unseen-one has i left (suc lo) beyond (omega arith) fails in
      elim (Bool-cases (has (suc lo))) [
        | inl passes ↦ rw (later, passes) rest
        | inr skipped ↦ rw (later, skipped) (ap (λ (n : ℕ). suc n) rest)
      ]
]

unseen-every : (left lo : ℕ) → length (unseen (λ k. false) left lo) ≡ left
unseen-every zero lo = refl
unseen-every (suc left) lo = omega (arith, unseen-every left (suc lo))

abbrev pub distinct_of : List ℕ → ℕ
distinct_of [] = 0
distinct_of (i ∷ is) = if mem i is then distinct_of is else suc (distinct_of is)

mem_again : (i k : ℕ) (ks : List ℕ) → mem i ks ≡ true → (i == k || mem k ks) ≡ mem k ks
mem_again i k ks there = elim (Bool-cases (i == k)) [
  | inl same ↦ let e : i ≡ k = (==_iff i k).0 same in rw (same, ← e, there) refl
  | inr differs ↦ rw differs refl
]

-- The indices up to a count that do not occur, and those that do.
unseen-distinct :
    (count : ℕ) (ks : List ℕ)
    → All (IsIndex count) ks
    → length (unseen (λ k. mem k ks) count 0) + distinct_of ks ≡ count
unseen-distinct count [] within = omega (arith, unseen-every count 0)
unseen-distinct count (i ∷ ks) ((low, high), within) =
    let rest = unseen-distinct count ks within in
    elim (Bool-cases (mem i ks)) [
      | inl again ↦
          rw
            (
              again,
              unseen-same (λ k. i == k || mem k ks) (λ k. mem k ks) count 0
                  (λ k h. mem_again i k ks again),
            )
            rest
      | inr first ↦
          let one = unseen-one (λ k. mem k ks) i count 0 (omega arith) (omega arith) first in
          rw first (omega arith)
    ]

pub distinct_of_full :
    (count : ℕ) (ks : List ℕ)
    → All (IsIndex count) ks
    → ((k : ℕ) → IsIndex count k → mem k ks ≡ true)
    → distinct_of ks ≡ count
distinct_of_full count ks within all =
    let none_ = unseen-none (λ k. mem k ks) count 0 (λ k a b. all k (omega arith, omega arith)) in
    let whole = unseen-distinct count ks within in
    let found : 0 + distinct_of ks ≡ count =
      ap (λ (l : List ℕ). length l + distinct_of ks) (sym none_) ∙ whole in
    omega arith

-- Indices are written apart.
text_eq-decimal : (i k : ℕ) → i < 2 ^ 63 → k < 2 ^ 63 → text_eq (decimal i) (decimal k) ≡ (i == k)
unfolding rounds
text_eq-decimal i k fi fk = elim (Bool-cases (i == k)) [
  | inl same ↦ let e : i ≡ k = (==_iff i k).0 same in rw (same, e) (text_eq_refl (decimal k))
  | inr differs ↦ elim (Bool-cases (text_eq (decimal i) (decimal k))) [
    | inl equal ↦
        let e : i ≡ k = ap rounds (
          sym (atoi-decimal i fi)
          ∙ ap (λ (t : Text). (atoi t).number) ((text_eq_iff (decimal i) (decimal k)).0 equal)
          ∙ atoi-decimal k fk) in
        equal ∙ sym ((==_iff i k).1 e)
    | inr apart ↦ apart ∙ sym differs
  ]
]

or_assoc : (a b c : Bool) → (a || (b || c)) ≡ ((a || b) || c)
or_assoc true b c = refl
or_assoc false b c = refl

pub or_true : (a : Bool) → (a || true) ≡ true
or_true true = refl
or_true false = refl

occurs-decimal :
    (count i : ℕ) (ks : List ℕ)
    → count < 2 ^ 63
    → IsIndex count i
    → All (IsIndex count) ks
    → occurs (decimal i) (map decimal ks) ≡ mem i ks
occurs-decimal count i [] small here within = refl
occurs-decimal count i (k ∷ ks) small (l, h) ((low, high), within) =
    rw
      (
        text_eq-decimal k i (omega arith) (omega arith),
        occurs-decimal count i ks small (l, h) within,
      )
      refl

pub distinct-decimal :
    (count : ℕ) (ks : List ℕ)
    → count < 2 ^ 63
    → All (IsIndex count) ks
    → distinct (map decimal ks) ≡ distinct_of ks
distinct-decimal count [] small within = refl
distinct-decimal count (k ∷ ks) small (here, within) =
    rw (occurs-decimal count k ks small here within, distinct-decimal count ks small within) refl

pub mem-append : (k : ℕ) (is ks : List ℕ) → mem k (is ++ ks) ≡ (mem k is || mem k ks)
mem-append k [] ks = refl
mem-append k (i ∷ is) ks = rw (mem-append k is ks) (or_assoc (i == k) (mem k is) (mem k ks))

pub All-append :
    (count : ℕ) (is ks : List ℕ)
    → All (IsIndex count) is
    → All (IsIndex count) ks
    → All (IsIndex count) (is ++ ks)
All-append count [] ks f g = g
All-append count (i ∷ is) ks (here, f) g = (here, All-append count is ks f g)
