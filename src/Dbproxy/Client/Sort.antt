-- ===== src/Dbproxy/Client/Sort.antt =====
-- service/dbproxy/client/sort.go: the order by which a list of files would be sorted, newest first.
-- Its `Len` is the library's length.
use filestore_hsz.Prelude.{
  ℕ, zero, suc, ◌<◌, ◌≡◌, refl, ap, Text, length, ℤ, ltb_ℤ, List, [], ◌∷◌, map, Option, none, some,
  Bool, true, false, arith, inl, inr, Bool-cases, ◌⊎◌, ◌⊎◌,
}
use filestore_hsz.Go.{Exit, ret, panic}
use filestore_hsz.Dbproxy.Define.{TableFile}
use filestore_hsz.Dbproxy.Client.{FileMeta, table_file_to_file_meta}

abbrev pub get_elem? : {A : Type 0} → List A → ℕ → Option A
get_elem? [] i = none
get_elem? (x ∷ xs) zero = some x
get_elem? (x ∷ xs) (suc i) = get_elem? xs i

abbrev pub set : {A : Type 0} → List A → ℕ → A → List A
set [] i a = []
set (x ∷ xs) zero a = a ∷ xs
set (x ∷ xs) (suc i) a = x ∷ set xs i a

-- An index out of range panics.
swapped : List FileMeta → ℕ → ℕ → Option FileMeta → Option FileMeta → Exit (List FileMeta)
swapped a i j (some x) (some y) = ret (set (set a i y) j x)
swapped a i j (some x) none = panic
swapped a i j none y = panic

-- `Swap`
unfoldable pub swap : List FileMeta → ℕ → ℕ → Exit (List FileMeta)
unfolding swapped
swap a i j = swapped a i j (get_elem? a i) (get_elem? a j)

-- `time.Parse` of a text, whose error is dropped, and the nanoseconds of the time that is left.
module _ (unix_nano : Text → ℤ) where
  earlier : Option FileMeta → Option FileMeta → Exit Bool
  earlier (some x) (some y) = ret (ltb_ℤ (unix_nano y.upload_at) (unix_nano x.upload_at))
  earlier (some x) none = panic
  earlier none y = panic

  -- `Less`
  unfoldable pub less : List FileMeta → ℕ → ℕ → Exit Bool
  unfolding earlier
  less a i j = earlier (get_elem? a i) (get_elem? a j)

ltb_ℤ_asym : (x y : ℤ) → ltb_ℤ x y ≡ true → ltb_ℤ y x ≡ false
ltb_ℤ_asym x y h = ground arith

ltb_ℤ_apart : (x y z : ℤ) → ltb_ℤ z x ≡ true → ltb_ℤ y x ≡ false → ltb_ℤ z y ≡ true
ltb_ℤ_apart x y z g h = ground arith

ltb_ℤ_irrefl : (x : ℤ) → ltb_ℤ x x ≡ false
ltb_ℤ_irrefl x = ground arith

ret_true : (b : Bool) → ◌≡◌ {A = Exit Bool} (ret b) (ret true) → b ≡ true
ret_true b e = cc

module _ (unix_nano : Text → ℤ) where
  earlier_lem :
      (x y z : Option FileMeta) (m : FileMeta)
      → y ≡ some m
      → earlier unix_nano x z ≡ ret true
      → (earlier unix_nano z x ≡ ret false)
        × ((earlier unix_nano x y ≡ ret true) ⊎ (earlier unix_nano y z ≡ ret true))
  unfolding earlier
  earlier_lem (some x) (some y) (some z) m there h =
      let before = ret_true _ h in
      (
        ap (λ (b : Bool). ret b)
            (ltb_ℤ_asym (unix_nano z.upload_at) (unix_nano x.upload_at) before),
        elim (Bool-cases (ltb_ℤ (unix_nano y.upload_at) (unix_nano x.upload_at))) [
          | inl first ↦ inl (ap (λ (b : Bool). ret b) first)
          | inr other ↦ inr (
              ap (λ (b : Bool). ret b)
                (ltb_ℤ_apart (unix_nano x.upload_at) (unix_nano y.upload_at) (unix_nano z.upload_at)
                  before other))
        ],
      )
  earlier_lem (some x) none z m there h = cc
  earlier_lem (some x) (some y) none m there h = cc
  earlier_lem none y z m there h = cc

  -- `Less` is an order that `sort.Sort` can go by: of two files in order, the second is not before the
  -- first, and any third file stands behind the first or before the second.
  pub less_cotransitive :
      (a : List FileMeta) (i j k : ℕ) (m : FileMeta)
      → get_elem? a j ≡ some m
      → less unix_nano a i k ≡ ret true
      → (less unix_nano a k i ≡ ret false)
        × ((less unix_nano a i j ≡ ret true) ⊎ (less unix_nano a j k ≡ ret true))
  unfolding less
  less_cotransitive a i j k m there h =
      earlier_lem (get_elem? a i) (get_elem? a j) (get_elem? a k) m there h

meta_at :
    (ts : List TableFile) (i : ℕ)
    → i < length ts
    → (m : FileMeta) × (get_elem? (map table_file_to_file_meta ts) i ≡ some m) × (m.upload_at ≡ [])
unfolding table_file_to_file_meta
meta_at [] i h = let no : ⊥ = omega arith in elim no [ ]
meta_at (t ∷ ts) zero h = (_, refl, refl)
meta_at (t ∷ ts) (suc i) h = meta_at ts i (omega arith)

-- The files that are made of the rows of the database have no time of their upload, so that none of them
-- is before another.
pub less-table_file_to_file_meta :
    (unix_nano : Text → ℤ) (ts : List TableFile) (i j : ℕ)
    → i < length ts
    → j < length ts
    → less unix_nano (map table_file_to_file_meta ts) i j ≡ ret false
unfolding less earlier
less-table_file_to_file_meta unix_nano ts i j hi hj =
    let (m, at, untimed) = meta_at ts i hi in
    let (n, at', untimed') = meta_at ts j hj in
    rw (at, at', untimed, untimed') (ap (λ (b : Bool). ret b) (ltb_ℤ_irrefl (unix_nano [])))
