-- ===== src/Mpupload/Parts.antt =====
-- test/mpupload/upload_part.go, `uploadPartsSpecified`: the loop over the file, and the parts it sends.
use filestore_hsz.Prelude.{
  ℕ, zero, suc, ◌+◌, ◌*◌, ◌<◌, ◌≤◌, ◌≡◌, refl, sym, ap, ◌∙◌, Text, length, take, ℤ, pos, eqb_ℤ,
  List, [], ◌∷◌, map, Option, none, some, Bool, true, false, ltb, ◌==◌, ==_iff, le→not-ltb,
  if◌then◌else◌, All, Bool-cases, inl, inr, arith,
}
use filestore_hsz.Go.{Exit, ret, panic}
use filestore_hsz.Mpupload.Choose.{contain, missing, chunks_to_upload, chunks_to_upload_lem}

pub data ReadError : Type 0 where
  eof failed : ReadError

-- What `bfRd.Read(buf)` returns: `n` bytes of `buf`, and an error.
pub record Read : Type 0 where
  pub chunk : Text
  pub error : Option ReadError

-- `make([]byte, 5*1048576)`
abbrev pub buffer_size : ℕ
buffer_size = 5 * 1048576

-- A part and its index.
abbrev pub Job : Type 0
Job = ℕ × Text

-- The loop goes on unless the error is EOF.
goes_on : Option ReadError → Bool
goes_on none = true
goes_on (some eof) = false
goes_on (some failed) = true

and_then : Job → Exit (List Job) → Exit (List Job)
and_then job (ret jobs) = ret (job ∷ jobs)
and_then job panic = panic

-- `bufCopied[:n]` panics behind the end of the buffer.
start : Job → Exit (List Job) → Exit (List Job)
unfolding and_then
start job rest = if ltb buffer_size (length job.1) then panic else and_then job rest

-- The parts that the loop starts, from the index after `index` on, on what it reads till the end.
unfoldable pub jobs : List ℕ → ℕ → List Read → Exit (List Job)
unfolding goes_on start
jobs chunk_idxs index [] = ret []
jobs chunk_idxs index (r ∷ rs) =
    let rest = jobs chunk_idxs (suc index) rs in
    elim r.chunk [
      | [] ↦ ret []
      | b ∷ bs ↦
          if (contain (λ x y. x == y) chunk_idxs (suc index)).0
          then start (suc index, r.chunk) (if goes_on r.error then rest else ret [])
          else rest
    ]

-- A read of a chunk that fits the buffer.
abbrev pub IsChunk : Read → Type 0
IsChunk r = (1 ≤ length r.chunk) × (length r.chunk ≤ buffer_size) × (r.error ≡ none)

abbrev pub index_of : Job → ℕ
index_of j = j.0

-- The indices above `lo`, `left` of them, that pass a test.
abbrev picked : (ℕ → Bool) → (left lo : ℕ) → List ℕ
picked has zero lo = []
picked has (suc left) lo =
    let rest = picked has left (suc lo) in if has (suc lo) then suc lo ∷ rest else rest

abbrev has_index : List ℕ → ℕ → Bool
has_index idxs i = (contain (λ x y. x == y) idxs i).0

first_byte : (t : Text) → 1 ≤ length t → (b : ℕ) × (bs : Text) × (t ≡ b ∷ bs)
first_byte [] h = let no : ⊥ = omega arith in elim no [ ]
first_byte (b ∷ bs) h = (b, bs, refl)

jobs_lem :
    (idxs : List ℕ) (lo : ℕ) (rs : List Read)
    → All IsChunk rs
    → (js : List Job) × (jobs idxs lo rs ≡ ret js)
      × (map index_of js ≡ picked (has_index idxs) (length rs) lo)
unfolding jobs goes_on start and_then
jobs_lem idxs lo [] whole = ([], refl, refl)
jobs_lem idxs lo (r ∷ rs) ((long, fits, fine), whole) =
    let (js, run, same) = jobs_lem idxs (suc lo) rs whole in
    let (b, bs, some_bytes) = first_byte r.chunk long in
    elim (Bool-cases (has_index idxs (suc lo))) [
      | inl chosen ↦ (
        (suc lo, r.chunk) ∷ js,
        rw (jobs, some_bytes, chosen, fine, run, le→not-ltb buffer_size (length r.chunk) fits)
            (ap (λ (t : Text). ret ((suc lo, t) ∷ js)) some_bytes),
        rw (chosen, same) refl,
      )
      | inr skipped ↦ (js, rw (jobs, some_bytes, skipped) run, rw skipped same)
    ]

-- Indices above `lo` and up to `hi`, in ascending order.
abbrev pub AreAscending : ℕ → List ℕ → ℕ → Type 0
AreAscending lo [] hi = Unit
AreAscending lo (i ∷ is) hi = (lo < i) × (i ≤ hi) × AreAscending i is hi

AreAscending-above :
    (l lo hi : ℕ) (is : List ℕ) → l ≤ lo → AreAscending lo is hi → AreAscending l is hi
AreAscending-above l lo hi [] h up = tt
AreAscending-above l lo hi (i ∷ is) h (above, below, up) = (omega arith, below, up)

pub AreAscending-up_to :
    (lo : ℕ) (is : List ℕ) (hi ho : ℕ) → hi ≤ ho → AreAscending lo is hi → AreAscending lo is ho
AreAscending-up_to lo [] hi ho h up = tt
AreAscending-up_to lo (i ∷ is) hi ho h (above, below, up) =
    (above, omega arith, AreAscending-up_to i is hi ho h up)

AreAscending-missing :
    (ex : List ℤ) (left lo : ℕ) → AreAscending lo (missing ex left lo) (lo + left)
AreAscending-missing ex zero lo = tt
AreAscending-missing ex (suc left) lo =
    let up : AreAscending (suc lo) (missing ex left (suc lo)) (lo + suc left) =
      AreAscending-up_to (suc lo) (missing ex left (suc lo)) (suc lo + left) (lo + suc left)
        (omega arith) (AreAscending-missing ex left (suc lo)) in
    elim (Bool-cases ((contain eqb_ℤ ex (pos (suc lo))).0)) [
      | inl there ↦ rw there (
          AreAscending-above lo (suc lo) (lo + suc left) (missing ex left (suc lo)) (omega arith)
            up)
      | inr absent ↦ rw absent (omega arith, omega arith, up)
    ]

AreAscending-take :
    (n lo hi : ℕ) (is : List ℕ) → AreAscending lo is hi → AreAscending lo (take n is) hi
AreAscending-take zero lo hi is up = tt
AreAscending-take (suc n) lo hi [] up = tt
AreAscending-take (suc n) lo hi (i ∷ is) (above, below, up) =
    (above, below, AreAscending-take n i hi is up)

has_index-below :
    (lo hi x : ℕ) (is : List ℕ) → AreAscending lo is hi → x ≤ lo → has_index is x ≡ false
unfolding contain
has_index-below lo hi x [] up h = refl
has_index-below lo hi x (i ∷ is) (above, below, up) h =
    ground (arith, has_index-below i hi x is up (omega arith))

has_index-rest : (i x : ℕ) (is : List ℕ) → i < x → has_index (i ∷ is) x ≡ has_index is x
unfolding contain
has_index-rest i x is h = ground arith

has_index-here : (i : ℕ) (is : List ℕ) → has_index (i ∷ is) i ≡ true
unfolding contain
has_index-here i is = ground arith

ap2_cons : {i k : ℕ} {is ks : List ℕ} → i ≡ k → is ≡ ks → i ∷ is ≡ k ∷ ks
ap2_cons e f = rw (e, f) refl

picked_lem :
    (has : ℕ → Bool) (is : List ℕ) (n lo : ℕ)
    → AreAscending lo is (lo + n)
    → ((x : ℕ) → lo < x → has x ≡ has_index is x)
    → picked has n lo ≡ is
unfolding contain
picked_lem has [] zero lo up same = refl
picked_lem has (i ∷ is) zero lo (above, below, up) same = let no : ⊥ = omega arith in elim no [ ]
picked_lem has [] (suc n) lo up same =
    let absent : has (suc lo) ≡ false = same (suc lo) (omega arith) in
    rw absent (picked_lem has [] n (suc lo) tt (λ x h. same x (omega arith)))
picked_lem has (i ∷ is) (suc n) lo (above, below, up) same =
    let later : AreAscending i is (suc lo + n) =
      AreAscending-up_to i is (lo + suc n) (suc lo + n) (omega arith) up in
    elim (Bool-cases (i == suc lo)) [
      | inl next ↦
          let e : i ≡ suc lo = (==_iff i (suc lo)).0 next in
          let there : has (suc lo) ≡ true =
            same (suc lo) (omega arith) ∙ rw e (has_index-here (suc lo) is) in
          rw there (
            ap2_cons (sym e) (
              picked_lem has is n (suc lo)
                (AreAscending-above (suc lo) i (suc lo + n) is (omega arith) later)
                (λ x h. same x (omega arith) ∙ has_index-rest i x is (omega arith))))
      | inr differs ↦
          let beyond : suc lo < i = ground (arith, ==_iff i (suc lo)) in
          let absent : has (suc lo) ≡ false =
            same (suc lo) (omega arith)
            ∙ has_index-below (suc lo) (suc lo + n) (suc lo) (i ∷ is) (beyond, omega arith, later)
                (omega arith) in
          rw absent (
            picked_lem has (i ∷ is) n (suc lo) (beyond, omega arith, later)
              (λ x h. same x (omega arith)))
    ]

-- Where the file is read in chunks that fit the buffer, as many at least as the chosen indices reach, the
-- loop starts one part for each chosen index, in their order, if that is ascending from 1.
pub jobs-chosen :
    (idxs : List ℕ) (rs : List Read)
    → All IsChunk rs
    → AreAscending 0 idxs (length rs)
    → (js : List Job) × (jobs idxs 0 rs ≡ ret js) × (map index_of js ≡ idxs)
jobs-chosen idxs rs whole up =
    let (js, run, same) = jobs_lem idxs 0 rs whole in
    (
      js,
      run,
      same
          ∙ picked_lem (has_index idxs) idxs (length rs) 0
              (AreAscending-up_to 0 idxs (length rs) _ (omega arith) up) (λ x h. refl),
    )

-- The chunks that a run chooses are indices from 1 on, in ascending order, up to the chunk count.
pub chunks_to_upload-AreAscending :
    (ex : List ℤ) (limit count : ℕ)
    → 1 ≤ limit
    → AreAscending 0 (chunks_to_upload ex (pos limit) (pos count)) count
chunks_to_upload-AreAscending ex limit count positive =
    rw (chunks_to_upload_lem ex limit count positive) (
      AreAscending-take limit 0 count (missing ex count 0) (
        AreAscending-up_to 0 (missing ex count 0) (0 + count) count (omega arith)
          (AreAscending-missing ex count 0)))
