-- ===== src/Mpupload/Choose.antt =====
-- test/mpupload/test_mpupload_resumable.go, the choice of the chunks that a run uploads, and util/util.go,
-- `Contain` on a slice.
use filestore_hsz.Prelude.{
  ℕ, zero, suc, ◌+◌, ◌≤◌, ◌≡◌, refl, ap, ◌∙◌, Text, bytes, length, length-append, take, ℤ, pos,
  negsuc, eqb_ℤ, List, [], ◌∷◌, ◌++◌, Option, none, some, Bool, true, false, leb, le→leb,
  if◌then◌else◌, Bool-cases, inl, inr, arith,
}

-- A value of any comparable type, in a slice of such values.
unfoldable pub contain {ℓ} : {A : Type ℓ} → (A → A → Bool) → List A → A → Bool × Option Text
contain eq [] obj = (false, some (bytes "not in this array/slice/map"))
contain eq (x ∷ xs) obj = let rest = contain eq xs obj in if eq x obj then (true, none) else rest

-- `left` indices are left, from `idx` on. The error of `Contain` is not looked at.
unfoldable pub choose_from : List ℤ → ℕ → (left idx : ℕ) → List ℕ → List ℕ
choose_from chunk_exists limit zero idx chosen = chosen
choose_from chunk_exists limit (suc left) idx chosen = elim (leb limit (length chosen)) [
  | true ↦ chosen
  | false ↦ elim ((contain eqb_ℤ chunk_exists (pos idx)).0) [
    | true ↦ choose_from chunk_exists limit left (suc idx) chosen
    | false ↦ choose_from chunk_exists limit left (suc idx) (chosen ++ idx ∷ [])
  ]
]

-- `idx` goes from 1 to `ChunkCount`.
unfoldable pub rounds : ℤ → ℕ
rounds (pos n) = n
rounds (negsuc n) = 0

-- `uploadChunkCount <= 0` means no chunk, else at most that many that the server does not have.
unfoldable pub chunks_to_upload : List ℤ → ℤ → ℤ → List ℕ
unfolding rounds choose_from
chunks_to_upload chunk_exists (pos limit) chunk_count =
    if leb limit 0 then [] else choose_from chunk_exists limit (rounds chunk_count) 1 []
chunks_to_upload chunk_exists (negsuc n) chunk_count = []

-- The indices above `lo` that the server does not have.
abbrev pub missing : List ℤ → (left lo : ℕ) → List ℕ
missing chunk_exists zero lo = []
missing chunk_exists (suc left) lo =
    let rest = missing chunk_exists left (suc lo) in
    if (contain eqb_ℤ chunk_exists (pos (suc lo))).0 then rest else suc lo ∷ rest

append_one : (chosen rest : List ℕ) (i : ℕ) → (chosen ++ i ∷ []) ++ rest ≡ chosen ++ i ∷ rest
append_one [] rest i = refl
append_one (c ∷ chosen) rest i = ap (λ (l : List ℕ). c ∷ l) (append_one chosen rest i)

append_none : (chosen : List ℕ) → chosen ≡ chosen ++ []
append_none [] = refl
append_none (c ∷ chosen) = ap (λ (l : List ℕ). c ∷ l) (append_none chosen)

abbrev nothing_chosen : List ℕ
nothing_chosen = []

take-none : (room : ℕ) → take room nothing_chosen ≡ []
take-none zero = refl
take-none (suc room) = refl

choose_from_lem :
    (chunk_exists : List ℤ) (limit room left lo : ℕ) (chosen : List ℕ)
    → limit ≡ length chosen + room
    → choose_from chunk_exists limit left (suc lo) chosen
      ≡ chosen ++ take room (missing chunk_exists left lo)
unfolding choose_from
choose_from_lem ex limit room zero lo chosen e =
    append_none chosen ∙ ap (λ (l : List ℕ). chosen ++ l) (rw (take-none room) refl)
choose_from_lem ex limit zero (suc left) lo chosen e =
    rw (choose_from, le→leb limit (length chosen) (omega arith)) (append_none chosen)
choose_from_lem ex limit (suc room) (suc left) lo chosen e =
    let open_ : leb limit (length chosen) ≡ false = ground arith in
    elim (Bool-cases ((contain eqb_ℤ ex (pos (suc lo))).0)) [
      | inl there ↦
          rw (choose_from, open_, there)
            (choose_from_lem ex limit (suc room) left (suc lo) chosen e)
      | inr absent ↦
          rw (choose_from, open_, absent)
            (choose_from_lem ex limit room left (suc lo) (chosen ++ suc lo ∷ [])
                (omega (arith, length-append chosen (suc lo ∷ [])))
              ∙ append_one chosen (take room (missing ex left (suc lo))) (suc lo))
    ]

-- With a limit above zero, the chunks of a run are the first ones, as many as the limit, of the
-- indices from 1 to the chunk count that the server does not have yet, in ascending order.
pub chunks_to_upload_lem :
    (chunk_exists : List ℤ) (limit count : ℕ)
    → 1 ≤ limit
    → chunks_to_upload chunk_exists (pos limit) (pos count)
      ≡ take limit (missing chunk_exists count 0)
unfolding chunks_to_upload rounds
chunks_to_upload_lem ex limit count positive =
    let some_room : leb limit 0 ≡ false = ground arith in
    rw some_room (choose_from_lem ex limit limit count 0 [] (omega arith))
