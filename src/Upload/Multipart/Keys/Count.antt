-- ===== src/Upload/Multipart/Keys/Count.antt =====
-- service/upload/api/mpupload.go: the number of chunks, and the count of those that are there.
use filestore_hsz.Prelude.{
  ◌==◌, take, All, ◌++◌, ◌∙◌, ◌&&◌, List, Bool, text_eq_refl, ℕ, suc, ◌<◌, ◌^◌, ◌+◌, ◌*◌, ◌≤◌, ◌≡◌,
  refl, Text, bytes, text_eq, text_eq_iff, has_prefix, ◌↔◌, ap, eqb_ℤ, ℤ, pos, [], ◌∷◌, true, false,
  arith, Bool-cases, inl, inr, length, if◌then◌else◌,
}
use filestore_hsz.Upload.Multipart.Keys.{
  chunk_size, chunk_count, Fields, is_chunk, count_loop, is_complete,
}
use filestore_hsz.Go.Float.{ceil_quotient}
use filestore_hsz.Go.Float.Ceil.{ceil_quotient-covers}
use filestore_hsz.Go.Strconv.{atoi}

-- A file of at least one byte and fewer than 2 ^ 53 gets exactly as many chunks as hold it: one chunk fewer is too few.
pub chunk_count_covers :
    (n : ℕ)
    → 0 < n
    → n < 2 ^ 53
    → (k : ℕ) × (chunk_count (pos n) ≡ pos k)
      × (n ≤ k * chunk_size)
      × ((m : ℕ) → n ≤ m * chunk_size → k ≤ m)
unfolding chunk_count
chunk_count_covers n positive small =
    let (holds, least) =
      ceil_quotient-covers n chunk_size positive small (omega arith) (omega arith) in
    (ceil_quotient n chunk_size, refl, holds, least)

-- The field that announces the total is no chunk.
chunkcount-not-chunk : (v : Text) → is_chunk (bytes "chunkcount") v ≡ false
unfolding is_chunk bytes has_prefix
chunkcount-not-chunk v = refl

-- How many fields are verified chunks: an independent count.
abbrev pub chunks_in : Fields → ℕ
chunks_in [] = 0
chunks_in ((k, v) ∷ fields) = if is_chunk k v then suc (chunks_in fields) else chunks_in fields

-- The total announced: the last `chunkcount` field, or what stood before.
abbrev pub announced : ℤ → Fields → ℤ
announced total [] = total
announced total ((k, v) ∷ fields) =
    announced (if text_eq k (bytes "chunkcount") then (atoi v).number else total) fields

is_chunk-chunkcount : (k v : Text) → text_eq k (bytes "chunkcount") ≡ true → is_chunk k v ≡ false
is_chunk-chunkcount k v e = rw ((text_eq_iff k (bytes "chunkcount")).0 e) (chunkcount-not-chunk v)

pub count_loop_lem :
    (fields : Fields) (total : ℤ) (count : ℕ)
    → count_loop fields total count ≡ (announced total fields, count + chunks_in fields)
unfolding count_loop
count_loop_lem [] total count = ground arith
count_loop_lem ((k, v) ∷ fields) total count = elim (Bool-cases (text_eq k (bytes "chunkcount"))) [
  | inl total_field ↦
      rw (total_field, is_chunk-chunkcount k v total_field)
        (count_loop_lem fields (atoi v).number count)
  | inr other ↦ elim (Bool-cases (is_chunk k v)) [
    | inl chunk ↦ rw (other, chunk) (ground (arith, count_loop_lem fields total (count + 1)))
    | inr none_ ↦ rw (other, none_) (count_loop_lem fields total count)
  ]
]

pub eqb_ℤ_iff : (a b : ℤ) → (eqb_ℤ a b ≡ true) ↔ (a ≡ b)
eqb_ℤ_iff a b = (λ h. ground arith, λ h. ground arith)

pub is_complete_lem :
    (fields : Fields)
    → is_complete fields ≡ eqb_ℤ (announced (pos 0) fields) (pos (chunks_in fields))
unfolding is_complete
is_complete_lem fields =
    rw (count_loop_lem fields (pos 0) 0)
      (ap (λ (n : ℕ). eqb_ℤ (announced (pos 0) fields) (pos n)) (omega arith))

pub is_complete_iff :
    (fields : Fields)
    → (is_complete fields ≡ true) ↔ (announced (pos 0) fields ≡ pos (chunks_in fields))
is_complete_iff fields =
    rw (is_complete_lem fields) (eqb_ℤ_iff (announced (pos 0) fields) (pos (chunks_in fields)))

abbrev pub filter : {A : Type 0} → (A → Bool) → List A → List A
filter p [] = []
filter p (x ∷ xs) = let rest = filter p xs in if p x then x ∷ rest else rest

-- A field of a part that has been verified.
abbrev pub is_part : Text × Text → Bool
is_part (k, v) = text_eq (take 7 k) (bytes "chkidx_") && text_eq v (bytes "1")

-- A field that does not announce a total.
abbrev pub IsOther : Text × Text → Type 0
IsOther (k, v) = text_eq k (bytes "chunkcount") ≡ false

-- A prefix is what is taken at the front.
has_prefix-take : (s p : Text) → has_prefix s p ≡ text_eq (take (length p) s) p
unfolding has_prefix text_eq
has_prefix-take s [] = refl
has_prefix-take [] (c ∷ p) = refl
has_prefix-take (b ∷ s) (c ∷ p) = ap (λ (e : Bool). b == c && e) (has_prefix-take s p)

is_chunk-is_part : (k v : Text) → is_chunk k v ≡ is_part (k, v)
unfolding is_chunk bytes
is_chunk-is_part k v =
    ap (λ (b : Bool). b && text_eq v (bytes "1")) (has_prefix-take k (bytes "chkidx_"))

chunks_in-filter : (fields : Fields) → chunks_in fields ≡ length (filter is_part fields)
chunks_in-filter [] = refl
chunks_in-filter ((k, v) ∷ fields) = elim (Bool-cases (is_part (k, v))) [
  | inl here ↦ rw (is_chunk-is_part k v, here) (ap suc (chunks_in-filter fields))
  | inr not_here ↦ rw (is_chunk-is_part k v, not_here) (chunks_in-filter fields)
]

announced-append :
    (total : ℤ) (xs ys : Fields) → announced total (xs ++ ys) ≡ announced (announced total xs) ys
announced-append total [] ys = refl
announced-append total ((k, v) ∷ xs) ys =
    announced-append (if text_eq k (bytes "chunkcount") then (atoi v).number else total) xs ys

announced-others :
    (total : ℤ) (fields : Fields) → All IsOther fields → announced total fields ≡ total
announced-others total [] others = refl
announced-others total ((k, v) ∷ fields) (other, others) =
    rw other (announced-others total fields others)

-- The check of `CompleteUploadHandler` passes exactly when the last total that a hash announces is the number
-- of its fields that begin with `chkidx_` and hold `1`.
pub is_complete_by_parts :
    (before after : Fields) (v : Text)
    → All IsOther after
    → (is_complete (before ++ (bytes "chunkcount", v) ∷ after) ≡ true) ↔ (
        (atoi v).number ≡ pos (length (filter is_part (before ++ (bytes "chunkcount", v) ∷ after))))
is_complete_by_parts before after v others =
    let fields : Fields = before ++ (bytes "chunkcount", v) ∷ after in
    let total : announced (pos 0) fields ≡ (atoi v).number =
      announced-append (pos 0) before ((bytes "chunkcount", v) ∷ after)
      ∙ rw (text_eq_refl (bytes "chunkcount")) (announced-others (atoi v).number after others) in
    rw (← total, ← (chunks_in-filter fields)) (is_complete_iff fields)
