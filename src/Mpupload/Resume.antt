-- ===== src/Mpupload/Resume.antt =====
-- The client's choice of chunks, test/mpupload/test_mpupload_resumable.go, against the hash of a session
-- and the check of its completion, service/upload/api/mpupload.go.
pub mod Indices
pub mod Covered
pub mod Complete
use filestore_hsz.Prelude.{
  ℕ, zero, suc, ◌+◌, ◌<◌, ◌≤◌, ◌^◌, ◌≡◌, refl, sym, ap, ◌∙◌, Text, bytes, text_eq, text_eq_iff,
  text_eq_refl, has_prefix, length, take, drop, ℤ, pos, eqb_ℤ, List, [], ◌∷◌, ◌++◌, map, Bool, true,
  false, ◌==◌, ==_iff, ◌||◌, ◌&&◌, not, sym, if◌then◌else◌, All, lt→ltb, Bool-cases, inl, inr,
  arith,
}
use filestore_hsz.Go.Strconv.{atoi, IntResult, format_int}
use filestore_hsz.Go.Strconv.RoundTrip.{atoi-format_int}
use filestore_hsz.Upload.Multipart.Keys.{Fields, is_chunk, chunks_exist, chunk_count}
use filestore_hsz.Upload.Multipart.Keys.Session.{
  hset_field, part, with_parts, session_fields, occurs, distinct, is_chunk-part, is_chunk_at,
}
use filestore_hsz.Upload.Multipart.Flow.Hash.{SameFields, count_by}
use filestore_hsz.Mpupload.Choose.{contain, missing, chunks_to_upload, chunks_to_upload_lem}

-- How an index is sent.
abbrev pub decimal : ℕ → Text
decimal k = format_int (pos k)

abbrev pub mem : ℕ → List ℕ → Bool
mem k [] = false
mem k (i ∷ is) = (i == k) || mem k is

abbrev pub IsIndex : ℕ → ℕ → Type 0
IsIndex count k = (1 ≤ k) × (k ≤ count)

pub atoi-decimal : (k : ℕ) → k < 2 ^ 63 → (atoi (decimal k)).number ≡ pos k
atoi-decimal k fits =
    ap (λ (r : IntResult). r.number) (atoi-format_int (pos k) refl (lt→ltb k (2 ^ 63) fits))

-- What a session's hash says of an index after a part is set in it.
abbrev told : Fields → ℕ → Bool
told fields k = (contain eqb_ℤ (chunks_exist fields) (pos k)).0

contain-cons :
    (x y : ℤ) (xs : List ℤ) → (contain eqb_ℤ (x ∷ xs) y).0 ≡ (eqb_ℤ x y || (contain eqb_ℤ xs y).0)
unfolding contain
contain-cons x y xs = elim (Bool-cases (eqb_ℤ x y)) [
  | inl same ↦ rw same refl
  | inr differs ↦ rw differs refl
]

told-cons :
    (f v : Text) (k : ℕ) (fields : Fields)
    → told ((f, v) ∷ fields) k ≡ (
        if is_chunk f v
        then eqb_ℤ (atoi (drop 7 f)).number (pos k) || told fields k
        else told fields k)
unfolding chunks_exist has_prefix bytes contain
told-cons f v k fields = elim (Bool-cases (is_chunk f v)) [
  | inl chunk ↦ rw chunk (contain-cons (atoi (drop 7 f)).number (pos k) (chunks_exist fields))
  | inr none_ ↦ rw none_ refl
]

drop-part : (i : Text) → drop 7 (part i) ≡ i
unfolding bytes
drop-part i = refl

told-part :
    (i k : ℕ) (v : Text) (fields : Fields)
    → i < 2 ^ 63
    → told ((part (decimal i), v) ∷ fields) k
      ≡ (if text_eq v (bytes "1") then (i == k) || told fields k else told fields k)
told-part i k v fields fits =
    told-cons (part (decimal i)) v k fields
    ∙ rw (is_chunk-part (decimal i) v, drop-part (decimal i), atoi-decimal i fits) refl

told-none : (k : ℕ) → told [] k ≡ false
unfolding contain chunks_exist
told-none k = refl

or_again : (a b : Bool) → (a || b) ≡ (a || (a || b))
or_again true b = refl
or_again false b = refl

or_swap : (a b c : Bool) → (a || (b || c)) ≡ (b || (a || c))
or_swap true true c = refl
or_swap true false c = refl
or_swap false b c = refl

told-replaced :
    (i k : ℕ) (v : Text) (fields : Fields)
    → i < 2 ^ 63
    → told ((part (decimal i), bytes "1") ∷ fields) k
      ≡ ((i == k) || told ((part (decimal i), v) ∷ fields) k)
told-replaced i k v fields fits =
    rw
      (told-part i k (bytes "1") fields fits, told-part i k v fields fits, text_eq_refl (bytes "1"))
      (elim (Bool-cases (text_eq v (bytes "1"))) [
        | inl one ↦ rw one (or_again (i == k) (told fields k))
        | inr else_ ↦ rw else_ refl
      ])

told-hset_field :
    (i k : ℕ) (fields : Fields)
    → i < 2 ^ 63
    → told (hset_field (part (decimal i)) (bytes "1") fields) k ≡ ((i == k) || told fields k)
told-hset_field i k [] fits = told-part i k (bytes "1") [] fits ∙ rw (text_eq_refl (bytes "1")) refl
told-hset_field i k ((f, v) ∷ fields) fits = elim (Bool-cases (text_eq f (part (decimal i)))) [
  | inl same ↦
      rw (same, (text_eq_iff f (part (decimal i))).0 same) (told-replaced i k v fields fits)
  | inr differs ↦
      rw
        (
          differs,
          told-cons f v k (hset_field (part (decimal i)) (bytes "1") fields),
          told-hset_field i k fields fits,
          told-cons f v k fields,
        )
        (elim (Bool-cases (is_chunk f v)) [
          | inl chunk ↦
              rw chunk (or_swap (eqb_ℤ (atoi (drop 7 f)).number (pos k)) (i == k) (told fields k))
          | inr none_ ↦ rw none_ refl
        ])
]

told-session_fields : (size k : ℕ) (filehash : Text) → told (session_fields size filehash) k ≡ false
unfolding chunks_exist contain text_eq bytes is_chunk has_prefix
told-session_fields size k filehash = refl

-- The indices that a session tells a client are those of the parts that it has recorded.
told-with_parts :
    (size count k : ℕ) (filehash : Text) (ks : List ℕ)
    → count < 2 ^ 63
    → All (IsIndex count) ks
    → told (with_parts (map decimal ks) (session_fields size filehash)) k ≡ mem k ks
told-with_parts size count k filehash [] small within = told-session_fields size k filehash
told-with_parts size count k filehash (i ∷ ks) small ((low, high), within) =
    told-hset_field i k (with_parts (map decimal ks) (session_fields size filehash)) (omega arith)
    ∙ ap (λ b. (i == k) || b) (told-with_parts size count k filehash ks small within)

-- A field that tells of an index.
abbrev tells_of : ℕ → Text → Text → Bool
tells_of k f v = is_chunk f v && eqb_ℤ (atoi (drop 7 f)).number (pos k)

told-count_by : (k : ℕ) (fields : Fields) → told fields k ≡ not (count_by (tells_of k) fields == 0)
told-count_by k [] = told-none k
told-count_by k ((f, v) ∷ fields) = told-cons f v k fields ∙ (elim (Bool-cases (is_chunk f v)) [
  | inr none_ ↦ rw none_ (told-count_by k fields)
  | inl chunk ↦ elim (Bool-cases (eqb_ℤ (atoi (drop 7 f)).number (pos k))) [
    | inl same ↦ rw (chunk, same) (ground arith)
    | inr differs ↦ rw (chunk, differs) (told-count_by k fields)
  ]
])

-- In whichever order a session's hash is listed, the indices that it tells a client are those of the
-- parts that it has recorded.
pub told-listed :
    (size count k : ℕ) (filehash : Text) (ks : List ℕ) (fields : Fields)
    → count < 2 ^ 63
    → All (IsIndex count) ks
    → SameFields fields (with_parts (map decimal ks) (session_fields size filehash))
    → told fields k ≡ mem k ks
told-listed size count k filehash ks fields small within listed =
    told-count_by k fields
    ∙ ap (λ (n : ℕ). not (n == 0)) (listed (tells_of k))
    ∙ sym (told-count_by k (with_parts (map decimal ks) (session_fields size filehash)))
    ∙ told-with_parts size count k filehash ks small within
