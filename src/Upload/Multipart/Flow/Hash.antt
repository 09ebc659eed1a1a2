-- ===== src/Upload/Multipart/Flow/Hash.antt =====
-- The documented behaviour of redis' hashes, and what the check of a completion makes of a session's
-- hash, in whichever order HGETALL lists it. That a session expires is not part of it.
use filestore_hsz.Prelude.{
  ℕ, suc, ◌<◌, ◌≤◌, ◌^◌, ◌≡◌, refl, ap, sym, ◌∙◌, Text, bytes, text_eq, text_eq_iff, text_eq_refl,
  ℤ, pos, eqb_ℤ, List, [], ◌∷◌, Bool, false, ◌&&◌, if◌then◌else◌, Bool-cases, inl, inr, arith,
  lt→ltb,
}
use filestore_hsz.Go.{ok}
use filestore_hsz.Go.Float.{ceil_quotient}
use filestore_hsz.Go.Strconv.{atoi, IntResult, format_int}
use filestore_hsz.Go.Strconv.RoundTrip.{atoi-format_int}
use filestore_hsz.Upload.Services.{Redis}
use filestore_hsz.Upload.Multipart.Keys.{Fields, chunk_size, chunk_count, is_chunk, is_complete}
use filestore_hsz.Upload.Multipart.Keys.Count.{chunks_in, announced, is_complete_lem}
use filestore_hsz.Upload.Multipart.Keys.Session.{
  hset_field, part, with_parts, session_fields, distinct, chunks_in-with_parts, free-session_fields,
  no_chunks-session_fields, part-not-chunkcount, few_chunks,
}

-- How many fields satisfy a test.
abbrev pub count_by : (Text → Text → Bool) → Fields → ℕ
count_by p [] = 0
count_by p ((k, v) ∷ fields) = if p k v then suc (count_by p fields) else count_by p fields

-- The same fields, each as often.
abbrev pub SameFields : Fields → Fields → Type 0
SameFields f g = (p : Text → Text → Bool) → count_by p f ≡ count_by p g

abbrev pub set_hash : Text → Fields → (Text → Fields) → Text → Fields
set_hash k f hashes i = if text_eq k i then f else hashes i

-- HSET sets a field of a hash, HGETALL lists the fields, EXPIRE and a SET of another key leave a hash.
pub record RedisLaws {W : Type 0} (redis : Redis W) : Type 0 where
  pub hashes : W → Text → Fields
  pub hset_sets :
      (k f v : Text) (w : W)
      → hashes (redis.hset k f v w).1 ≡ set_hash k (hset_field f v (hashes w k)) (hashes w)
  pub hgetall_lists :
      (k : Text) (w : W)
      → (fields : Fields) × (redis.hgetall k w ≡ (ok fields, w)) × SameFields fields (hashes w k)
  pub expire_keeps : (k : Text) (n : ℕ) (w : W) → hashes (redis.expire k n w).1 ≡ hashes w
  pub set_ex_keeps :
      (k v : Text) (n : ℕ) (w : W) (i : Text)
      → text_eq k i ≡ false
      → hashes (redis.set_ex k v n w).1 i ≡ hashes w i

chunks_in_lem : (fields : Fields) → chunks_in fields ≡ count_by is_chunk fields
chunks_in_lem [] = refl
chunks_in_lem ((k, v) ∷ fields) = ground (arith, chunks_in_lem fields)

-- The field that announces the total, and that field with a value.
abbrev is_total : Text → Text → Bool
is_total k v = text_eq k (bytes "chunkcount")

abbrev is_total_of : Text → Text → Text → Bool
is_total_of n k v = text_eq k (bytes "chunkcount") && text_eq v n

announced_none :
    (fields : Fields) (total : ℤ) → count_by is_total fields ≡ 0 → announced total fields ≡ total
announced_none [] total none_ = refl
announced_none ((k, v) ∷ fields) total none_ = elim (Bool-cases (text_eq k (bytes "chunkcount"))) [
  | inl here ↦ ground arith
  | inr other ↦ rw other (announced_none fields total (ground arith))
]

fewer : (n : Text) (fields : Fields) → count_by (is_total_of n) fields ≤ count_by is_total fields
fewer n [] = omega arith
fewer n ((k, v) ∷ fields) = ground (arith, fewer n fields)

announced_once :
    (fields : Fields) (total : ℤ) (n : Text)
    → count_by is_total fields ≡ 1
    → count_by (is_total_of n) fields ≡ 1
    → announced total fields ≡ (atoi n).number
announced_once [] total n one there = ground arith
announced_once ((k, v) ∷ fields) total n one there =
    elim (Bool-cases (text_eq k (bytes "chunkcount"))) [
      | inl here ↦ elim (Bool-cases (text_eq v n)) [
        | inl same ↦
            rw (here, (text_eq_iff v n).0 same)
              (announced_none fields (atoi n).number (ground arith))
        | inr differs ↦ ground (arith, fewer n fields)
      ]
      | inr other ↦ rw other (announced_once fields total n (ground arith) (ground arith))
    ]

-- A test that no part passes counts the same before a part is set and after.
count_by-hset_field :
    (p : Text → Text → Bool) (i : Text) (fields : Fields)
    → ((v : Text) → p (part i) v ≡ false)
    → count_by p (hset_field (part i) (bytes "1") fields) ≡ count_by p fields
count_by-hset_field p i [] no_part = rw (no_part (bytes "1")) refl
count_by-hset_field p i ((k, v) ∷ fields) no_part = elim (Bool-cases (text_eq k (part i))) [
  | inl same ↦ rw (same, (text_eq_iff k (part i)).0 same, no_part (bytes "1"), no_part v) refl
  | inr other ↦ rw other (ground (arith, count_by-hset_field p i fields no_part))
]

count_by-with_parts :
    (p : Text → Text → Bool) (is : List Text) (fields : Fields)
    → ((i v : Text) → p (part i) v ≡ false)
    → count_by p (with_parts is fields) ≡ count_by p fields
count_by-with_parts p [] fields no_part = refl
count_by-with_parts p (i ∷ is) fields no_part =
    count_by-hset_field p i (with_parts is fields) (no_part i)
    ∙ count_by-with_parts p is fields no_part

part-not-total_of : (n i v : Text) → is_total_of n (part i) v ≡ false
part-not-total_of n i v = rw (part-not-chunkcount i) refl

-- The total that a session's hash announces.
abbrev total_text : ℕ → Text
total_text size = format_int (chunk_count (pos size))

one_total : (size : ℕ) (filehash : Text) → count_by is_total (session_fields size filehash) ≡ 1
unfolding text_eq bytes
one_total size filehash = refl

one_total_of :
    (size : ℕ) (filehash : Text)
    → count_by (is_total_of (total_text size)) (session_fields size filehash) ≡ 1
unfolding bytes
one_total_of size filehash = unfold text_eq in rw (text_eq_refl (total_text size)) refl

atoi-total_text :
    (size : ℕ) → size < 2 ^ 63 → (atoi (total_text size)).number ≡ chunk_count (pos size)
unfolding chunk_count
atoi-total_text size fits =
    ap (λ (r : IntResult). r.number)
      (atoi-format_int (pos (ceil_quotient size chunk_size)) refl
        (lt→ltb _ (2 ^ 63) (few_chunks size fits)))

-- The check on any listing of a session's hash.
pub is_complete-listed :
    (size : ℕ) (filehash : Text) (is : List Text) (fields : Fields)
    → size < 2 ^ 63
    → SameFields fields (with_parts is (session_fields size filehash))
    → is_complete fields ≡ eqb_ℤ (chunk_count (pos size)) (pos (distinct is))
is_complete-listed size filehash is fields fits listed =
    let session : Fields = session_fields size filehash in
    let total =
      announced_once fields (pos 0) (total_text size)
        (listed is_total
          ∙ count_by-with_parts is_total is session (λ i v. part-not-chunkcount i)
          ∙ one_total size filehash)
        (listed (is_total_of (total_text size))
          ∙ count_by-with_parts (is_total_of (total_text size)) is session
              (part-not-total_of (total_text size))
          ∙ one_total_of size filehash)
      ∙ atoi-total_text size fits in
    let parts =
      chunks_in_lem fields
      ∙ listed is_chunk
      ∙ sym (chunks_in_lem (with_parts is session))
      ∙ chunks_in-with_parts is session (free-session_fields size filehash)
          (no_chunks-session_fields size filehash) in
    is_complete_lem fields
    ∙ ap (λ (z : ℤ). eqb_ℤ z (pos (chunks_in fields))) total
    ∙ ap (λ (n : ℕ). eqb_ℤ (chunk_count (pos size)) (pos n)) parts
