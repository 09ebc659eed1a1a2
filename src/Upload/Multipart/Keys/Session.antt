-- ===== src/Upload/Multipart/Keys/Session.antt =====
-- service/upload/api/mpupload.go: the hash of a session in redis, from its start over its parts to the
-- check of its completion. A hash is what HSET makes of it.
use filestore_hsz.Prelude.{
  ℕ, suc, lt→ltb, ◌<◌, ◌^◌, ◌≡◌, ◌≢◌, refl, ap, sym, ◌∙◌, ◌↔◌, Text, bytes, text_eq, text_eq_iff,
  text_eq_refl, has_prefix, ℤ, pos, List, [], ◌∷◌, ◌++◌, Bool, true, false, ◌||◌, if◌then◌else◌,
  Bool-cases, inl, inr, arith,
}
use filestore_hsz.Go.Float.{ceil_quotient}
use filestore_hsz.Go.Float.Ceil.{ceil_quotient-few}
use filestore_hsz.Go.Strconv.{atoi, IntResult, format_int}
use filestore_hsz.Go.Float.{ceil_quotient}
use filestore_hsz.Go.Float.Ceil.{ceil_quotient-few}
use filestore_hsz.Go.Strconv.RoundTrip.{atoi-format_int}
use filestore_hsz.Upload.Multipart.Keys.{
  chunk_field_prefix, chunk_size, chunk_count, Fields, is_chunk, is_complete,
}
use filestore_hsz.Upload.Multipart.Keys.Count.{chunks_in, announced, is_complete_iff}

-- HSET of a field: it replaces the value of a field that is there.
abbrev pub hset_field : Text → Text → Fields → Fields
hset_field k v [] = (k, v) ∷ []
hset_field k v ((i, u) ∷ fields) =
    if text_eq i k then (k, v) ∷ fields else (i, u) ∷ hset_field k v fields

-- Whether a field is there with the value 1.
abbrev pub is_set : Text → Fields → Bool
is_set k [] = false
is_set k ((i, u) ∷ fields) = if text_eq i k then text_eq u (bytes "1") else is_set k fields

-- The field of a part.
abbrev pub part : Text → Text
part i = chunk_field_prefix ++ i

-- The parts that have been verified, the last one first, set in a hash.
abbrev pub with_parts : List Text → Fields → Fields
with_parts [] fields = fields
with_parts (i ∷ is) fields = hset_field (part i) (bytes "1") (with_parts is fields)

abbrev pub occurs : Text → List Text → Bool
occurs i [] = false
occurs i (k ∷ ks) = text_eq k i || occurs i ks

-- How many different indices there are.
abbrev pub distinct : List Text → ℕ
distinct [] = 0
distinct (i ∷ is) = if occurs i is then distinct is else suc (distinct is)

pub is_chunk-part : (i v : Text) → is_chunk (part i) v ≡ text_eq v (bytes "1")
unfolding is_chunk bytes has_prefix
is_chunk-part i v = refl

pub part-not-chunkcount : (i : Text) → text_eq (part i) (bytes "chunkcount") ≡ false
unfolding text_eq bytes
part-not-chunkcount i = refl

text_eq-part : (i k : Text) → text_eq (part i) (part k) ≡ text_eq i k
unfolding text_eq bytes
text_eq-part i k = refl

pub is_chunk_at : (k i v : Text) → text_eq k (part i) ≡ true → is_chunk k v ≡ text_eq v (bytes "1")
is_chunk_at k i v same = rw ((text_eq_iff k (part i)).0 same) (is_chunk-part i v)

chunks_in-hset_field :
    (i : Text) (fields : Fields)
    → chunks_in (hset_field (part i) (bytes "1") fields)
      ≡ (if is_set (part i) fields then chunks_in fields else suc (chunks_in fields))
chunks_in-hset_field i [] = rw (is_chunk-part i (bytes "1"), text_eq_refl (bytes "1")) refl
chunks_in-hset_field i ((k, v) ∷ fields) = elim (Bool-cases (text_eq k (part i))) [
  | inl same ↦
      rw (same, is_chunk-part i (bytes "1"), text_eq_refl (bytes "1"), is_chunk_at k i v same)
        (ground arith)
  | inr other ↦ rw other (ground (arith, chunks_in-hset_field i fields))
]

true-not-false : true ≢ false
true-not-false e = cc

text_eq_apart :
    (i k f : Text) → text_eq f (part i) ≡ false → text_eq f (part k) ≡ true → text_eq i k ≡ false
text_eq_apart i k f other here = elim (Bool-cases (text_eq i k)) [
  | inl same ↦
      elim (true-not-false (
        sym here
        ∙ ap (λ (x : Text). text_eq f (part x)) (sym ((text_eq_iff i k).0 same))
        ∙ other)) [ ]
  | inr apart ↦ apart
]

is_set-hset_field :
    (k i : Text) (fields : Fields)
    → is_set (part k) (hset_field (part i) (bytes "1") fields)
      ≡ (text_eq i k || is_set (part k) fields)
is_set-hset_field k i [] = rw (text_eq-part i k, text_eq_refl (bytes "1")) (ground arith)
is_set-hset_field k i ((f, v) ∷ fields) = elim (Bool-cases (text_eq f (part i))) [
  | inl same ↦
      rw (same, (text_eq_iff f (part i)).0 same, text_eq-part i k, text_eq_refl (bytes "1"))
        (ground arith)
  | inr other ↦ elim (Bool-cases (text_eq f (part k))) [
    | inl here ↦ rw (other, here, text_eq_apart i k f other here) refl
    | inr elsewhere ↦ rw (other, elsewhere) (is_set-hset_field k i fields)
  ]
]

skipped :
    (k v : Text) (total : ℤ) (fields : Fields)
    → text_eq k (bytes "chunkcount") ≡ false
    → announced total ((k, v) ∷ fields) ≡ announced total fields
skipped k v total fields other = rw other refl

announced-hset_field :
    (i : Text) (total : ℤ) (fields : Fields)
    → announced total (hset_field (part i) (bytes "1") fields) ≡ announced total fields
announced-hset_field i total [] = skipped (part i) (bytes "1") total [] (part-not-chunkcount i)
announced-hset_field i total ((k, v) ∷ fields) = elim (Bool-cases (text_eq k (part i))) [
  | inl same ↦ rw same (
      skipped (part i) (bytes "1") total fields (part-not-chunkcount i)
      ∙ sym
          (skipped k v total fields (rw ((text_eq_iff k (part i)).0 same) (part-not-chunkcount i))))
  | inr other ↦ rw other (
      announced-hset_field i (if text_eq k (bytes "chunkcount") then (atoi v).number else total)
        fields)
]

-- The hash of a session as `InitialMultipartUploadHandler` writes it.
abbrev pub session_fields : ℕ → Text → Fields
session_fields size filehash = hset_field (bytes "filesize") (format_int (pos size)) (
    hset_field (bytes "filehash") filehash
      (hset_field (bytes "chunkcount") (format_int (chunk_count (pos size))) []))

is_set-with_parts :
    (k : Text) (is : List Text) (fields : Fields)
    → is_set (part k) fields ≡ false
    → is_set (part k) (with_parts is fields) ≡ occurs k is
is_set-with_parts k [] fields free = free
is_set-with_parts k (i ∷ is) fields free =
    is_set-hset_field k i (with_parts is fields) ∙ rw (is_set-with_parts k is fields free) refl

pub chunks_in-with_parts :
    (is : List Text) (fields : Fields)
    → ((k : Text) → is_set (part k) fields ≡ false)
    → chunks_in fields ≡ 0
    → chunks_in (with_parts is fields) ≡ distinct is
chunks_in-with_parts [] fields free zero_chunks = zero_chunks
chunks_in-with_parts (i ∷ is) fields free zero_chunks =
    rw
      (
        chunks_in-hset_field i (with_parts is fields),
        is_set-with_parts i is fields (free i),
        chunks_in-with_parts is fields free zero_chunks,
      )
      refl

announced-with_parts :
    (is : List Text) (total : ℤ) (fields : Fields)
    → announced total (with_parts is fields) ≡ announced total fields
announced-with_parts [] total fields = refl
announced-with_parts (i ∷ is) total fields =
    announced-hset_field i total (with_parts is fields) ∙ announced-with_parts is total fields

pub free-session_fields :
    (size : ℕ) (filehash k : Text) → is_set (part k) (session_fields size filehash) ≡ false
unfolding text_eq bytes
free-session_fields size filehash k = refl

pub no_chunks-session_fields :
    (size : ℕ) (filehash : Text) → chunks_in (session_fields size filehash) ≡ 0
unfolding text_eq bytes is_chunk has_prefix
no_chunks-session_fields size filehash = refl

pub few_chunks : (size : ℕ) → size < 2 ^ 63 → ceil_quotient size chunk_size < 2 ^ 63
few_chunks size fits = ceil_quotient-few size fits

announced-session_fields :
    (size : ℕ) (filehash : Text)
    → size < 2 ^ 63
    → announced (pos 0) (session_fields size filehash) ≡ chunk_count (pos size)
unfolding text_eq bytes chunk_count
announced-session_fields size filehash fits =
    ap (λ (r : IntResult). r.number)
      (atoi-format_int (pos (ceil_quotient size chunk_size)) refl
        (lt→ltb _ (2 ^ 63) (few_chunks size fits)))

count_iff : {P : Type 0} (a b : ℤ) (m n : ℕ) → a ≡ b → m ≡ n → (P ↔ (a ≡ pos m)) → P ↔ (b ≡ pos n)
count_iff a b m n e f h = (λ p. sym e ∙ h.0 p ∙ ap pos f, λ q. h.1 (e ∙ q ∙ ap pos (sym f)))

-- A session for a file of an int64 number of bytes, in which parts have been verified in any order and
-- some perhaps more than once, passes the check of the completion exactly when as many different
-- indices have been verified as the file has chunks.
pub is_complete-with_parts :
    (size : ℕ) (filehash : Text) (is : List Text)
    → size < 2 ^ 63
    → (is_complete (with_parts is (session_fields size filehash)) ≡ true)
      ↔ (chunk_count (pos size) ≡ pos (distinct is))
is_complete-with_parts size filehash is fits =
    count_iff _ (chunk_count (pos size)) _ (distinct is)
      (announced-with_parts is (pos 0) (session_fields size filehash)
        ∙ announced-session_fields size filehash fits)
      (chunks_in-with_parts is (session_fields size filehash) (free-session_fields size filehash)
        (no_chunks-session_fields size filehash))
      (is_complete_iff (with_parts is (session_fields size filehash)))
