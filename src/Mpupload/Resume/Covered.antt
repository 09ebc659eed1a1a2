-- ===== src/Mpupload/Resume/Covered.antt =====
-- test/mpupload against service/upload/api/mpupload.go: a resumed upload sends every chunk that is missing,
-- and its completion goes on.
use filestore_hsz.Prelude.{
  ℕ, ◌<◌, ◌≤◌, ◌^◌, ◌≡◌, refl, ap, ◌∙◌, Text, take, pos, List, ◌++◌, map, true, All, Bool-cases,
  inl, inr, arith,
}
use filestore_hsz.Upload.Multipart.Keys.{Fields, chunks_exist}
use filestore_hsz.Upload.Multipart.Keys.Session.{with_parts, session_fields, distinct}
use filestore_hsz.Upload.Multipart.Flow.Hash.{SameFields}
use filestore_hsz.Mpupload.Choose.{chunks_to_upload, chunks_to_upload_lem}
use filestore_hsz.Mpupload.Resume.{decimal, mem, IsIndex, told-listed}
use filestore_hsz.Mpupload.Resume.Indices.{
  unseen, missing-unseen, length-unseen, take-whole, mem-unseen, distinct_of_full, or_true,
  distinct-decimal, mem-append, All-append,
}

-- The chunks that a run without a lower limit chooses are those that the session does not tell of.
chosen-unseen :
    (size count limit : ℕ) (filehash : Text) (ks : List ℕ) (fields : Fields)
    → count < 2 ^ 63
    → 1 ≤ limit
    → count ≤ limit
    → All (IsIndex count) ks
    → SameFields fields (with_parts (map decimal ks) (session_fields size filehash))
    → chunks_to_upload (chunks_exist fields) (pos limit) (pos count)
      ≡ unseen (λ k. mem k ks) count 0
chosen-unseen size count limit filehash ks fields small positive enough within listed =
    let ex = chunks_exist fields in
    let whole = length-unseen (λ k. mem k ks) count 0 in
    chunks_to_upload_lem ex limit count positive
    ∙ ap (take limit) (
        missing-unseen ex (λ k. mem k ks) count 0
          (λ k. told-listed size count k filehash ks fields small within listed))
    ∙ take-whole limit (unseen (λ k. mem k ks) count 0) (omega arith)

-- Where a session has recorded some parts of a file, and a client, told of them by any listing of the
-- session's hash, sends every chunk that
-- it chooses with a limit not below the chunk count, in any order, some perhaps again, then every index
-- of the file is recorded: there are as many different ones as chunks.
pub distinct-resumed :
    (size count limit : ℕ) (filehash : Text) (recorded sent : List ℕ) (fields : Fields)
    → count < 2 ^ 63
    → 1 ≤ limit
    → count ≤ limit
    → All (IsIndex count) recorded
    → All (IsIndex count) sent
    → SameFields fields (with_parts (map decimal recorded) (session_fields size filehash))
    → ((k : ℕ)
        → mem k (chunks_to_upload (chunks_exist fields) (pos limit) (pos count)) ≡ true
        → mem k sent ≡ true)
    → distinct (map decimal (sent ++ recorded)) ≡ count
distinct-resumed size count limit filehash recorded sent fields small positive enough known valid
      listed answered =
    let every = All-append count sent recorded valid known in
    distinct-decimal count (sent ++ recorded) small every
    ∙ distinct_of_full count (sent ++ recorded) every (λ k here.
      mem-append k sent recorded ∙ (elim (Bool-cases (mem k recorded)) [
        | inl before ↦ rw before (or_true (mem k sent))
        | inr new_ ↦
            rw
              (answered k (
                rw
                  (chosen-unseen size count limit filehash recorded fields small positive enough
                    known listed)
                  (mem-unseen (λ i. mem i recorded) k count 0 (omega (arith, here.0))
                    (omega (arith, here.1)) new_)))
              refl
      ]))
