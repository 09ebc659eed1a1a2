-- ===== src/Mpupload/Resume/Complete.antt =====
-- test/mpupload against service/upload/api/mpupload.go: the completion of a resumed upload.
use filestore_hsz.Prelude.{
  ℕ, ◌<◌, ◌≤◌, ◌^◌, ◌≡◌, refl, sym, ap, ◌∙◌, Text, pos, eqb_ℤ, List, [], ◌++◌, map, true, All,
}
use filestore_hsz.Util.{Shell}
use filestore_hsz.Dbproxy.Json.{Json}
use filestore_hsz.Dbproxy.Client.{Stub}
use filestore_hsz.Upload.Services.{Files, Redis, Publish, TransferJson}
use filestore_hsz.Upload.Multipart.Keys.{Fields, chunk_count, chunks_exist}
use filestore_hsz.Upload.Multipart.Keys.Count.{eqb_ℤ_iff}
use filestore_hsz.Upload.Multipart.Keys.Session.{with_parts, session_fields, distinct, few_chunks}
use filestore_hsz.Upload.Multipart.Complete.{CompleteForm, complete_upload_handler, merge}
use filestore_hsz.Upload.Multipart.Flow.Hash.{RedisLaws, SameFields}
use filestore_hsz.Upload.Multipart.Flow.Start.{IsSession}
use filestore_hsz.Upload.Multipart.Flow.Steps.{Uploads, complete_after_uploads}
use filestore_hsz.Mpupload.Choose.{rounds, chunks_to_upload}
use filestore_hsz.Mpupload.Resume.{decimal, mem, IsIndex}
use filestore_hsz.Mpupload.Resume.Covered.{distinct-resumed}

count_fits : (size count : ℕ) → size < 2 ^ 63 → chunk_count (pos size) ≡ pos count → count < 2 ^ 63
unfolding chunk_count rounds
count_fits size count fits e = rw (← (ap rounds e)) (few_chunks size fits)

-- A client resumes an upload of which a session has recorded some parts: told of them by any listing of
-- the session's hash, it chooses its chunks with a limit not below the chunk count, and every chosen
-- index is among the parts that are then answered with `ok`, in any order, some perhaps again. The
-- completion then goes on to merge the chunks. The session was begun for a file of an int64 number of
-- bytes, every index is one of the file, the redis is the documented one, and files and the shell leave
-- its hashes.
pub resumed_upload_completes :
    {W : Type 0} (files : Files W) (redis : Redis W) (output : Shell W) (path_dir : Text → Text)
    (laws : RedisLaws redis)
    (mkdir_keeps : (p : Text) (w : W) → laws.hashes (files.mkdir_all p w).1 ≡ laws.hashes w)
    (create_keeps : (p : Text) (w : W) → laws.hashes (files.create p w).1 ≡ laws.hashes w)
    (write_keeps : (p b : Text) (w : W) → laws.hashes (files.write p b w).1 ≡ laws.hashes w)
    (shell_keeps : (c : Text) (w : W) → laws.hashes (output c w).1 ≡ laws.hashes w) (j : Json)
    (stub : Stub j W) (shell : Shell W) (publish : Publish W) (transfer : TransferJson)
    (form : CompleteForm) (filehash : Text) (size count limit : ℕ) (recorded sent : List ℕ)
    (fields : Fields) (w v : W)
    → size < 2 ^ 63
    → chunk_count (pos size) ≡ pos count
    → 1 ≤ limit
    → count ≤ limit
    → All (IsIndex count) recorded
    → All (IsIndex count) sent
    → SameFields fields (with_parts (map decimal recorded) (session_fields size filehash))
    → ((k : ℕ)
        → mem k (chunks_to_upload (chunks_exist fields) (pos limit) (pos count)) ≡ true
        → mem k sent ≡ true)
    → IsSession laws form.upload_id size filehash [] w
    → Uploads files redis output path_dir laws form.upload_id w (map decimal (sent ++ recorded)) v
    → complete_upload_handler j stub redis shell publish transfer form v
      ≡ merge j stub redis shell publish transfer form v
resumed_upload_completes files redis output path_dir laws mk ck wk sk j stub shell publish transfer
      form filehash size count limit recorded sent fields w v fits counted positive enough known
      valid listed answered session uploads =
    let all : eqb_ℤ (chunk_count (pos size)) (pos (distinct (map decimal (sent ++ recorded))))
        ≡ true =
      (eqb_ℤ_iff _ _).1 (
        counted
        ∙ ap pos (
            sym (
              distinct-resumed size count limit filehash recorded sent fields
                (count_fits size count fits counted) positive enough known valid listed
                answered))) in
    complete_after_uploads files redis output path_dir laws mk ck wk sk j stub shell publish
      transfer form filehash size (map decimal (sent ++ recorded)) w v fits session uploads
    ∙ rw all refl
