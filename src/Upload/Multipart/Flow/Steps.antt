-- ===== src/Upload/Multipart/Flow/Steps.antt =====
-- service/upload/api/mpupload.go: the parts of a session as a step relation, and the completion.
use filestore_hsz.Prelude.{
  ℕ, ◌<◌, ◌^◌, ◌≡◌, refl, ap, sym, ◌∙◌, Text, bytes, text_eq_refl, pos, neg, eqb_ℤ, List, [], ◌∷◌,
  ◌++◌, none, if◌then◌else◌, Bool-cases, inl, inr,
}
use filestore_hsz.Go.{Exit, ret}
use filestore_hsz.Util.{Shell}
use filestore_hsz.Http.{Response, json}
use filestore_hsz.Dbproxy.Json.{Json}
use filestore_hsz.Dbproxy.Client.{Stub}
use filestore_hsz.Upload.Services.{Files, Redis, Publish, TransferJson}
use filestore_hsz.Upload.Multipart.Keys.{chunk_key_prefix, chunk_count, is_complete}
use filestore_hsz.Upload.Multipart.Keys.Session.{distinct}
use filestore_hsz.Upload.Multipart.Part.{upload_part_handler}
use filestore_hsz.Upload.Multipart.Part.Recorded.{is_recorded, upload_part_handler-Tells}
use filestore_hsz.Upload.Multipart.Complete.{CompleteForm, complete_upload_handler, merge}
use filestore_hsz.Upload.Multipart.Flow.Hash.{RedisLaws, is_complete-listed}
use filestore_hsz.Upload.Multipart.Flow.Start.{IsSession}

module _ {W : Type 0} (files : Files W) (redis : Redis W) (output : Shell W)
    (path_dir : Text → Text) (laws : RedisLaws redis) where
  -- A client sends parts, in any order, some perhaps again: the indices of those that are answered with
  -- `ok`, the last one first.
  pub data Uploads (upload_id : Text) (w : W) : List Text → W → Type 0 where
    here : Uploads upload_id w [] w
    sent :
        {is is' : List Text} {v v' : W}
        → Uploads upload_id w is v
        → (chunk_sha1 i : Text) (reads : List Text) (a : Response (Unit {0}))
        → upload_part_handler files redis output path_dir upload_id chunk_sha1 i reads v
          ≡ (ret a, v')
        → is' ≡ (if is_recorded a then i ∷ is else is)
        → Uploads upload_id w is' v'

  module _ (mkdir_keeps : (p : Text) (w : W) → laws.hashes (files.mkdir_all p w).1 ≡ laws.hashes w)
      (create_keeps : (p : Text) (w : W) → laws.hashes (files.create p w).1 ≡ laws.hashes w)
      (write_keeps : (p b : Text) (w : W) → laws.hashes (files.write p b w).1 ≡ laws.hashes w)
      (shell_keeps : (c : Text) (w : W) → laws.hashes (output c w).1 ≡ laws.hashes w) where
    sent-IsSession :
        (upload_id filehash chunk_sha1 i : Text) (size : ℕ) (reads is : List Text)
        (a : Response (Unit {0})) (v v' : W)
        → IsSession laws upload_id size filehash is v
        → upload_part_handler files redis output path_dir upload_id chunk_sha1 i reads v
          ≡ (ret a, v')
        → IsSession laws upload_id size filehash (if is_recorded a then i ∷ is else is) v'
    sent-IsSession upload_id filehash chunk_sha1 i size reads is a v v' session run =
        let (b, w', run', told) =
          upload_part_handler-Tells files redis output path_dir laws mkdir_keeps create_keeps
            write_keeps shell_keeps upload_id chunk_sha1 i reads v in
        let same_world : v' ≡ w' =
          ap (λ (x : Exit (Response (Unit {0})) × W). x.1) (sym run ∙ run') in
        let same_answer : a ≡ b = cc (run, run') in
        rw (same_world, same_answer, told)
          (elim (Bool-cases (is_recorded b)) [
            | inl good ↦ rw (good, text_eq_refl (chunk_key_prefix ++ upload_id), session) refl
            | inr bad ↦ rw (bad, session) refl
          ])

    -- Whatever parts are sent to a session, its hash holds exactly the parts that were answered with
    -- `ok`. The redis is the documented one, and files and the shell leave its hashes.
    pub Uploads-IsSession :
        {upload_id : Text} (filehash : Text) (size : ℕ) {w : W} {is : List Text} {v : W}
        → IsSession laws upload_id size filehash [] w
        → Uploads upload_id w is v
        → IsSession laws upload_id size filehash is v
    Uploads-IsSession filehash size session here = session
    Uploads-IsSession {upload_id} filehash size session
          (sent {is} {is'} {v} {v'} before chunk_sha1 i reads a run e) =
        rw e (
          sent-IsSession upload_id filehash chunk_sha1 i size reads is a v v'
            (Uploads-IsSession filehash size session before) run)

    -- After any parts have been sent to a session that was begun for a file of an int64 number of bytes,
    -- the completion goes on to merge the chunks exactly if as many different indices were answered with
    -- `ok` as the file has chunks, and is refused otherwise, in whichever order redis lists the hash. The
    -- redis is the documented one, and files and the shell leave its hashes.
    pub complete_after_uploads :
        (j : Json) (stub : Stub j W) (shell : Shell W) (publish : Publish W)
        (transfer : TransferJson) (form : CompleteForm) (filehash : Text) (size : ℕ)
        (is : List Text) (w v : W)
        → size < 2 ^ 63
        → IsSession laws form.upload_id size filehash [] w
        → Uploads form.upload_id w is v
        → complete_upload_handler j stub redis shell publish transfer form v ≡ (
            if eqb_ℤ (chunk_count (pos size)) (pos (distinct is))
            then merge j stub redis shell publish transfer form v
            else (ret (json 200 (neg 2) (bytes "分块不完整") none), v))
    unfolding complete_upload_handler
    complete_after_uploads j stub shell publish transfer form filehash size is w v fits session
          uploads =
        let (fields, reads, listed) = laws.hgetall_lists (chunk_key_prefix ++ form.upload_id) v in
        let now_ = Uploads-IsSession filehash size session uploads in
        let verdict : is_complete fields ≡ eqb_ℤ (chunk_count (pos size)) (pos (distinct is)) =
          is_complete-listed size filehash is fields fits (rw (← now_) listed) in
        rw (reads, verdict)
          (elim (Bool-cases (eqb_ℤ (chunk_count (pos size)) (pos (distinct is)))) [
            | inl all ↦ rw all refl
            | inr few ↦ rw few refl
          ])
