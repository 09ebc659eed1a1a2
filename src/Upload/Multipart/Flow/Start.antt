-- ===== src/Upload/Multipart/Flow/Start.antt =====
-- service/upload/api/mpupload.go, `InitialMultipartUploadHandler`: a session that is begun.
use filestore_hsz.Prelude.{
  ℕ, ◌≡◌, refl, ap, ◌∙◌, Text, bytes, text_eq, text_eq_refl, pos, List, [], ◌++◌, Option, some,
  false,
}
use filestore_hsz.Go.{ok, ret}
use filestore_hsz.Go.Strconv.{atoi, format_int, format_uint}
use filestore_hsz.Http.{json}
use filestore_hsz.Dbproxy.Sql.{Clock}
use filestore_hsz.Dbproxy.Json.{Json}
use filestore_hsz.Dbproxy.Client
use filestore_hsz.Dbproxy.Client.{Stub, WithError}
use filestore_hsz.Upload.Services.{Redis}
use filestore_hsz.Upload.Multipart.Keys.{
  Fields, chunk_key_prefix, hash_up_id_key_prefix, chunk_count,
}
use filestore_hsz.Upload.Multipart.Keys.Session.{hset_field, with_parts, session_fields}
use filestore_hsz.Upload.Multipart.Init.{
  upload_info, open_session, choose_session, initial_multipart_upload_handler,
}
use filestore_hsz.Upload.Multipart.Flow.Hash.{RedisLaws}

-- A session for a file, in which these parts have been recorded.
abbrev pub IsSession :
    {W : Type 0} {redis : Redis W} → RedisLaws redis → Text → ℕ → Text → List Text → W → Type 0
IsSession laws upload_id size filehash is w =
    laws.hashes w (chunk_key_prefix ++ upload_id) ≡ with_parts is (session_fields size filehash)

other_key :
    (filehash upload_id : Text)
    → text_eq (hash_up_id_key_prefix ++ filehash) (chunk_key_prefix ++ upload_id) ≡ false
unfolding text_eq bytes
other_key filehash upload_id = refl

module _ {W : Type 0} (redis : Redis W) (laws : RedisLaws redis) where
  hset_at :
      (k f v : Text) (w : W)
      → laws.hashes (redis.hset k f v w).1 k ≡ hset_field f v (laws.hashes w k)
  hset_at k f v w = rw (laws.hset_sets k f v w, text_eq_refl k) refl

  module _ (j : Json) (stub : Stub j W) (clock : Clock W) where
    open_session_lem :
        (filehash upload_id : Text) (size : ℕ) (w : W)
        → laws.hashes w (chunk_key_prefix ++ upload_id) ≡ []
        → (w' : W) × (open_session j stub clock redis filehash (pos size) upload_id [] w ≡ (
          ret (json 200 (pos 0) (bytes "ok") (some (upload_info filehash (pos size) upload_id []))),
          w',
        ))
          × IsSession laws upload_id size filehash [] w'
    unfolding open_session
    open_session_lem filehash upload_id size w free =
        let key = chunk_key_prefix ++ upload_id in
        let w₁ = (redis.hset key (bytes "chunkcount") (format_int (chunk_count (pos size))) w).1 in
        let w₂ = (redis.hset key (bytes "filehash") filehash w₁).1 in
        let w₃ = (redis.hset key (bytes "filesize") (format_int (pos size)) w₂).1 in
        let w₄ = (redis.expire key 43200 w₃).1 in
        (
          (redis.set_ex (hash_up_id_key_prefix ++ filehash) upload_id 43200 w₄).1,
          refl,
          laws.set_ex_keeps (hash_up_id_key_prefix ++ filehash) upload_id 43200 w₄ key
                (other_key filehash upload_id)
              ∙ ap (λ (h : Text → Fields). h key) (laws.expire_keeps key 43200 w₃)
              ∙ rw
                  (
                    hset_at key (bytes "filesize") (format_int (pos size)) w₂,
                    hset_at key (bytes "filehash") filehash w₁,
                    hset_at key (bytes "chunkcount") (format_int (chunk_count (pos size))) w,
                    free,
                  )
                  refl,
        )

    -- An upload with a size of zero or more, of a file that the user has not uploaded and for which redis
    -- has no session, is answered with a new id, the user's name and the time in hexadecimal, and opens
    -- a session under it with no part. The redis is the documented one, and has no hash under that id.
    pub initial_multipart_upload_handler_opens :
        (username filehash filesize : Text) (size now : ℕ) (e : Option Text) (w w₁ w₂ w₃ : W)
        → atoi filesize ≡ record { number = pos size; failed = false }
        → Client.is_user_file_uploaded j stub username filehash w
          ≡ (ret (record { value = false; error = e }), w₁)
        → redis.exists (hash_up_id_key_prefix ++ filehash) w₁ ≡ (ok false, w₂)
        → clock.now w₂ ≡ (now, w₃)
        → laws.hashes w₃ (chunk_key_prefix ++ (username ++ format_uint 16 now)) ≡ []
        → (w' : W) × (initial_multipart_upload_handler j stub clock redis username filehash filesize
              w
            ≡ (
              ret (
                  json 200
                    (pos 0)
                    (bytes "ok")
                    (some (upload_info filehash (pos size) (username ++ format_uint 16 now) []))),
              w',
            ))
          × IsSession laws (username ++ format_uint 16 now) size filehash [] w'
    unfolding initial_multipart_upload_handler choose_session
    initial_multipart_upload_handler_opens username filehash filesize size now e w w₁ w₂ w₃ number
          asks new_ time free =
        let (w', run, session) =
          open_session_lem filehash (username ++ format_uint 16 now) size w₃ free in
        (w', rw (number, asks, new_, text_eq_refl [], time) run, session)
