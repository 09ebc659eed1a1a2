-- ===== src/Upload/Simple/Kept.antt =====
-- service/upload/api/upload.go, `DoUploadHandler`: what its calls of the database keep of the rest of the
-- world.
use filestore_hsz.Prelude.{
  ℕ, ◌/◌, ◌^◌, ◌<◌, ◌≡◌, refl, Text, length, pos, neg, Bool, false, Option, none, some, true,
  ==_iff, lt→ltb,
}
use filestore_hsz.Go.{ok, ret, pure, deref, ◌>>=◌}
use filestore_hsz.Go.Frame.{Keeps, bind-Keeps}
use filestore_hsz.Common.{trans_exchange_name, trans_oss_routing_key}
use filestore_hsz.Util.{digest}
use filestore_hsz.Http.{Response}
use filestore_hsz.Dbproxy.Sql.{Sql, Clock}
use filestore_hsz.Dbproxy.Mapper.{int}
use filestore_hsz.Dbproxy.Json.{Json, JsonLaws, Reply, IsPlain}
use filestore_hsz.Dbproxy.Client
use filestore_hsz.Dbproxy.Client.{WithError, FileMeta}
use filestore_hsz.Dbproxy.Client.Delivery.{direct}
use filestore_hsz.Dbproxy.Client.Frame.{Apart, client_file-Keeps, client_user_file-Keeps}
use filestore_hsz.Account.User.{succeeded}
use filestore_hsz.Upload.Services.{Files, Stores, Publish, TransferJson}
use filestore_hsz.Upload.Simple.{
  upload_answer, save, save_user_file, upload_code, do_upload_handler,
}
use filestore_hsz.Upload.Simple.Saved.{local_path, handover}

module _ {W : Type 0} (j : Json) (I : W → Type 0) where
  if_no_error :
      (e : Option Text) (v : Option (Reply j.Wire))
      → Keeps {W = W} I (elim e [ some m ↦ pure false | none ↦ do reply ← deref v; pure reply.suc ])
  if_no_error (some m) v w h = h
  if_no_error none none w h = h
  if_no_error none (some reply) w h = h

  succeeded-Keeps : (r : WithError (Option (Reply j.Wire))) → Keeps {W = W} I (succeeded j r)
  unfolding succeeded
  succeeded-Keeps r = if_no_error r.error r.value

module _ {W : Type 0} (sql : Sql W) (clock : Clock W) (j : Json) (laws : JsonLaws j)
    (I : W → Type 0) (apart : Apart sql clock I) (files : Files W) (stores : Stores W)
    (publish : Publish W) (transfer : TransferJson) (sha1 : Text → Text)
    (format_time : ℕ → Text) where
  module _ (username : Text) (m : FileMeta) (pu : j.is_utf8 username ≡ true)
      (ph : j.is_utf8 m.file_sha1 ≡ true) (pn : j.is_utf8 m.file_name ≡ true)
      (pa : j.is_utf8 m.location ≡ true) (ps : IsPlain j (int m.file_size)) where
    save_user_file-Keeps : Keeps I (
        save_user_file j
          (direct sql clock j laws)
          clock
          files
          stores
          publish
          transfer
          sha1
          format_time
          username
          m)
    unfolding save_user_file
    save_user_file-Keeps =
        bind-Keeps I (Client.on_user_file_upload_finished j (direct sql clock j laws) username m) _
          (client_user_file-Keeps sql clock I apart j laws username m.file_sha1 m.file_name
            m.location m.upload_at m.file_size pu ph pn ps)
          (λ r. bind-Keeps I (succeeded j r) _ (succeeded-Keeps j I r) (λ b w h. h))

    if_saved :
        (e : Option Text)
        → Keeps I (elim e [
          | some x ↦ pure (neg 6)
          | none ↦
              save_user_file j
                (direct sql clock j laws)
                clock
                files
                stores
                publish
                transfer
                sha1
                format_time
                username
                m
        ])
    if_saved (some x) w h = h
    if_saved none w h = save_user_file-Keeps w h

    save-Keeps : Keeps I (
        save j
          (direct sql clock j laws)
          clock
          files
          stores
          publish
          transfer
          sha1
          format_time
          username
          m)
    unfolding save
    save-Keeps =
        bind-Keeps I (Client.on_file_upload_finished j (direct sql clock j laws) m) _
          (client_file-Keeps sql clock I apart j laws m.file_sha1 m.file_name m.location m.upload_at
            m.file_size ph pn pa ps)
          (λ r. if_saved r.error)

  -- What holds once the message of an upload is published holds when the upload is answered.
  pub do_upload_handler-Keeps :
      (username name content : Text) (b : Bool) (w w₁ w₂ w₃ : W)
      → files.create (local_path sha1 content) (clock.now w).1 ≡ (none, w₁)
      → files.write (local_path sha1 content) content w₁ ≡ ((length content, none), w₂)
      → publish trans_exchange_name trans_oss_routing_key
          (transfer.marshal (handover sha1 name content))
          w₂
        ≡ (ret b, w₃)
      → length content < 2 ^ 63
      → j.is_utf8 (digest sha1 content) ≡ true
      → j.is_utf8 (local_path sha1 content) ≡ true
      → j.is_utf8 name ≡ true
      → j.is_utf8 username ≡ true
      → I w₃
      → I
          (do_upload_handler j
            (direct sql clock j laws)
            clock
            files
            stores
            publish
            transfer
            sha1
            format_time
            (ok (record { filename = name; content = ok content }))
            username
            w).1
  unfolding do_upload_handler upload_code
  do_upload_handler-Keeps username name content b w w₁ w₂ w₃ creates writes publishes size ph pa pn
        pu h =
      rw (creates, writes, (==_iff (length content) (length content)).1 refl, publishes)
        (let m : FileMeta = record {
          file_sha1 = digest sha1 content;
          file_name = name;
          file_size = pos (length content);
          location = local_path sha1 content;
          upload_at = format_time ((clock.now w).0 / 10 ^ 9);
        } in
          bind-Keeps I {B = Response (Unit {0})}
            (save j (direct sql clock j laws) clock files stores publish transfer sha1 format_time
              username m)
            (λ code. pure (upload_answer code))
            (save-Keeps username m pu ph pn pa (refl, lt→ltb (length content) (2 ^ 63) size))
            (λ code v k. k) w₃ h)
