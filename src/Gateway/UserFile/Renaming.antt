-- ===== src/Gateway/UserFile/Renaming.antt =====
-- service/apiwg/handler/user_file.go over service/account/handler/user_file.go: what a user is shown of
-- an operation on a file.
use filestore_hsz.Prelude.{
  ◌≤◌, ◌≡◌, ap, Text, bytes, text_eq_refl, length, pos, [], ◌∷◌, none, some, le→not-ltb,
  if◌then◌else◌, arith,
}
use filestore_hsz.Go.{ok, err, ret}
use filestore_hsz.Http.{Response, raw}
use filestore_hsz.Dbproxy.Json.{Json, Reply}
use filestore_hsz.Dbproxy.Client
use filestore_hsz.Dbproxy.Client.{Stub, WithError}
use filestore_hsz.Account.UserFile.{with_reply, user_file_rename, user_file_delete}
use filestore_hsz.Gateway.User.{UserService}
use filestore_hsz.Gateway.UserFile.{shown, file_meta_update_handler, file_delete_handler}

-- The bytes of a reply: nothing where the database refused, or the rows as JSON.
abbrev pub rows_of : (j : Json) → Reply j.Wire → Text
rows_of j reply =
    if reply.suc
    then elim (j.marshal_user_files (j.to_table_user_files reply.payload)) [
      | ok json ↦ json
      | err e ↦ []
    ]
    else []

-- The bytes shown: the default stands for nothing.
abbrev pub or_text : Text → Text → Text
or_text default_text [] = default_text
or_text default_text (b ∷ t) = b ∷ t

module _ {W : Type 0} (j : Json) (stub : Stub j W) (user_cli : UserService W) where
  shown-with_reply :
      (default_text : Text) (reply : Reply j.Wire)
      → shown default_text (ok (with_reply j stub reply))
        ≡ raw 200 (bytes "application/json") (or_text default_text (rows_of j reply))
  unfolding shown with_reply
  shown-with_reply default_text reply = ground arith

  -- A renaming that reaches the database is shown as the rows of its reply, and where the database
  -- refuses it, or there are no bytes to show, as the text for a success.
  pub file_meta_update_handler_lem :
      (u h new old : Text) (w w' : W) (reply : Reply j.Wire)
      → 1 ≤ length new
      → user_cli.user_file_rename u h new old w ≡ user_file_rename j stub u h new old w
      → Client.rename_file_name j stub u h new old w
        ≡ (ret (record { value = some reply; error = none }), w')
      → file_meta_update_handler user_cli (bytes "0") h new u old w ≡ (
        ret (raw 200 (bytes "application/json") (or_text (bytes "[修改文件名成功]") (rows_of j reply))),
        w',
      )
  unfolding file_meta_update_handler user_file_rename
  file_meta_update_handler_lem u h new old w w' reply long reaches answered =
      rw (text_eq_refl (bytes "0"), le→not-ltb (length new) 1 long, reaches, answered)
        (ap (λ (r : Response (Unit {0})). (ret r, w')) (shown-with_reply (bytes "[修改文件名成功]") reply))

  -- A removal that reaches the database is shown with status 200 whether the database did it or not.
  pub file_delete_handler_lem :
      (u h n : Text) (w w' : W) (reply : Reply j.Wire)
      → user_cli.user_file_delete u h n (pos 1) w ≡ user_file_delete j stub u h n (pos 1) w
      → Client.delete_user_file j stub (pos 1) u h n w
        ≡ (ret (record { value = some reply; error = none }), w')
      → file_delete_handler user_cli h u n w
        ≡ (ret (raw 200 (bytes "application/json") (or_text (bytes "[]") (rows_of j reply))), w')
  unfolding file_delete_handler user_file_delete
  file_delete_handler_lem u h n w w' reply reaches answered =
      rw (reaches, answered)
        (ap (λ (r : Response (Unit {0})). (ret r, w')) (shown-with_reply (bytes "[]") reply))
