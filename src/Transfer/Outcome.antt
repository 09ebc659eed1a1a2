-- ===== src/Transfer/Outcome.antt =====
-- service/transfer/main.go over the documented server: when a transfer succeeds.
use filestore_hsz.Prelude.{
  ◌≡◌, refl, ap, Text, text_eq, [], ◌∷◌, Option, none, some, Bool, true, false, not, arith,
}
use filestore_hsz.Go.{ok, ret}
use filestore_hsz.Dbproxy.Sql.{Sql, Clock}
use filestore_hsz.Dbproxy.Mysql.{Fits, is_utf8mb3, MySql, FileRow}
use filestore_hsz.Dbproxy.Orm.File.Catalog.{update_file_location_lem, relocation_answer}
use filestore_hsz.Dbproxy.Mapper.{text, Function, key_of, num_in, invoke}
use filestore_hsz.Dbproxy.Json.{Json, JsonLaws}
use filestore_hsz.Dbproxy.Client
use filestore_hsz.Dbproxy.Client.Delivery.{direct, request-key_of}
use filestore_hsz.Upload.Services.{Files, Stores, TransferJson}
use filestore_hsz.Mq.{TransferData}
use filestore_hsz.Transfer.{process_transfer}

-- Whether a row is there with another address.
abbrev pub moves : Text → Option FileRow → Bool
moves a none = false
moves a (some r) = not (text_eq r.addr a)

pub moves_lem : (a : Text) (o : Option FileRow) → (relocation_answer a o).suc ≡ moves a o
moves_lem a none = refl
moves_lem a (some r) = ground arith

module _ {W : Type 0} (sql : Sql W) (my : MySql sql) (clock : Clock W) (j : Json)
    (laws : JsonLaws j) (files : Files W) (stores : Stores W) (transfer : TransferJson) where
  -- A transfer whose message decodes, whose file opens and is read, and whose object is put,
  -- succeeds exactly if the file has a row and the row's address is not yet the destination. The
  -- texts are UTF-8, those of the database have characters of at most three bytes, the destination fits its column, the server is the documented one and the
  -- connection to it delivers.
  pub process_transfer_lem :
      (msg content : Text) (t : TransferData) (w w₁ w₂ w₃ : W)
      → transfer.unmarshal msg ≡ ok t
      → files.open_file t.cur_location w ≡ (none, w₁)
      → files.read_all t.cur_location w₁ ≡ (ok content, w₂)
      → stores.put_oss t.dest_location (ok content) w₂ ≡ (ret none, w₃)
      → Fits t.dest_location 1024
      → is_utf8mb3 t.file_hash ≡ true
      → j.is_utf8 t.file_hash ≡ true
      → j.is_utf8 t.dest_location ≡ true
      → (process_transfer j (direct sql clock j laws) files stores transfer msg w).0
        ≡ ret (moves t.dest_location ((my.view w₃).files t.file_hash))
  unfolding process_transfer Client.update_file_location num_in key_of invoke
  process_transfer_lem msg content t w w₁ w₂ w₃ decoded opens reads puts fits text_ ph pd =
      let (w', run, again) =
        update_file_location_lem sql my t.file_hash t.dest_location w₃ fits text_ in
      rw
        (
          decoded,
          opens,
          reads,
          puts,
          request-key_of sql clock j laws Function.file_location
              (text t.file_hash ∷ text t.dest_location ∷ []) w₃ (ph, (pd, tt)) refl,
          run,
        )
        (ap (λ (b : Bool). ret b) (moves_lem t.dest_location ((my.view w₃).files t.file_hash)))
