-- ===== src/Transfer.antt =====
-- service/transfer/main.go, `ProcessTransfer`: a file is copied to OSS, and its row is pointed there.
pub mod Outcome
pub mod Start
pub mod Storage
pub mod Served
pub mod RoundTrip
use filestore_hsz.Prelude.{Text, Option, none, some, Bool, true, false}
use filestore_hsz.Go.{Result, ok, err, Go, pure, call, deref, ◌>>=◌}
use filestore_hsz.Mq.{TransferData}
use filestore_hsz.Dbproxy.Json.{Json, Reply}
use filestore_hsz.Dbproxy.Client
use filestore_hsz.Dbproxy.Client.{Stub}
use filestore_hsz.Account.User.{succeeded}
use filestore_hsz.Upload.Services.{Files, Stores, TransferJson}

module _ {W : Type 0} (j : Json) (stub : Stub j W) (files : Files W) (stores : Stores W)
    (transfer : TransferJson) where
  relocate : TransferData → Go W Bool
  relocate t = do
    resp ← Client.update_file_location j stub t.file_hash t.dest_location
    succeeded j resp

  copied : TransferData → Option Text → Go W Bool
  copied t (some e) = pure false
  copied t none = relocate t

  -- `PutObject` of the bucket, which is given what reading the file gives; a nil bucket panics.
  put : TransferData → Result Text → Go W Bool
  put t content = do e ← stores.put_oss t.dest_location content; copied t e

  opened : TransferData → Option Text → Go W Bool
  opened t (some e) = pure false
  opened t none = do content ← call (files.read_all t.cur_location); put t content

  transfer_file : Result TransferData → Go W Bool
  transfer_file (err e) = pure false
  transfer_file (ok t) = do e ← call (files.open_file t.cur_location); opened t e

  unfoldable pub process_transfer : Text → Go W Bool
  unfolding transfer_file opened put copied relocate succeeded
  process_transfer msg = transfer_file (transfer.unmarshal msg)
