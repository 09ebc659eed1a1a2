-- ===== src/Transfer/Storage.antt =====
-- The bucket that service/transfer fills and service/download reads: what the OSS client is documented to
-- do, as hypotheses over `Stores`.
use filestore_hsz.Prelude.{◌≡◌, Text, Option, none, some}
use filestore_hsz.Go.{ok, ret}
use filestore_hsz.Upload.Services.{Stores}

pub record BucketLaws {W : Type 0} (stores : Stores W) : Type 0 where
  -- the objects by name
  pub objects : W → Text → Option Text
  -- an object that is put is got back until another takes its name
  pub puts :
      (p b : Text) (w w' : W) → stores.put_oss p (ok b) w ≡ (ret none, w') → objects w' p ≡ some b
  pub gets : (p b : Text) (w : W) → objects w p ≡ some b → stores.get_oss p w ≡ (ret (ok b), w)
