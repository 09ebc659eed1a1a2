-- ===== src/Upload/Disk.antt =====
-- The disk under service/upload and service/transfer: what `os` is documented to do, as hypotheses over
-- `Files`.
use filestore_hsz.Prelude.{◌≡◌, Text, length, [], ◌++◌, Option, none, some}
use filestore_hsz.Go.{ok}
use filestore_hsz.Upload.Services.{Files}

pub record DiskLaws {W : Type 0} (files : Files W) : Type 0 where
  -- the files by path
  pub contents : W → Text → Option Text
  -- `os.Create` truncates, and a write appends
  pub creates : (p : Text) (w w' : W) → files.create p w ≡ (none, w') → contents w' p ≡ some []
  pub writes :
      (p s b : Text) (w w' : W)
      → contents w p ≡ some s
      → files.write p b w ≡ ((length b, none), w')
      → contents w' p ≡ some (s ++ b)
  -- a file that is there can be opened and read whole
  pub opens : (p s : Text) (w : W) → contents w p ≡ some s → files.open_file p w ≡ (none, w)
  pub reads : (p s : Text) (w : W) → contents w p ≡ some s → files.read_all p w ≡ (ok s, w)
