-- ===== src/Upload/Services.antt =====
-- What the upload handlers call besides the database: files, the stores, the queue, redis and the
-- shell. All of it is outside the program, and a parameter.
use filestore_hsz.Prelude.{ℕ, Text, ℤ, List, Option, Bool}
use filestore_hsz.Go.{Result, Go}
use filestore_hsz.Mq.{TransferData}

-- `os`: the errors are those of the calls.
pub record Files (W : Type 0) : Type 0 where
  -- `os.MkdirAll`, whose error is not looked at
  pub mkdir_all : Text → W → Unit {0} × W
  -- `os.Create`, which truncates the file
  pub create : Text → W → Option Text × W
  -- `fd.Write` at the end of the file: the bytes written, and the error
  pub write : Text → Text → W → (ℕ × Option Text) × W
  -- `os.Open` and `os.OpenFile`
  pub open_file : Text → W → Option Text × W
  -- reading a file whole
  pub read_all : Text → W → Result Text × W

-- The object stores: `PutObject` by path, and the objects read back. Each call of OSS is one of the bucket
-- that `Bucket()` gives, and panics where that is nil. `PutObject` is given what reading gives.
pub record Stores (W : Type 0) : Type 0 where
  pub put_ceph : Text → Text → W → Option Text × W
  pub get_ceph : Text → W → Result Text × W
  pub put_oss : Text → Result Text → Go W (Option Text)
  pub get_oss : Text → Go W (Result Text)
  pub oss_url : Text → Go W Text

-- redis: EXISTS, GET, HGETALL as its pairs, HSET, EXPIRE, SET … EX and DEL.
pub record Redis (W : Type 0) : Type 0 where
  pub exists : Text → W → Result Bool × W
  pub get : Text → W → Result Text × W
  pub hgetall : Text → W → Result (List (Text × Text)) × W
  pub hset : Text → Text → Text → W → Unit {0} × W
  pub expire : Text → ℕ → W → Unit {0} × W
  pub set_ex : Text → Text → ℕ → W → Unit {0} × W
  pub del : Text → W → Result ℤ × W

-- `mq.Publish` of a transfer, and its JSON.
abbrev pub Publish : Type 0 → Type 0
Publish W = Text → Text → Text → Go W Bool

pub record TransferJson : Type 0 where
  pub marshal : TransferData → Text
  pub unmarshal : Text → Result TransferData
