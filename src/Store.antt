-- ===== src/Store.antt =====
-- store/oss/oss_conn.go: the client, the bucket and the signed addresses of OSS, over its SDK, which is a
-- parameter, and so are the four constants of config/oss.go.
pub mod Ceph
use filestore_hsz.Prelude.{ℕ, ◌≡◌, refl, Text, bytes, List, [], ◌∷◌, Option, none, some, Bool, true}
use filestore_hsz.Go.{Result, ok, err, ret, panic, Go, pure, call, deref, ◌>>=◌}

-- `oss.New`, `client.Bucket` and `bucket.SignURL` of a GET, with its seconds.
pub record OssSdk (W : Type 0) : Type 1 where
  pub Client : Type 0
  pub Bucket : Type 0
  pub new : (endpoint key_id secret : Text) → W → Result Client × W
  pub bucket : Client → Text → W → Result Bucket × W
  pub sign_url : Bucket → Text → ℕ → W → Result Text × W
  -- `oss.BuildLifecycleRuleByDays` and `client.SetBucketLifecycle`, whose error is dropped.
  pub LifecycleRule : Type 0
  pub build_lifecycle_rule_by_days : (id prefix : Text) → Bool → ℕ → LifecycleRule
  pub set_bucket_lifecycle : Client → Text → List LifecycleRule → W → Option Text × W

pub record OssConfig : Type 0 where
  pub endpoint : Text
  pub access_key_id : Text
  pub access_secret : Text
  pub bucket_name : Text

or_nil : {A : Type 0} → Result A → Option A
or_nil (ok a) = some a
or_nil (err e) = none

or_empty : Result Text → Text
or_empty (ok url) = url
or_empty (err e) = []

module _ {W : Type 0} (sdk : OssSdk W) (config : OssConfig) where
  -- The variable of the package, `oss_cli`, is never written: `:=` declares another of the same name.
  unfoldable pub client : Option sdk.Client → Go W (Option sdk.Client)
  unfolding or_nil
  client (some oss_cli) = pure (some oss_cli)
  client none = do
    r ← call (sdk.new config.endpoint config.access_key_id config.access_secret)
    pure (or_nil r)

  unfoldable pub bucket : Option sdk.Client → Go W (Option sdk.Bucket)
  unfolding or_nil
  bucket oss_cli = do
    cli ← client oss_cli
    elim cli [
      | none ↦ pure none
      | some c ↦ do r ← call (sdk.bucket c config.bucket_name); pure (or_nil r)
    ]

  -- `Bucket().SignURL` of a nil bucket panics.
  unfoldable pub download_url : Option sdk.Client → Text → Go W Text
  unfolding or_empty
  download_url oss_cli obj_name = do
    b ← bucket oss_cli
    there ← deref b
    r ← call (sdk.sign_url there obj_name 3600)
    pure (or_empty r)

  -- The objects under test/ expire after thirty days. A method of a nil client panics.
  unfoldable pub build_lifecycle_rule : Option sdk.Client → Text → Go W (Unit {0})
  build_lifecycle_rule oss_cli bucket_name = do
    cli ← client oss_cli
    there ← deref cli
    let rule = sdk.build_lifecycle_rule_by_days (bytes "rule1") (bytes "test/") true 30
    e ← call (sdk.set_bucket_lifecycle there bucket_name (rule ∷ []))
    pure tt

  -- Where OSS has no client or no bucket to give, a signed address is a panic.
  pub download_url_panics :
      (oss_cli : Option sdk.Client) (obj_name : Text) (w w' : W)
      → bucket oss_cli w ≡ (ret none, w')
      → download_url oss_cli obj_name w ≡ (panic, w')
  unfolding download_url
  download_url_panics oss_cli obj_name w w' nothing = rw nothing refl
