-- ===== src/Store/Ceph.antt =====
-- store/ceph/conn.go: the connection, a bucket and the storing of an object, over the SDK for S3, which is a
-- parameter, and so are the three constants of config/ceph.go.
use filestore_hsz.Prelude.{Text, bytes, [], Option, none, some, Bool, false}
use filestore_hsz.Go.{Go, call}

-- `aws.Auth`
pub record Auth : Type 0 where
  pub access_key : Text
  pub secret_key : Text

-- `aws.Region`, less its signature, which is `aws.SignV2`.
pub record Region : Type 0 where
  pub name : Text
  pub ec2_endpoint : Text
  pub s3_endpoint : Text
  pub s3_bucket_endpoint : Text
  pub s3_location_constraint : Bool
  pub s3_lowercase_bucket : Bool

-- `s3.New`, which makes no request, `conn.Bucket`, and `bucket.Put` with `s3.PublicRead`.
pub record S3Sdk (W : Type 0) : Type 1 where
  pub S3 : Type 0
  pub Bucket : Type 0
  pub new : Auth → Region → S3
  pub bucket : S3 → Text → Bucket
  pub put : Bucket → (path content content_type : Text) → W → Option Text × W

pub record CephConfig : Type 0 where
  pub access_key : Text
  pub secret_key : Text
  pub gw_endpoint : Text

module _ {W : Type 0} (sdk : S3Sdk W) (config : CephConfig) where
  auth : Auth
  auth = record { access_key = config.access_key; secret_key = config.secret_key }

  cur_region : Region
  cur_region = record {
    name = bytes "default";
    ec2_endpoint = config.gw_endpoint;
    s3_endpoint = config.gw_endpoint;
    s3_bucket_endpoint = [];
    s3_location_constraint = false;
    s3_lowercase_bucket = false;
  }

  -- `cephConn` is the variable of the package, which is never assigned.
  unfoldable pub get_ceph_connection : Option sdk.S3 → sdk.S3
  unfolding auth cur_region
  get_ceph_connection (some ceph_conn) = ceph_conn
  get_ceph_connection none = sdk.new auth cur_region

  unfoldable pub get_ceph_bucket : Option sdk.S3 → Text → sdk.Bucket
  get_ceph_bucket ceph_conn name = sdk.bucket (get_ceph_connection ceph_conn) name

  unfoldable pub put_object : Option sdk.S3 → (bucket path content : Text) → Go W (Option Text)
  put_object ceph_conn name path content =
      call (sdk.put (get_ceph_bucket ceph_conn name) path content (bytes "octet-stream"))
