-- ===== src/Dbproxy/Mysql/Rows.antt =====
-- The tables of doc/table.sql, what a statement of service/dbproxy/orm does to them, and the rows that
-- it answers with.
use filestore_hsz.Prelude.{
  Text, bytes, text_eq, ℤ, pos, eqb_ℤ, List, [], ◌∷◌, Option, none, some, Bool, ◌&&◌, if◌then◌else◌,
}
use filestore_hsz.Dbproxy.Sql.{Value}

pub record FileRow : Type 0 where
  pub hash : Text
  pub name : Text
  pub size : ℤ
  pub addr : Text
  pub status : ℤ

pub record UserFileRow : Type 0 where
  pub hash : Text
  pub name : Text
  pub size : ℤ
  pub status : ℤ

-- A row by its unique key: the password of a user, the token of a user, a file by its hash, and a file
-- of a user.
pub record Tables : Type 0 where
  pub users : Text → Option Text
  pub tokens : Text → Option Text
  pub files : Text → Option FileRow
  pub user_files : Text → Text → Option UserFileRow

-- Keys are compared by the collation `same`.
module _ (same : Text → Text → Bool) where
  abbrev pub set_at {ℓ} : {V : Type ℓ} → Text → V → (Text → V) → Text → V
  set_at k v f i = if same k i then v else f i

  -- `insert ignore`: a row whose key is taken is not written.
  abbrev pub add_at : {V : Type 0} → Text → V → (Text → Option V) → Text → Option V
  add_at k v f = elim (f k) [ none ↦ set_at k (some v) f | some old ↦ f ]

  abbrev pub add_user : Text → Text → Tables → Tables
  add_user u p t = record t { users = add_at u p t.users }

  abbrev pub set_token : Text → Text → Tables → Tables
  set_token u tok t = record t { tokens = set_at u (some tok) t.tokens }

  abbrev pub add_file : Text → FileRow → Tables → Tables
  add_file h r t = record t { files = add_at h r t.files }

  abbrev pub set_user_file : Text → Text → Option UserFileRow → Tables → Tables
  set_user_file u h r t = record t {
    user_files = set_at u (set_at h r (t.user_files u)) t.user_files;
  }

  abbrev pub add_user_file : Text → Text → UserFileRow → Tables → Tables
  add_user_file u h r t = elim (t.user_files u h) [
    | none ↦ set_user_file u h (some r) t
    | some old ↦ t
  ]

  -- `set status=? where … and file_name=?`
  abbrev pub with_status : ℤ → Text → Option UserFileRow → Option UserFileRow
  with_status s n none = none
  with_status s n (some r) = some (if same r.name n then record r { status = s } else r)

  -- `set file_name=? where … and status=0 and file_name=?`
  abbrev pub with_name : Text → Text → Option UserFileRow → Option UserFileRow
  with_name new old none = none
  with_name new old (some r) =
      some (if eqb_ℤ r.status (pos 0) && same r.name old then record r { name = new } else r)

  abbrev pub with_addr : Text → Option FileRow → Option FileRow
  with_addr a none = none
  with_addr a (some r) = some (record r { addr = a })

-- The rows affected by an insert, and by an update, which counts a row only if it changes.
abbrev pub added : {V : Type 0} → Option V → ℤ
added none = pos 1
added (some old) = pos 0

abbrev pub moved : Text → Option FileRow → ℤ
moved a none = pos 0
moved a (some r) = if text_eq r.addr a then pos 0 else pos 1

-- The columns of tbl_user behind the password.
abbrev pub other_columns : List Text
other_columns =
    bytes "email"
    ∷ bytes "phone"
    ∷ bytes "email_validated"
    ∷ bytes "phone_validated"
    ∷ bytes "signup_at"
    ∷ bytes "last_active"
    ∷ bytes "profile"
    ∷ bytes "status"
    ∷ []

abbrev pub user_columns : List Text
user_columns = bytes "id" ∷ bytes "user_name" ∷ bytes "user_pwd" ∷ other_columns

abbrev pub file_rows : Option FileRow → List (List Value)
file_rows none = []
file_rows (some r) =
    if eqb_ℤ r.status (pos 0)
    then (Value.text r.hash ∷ Value.text r.addr ∷ Value.text r.name ∷ Value.int r.size ∷ []) ∷ []
    else []

abbrev pub token_rows : Option Text → List (List Value)
token_rows none = []
token_rows (some t) = (Value.text t ∷ []) ∷ []

abbrev pub uploaded_rows : Option UserFileRow → List (List Value)
uploaded_rows none = []
uploaded_rows (some r) = if eqb_ℤ r.status (pos 0) then (Value.int (pos 1) ∷ []) ∷ [] else []

abbrev pub exists_rows : Option Text → List (List Value)
exists_rows none = []
exists_rows (some p) = (Value.int (pos 1) ∷ []) ∷ []

-- The row of a file of a user, with the times of its upload and of its last update.
abbrev pub user_file_rows : Text → Text → Option UserFileRow → List (List Value)
user_file_rows uploaded updated none = []
user_file_rows uploaded updated (some r) =
    if eqb_ℤ r.status (pos 0)
    then (Value.text r.hash
        ∷ Value.text r.name
        ∷ Value.int r.size
        ∷ Value.text uploaded
        ∷ Value.text updated
        ∷ [])
      ∷ []
    else []
