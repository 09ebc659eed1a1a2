-- ===== src/Dbproxy/Orm/Spec/Invariant.antt =====
-- What no sequence of requests undoes: the tables agree with the collation of their
-- keys, and rows stay.
use filestore_hsz.Prelude.{
  ◌≡◌, refl, sym, ap, ◌∙◌, Text, Option, none, some, Bool, true, if◌then◌else◌, Bool-cases,
  Option-cases, inl, inr,
}
use filestore_hsz.Dbproxy.Mysql.{
  Tables, FileRow, UserFileRow, set_at, add_at, add_user_file, set_user_file,
}
use filestore_hsz.Dbproxy.Orm.Spec.Requests
use filestore_hsz.Dbproxy.Orm.Spec.Requests.{Request, IsFitting, effect_of, function_of, params_of}

-- A row that is there stays, and is related to what it was.
abbrev pub Kept : {R : Type 0} → (R → R → Type 0) → Option R → Option R → Type 0
Kept P none after = Unit
Kept P (some r) none = ⊥
Kept P (some r) (some s) = P r s

-- Nothing of a file changes but its address, and of a file of a user but its name and its status.
abbrev pub SameFile : FileRow → FileRow → Type 0
SameFile r s = (s.hash ≡ r.hash) × (s.name ≡ r.name) × (s.size ≡ r.size) × (s.status ≡ r.status)

abbrev pub SameSize : UserFileRow → UserFileRow → Type 0
SameSize r s = (s.hash ≡ r.hash) × (s.size ≡ r.size)

-- No user loses the password, and no file its row.
pub record Keeps (t s : Tables) : Type 0 where
  pub users : (u : Text) → Kept (λ (p q : Text). q ≡ p) (t.users u) (s.users u)
  pub files : (h : Text) → Kept SameFile (t.files h) (s.files h)
  pub user_files : (u h : Text) → Kept SameSize (t.user_files u h) (s.user_files u h)

module _ (same : Text → Text → Bool) where
  -- Keys that the collation takes for the same have the same rows.
  abbrev pub IsCollatedAt : {V : Type 0} → (Text → V) → Type 0
  IsCollatedAt f = (i k : Text) → same i k ≡ true → f i ≡ f k

  pub record IsCollated (t : Tables) : Type 0 where
    pub users : IsCollatedAt t.users
    pub tokens : IsCollatedAt t.tokens
    pub files : IsCollatedAt t.files
    pub user_files :
        (u v h i : Text) → same u v ≡ true → same h i ≡ true → t.user_files u h ≡ t.user_files v i

pub Kept-refl : {R : Type 0} (P : R → R → Type 0) → ((r : R) → P r r) → (o : Option R) → Kept P o o
Kept-refl P h none = tt
Kept-refl P h (some r) = h r

pub SameFile-refl : (r : FileRow) → SameFile r r
SameFile-refl r = (refl, refl, refl, refl)

module _ (same : Text → Text → Bool) (same_self : (t : Text) → same t t ≡ true)
    (same_sym : (s t : Text) → same s t ≡ true → same t s ≡ true)
    (same_trans : (r s t : Text) → same r s ≡ true → same s t ≡ true → same r t ≡ true) where
  same_left : (k i l : Text) → same i l ≡ true → same k i ≡ same k l
  same_left k i l h = elim (Bool-cases (same k i)) [
    | inl a ↦ a ∙ sym (same_trans k i l a h)
    | inr b ↦ elim (Bool-cases (same k l)) [
      | inl c ↦ cc (same_trans k l i c (same_sym i l h))
      | inr d ↦ b ∙ sym d
    ]
  ]

  set_at-IsCollatedAt :
      {V : Type 0} (k : Text) (v : V) (f : Text → V)
      → IsCollatedAt same f
      → IsCollatedAt same (set_at same k v f)
  set_at-IsCollatedAt k v f h i l e =
      rw (same_left k i l e) (ap (λ x. if same k l then v else x) (h i l e))

  add_at-IsCollatedAt :
      {V : Type 0} (k : Text) (v : V) (f : Text → Option V)
      → IsCollatedAt same f
      → IsCollatedAt same (add_at same k v f)
  add_at-IsCollatedAt k v f h = elim (Option-cases (f k)) [
    | inl free ↦ rw (add_at, free) (set_at-IsCollatedAt k (some v) f h)
    | inr (old, there) ↦ rw (add_at, there) h
  ]

  pub set_at-Kept :
      {V : Type 0} (P : V → V → Type 0) (refl_P : (v : V) → P v v) (k : Text) (v : Option V)
      (f : Text → Option V)
      → IsCollatedAt same f
      → Kept P (f k) v
      → (i : Text) → Kept P (f i) (set_at same k v f i)
  set_at-Kept P refl_P k v f h kept i = elim (Bool-cases (same k i)) [
    | inl here ↦ rw (here, ← (h k i here)) kept
    | inr elsewhere ↦ rw elsewhere (Kept-refl P refl_P (f i))
  ]

  pub add_at-Kept :
      {V : Type 0} (P : V → V → Type 0) (refl_P : (v : V) → P v v) (k : Text) (v : V)
      (f : Text → Option V)
      → IsCollatedAt same f
      → (i : Text) → Kept P (f i) (add_at same k v f i)
  add_at-Kept P refl_P k v f h i = elim (Option-cases (f k)) [
    | inl free ↦ rw (add_at, free) (set_at-Kept P refl_P k (some v) f h (rw free tt) i)
    | inr (old, there) ↦ rw (add_at, there) (Kept-refl P refl_P (f i))
  ]

  set_user_file-IsCollated :
      (u h : Text) (r : Option UserFileRow) (t : Tables)
      → IsCollated same t
      → IsCollated same (set_user_file same u h r t)
  set_user_file-IsCollated u h r t c = record {
    users = c.users;
    tokens = c.tokens;
    files = c.files;
    user_files = λ v v' i i' e e'. rw (same_left u v v' e) (elim (Bool-cases (same u v')) [
      | inl here ↦ rw here (
          set_at-IsCollatedAt h r (t.user_files u) (λ k l. c.user_files u u k l (same_self u)) i i'
            e')
      | inr elsewhere ↦ rw elsewhere (c.user_files v v' i i' e e')
    ]);
  }

  pub set_user_file-Kept :
      (u h : Text) (r : Option UserFileRow) (t : Tables)
      → IsCollated same t
      → Kept SameSize (t.user_files u h) r
      → (v i : Text)
      → Kept SameSize (t.user_files v i) ((set_user_file same u h r t).user_files v i)
  set_user_file-Kept u h r t c kept v i = elim (Bool-cases (same u v)) [
    | inl here ↦
        rw (here, ← (c.user_files u v i i here (same_self i)))
          (set_at-Kept SameSize (λ r. (refl, refl)) h r (t.user_files u)
            (λ k l. c.user_files u u k l (same_self u)) kept i)
    | inr elsewhere ↦ rw elsewhere (Kept-refl SameSize (λ r. (refl, refl)) (t.user_files v i))
  ]

  add_user_file-IsCollated :
      (u h : Text) (r : UserFileRow) (t : Tables)
      → IsCollated same t
      → IsCollated same (add_user_file same u h r t)
  add_user_file-IsCollated u h r t c = elim (Option-cases (t.user_files u h)) [
    | inl free ↦ rw (add_user_file, free) (set_user_file-IsCollated u h (some r) t c)
    | inr (old, there) ↦ rw (add_user_file, there) c
  ]

  pub effect-IsCollated :
      (r : Request) (t : Tables) → IsCollated same t → IsCollated same (effect_of same r t)
  effect-IsCollated (Requests.sign_up u p) t c = record {
    users = add_at-IsCollatedAt u p t.users c.users;
    tokens = c.tokens;
    files = c.files;
    user_files = c.user_files;
  }
  effect-IsCollated (Requests.store_token u k) t c = record {
    users = c.users;
    tokens = set_at-IsCollatedAt u (some k) t.tokens c.tokens;
    files = c.files;
    user_files = c.user_files;
  }
  effect-IsCollated (Requests.save_file h n s a) t c = record {
    users = c.users;
    tokens = c.tokens;
    files = add_at-IsCollatedAt h _ t.files c.files;
    user_files = c.user_files;
  }
  effect-IsCollated (Requests.move_file h a) t c = record {
    users = c.users;
    tokens = c.tokens;
    files = set_at-IsCollatedAt h _ t.files c.files;
    user_files = c.user_files;
  }
  effect-IsCollated (Requests.save_user_file u h n s) t c = add_user_file-IsCollated u h _ t c
  effect-IsCollated (Requests.change_status u h n s) t c = set_user_file-IsCollated u h _ t c
  effect-IsCollated (Requests.change_name u h n o) t c = set_user_file-IsCollated u h _ t c
  effect-IsCollated (Requests.sign_in u p) t c = c
  effect-IsCollated (Requests.read_token u) t c = c
  effect-IsCollated (Requests.ask_user u) t c = c
  effect-IsCollated (Requests.find_file h) t c = c
  effect-IsCollated (Requests.ask_uploaded u h) t c = c
