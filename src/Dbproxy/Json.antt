-- ===== src/Dbproxy/Json.antt =====
-- `encoding/json` and `mapstructure`, which carry parameters and results between the client and
-- the proxy. Both are parameters of the model, as the record `Json`; `JsonLaws` is what the
-- program relies on.
use filestore_hsz.Prelude.{
  Text, ℤ, pos, neg, ltb_ℤ, ◌^◌, List, [], ◌∷◌, map, Option, some, Bool, true, false, ◌≡◌, bytes,
}
use filestore_hsz.Go.{Result, ok}
use filestore_hsz.Go.Strconv.{format_int}
use filestore_hsz.Dbproxy.Define.{
  TableFile, TableUser, TableUserFile, ExecResult, Payload, nil, file, user_file, exists, token,
  zero_file,
}
use filestore_hsz.Dbproxy.Mapper.{Param, text, int, number, other}

-- What a client unmarshals: `Suc` and the generic value of `Data` (no client reads `Msg`).
pub record Reply (Wire : Type 0) : Type 0 where
  pub suc : Bool
  pub payload : Wire

pub record Json : Type 1 where
  -- the generic values that `Unmarshal` makes of an `interface{}`
  pub Wire : Type 0
  -- the bytes of marshalled parameters and of marshalled results, which the program only passes on
  pub Params : Type 0
  pub Data : Type 0
  -- `Data == nil` of a response: no bytes
  pub no_data : Data → Bool
  pub is_utf8 : Text → Bool
  pub marshal_params : List Param → Params
  -- `Decode` after `UseNumber`; `none` is an error
  pub decode_params : Params → Option (List Param)
  pub marshal_results : List ExecResult → Data
  -- `Unmarshal` into an empty list, its error ignored
  pub unmarshal_results : Data → List (Reply Wire)
  -- `Data == nil` of a result
  pub is_nil : Wire → Bool
  -- `mapstructure.Decode` into a zero struct or an empty list, its error ignored
  pub to_table_file : Wire → TableFile
  pub to_table_user : Wire → TableUser
  pub to_table_user_file : Wire → TableUserFile
  pub to_table_user_files : Wire → List TableUserFile
  -- `mapstructure.Decode` into a `map[string]string` and a `map[string]bool`
  pub to_texts : Wire → Result (List (Text × Text))
  pub to_bools : Wire → Result (List (Text × Bool))
  -- `Marshal` of the rows that a user is shown; `none` is an error
  pub marshal_user_files : List TableUserFile → Result Text

-- A value that a client sends: valid UTF-8, or an int64.
abbrev pub IsPlain : Json → Param → Type 0
IsPlain j (text t) = j.is_utf8 t ≡ true
IsPlain j (int i) = (ltb_ℤ i (neg (2 ^ 63)) ≡ false) × (ltb_ℤ i (pos (2 ^ 63)) ≡ true)
IsPlain j (number s) = ⊥
IsPlain j other = ⊥

abbrev pub ArePlain : Json → List Param → Type 0
ArePlain j [] = Unit
ArePlain j (p ∷ ps) = IsPlain j p × ArePlain j ps

-- How JSON writes an integer.
abbrev pub as_number : Param → Param
as_number (int i) = number (format_int i)
as_number p = p

-- A result on the way from the proxy to its client.
abbrev pub sent : (j : Json) → (Payload → j.Wire) → ExecResult → Reply j.Wire
sent j wire r = record { suc = r.suc; payload = wire r.payload }

-- A row that arrives whole: its texts are UTF-8, and its size is one that a float64 holds.
abbrev pub IsExact : ℤ → Type 0
IsExact i = (ltb_ℤ i (neg (2 ^ 53)) ≡ false) × (ltb_ℤ i (pos (2 ^ 53)) ≡ true)

pub record IsCarriedFile (j : Json) (f : TableFile) : Type 0 where
  pub hash : j.is_utf8 f.file_hash ≡ true
  pub name : j.is_utf8 f.file_name.string ≡ true
  pub address : j.is_utf8 f.file_addr.string ≡ true
  pub size : IsExact f.file_size.int64

pub record IsCarriedUserFile (j : Json) (f : TableUserFile) : Type 0 where
  pub user : j.is_utf8 f.user_name ≡ true
  pub hash : j.is_utf8 f.file_hash ≡ true
  pub name : j.is_utf8 f.file_name ≡ true
  pub uploaded : j.is_utf8 f.upload_at ≡ true
  pub updated : j.is_utf8 f.last_updated ≡ true
  pub size : IsExact f.file_size

-- The documented behaviour that the client and the proxy rely on. `wire` is a value of `Data`
-- as it arrives.
pub record JsonLaws (j : Json) : Type 0 where
  pub wire : Payload → j.Wire
  pub params_arrive :
      (ps : List Param)
      → ArePlain j ps
      → j.decode_params (j.marshal_params ps) ≡ some (map as_number ps)
  pub results_are_sent : (rs : List ExecResult) → j.no_data (j.marshal_results rs) ≡ false
  pub results_arrive :
      (rs : List ExecResult) → j.unmarshal_results (j.marshal_results rs) ≡ map (sent j wire) rs
  pub nil_arrives : j.is_nil (wire nil) ≡ true
  pub file_is_not_nil : (f : TableFile) → j.is_nil (wire (file f)) ≡ false
  pub file_arrives : (f : TableFile) → IsCarriedFile j f → j.to_table_file (wire (file f)) ≡ f
  pub no_file_arrives : j.to_table_file (wire nil) ≡ zero_file
  pub user_file_arrives :
      (f : TableUserFile) → IsCarriedUserFile j f → j.to_table_user_file (wire (user_file f)) ≡ f
  pub no_user_files_arrive : j.to_table_user_files (wire nil) ≡ []
  pub token_arrives :
      (t : Text) → j.is_utf8 t ≡ true → j.to_texts (wire (token t)) ≡ ok ((bytes "token", t) ∷ [])
  pub exists_arrives : (b : Bool) → j.to_bools (wire (exists b)) ≡ ok ((bytes "exists", b) ∷ [])
  pub no_texts_arrive : j.to_texts (wire nil) ≡ ok []
  pub no_bools_arrive : j.to_bools (wire nil) ≡ ok []
