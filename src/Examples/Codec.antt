-- ===== src/Examples/Codec.antt =====
-- A codec that passes values on, with integers as JSON writes them.
use filestore_hsz.Prelude.{Text, bytes, List, [], ◌∷◌, map, some, Bool, true, false, refl}
use filestore_hsz.Go.{Result, ok, err}
use filestore_hsz.Dbproxy.Define.{
  TableFile, TableUser, TableUserFile, ExecResult, Payload, nil, file, user, user_file, user_files,
  exists, token, zero_file, zero_user, zero_user_file,
}
use filestore_hsz.Dbproxy.Mapper.{Param}
use filestore_hsz.Dbproxy.Json.{Json, JsonLaws, as_number}

unfoldable pub nothing : Payload → Bool
nothing nil = true
nothing _ = false

unfoldable pub file_of : Payload → TableFile
file_of (file f) = f
file_of _ = zero_file

unfoldable pub user_of : Payload → TableUser
user_of (user u) = u
user_of _ = zero_user

unfoldable pub user_file_of : Payload → TableUserFile
user_file_of (user_file f) = f
user_file_of _ = zero_user_file

unfoldable pub user_files_of : Payload → List TableUserFile
user_files_of (user_files fs) = fs
user_files_of _ = []

unfoldable pub texts_of : Payload → Result (List (Text × Text))
texts_of (token t) = ok ((bytes "token", t) ∷ [])
texts_of nil = ok []
texts_of _ = err (bytes "expected a map")

unfoldable pub bools_of : Payload → Result (List (Text × Bool))
bools_of (exists b) = ok ((bytes "exists", b) ∷ [])
bools_of nil = ok []
bools_of _ = err (bytes "expected a map")

unfoldable pub shown : List TableUserFile → Result Text
shown [] = ok (bytes "[]")
shown (f ∷ fs) = ok (bytes "[…]")

abbrev pub codec : Json
codec = record {
  Wire = Payload;
  Params = List Param;
  Data = List ExecResult;
  no_data = λ d. false;
  is_utf8 = λ t. true;
  marshal_params = map as_number;
  decode_params = some;
  marshal_results = λ rs. rs;
  unmarshal_results = map (λ (r : ExecResult). record { suc = r.suc; payload = r.payload });
  is_nil = nothing;
  to_table_file = file_of;
  to_table_user = user_of;
  to_table_user_file = user_file_of;
  to_table_user_files = user_files_of;
  to_texts = texts_of;
  to_bools = bools_of;
  marshal_user_files = shown;
}

unfoldable pub codec_laws : JsonLaws codec
unfolding nothing file_of user_of user_file_of user_files_of texts_of bools_of
codec_laws = record {
  wire = λ p. p;
  params_arrive = λ ps h. refl;
  results_are_sent = λ rs. refl;
  results_arrive = λ rs. refl;
  nil_arrives = refl;
  file_is_not_nil = λ f. refl;
  file_arrives = λ f h. refl;
  no_file_arrives = refl;
  user_file_arrives = λ f h. refl;
  no_user_files_arrive = refl;
  token_arrives = λ t h. refl;
  exists_arrives = λ b. refl;
  no_texts_arrive = refl;
  no_bools_arrive = refl;
}
