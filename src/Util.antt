-- ===== src/Util.antt =====
-- util/util.go, util/file.go, util/shell.go: digests in hex, tokens' numbers and shell commands. The
-- digests themselves and the shell are parameters.
pub mod Merge
pub mod Printed
pub mod Os
pub mod Stream
use filestore_hsz.Prelude.{
  ℕ, ◌+◌, ◌-◌, ◌/◌, ◌%◌, Text, bytes, text_eq, has_prefix, length, drop, ℤ, [], ◌∷◌, ◌++◌, Bool,
  ltb, ◌==◌, ◌||◌, if◌then◌else◌,
}
use filestore_hsz.Go.{Result, ok, err, Go, pure, call, ◌>>=◌}
use filestore_hsz.Go.Strconv.{parse_int, atoi}

-- `hex.EncodeToString`
hex_digit : ℕ → ℕ
hex_digit d = if ltb d 10 then b'0' + d else b'a' + (d - 10)

unfoldable pub hex_encode : Text → Text
unfolding hex_digit
hex_encode [] = []
hex_encode (b ∷ t) = hex_digit (b / 16) ∷ hex_digit (b % 16) ∷ hex_encode t

-- `Sha1` and `MD5`, over the raw digest
unfoldable pub digest : (Text → Text) → Text → Text
unfolding hex_encode
digest sum data_ = hex_encode (sum data_)

-- `Hex2Dec`: the value is returned whatever the error is.
unfoldable pub hex2dec : Text → ℤ
hex2dec s = (parse_int 16 s).number

-- `bash -c cmd`: its standard output, or an error.
abbrev pub Shell : Type 0 → Type 0
Shell W = Text → W → Result Text × W

-- `strings.Replace(s, old, new, 1)`
unfoldable pub replace_first : Text → Text → Text → Text
replace_first [] old new = if text_eq old [] then new else []
replace_first (c ∷ s) old new =
    let rest = replace_first s old new in
    if has_prefix (c ∷ s) old then new ++ drop (length old) (c ∷ s) else c ∷ rest

is_space : ℕ → Bool
is_space c = c == 9 || c == 10 || c == 12 || c == 13 || c == 32

-- `regexp.MustCompile("\\s+").ReplaceAllString(s, "")`
strip : Text → Text
strip [] = []
strip (c ∷ s) = let rest = strip s in if is_space c then rest else c ∷ rest

abbrev pub newline : Text
newline = 10 ∷ []

abbrev pub tab : Text
tab = 9 ∷ []

-- The commands are written with the line breaks and tabs of the source.
unfoldable pub file_sha1_cmd : Text
file_sha1_cmd =
    newline
    ++ tab
    ++ bytes "#!/bin/bash"
    ++ newline
    ++ tab
    ++ bytes "sha1sum $1 | awk '{print $1}'"
    ++ newline
    ++ tab

file_size_cmd : Text
file_size_cmd =
    newline
    ++ tab
    ++ bytes "#!/bin/bash"
    ++ newline
    ++ tab
    ++ bytes "ls -l $1 | awk '{print $5}'"
    ++ newline
    ++ tab

stripped : Result Text → Result Text
stripped (err e) = err e
stripped (ok out) = ok (strip out)

size_of : Result Text → Result ℤ
size_of (err e) = err e
size_of (ok out) =
    let r = atoi (strip out) in if r.failed then err (bytes "invalid syntax") else ok r.number

module _ {W : Type 0} (output : Shell W) where
  unfoldable pub compute_sha1_by_shell : Text → Go W (Result Text)
  unfolding replace_first strip stripped file_sha1_cmd is_space
  compute_sha1_by_shell dest_path = do
    r ← call (output (replace_first file_sha1_cmd (bytes "$1") dest_path))
    pure (stripped r)

  unfoldable pub compute_file_size_by_shell : Text → Go W (Result ℤ)
  unfolding replace_first strip size_of file_size_cmd is_space
  compute_file_size_by_shell dest_path = do
    r ← call (output (replace_first file_size_cmd (bytes "$1") dest_path))
    pure (size_of r)
