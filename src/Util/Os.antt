-- ===== src/Util/Os.antt =====
-- util/util.go, util/shell.go and util/resp.go: what asks the file system, runs a command, or makes a reply by
-- hand. The calls of `os`, `os/exec` and `path/filepath` are parameters.
use filestore_hsz.Prelude.{
  ◌≡◌, refl, Text, bytes, ℤ, pos, List, [], ◌∷◌, ◌++◌, Option, none, some, Bool, true, false,
  if◌then◌else◌,
}
use filestore_hsz.Go.{Result, ok, err, Exit, ret, panic, Go, pure, call, ◌>>=◌}
use filestore_hsz.Go.Strconv.{format_int}
use filestore_hsz.Util.{digest}

-- `FileMD5`, over what `io.Copy` reads of the file.
unfoldable pub file_md5 : (Text → Text) → Text → Text
file_md5 md5 copied = digest md5 copied

-- The error of `os.Stat`, and whether it says that nothing is there.
abbrev pub Stat : Type 0 → Type 0
Stat W = Text → W → Option (Text × Bool) × W

exists_by : Option (Text × Bool) → Result Bool
exists_by none = ok true
exists_by (some (e, missing)) = if missing then ok false else err e

unfoldable pub path_exists : {W : Type 0} → Stat W → Text → Go W (Result Bool)
unfolding exists_by
path_exists stat path = do e ← call (stat path); pure (exists_by e)

-- `GetFileSize` over the entries that `filepath.Walk` visits, with a nil `FileInfo` where there is an error.
size_from : ℤ → List (Option ℤ) → Exit ℤ
size_from result [] = ret result
size_from result (none ∷ visits) = panic
size_from result (some size ∷ visits) = size_from size visits

unfoldable pub get_file_size : List (Option ℤ) → Exit ℤ
unfolding size_from
get_file_size visits = size_from (pos 0) visits

-- The output and the error of `cmd.Run`.
shell_result : Text × Option Text → Result Text
shell_result (out, some e) = err e
shell_result (out, none) = ok out

unfoldable pub exec_linux_shell :
    {W : Type 0} → (Text → W → (Text × Option Text) × W) → Text → Go W (Result Text)
unfolding shell_result
exec_linux_shell cmd_run s = do r ← call (cmd_run s); pure (shell_result r)

-- `GenSimpleRespString`, and `GenSimpleRespStream` as its bytes. The message is not quoted.
unfoldable pub gen_simple_resp_string : ℤ → Text → Text
gen_simple_resp_string code msg =
    bytes "{\"code\":" ++ format_int code ++ bytes ", \"msg\":" ++ msg ++ bytes "}"

-- Visits without an error.
abbrev pub sizes : List ℤ → List (Option ℤ)
sizes [] = []
sizes (s ∷ ss) = some s ∷ sizes ss

last_size :
    (result : ℤ) (visits : List ℤ) (size : ℤ)
    → size_from result (sizes visits ++ some size ∷ []) ≡ ret size
unfolding size_from
last_size result [] size = refl
last_size result (s ∷ visits) size = last_size s visits size

-- The size is that of the last entry that is visited: of a directory, it is not the size of what is in it.
pub get_file_size-last :
    (visits : List ℤ) (size : ℤ) → get_file_size (sizes visits ++ some size ∷ []) ≡ ret size
unfolding get_file_size
get_file_size-last visits size = last_size (pos 0) visits size
