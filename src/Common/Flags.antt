-- ===== src/Common/Flags.antt =====
-- common/flags.go: the flags of the services' command lines.
use filestore_hsz.Prelude.{
  ◌≡◌, Text, bytes, text_eq, List, [], ◌∷◌, Option, none, some, if◌then◌else◌,
}

-- A flag's name and its value.
abbrev pub Flags : Type 0
Flags = List (Text × Text)

abbrev pub find_flag : Text → Flags → Option Text
find_flag name [] = none
find_flag name ((n, v) ∷ fs) = if text_eq n name then some v else find_flag name fs

abbrev pub local_host : Text
local_host = bytes "127.0.0.1"

unfoldable pub custom_flags : Flags
custom_flags =
    (bytes "dbhost", bytes "127.0.0.1:13306")
    ∷ (bytes "mqhost", local_host)
    ∷ (bytes "cachehost", local_host)
    ∷ (bytes "cephhost", local_host)
    ∷ []

-- `c.String(name)` of the command-line package, by the flags that are declared and what was given, and
-- what it is documented to answer.
pub record Cli : Type 0 where
  pub string : (declared given : Flags) → Text → Text

pub record CliLaws (cli : Cli) : Type 0 where
  pub given_wins :
      (declared given : Flags) (name v : Text)
      → find_flag name given ≡ some v
      → cli.string declared given name ≡ v
  pub own_value :
      (declared given : Flags) (name v : Text)
      → find_flag name given ≡ none
      → find_flag name declared ≡ some v
      → cli.string declared given name ≡ v
