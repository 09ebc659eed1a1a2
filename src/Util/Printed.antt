-- ===== src/Util/Printed.antt =====
-- util/util.go, `Sha1`, and util/file.go, `ComputeSha1ByShell`: the shell's digest of a file is the one
-- that Go computes of its bytes.
use filestore_hsz.Prelude.{
  ℕ, ◌/◌, ◌%◌, ◌≤◌, ◌≡◌, refl, ap, Text, bytes, [], ◌∷◌, ◌++◌, false, arith,
}
use filestore_hsz.Go.{ok, ret}
use filestore_hsz.Util.{
  hex_digit, hex_encode, digest, Shell, replace_first, is_space, strip, stripped, newline,
  file_sha1_cmd, compute_sha1_by_shell,
}

hex_digit_high : (d : ℕ) → 48 ≤ hex_digit d
unfolding hex_digit
hex_digit_high d = ground arith

not_space : (c : ℕ) → 33 ≤ c → is_space c ≡ false
unfolding is_space
not_space c h = ground arith

line_break : strip newline ≡ []
unfolding strip is_space
line_break = refl

strip-newline : (b : Text) → strip (hex_encode b ++ newline) ≡ hex_encode b
unfolding strip hex_encode
strip-newline [] = line_break
strip-newline (b ∷ t) =
    rw
      (
        not_space (hex_digit (b / 16)) (omega (arith, hex_digit_high (b / 16))),
        not_space (hex_digit (b % 16)) (omega (arith, hex_digit_high (b % 16))),
      )
      (ap (λ (s : Text). hex_digit (b / 16) ∷ hex_digit (b % 16) ∷ s) (strip-newline t))

-- The command that `ComputeSha1ByShell` runs for a path.
abbrev pub sha1_command : Text → Text
sha1_command path = replace_first file_sha1_cmd (bytes "$1") path

-- Where the command prints the digest and a line break, the function returns the digest.
pub compute_sha1_by_shell_lem :
    {W : Type 0} (output : Shell W) (sha1 : Text → Text) (path content : Text) (w w' : W)
    → output (sha1_command path) w ≡ (ok (digest sha1 content ++ newline), w')
    → compute_sha1_by_shell output path w ≡ (ret (ok (digest sha1 content)), w')
unfolding compute_sha1_by_shell digest stripped
compute_sha1_by_shell_lem output sha1 path content w w' prints =
    rw (prints, strip-newline (sha1 content)) refl
