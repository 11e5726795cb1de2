-- ===== src/Channel/Files.antt =====
-- guest_vsock.py: files of the guest, fetched as base64.
use Prim.Native.Char.{code}
use Prim.Native.String.{◌++◌}
use sev_certify.Prelude.{
  ℕ, String, Bool, true, ◌&&◌, List, Option, none, some, Result, ok, err, and_then, ltb, eq_ℤ, pos,
  if◌then◌else◌,
}
use sev_certify.Prelude.Texts.{is_empty, is_space, strip}
use sev_certify.Prelude.Quoting.{shell_quote}
use sev_certify.Prelude.Decimal.{show_ℤ}
use sev_certify.Prelude.Bytes.{base64_bytes, first}
use sev_certify.Harness.World.{Exc, guest_vsock_error, value_error, GuestCommandResult}
use sev_certify.Harness.Profile.{VmProfile}
use sev_certify.Channel.Wire.{Wire}
use sev_certify.Channel.Request.{run_guest_command}

-- `re.sub(r"\s+", "", s)`.
abbrev pub without_spaces : String → String
without_spaces String.[] = ""
without_spaces (String.◌∷◌ c s) =
    if is_space (code c) then without_spaces s else String.◌∷◌ c (without_spaces s)

abbrev pub is_ascii : String → Bool
is_ascii String.[] = true
is_ascii (String.◌∷◌ c s) = ltb (code c) 128 && is_ascii s

abbrev first_set : String → String → String
first_set a b = if is_empty a then b else a

-- `repr` of the path is an argument.
abbrev failed_text : (repr : String → String) → (path : String) → GuestCommandResult → String
failed_text repr path gcr =
    "Guest base64 of "
    ++ (repr path
        ++ (" failed with exit "
            ++ (show_ℤ gcr.exit_code ++ (": " ++ first_set (strip gcr.stderr) (strip gcr.stdout)))))

-- A text that is not ASCII is a ValueError, and no binascii.Error.
abbrev pub decoded : (repr : String → String) → (path clean : String) → Result Exc (List ℕ)
decoded repr path clean =
    if is_empty clean
    then err (guest_vsock_error ("Guest returned empty base64 for " ++ repr path))
    else if is_ascii clean
    then elim (base64_bytes first clean) [
      | some bytes ↦ ok bytes
      | none ↦
          err (guest_vsock_error ("Invalid base64 while fetching " ++ (repr path ++ " from guest")))
    ]
    else err value_error

unfoldable pub file_of :
    (repr : String → String) → (path : String) → GuestCommandResult → Result Exc (List ℕ)
unfolding base64_bytes strip
file_of repr path gcr =
    if eq_ℤ gcr.exit_code (pos 0)
    then decoded repr path (without_spaces gcr.stdout)
    else err (guest_vsock_error (failed_text repr path gcr))

module _ {W : Type 0} (wire : Wire W) (repr : String → String) where
  unfoldable pub fetch_guest_file_bytes :
      VmProfile → (guest_path : String) → Option ℕ → W → Result Exc (List ℕ) × W
  unfolding run_guest_command file_of
  fetch_guest_file_bytes p guest_path timeout w =
      and_then (run_guest_command wire p ("base64 " ++ shell_quote guest_path) timeout w)
        λ gcr w1. (file_of repr guest_path gcr, w1)

  -- `write` makes the parent directory and writes the file; it may raise.
  unfoldable pub pull_guest_file_to_host :
      (write : (path : String) → List ℕ → W → Result Exc (Unit {0}) × W)
      → VmProfile
      → (guest_path host_path : String) → Option ℕ
      → W
      → Result Exc (Unit {0}) × W
  unfolding fetch_guest_file_bytes
  pull_guest_file_to_host write p guest_path host_path timeout w =
      and_then (fetch_guest_file_bytes p guest_path timeout w) (write host_path)
