-- ===== src/Launch/Validate.antt =====
-- vm_profile.py: where the firmware is found, and `VMProfile.validate`. The files are a test of paths.
use Prim.Native.Char.{code}
use Prim.Native.String.{◌++◌}
use sev_certify.Prelude.{
  ℕ, ℤ, pos, is_positive, lt_ℤ, suc, String, Bool, true, false, ◌&&◌, ◌||◌, not, List, [], ◌∷◌,
  Option, none, some, Result, ok, err, ◌>>◌, ◌==◌, str_eq, if◌then◌else◌,
}
use sev_certify.Prelude.Texts.{is_empty, split}
use sev_certify.Prelude.Quoting.{join}
use sev_certify.Harness.Profile.{VmProfile}
use sev_certify.Launch.HostData.{
  ProfileError, image_not_found, memory_not_positive, cid_too_small, port_out_of_range,
  response_not_positive, ovmf_not_on_path, ovmf_not_found, validate_host_data,
}

abbrev slashes : String → ℕ
slashes String.[] = 0
slashes (String.◌∷◌ c s) = let more = slashes s in if code c == b'/' then suc more else 0

abbrev root : ℕ → String
root n = if n == 0 then "" else if n == 2 then "//" else "/"

abbrev kept_parts : List String → List String
kept_parts [] = []
kept_parts (part ∷ parts) =
    let rest = kept_parts parts in if is_empty part || str_eq part "." then rest else part ∷ rest

-- `str(Path(s))`: the parts without empty ones and ".", behind the root.
unfoldable pub path_text : String → String
unfolding split
path_text s =
    let text = root (slashes s) ++ join "/" (kept_parts (split b'/' s)) in
    if is_empty text then "." else text

abbrev pub default_ovmf_candidates : List String
default_ovmf_candidates =
    "/usr/share/ovmf/OVMF.amdsev.fd" ∷ "/usr/share/edk2/ovmf/OVMF.amdsev.fd"
    ∷ "/usr/share/qemu/ovmf-x86_64-sev.bin" ∷ []

unfoldable pub first_file : (String → Bool) → List String → Option String
first_file is_file [] = none
first_file is_file (path ∷ paths) = if is_file path then some path else first_file is_file paths

unfoldable pub find_ovmf_path : (String → Bool) → Option String
unfolding first_file
find_ovmf_path is_file = first_file is_file default_ovmf_candidates

abbrev pub found_or : Option String → Result ProfileError String
found_or none = err ovmf_not_found
found_or (some path) = ok path

-- An empty path counts as none.
unfoldable pub resolved_ovmf_path : (String → Bool) → Option String → Result ProfileError String
unfolding find_ovmf_path path_text
resolved_ovmf_path is_file none = found_or (find_ovmf_path is_file)
resolved_ovmf_path is_file (some ovmf_path) =
    if is_empty ovmf_path
    then found_or (find_ovmf_path is_file)
    else if is_file ovmf_path
    then ok (path_text ovmf_path)
    else err (ovmf_not_on_path ovmf_path)

abbrev pub require : Bool → ProfileError → Result ProfileError (Unit {0})
require true e = ok tt
require false e = err e

abbrev pub check_host_data : Option String → Result ProfileError (Unit {0})
check_host_data none = ok tt
check_host_data (some host_data) = validate_host_data host_data

abbrev pub forget : Result ProfileError String → Result ProfileError (Unit {0})
forget (ok path) = ok tt
forget (err e) = err e

-- `1 <= port <= 4294967295`.
abbrev pub in_range : ℤ → Bool
in_range port = not (lt_ℤ port (pos 1)) && not (lt_ℤ (pos 4294967295) port)

unfoldable pub validate : (String → Bool) → VmProfile → Result ProfileError (Unit {0})
unfolding resolved_ovmf_path validate_host_data
validate is_file p = do
  require (is_file p.image_path) (image_not_found p.image_path)
  check_host_data p.host_data
  require (is_positive p.memory_mb) memory_not_positive
  require (not (lt_ℤ p.vsock_cid (pos 3))) (cid_too_small p.vsock_cid)
  require (in_range p.vsock_port) (port_out_of_range p.vsock_port)
  require (is_positive p.vsock_max_response_bytes) response_not_positive
  forget (resolved_ovmf_path is_file p.ovmf_path)
