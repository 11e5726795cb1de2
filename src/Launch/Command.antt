-- ===== src/Launch/Command.antt =====
-- vm_profile.py: QEMU's command line, and how it is printed.
use Prim.Native.Char.{code}
use Prim.Native.String.{◌++◌}
use mathlib.Core.List.{◌++◌ as append}
use sev_certify.Prelude.{
  String, Bool, true, false, ◌&&◌, ◌||◌, not, List, [], ◌∷◌, Option, none, some, Result, ok, ◌>>=◌,
  ◌==◌, leb, pos, ℤ, if◌then◌else◌,
}
use sev_certify.Prelude.Texts.{is_empty, strip, int}
use sev_certify.Prelude.Quoting.{join, shell_join}
use sev_certify.Prelude.Decimal.{show_ℕ, show_ℤ, hex}
use sev_certify.Harness.Profile.{VmProfile, VmLaunchResult, Policy, text_policy, int_policy}
use sev_certify.Launch.HostData.{ProfileError}
use sev_certify.Launch.Validate.{validate, resolved_ovmf_path}

abbrev all_digits : String → Bool
all_digits String.[] = true
all_digits (String.◌∷◌ c s) = leb b'0' (code c) && leb (code c) b'9' && all_digits s

-- `text.lower().startswith("0x")`.
abbrev starts_with_x : String → Bool
starts_with_x String.[] = false
starts_with_x (String.◌∷◌ c s) = code c == b'x' || code c == b'X'

abbrev pub has_hex_prefix : String → Bool
has_hex_prefix String.[] = false
has_hex_prefix (String.◌∷◌ c s) = code c == b'0' && starts_with_x s

abbrev hex_of : Option ℤ → String → String
hex_of (some (pos n)) text = hex n
hex_of _ text = text

-- A text that is stripped.
abbrev format_text : String → String
format_text text =
    if has_hex_prefix text
    then text
    else if not (is_empty text) && all_digits text
    then hex_of (int text) text
    else text

unfoldable pub format_policy : Policy → String
unfolding hex strip int
format_policy (int_policy policy) = hex policy
format_policy (text_policy policy) = format_text (strip policy)

abbrev when : Bool → List String → List String
when true parts = parts
when false parts = []

-- Set and not empty.
abbrev pub is_set : Option String → Bool
is_set none = false
is_set (some text) = not (is_empty text)

abbrev text_of : Option String → String
text_of none = ""
text_of (some text) = text

abbrev policy_part : Option Policy → List String
policy_part none = []
policy_part (some policy) = ("policy=" ++ format_policy policy) ∷ []

unfoldable pub sev_snp_guest_parts : VmProfile → List String
unfolding format_policy show_ℕ
sev_snp_guest_parts p =
    append
      ("sev-snp-guest"
        ∷ "id=sev0"
        ∷ ("cbitpos=" ++ show_ℕ p.cbitpos)
        ∷ ("reduced-phys-bits=" ++ show_ℕ p.reduced_phys_bits)
        ∷ [])
      (append (when p.kernel_hashes ("kernel-hashes=on" ∷ [])) (
        append (when (is_set p.host_data) (("host-data=\"" ++ (text_of p.host_data ++ "\"")) ∷ []))
          (append (policy_part p.policy) (
            append (when p.auth_key_enabled ("author-key-enabled=true" ∷ [])) (
              when (is_set p.id_block && is_set p.id_auth)
                (("id-block=" ++ text_of p.id_block) ∷ ("id-auth=" ++ text_of p.id_auth) ∷ []))))))

unfoldable pub build_sev_snp_guest_object : VmProfile → String
unfolding sev_snp_guest_parts
build_sev_snp_guest_object p = join "," (sev_snp_guest_parts p)

unfoldable pub build_vsock_device : VmProfile → String
unfolding show_ℤ
build_vsock_device p =
    (if p.vsock_use_vhost then "vhost-vsock-pci" else "virtio-vsock-pci")
    ++ (",guest-cid=" ++ (show_ℤ p.vsock_cid ++ ",id=vsock0"))

abbrev pub qemu_arguments : VmProfile → (ovmf : String) → List String
unfolding build_sev_snp_guest_object build_vsock_device show_ℤ
qemu_arguments p ovmf =
    append
      (p.qemu_binary
        ∷ "-enable-kvm"
        ∷ "-machine"
        ∷ "q35,memory-encryption=sev0,memory-backend=ram1"
        ∷ "-cpu"
        ∷ "EPYC-v4"
        ∷ "-monitor"
        ∷ "none"
        ∷ "-display"
        ∷ "none"
        ∷ "-object"
        ∷ ("memory-backend-memfd,id=ram1,size=" ++ (show_ℤ p.memory_mb ++ "M"))
        ∷ "-object"
        ∷ build_sev_snp_guest_object p
        ∷ "-bios"
        ∷ ovmf
        ∷ "-kernel"
        ∷ p.image_path
        ∷ "-device"
        ∷ build_vsock_device p
        ∷ [])
      (append
        (when p.debug (
          "-chardev"
          ∷ ("file,id=serial0,path=" ++ p.guest_boot_log)
          ∷ "-serial"
          ∷ "chardev:serial0"
          ∷ []))
        (when p.network_enabled
          ("-netdev" ∷ "user,id=net0" ∷ "-device" ∷ "virtio-net-pci,netdev=net0" ∷ [])))

unfoldable pub build_qemu_command : (String → Bool) → VmProfile → Result ProfileError (List String)
unfolding validate resolved_ovmf_path
build_qemu_command is_file p = do
  valid ← validate is_file p
  ovmf ← resolved_ovmf_path is_file p.ovmf_path
  ok (qemu_arguments p ovmf)

abbrev pub is_flag : String → Bool
is_flag String.[] = false
is_flag (String.◌∷◌ c s) = code c == b'-'

-- The loop of `_qemu_pretty_chunks` behind the first argument.
unfoldable pub chunks : List String → List String
chunks [] = []
chunks (cur ∷ []) = cur ∷ []
chunks (cur ∷ next ∷ rest) = elim (is_flag cur && not (is_flag next)) [
  | true ↦ (cur ++ (" " ++ next)) ∷ chunks rest
  | false ↦ cur ∷ chunks (next ∷ rest)
]

unfoldable pub qemu_pretty_chunks : List String → List String
unfolding chunks
qemu_pretty_chunks [] = []
qemu_pretty_chunks (program ∷ args) = program ∷ chunks args

abbrev continued : (indent : String) → List String → String
continued indent [] = "\n"
continued indent (chunk ∷ chunks) = " \\\n" ++ (indent ++ (chunk ++ continued indent chunks))

-- What `print_qemu` writes.
unfoldable pub print_qemu : (indent : String) → List String → String
unfolding qemu_pretty_chunks
print_qemu indent command = elim (qemu_pretty_chunks command) [
  | [] ↦ ""
  | chunk ∷ chunks ↦ chunk ++ continued indent chunks
]

-- `VMLaunchResult.command_line`.
abbrev pub command_line : VmLaunchResult → String
command_line launch = shell_join launch.command
