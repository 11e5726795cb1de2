-- ===== src/Harness/Profile.antt =====
-- vm_profile.py: `VmProfile`, `VmLaunchResult`, and runner.py's `effective_vm_profile`. Timeouts in
-- seconds are whole numbers.
use sev_certify.Prelude.{
  ℕ, ℤ, pos, String, Bool, true, false, List, Option, none, some, if◌then◌else◌,
}

pub data Policy : Type 0 where
  text_policy : String → Policy
  int_policy : ℕ → Policy

pub record VmProfile : Type 0 where
  pub image_path : String
  pub guest_id : Option String
  pub qemu_binary : String
  pub ovmf_path : Option String
  pub memory_mb : ℤ
  pub guest_error_log : String
  pub guest_boot_log : String
  pub network_enabled : Bool
  pub vsock_cid : ℤ
  pub vsock_port : ℤ
  pub vsock_use_vhost : Bool
  pub vsock_boot_timeout : ℕ
  pub vsock_connect_timeout : ℕ
  pub vsock_command_timeout : ℕ
  pub vsock_max_response_bytes : ℤ
  pub host_data : Option String
  pub policy : Option Policy
  pub auth_key_enabled : Bool
  pub kernel_hashes : Bool
  pub id_block : Option String
  pub id_auth : Option String
  pub cbitpos : ℕ
  pub reduced_phys_bits : ℕ
  pub debug : Bool

-- `VmProfile(image_path=image_path)`.
abbrev pub default_profile : String → VmProfile
default_profile image_path = record {
  image_path = image_path;
  guest_id = none;
  qemu_binary = "qemu-system-x86_64";
  ovmf_path = none;
  memory_mb = pos 4096;
  guest_error_log = "/tmp/guest-error.log";
  guest_boot_log = "/tmp/guest-boot.log";
  network_enabled = true;
  vsock_cid = pos 3;
  vsock_port = pos 5000;
  vsock_use_vhost = true;
  vsock_boot_timeout = 180;
  vsock_connect_timeout = 10;
  vsock_command_timeout = 300;
  vsock_max_response_bytes = pos 16777216;
  host_data = none;
  policy = none;
  auth_key_enabled = false;
  kernel_hashes = true;
  id_block = none;
  id_auth = none;
  cbitpos = 51;
  reduced_phys_bits = 1;
  debug = false;
}

-- `checks` is always empty, and `process` is the handle of the process `pid`.
pub record VmLaunchResult : Type 0 where
  pub pid : ℕ
  pub command : List String
  pub profile : VmProfile
  pub ok : Bool
  pub message : String
  pub guest_id : String

abbrev with_image : Option VmProfile → String → VmProfile
with_image none guest_path = default_profile guest_path
with_image (some declared) guest_path = record declared { image_path = guest_path }

abbrev with_qemu : Option String → VmProfile → VmProfile
with_qemu none base = base
with_qemu (some qemu_binary) base = record base { qemu_binary = qemu_binary }

abbrev with_ovmf : Option String → VmProfile → VmProfile
with_ovmf none base = base
with_ovmf (some ovmf_path) base = record base { ovmf_path = some ovmf_path }

unfoldable pub effective_vm_profile :
    Option VmProfile
    → (guest_path : String) → (qemu_binary ovmf_path : Option String) → Bool
    → VmProfile
effective_vm_profile declared guest_path qemu_binary ovmf_path debug =
    let base = with_ovmf ovmf_path (with_qemu qemu_binary (with_image declared guest_path)) in
    if debug then record base { debug = true } else base
