-- ===== src/Launch/Tests.antt =====
-- The theorems on profiles and launches for a default profile.
use sev_certify.Prelude.{
  ℕ, ◌≡◌, ◌↔◌, refl, String, true, List, [], ◌∷◌, some, Result, ok, err, Each, arith, replicate,
  suc, zero,
}
use sev_certify.Prelude.Bytes.{to_hex, to_base64}
use sev_certify.Prelude.BytesLaws.{IsByte}
use sev_certify.Harness.World.{Exc, os_error}
use sev_certify.Harness.Profile.{VmLaunchResult}
use sev_certify.Channel.Wire.{Wire, recv_error, answered}
use sev_certify.Channel.Request.{ping_guest, request, read_response, read_parts}
use sev_certify.Channel.Tests.{profile, booting_wire, booting_wire-IsClock, booting_wire-IsBooting}
use sev_certify.Launch.HostData.{decode_host_data}
use sev_certify.Launch.HostDataLaws.{prefixed, decode_host_data-encoded}
use sev_certify.Launch.Validate.{validate, resolved_ovmf_path, find_ovmf_path, first_file}
use sev_certify.Launch.Command.{build_qemu_command, qemu_arguments}
use sev_certify.Launch.ValidateLaws.{IsLaunchable, validate-IsLaunchable}
use sev_certify.Launch.Run.{Machine, vm_launch, command_of}
use sev_certify.Launch.RunLaws.{IsStarted, vm_launch-ends, vm_launch-IsBooting, vm_launch-os_error}

replicate-Each : (n b : ℕ) → IsByte b → Each IsByte (replicate n b)
replicate-Each zero b h = tt
replicate-Each (suc n) b h = (h, replicate-Each n b h)

abbrev digest : List ℕ
digest = replicate 32 171

decode_host_data-encoded_example :
    (decode_host_data (to_hex digest) ≡ ok digest)
    × (decode_host_data (prefixed (to_hex digest)) ≡ ok digest)
    × (decode_host_data (to_base64 digest) ≡ ok digest)
decode_host_data-encoded_example =
    decode_host_data-encoded digest refl (replicate-Each 32 171 (omega arith))

validate-IsLaunchable_example :
    (validate (λ path. true) profile ≡ ok tt) ↔ IsLaunchable (λ path. true) profile
validate-IsLaunchable_example = validate-IsLaunchable (λ path. true) profile

abbrev machine_with : Wire ℕ → Machine ℕ
machine_with wire = record {
  wire = wire;
  is_file = λ path w. true;
  describe = λ e. "";
  make_parent = λ path w. (ok tt, w);
  write_empty = λ path w. (ok tt, w);
  spawn = λ command error_log w. (ok 77, w);
  read_bytes = λ path w. [];
  decode = λ bytes. "";
  uuid4 = λ w. ("0a1b", w);
}

abbrev command : List String
command = qemu_arguments profile "/usr/share/ovmf/OVMF.amdsev.fd"

built : (wire : Wire ℕ) → command_of (machine_with wire) profile 0 ≡ ok command
unfolding build_qemu_command validate resolved_ovmf_path find_ovmf_path first_file
built wire = refl

vm_launch-ends_example :
    (outcome : Result Exc VmLaunchResult × ℕ) × (vm_launch (machine_with booting_wire) profile 0
      ≡ some outcome)
vm_launch-ends_example = vm_launch-ends (machine_with booting_wire) booting_wire-IsClock profile 0

booting_wire-IsStarted : IsStarted (machine_with booting_wire) profile command 77 0 2000
booting_wire-IsStarted = record {
  prepared = 0;
  spawned = 0;
  built = built booting_wire;
  logs = refl;
  spawn = refl;
  alive = refl;
}

vm_launch-IsBooting_example :
    (result : VmLaunchResult) × (w4 : ℕ) × (vm_launch (machine_with booting_wire) profile 0
      ≡ some (ok result, w4))
    × (result.ok ≡ true)
    × (result.pid ≡ 77)
    × (result.command ≡ command)
vm_launch-IsBooting_example =
    vm_launch-IsBooting (machine_with booting_wire) profile command 77 0 booting_wire-IsClock 2000
      5000 2000 booting_wire-IsStarted booting_wire-IsBooting (omega arith) (omega arith)

-- The guest resets each connection.
abbrev broken_wire : Wire ℕ
broken_wire = record booting_wire {
  exchange =
      λ cid port timeout request w. (answered (recv_error "Connection reset by peer" ∷ []), w);
}

broken_wire-IsStarted : IsStarted (machine_with broken_wire) profile command 77 0 2000
broken_wire-IsStarted = record {
  prepared = 0;
  spawned = 0;
  built = built broken_wire;
  logs = refl;
  spawn = refl;
  alive = refl;
}

reset : (ping_guest broken_wire profile 2000).0 ≡ err (os_error "Connection reset by peer")
unfolding ping_guest request read_response read_parts
reset = refl

vm_launch-os_error_example :
    (w4 : ℕ) × (vm_launch (machine_with broken_wire) profile 0
      ≡ some (err (os_error "Connection reset by peer"), w4))
vm_launch-os_error_example =
    vm_launch-os_error (machine_with broken_wire) profile command 77 0 2000
      "Connection reset by peer" broken_wire-IsStarted (omega arith) reset
