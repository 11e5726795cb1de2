-- ===== src/Channel/Tests.antt =====
-- The theorems on the guest's channel for a guest that answers from the fifth second on.
use sev_certify.Prelude.{
  ℕ, ◌+◌, ◌-◌, ◌*◌, ◌≤◌, ◌≡◌, refl, ap, String, Bool, true, false, List, [], ◌∷◌, some, none,
  Result, ok, err, pos, arith, length, ltb, if◌then◌else◌, suc, inr, and_then,
}
use sev_certify.Prelude.Dicts.{Dict}
use sev_certify.Prelude.Texts.{strip, is_empty}
use sev_certify.Prelude.Decimal.{show_ℕ, digits_of}
use sev_certify.Harness.World.{Exc, GuestCommandResult, CompletedProcess}
use sev_certify.Harness.Profile.{VmProfile, default_profile}
use sev_certify.Channel.Wire.{
  Wire, IsClock, Json, boolean, text, number, Loaded, object, part, Exchange, not_connected,
  answered,
}
use sev_certify.Channel.Request.{
  read_parts, read_response, response_of, exceeded, ping_guest, request, response_to,
  parse_command_response, run_guest_command,
}
use sev_certify.Channel.Wait.{after_ping, round, check_guest_ready}
use sev_certify.Channel.BootLaws.{IsBooting, check_guest_ready-IsBooting}
use sev_certify.Channel.ReadLaws.{
  joined, arriving, read_response-joined, read_parts-bound, file_of-to_base64,
}
use sev_certify.Channel.Files.{file_of}
use sev_certify.Channel.Agent.{serve_client, handle_request, run_guest_command-served}

abbrev pub profile : VmProfile
profile = default_profile "/boot/guest.efi"

read_response-joined_example :
    read_response (λ bytes. object []) (pos 2) (arriving ((1 ∷ 2 ∷ []) ∷ (3 ∷ []) ∷ [])) ≡ (
      if ltb 2 (length (joined ((1 ∷ 2 ∷ []) ∷ (3 ∷ []) ∷ [])))
      then err (exceeded (pos 2))
      else response_of (λ bytes. object []) (joined ((1 ∷ 2 ∷ []) ∷ (3 ∷ []) ∷ [])))
read_response-joined_example =
    read_response-joined (λ bytes. object []) 2 ((1 ∷ 2 ∷ []) ∷ (3 ∷ []) ∷ [])
      (λ e. cc e, (λ e. cc e, tt))

two_read : read_parts (pos 10) 0 (part (1 ∷ 2 ∷ []) ∷ part [] ∷ []) ≡ ok (1 ∷ 2 ∷ [])
unfolding read_parts
two_read = refl

read_parts-bound_example : 0 + length {A = ℕ} (1 ∷ 2 ∷ []) ≤ 10
read_parts-bound_example =
    read_parts-bound 10 0 (part (1 ∷ 2 ∷ []) ∷ part [] ∷ []) (1 ∷ 2 ∷ []) (omega arith) two_read

-- The file "hello", printed in two lines.
abbrev printed : GuestCommandResult
printed = record {
  command = "base64 hello.txt";
  exit_code = pos 0;
  stdout = "aGVs\nbG8=\n";
  stderr = "";
  duration_ms = 7;
}

file_of-to_base64_example :
    file_of (λ path. path) "hello.txt" printed ≡ ok (104 ∷ 101 ∷ 108 ∷ 108 ∷ 111 ∷ [])
file_of-to_base64_example =
    file_of-to_base64 (λ path. path) "hello.txt" printed (104 ∷ 101 ∷ 108 ∷ 108 ∷ 111 ∷ []) refl
      (λ e. cc e) (omega arith, (omega arith, (omega arith, (omega arith, (omega arith, tt))))) refl
      refl

-- The world is the time. The guest refuses connections until it has booted.
abbrev by_time : Bool → Exchange
by_time true = not_connected "refused"
by_time false = answered (part (1 ∷ []) ∷ [])

abbrev pub booting_wire : Wire ℕ
booting_wire = record {
  exchange = λ cid port timeout request w. (by_time (ltb w 5000), w);
  dumps = λ payload. [];
  loads = λ bytes. object (("ok", boolean true) ∷ []);
  repr = λ response. "";
  now_ms = λ w. w;
  sleep_ms = λ ms w. w + ms;
  poll = λ process w. (none, w);
}

pub booting_wire-IsClock : IsClock booting_wire
booting_wire-IsClock = record {
  exchanged = λ cid port timeout request w. omega arith;
  polled = λ process w. omega arith;
  slept = λ ms w. omega arith;
}

-- A ping, by whether the guest still boots.
abbrev pinged : ℕ → Bool → Result Exc GuestCommandResult × ℕ
pinged w early =
    and_then (response_to booting_wire profile (by_time early), w)
      λ response v. (parse_command_response booting_wire "ping" response (v - w), v)

pub booting_wire-IsBooting : IsBooting booting_wire profile (some 77) 2000 5000 2000
unfolding ping_guest request parse_command_response read_response read_parts round show_ℕ digits_of
booting_wire-IsBooting = record {
  answers = λ w late.
      let up : ltb w 5000 ≡ false = ground (arith, late) in
      let answer : GuestCommandResult = record {
        command = "ping";
        exit_code = pos 0;
        stdout = "";
        stderr = "";
        duration_ms = w - w;
      } in
      (answer, ap (λ early. (pinged w early).0) up);
  waits = λ w early.
      let booting_still : ltb w 5000 ≡ true = ground (arith, early) in
      inr (
        "Failed to connect to guest vsock CID 3 port 5000: refused",
        w + 2000,
        ap (λ early. after_ping booting_wire (some 77) 2000 (pinged w early)) booting_still,
        omega arith,
      );
}

check_guest_ready-IsBooting_example :
    (w1 : ℕ) × (check_guest_ready booting_wire profile none 2000 (some 77) (suc (180 * 1000)) 0
      ≡ some (ok (true, ""), w1))
check_guest_ready-IsBooting_example =
    check_guest_ready-IsBooting booting_wire booting_wire-IsClock profile none 2000 (some 77) 5000
      2000 0 booting_wire-IsBooting (omega arith) (omega arith) (omega arith)

abbrev hello : CompletedProcess
hello = record { returncode = pos 0; stdout = "hello\n"; stderr = "" }

abbrev shell : String → Unit {0} → Result String CompletedProcess × Unit {0}
shell command g = (ok hello, g)

abbrev response : Dict Json
response = ("exit_code", number (pos 0)) ∷ ("stdout", text "hello\n") ∷ ("stderr", text "") ∷ []

-- The host's side of a command that takes nine milliseconds.
abbrev command_wire : Wire ℕ
command_wire = record booting_wire {
  exchange = λ cid port timeout request w. (answered (part (1 ∷ []) ∷ part (2 ∷ []) ∷ []), w + 9);
  loads = λ bytes. object response;
}

abbrev agent_loads : List ℕ → Loaded
agent_loads bytes = object (("cmd", text "echo hello") ∷ [])

agent_served : (serve_client shell (λ l. "") agent_loads (1 ∷ []) tt).0 ≡ some response
unfolding serve_client handle_request strip
agent_served = refl

not_blank : is_empty (strip "echo hello") ≡ false
unfolding strip
not_blank = refl

abbrev ran_hello : GuestCommandResult
ran_hello = record {
  command = "echo hello";
  exit_code = pos 0;
  stdout = "hello\n";
  stderr = "";
  duration_ms = 3 + 9 - 3;
}

run_guest_command-served_example :
    (run_guest_command command_wire profile "echo hello" (some 30) 3).0 ≡ ok ran_hello
run_guest_command-served_example =
    run_guest_command-served command_wire shell (λ l. "") profile "echo hello" 30 3 tt hello
      agent_loads (1 ∷ []) response ((1 ∷ []) ∷ (2 ∷ []) ∷ []) refl not_blank refl agent_served refl
      (λ e. cc e, (λ e. cc e, tt)) (λ e. cc e) refl refl
