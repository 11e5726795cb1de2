-- ===== src/Channel/Request.antt =====
-- guest_vsock.py: one request, and what is made of its response.
use Prim.Native.String.{◌++◌}
use mathlib.Core.List.{◌++◌ as append}
use sev_certify.Prelude.{
  ℕ, ◌+◌, ◌-◌, String, Bool, true, false, ◌&&◌, not, List, [], ◌∷◌, Option, none, some, Result, ok,
  err, and_then, ◌>>=◌, ◌==◌, lt_ℤ, length, ℤ, pos, negsuc, if◌then◌else◌,
}
use sev_certify.Prelude.Texts.{is_empty, int}
use sev_certify.Prelude.Dicts.{Dict, get, has}
use sev_certify.Prelude.Decimal.{show_ℤ}
use sev_certify.Harness.World.{
  Exc, guest_vsock_error, os_error, value_error, other_exception, GuestCommandResult,
}
use sev_certify.Harness.Profile.{VmProfile}
use sev_certify.Channel.Wire.{
  Payload, ping, cmd, Json, null, boolean, number, text, other_value, Loaded, object, no_object,
  not_json, not_utf8, Received, part, recv_timeout, recv_error, Exchange, not_connected, not_sent,
  answered, Wire,
}

abbrev pub prefix : List ℕ → Result Exc (List ℕ) → Result Exc (List ℕ)
prefix bytes (ok rest) = ok (append bytes rest)
prefix bytes (err e) = err e

abbrev pub exceeded : (max_bytes : ℤ) → Exc
exceeded max_bytes =
    guest_vsock_error ("Guest vsock response exceeded " ++ (show_ℤ max_bytes ++ " bytes"))

-- The loop of `_read_response`, with the bytes of all chunks joined.
unfoldable pub read_parts : (max_bytes : ℤ) → (total : ℕ) → List Received → Result Exc (List ℕ)
read_parts max_bytes total [] = ok []
read_parts max_bytes total (recv_timeout ∷ events) =
    err (guest_vsock_error "Timed out waiting for guest vsock response")
read_parts max_bytes total (recv_error message ∷ events) = err (os_error message)
read_parts max_bytes total (part [] ∷ events) = ok []
read_parts max_bytes total (part (b ∷ bytes) ∷ events) =
    let more = total + length (b ∷ bytes) in
    let rest = read_parts max_bytes more events in
    if lt_ℤ max_bytes (pos more) then err (exceeded max_bytes) else prefix (b ∷ bytes) rest

abbrev loaded_or : Loaded → Result Exc (Dict Json)
loaded_or (object response) = ok response
loaded_or no_object = err (other_exception "AttributeError")
loaded_or not_json = err (guest_vsock_error "Guest vsock agent returned invalid JSON")
loaded_or not_utf8 = err value_error

abbrev pub response_of : (loads : List ℕ → Loaded) → List ℕ → Result Exc (Dict Json)
response_of loads [] = err (guest_vsock_error "Guest vsock agent closed without a response")
response_of loads (b ∷ bytes) = loaded_or (loads (b ∷ bytes))

unfoldable pub read_response :
    (loads : List ℕ → Loaded) → (max_bytes : ℤ) → List Received → Result Exc (Dict Json)
unfolding read_parts
read_response loads max_bytes events = read_parts max_bytes 0 events >>= response_of loads

abbrev connect_error : VmProfile → String → String
connect_error p message =
    "Failed to connect to guest vsock CID "
    ++ (show_ℤ p.vsock_cid ++ (" port " ++ (show_ℤ p.vsock_port ++ (": " ++ message))))

abbrev pub counts : Json → Bool
counts null = false
counts (boolean b) = b
counts (number n) = elim n [ pos m ↦ not (m == 0) | negsuc m ↦ true ]
counts (text s) = not (is_empty s)
counts (other_value as_text c) = c

-- `str(value)`.
abbrev pub text_of : Json → String
text_of null = "None"
text_of (boolean b) = if b then "True" else "False"
text_of (number n) = show_ℤ n
text_of (text s) = s
text_of (other_value as_text c) = as_text

-- `str(value or "")`, where `none` is a missing key.
abbrev pub text_or_empty : Option Json → String
text_or_empty none = ""
text_or_empty (some value) = if counts value then text_of value else ""

-- `int(value)`.
abbrev pub int_of : Json → Result Exc ℤ
int_of (number n) = ok n
int_of (boolean b) = ok (if b then pos 1 else pos 0)
int_of (text s) = elim (int s) [ some n ↦ ok n | none ↦ err value_error ]
int_of _ = err (other_exception "TypeError")

abbrev is_true : Option Json → Bool
is_true (some (boolean b)) = b
is_true _ = false

abbrev error_text : (repr : Dict Json → String) → Dict Json → Option Json → String
error_text repr response none = repr response
error_text repr response (some value) = if counts value then text_of value else repr response

module _ {W : Type 0} (wire : Wire W) where
  abbrev pub response_to : VmProfile → Exchange → Result Exc (Dict Json)
  response_to p (not_connected message) = err (guest_vsock_error (connect_error p message))
  response_to p (not_sent message) = err (os_error message)
  response_to p (answered events) = read_response wire.loads p.vsock_max_response_bytes events

  unfoldable pub request : VmProfile → Payload → (timeout : ℕ) → W → Result Exc (Dict Json) × W
  unfolding read_response show_ℤ
  request p payload timeout w =
      let (exchange, w1) = wire.exchange p.vsock_cid p.vsock_port timeout (wire.dumps payload) w in
      (response_to p exchange, w1)

  unfoldable pub parse_command_response :
      (command : String) → Dict Json → (duration_ms : ℕ) → Result Exc GuestCommandResult
  parse_command_response command response duration_ms =
      let code = get "exit_code" response in
      if is_true (get "ok" response) && not (has "exit_code" response)
      then ok (record {
        command = command;
        exit_code = pos 0;
        stdout = "";
        stderr = "";
        duration_ms = duration_ms;
      })
      else elim code [
        | none ↦ err (
            guest_vsock_error (
              "Unexpected guest vsock response: "
              ++ error_text wire.repr response (get "error" response)))
        | some value ↦ int_of value >>= λ n. ok (record {
          command = command;
          exit_code = n;
          stdout = text_or_empty (get "stdout" response);
          stderr = text_or_empty (get "stderr" response);
          duration_ms = duration_ms;
        })
      ]

  -- A request with the time that it takes.
  abbrev pub timed :
      VmProfile
      → Payload
      → (command : String) → (timeout : ℕ) → W
      → Result Exc GuestCommandResult × W
  timed p payload command timeout w =
      and_then (request p payload timeout w) λ response w1.
        (parse_command_response command response (wire.now_ms w1 - wire.now_ms w), w1)

  unfoldable pub ping_guest : VmProfile → W → Result Exc GuestCommandResult × W
  unfolding request parse_command_response
  ping_guest p w = timed p ping "ping" p.vsock_connect_timeout w

  -- The timeout that is given, or the one of the profile. The wait that `wait_for_ready` asks for is
  -- never used.
  unfoldable pub run_guest_command :
      VmProfile → (command : String) → Option ℕ → W → Result Exc GuestCommandResult × W
  unfolding request parse_command_response
  run_guest_command p command none w = timed p (cmd command) command p.vsock_command_timeout w
  run_guest_command p command (some timeout) w = timed p (cmd command) command timeout w

  unfoldable pub fetch_guest_journal : VmProfile → Option ℕ → W → Result Exc GuestCommandResult × W
  unfolding run_guest_command
  fetch_guest_journal p timeout w = run_guest_command p "journalctl --no-pager -b" timeout w
