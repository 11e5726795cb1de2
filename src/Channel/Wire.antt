-- ===== src/Channel/Wire.antt =====
-- What guest_vsock.py calls: sockets, JSON, the clock and the QEMU process.
use sev_certify.Prelude.{ℕ, ◌≤◌, ◌+◌, String, Bool, List, Option, ℤ}
use sev_certify.Prelude.Dicts.{Dict}

-- The payload of a request.
pub data Payload : Type 0 where
  ping : Payload
  cmd : String → Payload

-- A value of a response. Of an array, an object or a fraction, what `str` makes of it and whether it
-- counts as true.
pub data Json : Type 0 where
  null : Json
  boolean : Bool → Json
  number : ℤ → Json
  text : String → Json
  other_value : (as_text : String) → (counts : Bool) → Json

-- What `json.loads` makes of bytes that are decoded as UTF-8.
pub data Loaded : Type 0 where
  object : Dict Json → Loaded
  no_object not_json not_utf8 : Loaded

-- One call of `recv`: bytes, none once the peer has closed; or what it raises.
pub data Received : Type 0 where
  part : List ℕ → Received
  recv_timeout : Received
  recv_error : String → Received

-- A connection: it fails, the request cannot be sent, or `recv` is called until the end of the list,
-- where the peer has closed.
pub data Exchange : Type 0 where
  not_connected not_sent : String → Exchange
  answered : List Received → Exchange

-- Times are milliseconds. `poll` tells the exit code of the process, once it has ended.
pub record Wire (W : Type 0) : Type 0 where
  pub exchange : (cid port : ℤ) → (timeout : ℕ) → (request : List ℕ) → W → Exchange × W
  pub dumps : Payload → List ℕ
  pub loads : List ℕ → Loaded
  pub repr : Dict Json → String
  pub now_ms : W → ℕ
  pub sleep_ms : ℕ → W → W
  pub poll : (process : ℕ) → W → Option ℤ × W

-- The clock never runs backwards, and a sleep lasts as long as it says.
pub record IsClock {W : Type 0} (wire : Wire W) : Type 0 where
  pub exchanged :
      (cid port : ℤ) (timeout : ℕ) (request : List ℕ) (w : W)
      → wire.now_ms w ≤ wire.now_ms (wire.exchange cid port timeout request w).1
  pub polled : (process : ℕ) (w : W) → wire.now_ms w ≤ wire.now_ms (wire.poll process w).1
  pub slept : (ms : ℕ) (w : W) → wire.now_ms w + ms ≤ wire.now_ms (wire.sleep_ms ms w)
