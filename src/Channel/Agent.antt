-- ===== src/Channel/Agent.antt =====
-- The guest's agent, cert-agent/vsock_exec.py, and a command of the host that it serves.
use sev_certify.Prelude.{
  ℕ, ◌-◌, ◌≡◌, ◌≢◌, refl, ap, sym, ◌∙◌, and_then, String, Bool, true, false, List, [], ◌∷◌, Option,
  none, some, Result, ok, err, arith, length, Each, if◌then◌else◌, pos, lt_ℤ,
}
use sev_certify.Prelude.Texts.{is_empty, strip}
use sev_certify.Prelude.Dicts.{Dict, get}
use sev_certify.Harness.World.{CompletedProcess, Exc}
use sev_certify.Harness.Profile.{VmProfile}
use sev_certify.Channel.Wire.{
  Json, text, number, boolean, cmd, Loaded, object, no_object, not_json, not_utf8, Wire, answered,
}
use sev_certify.Channel.Request.{
  text_or_empty, request, response_to, read_response, response_of, run_guest_command,
  parse_command_response,
}
use sev_certify.Channel.ReadLaws.{joined, arriving, NotEmpty, read_response-within}

abbrev is_true : Option Json → Bool
is_true (some (boolean b)) = b
is_true _ = false

abbrev failed : (stderr error : String) → Dict Json
failed stderr error =
    ("exit_code", number (pos 1))
    ∷ ("stdout", text "")
    ∷ ("stderr", text stderr)
    ∷ ("error", text error)
    ∷ []

abbrev completed : CompletedProcess → Dict Json
completed proc =
    ("exit_code", number proc.returncode)
    ∷ ("stdout", text proc.stdout)
    ∷ ("stderr", text proc.stderr)
    ∷ []

-- `shell` runs a command, or raises; `describe` is the text of what `json.loads` or the access to its
-- value raises.
module _ {W : Type 0} (shell : String → W → Result String CompletedProcess × W)
    (describe : Loaded → String) where
  abbrev run_command : String → W → Result String (Dict Json) × W
  run_command command w =
      let (result, w1) = shell command w in
      elim result [ ok proc ↦ (ok (completed proc), w1) | err message ↦ (err message, w1) ]

  -- A request with a command, which must be a text that is not blank.
  abbrev handle_command : Option Json → W → Result String (Dict Json) × W
  handle_command (some (text command)) w =
      if is_empty (strip command)
      then (ok (failed "missing or empty cmd" "invalid request"), w)
      else run_command command w
  handle_command _ w = (ok (failed "missing or empty cmd" "invalid request"), w)

  -- `err` is the message of an exception.
  unfoldable pub handle_request : Dict Json → W → Result String (Dict Json) × W
  unfolding strip
  handle_request payload w =
      if is_true (get "ping" payload)
      then (ok (("ok", boolean true) ∷ []), w)
      else handle_command (get "cmd" payload) w

  abbrev responded : Result String (Dict Json) × W → Dict Json × W
  responded (ok response, w) = (response, w)
  responded (err message, w) = (failed message "agent failure", w)

  abbrev respond : (loaded : Loaded) → W → Dict Json × W
  respond (object payload) w = responded (handle_request payload w)
  respond no_object w = (failed (describe no_object) "agent failure", w)
  respond not_json w = (failed "invalid JSON request" "invalid request", w)
  respond not_utf8 w = (failed (describe not_utf8) "agent failure", w)

  -- One connection: `received` is what one `recv` gave, and there is no response to none.
  unfoldable pub serve_client :
      (loads : List ℕ → Loaded) → (received : List ℕ) → W → Option (Dict Json) × W
  unfolding handle_request
  serve_client loads [] w = (none, w)
  serve_client loads (b ∷ bytes) w =
      let (response, w1) = respond (loads (b ∷ bytes)) w in (some response, w1)

  served :
      (loads : List ℕ → Loaded) (received : List ℕ) (command : String) (proc : CompletedProcess)
      (response : Dict Json) (g : W)
      → loads received ≡ object (("cmd", text command) ∷ [])
      → is_empty (strip command) ≡ false
      → (shell command g).0 ≡ ok proc
      → (serve_client loads received g).0 ≡ some response
      → completed proc ≡ response
  unfolding serve_client handle_request
  served loads [] command proc response g read here ran h = absurd (cc h)
  served loads (b ∷ bytes) command proc response g read here ran h =
      ground (arith, read, here, ran, h)

or_empty-text : (s : String) → text_or_empty (some (text s)) ≡ s
or_empty-text String.[] = refl
or_empty-text (String.◌∷◌ c s) = refl

response_of-object :
    (loads : List ℕ → Loaded) (bytes : List ℕ) (response : Dict Json)
    → bytes ≢ []
    → loads bytes ≡ object response
    → response_of loads bytes ≡ ok response
response_of-object loads [] response h e = absurd (h refl)
response_of-object loads (b ∷ bytes) response h e = rw e refl

joined-full : (parts : List (List ℕ)) → Each NotEmpty parts → parts ≢ [] → joined parts ≢ []
joined-full [] full h = absurd (h refl)
joined-full ([] ∷ parts) full h = absurd (full.0 refl)
joined-full ((b ∷ bytes) ∷ parts) full h = λ e. cc e

and_then-first :
    {A B W : Type 0} (m : Result Exc A × W) (f : A → W → Result Exc B) (a : A)
    → m.0 ≡ ok a
    → (and_then m (λ x v. (f x v, v))).0 ≡ f a m.1
and_then-first (ok x, w) f a e = let same : x ≡ a = cc e in ap (λ y. f y w) same
and_then-first (err raised, w) f a e = absurd (cc e)

-- The time that a command takes, from before the connection on.
abbrev duration : {W : Type 0} → Wire W → VmProfile → (command : String) → (timeout : ℕ) → W → ℕ
duration wire p command timeout w =
    wire.now_ms (wire.exchange p.vsock_cid p.vsock_port timeout (wire.dumps (cmd command)) w).1
    - wire.now_ms w

module _ {W G : Type 0} (wire : Wire W) (shell : String → G → Result String CompletedProcess × G)
    (describe : Loaded → String) where
  parse-completed :
      (command : String) (proc : CompletedProcess) (ms : ℕ)
      → parse_command_response wire command (completed proc) ms
        ≡ ok (record {
          command = command;
          exit_code = proc.returncode;
          stdout = proc.stdout;
          stderr = proc.stderr;
          duration_ms = ms;
        })
  unfolding parse_command_response
  parse-completed command proc ms = λ i. ok (record {
    command = command;
    exit_code = proc.returncode;
    stdout = or_empty-text proc.stdout i;
    stderr = or_empty-text proc.stderr i;
    duration_ms = ms;
  })

  -- The result that the host reports for a command is that of the guest's shell: where the agent reads
  -- the request back as the command, which is not blank and which the shell runs, and the host reads
  -- the response, which arrives in any parts and within the limit, back as the agent's.
  pub run_guest_command-served :
      (p : VmProfile) (command : String) (timeout : ℕ) (w : W) (g : G) (proc : CompletedProcess)
      (loads : List ℕ → Loaded) (received : List ℕ) (response : Dict Json) (parts : List (List ℕ))
      → loads received ≡ object (("cmd", text command) ∷ [])
      → is_empty (strip command) ≡ false
      → (shell command g).0 ≡ ok proc
      → (serve_client shell describe loads received g).0 ≡ some response
      → (wire.exchange p.vsock_cid p.vsock_port timeout (wire.dumps (cmd command)) w).0
        ≡ answered (arriving parts)
      → Each NotEmpty parts
      → parts ≢ []
      → lt_ℤ p.vsock_max_response_bytes (pos (length (joined parts))) ≡ false
      → wire.loads (joined parts) ≡ object response
      → (run_guest_command wire p command (some timeout) w).0
        ≡ ok (record {
          command = command;
          exit_code = proc.returncode;
          stdout = proc.stdout;
          stderr = proc.stderr;
          duration_ms = duration wire p command timeout w;
        })
  unfolding run_guest_command request
  run_guest_command-served p command timeout w g proc loads received response parts read here ran
        answer sent full some_parts fits loaded =
      let same =
        served shell describe loads received command proc response g read here ran answer in
      let bytes = joined-full parts full some_parts in
      let read_ok : read_response wire.loads p.vsock_max_response_bytes (arriving parts)
          ≡ ok response =
        read_response-within wire.loads p.vsock_max_response_bytes parts full fits
        ∙ (response_of-object wire.loads (joined parts) response bytes loaded) in
      let requested : (request wire p (cmd command) timeout w).0 ≡ ok response =
        ap (response_to wire p) sent ∙ read_ok in
      and_then-first (request wire p (cmd command) timeout w)
        (λ r v. parse_command_response wire command r (wire.now_ms v - wire.now_ms w)) response
        requested
      ∙ ap (λ r. parse_command_response wire command r (duration wire p command timeout w))
          (sym same)
      ∙ parse-completed command proc (duration wire p command timeout w)
