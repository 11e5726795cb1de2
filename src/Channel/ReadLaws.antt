-- ===== src/Channel/ReadLaws.antt =====
-- What is read of a response and of a file.
use mathlib.Core.List.{◌++◌ as append}
use sev_certify.Prelude.{
  ℕ, ◌+◌, ◌≤◌, ◌<◌, ◌≡◌, ◌≢◌, refl, ap, sym, ◌∙◌, String, true, false, List, [], ◌∷◌, ok, err, ltb,
  ltb→lt, ◌>>=◌, arith, Bool-cases, inl, inr, ℤ, pos, negsuc, lt_ℤ, length, length-append, Each,
  Result-cases, if◌then◌else◌,
}
use sev_certify.Prelude.Texts.{is_empty}
use sev_certify.Prelude.Bytes.{to_base64}
use sev_certify.Prelude.BytesLaws.{IsByte, base64_bytes-to_base64}
use sev_certify.Harness.World.{GuestCommandResult}
use sev_certify.Channel.Wire.{Received, part, recv_timeout, recv_error, Loaded}
use sev_certify.Channel.Request.{read_parts, prefix, exceeded, response_of, read_response}
use sev_certify.Channel.Files.{without_spaces, is_ascii, file_of}

abbrev pub joined : List (List ℕ) → List ℕ
joined [] = []
joined (bytes ∷ parts) = append bytes (joined parts)

abbrev pub NotEmpty : List ℕ → Type 0
NotEmpty bytes = bytes ≢ []

-- The response that arrives in these parts before the peer closes.
abbrev pub arriving : List (List ℕ) → List Received
arriving [] = []
arriving (bytes ∷ parts) = part bytes ∷ arriving parts

read_parts-joined :
    (max_bytes total : ℕ) (parts : List (List ℕ))
    → Each NotEmpty parts
    → total + length (joined parts) ≤ max_bytes
    → read_parts (pos max_bytes) total (arriving parts) ≡ ok (joined parts)
unfolding read_parts
read_parts-joined max_bytes total [] full fits = refl
read_parts-joined max_bytes total ([] ∷ parts) full fits = absurd (full.0 refl)
read_parts-joined max_bytes total ((b ∷ bytes) ∷ parts) full fits =
    let size = length-append (b ∷ bytes) (joined parts) in
    let rest =
      read_parts-joined max_bytes (total + length (b ∷ bytes)) parts full.1
        (omega (arith, size, fits)) in
    let small : ltb max_bytes (total + length (b ∷ bytes)) ≡ false = ground (arith, size, fits) in
    rw small (ap (prefix (b ∷ bytes)) rest)

read_parts-exceeded :
    (max_bytes total : ℕ) (parts : List (List ℕ))
    → Each NotEmpty parts
    → max_bytes < total + length (joined parts)
    → total ≤ max_bytes
    → read_parts (pos max_bytes) total (arriving parts) ≡ err (exceeded (pos max_bytes))
unfolding read_parts
read_parts-exceeded max_bytes total [] full large start = absurd (omega (arith, large, start))
read_parts-exceeded max_bytes total ([] ∷ parts) full large start = absurd (full.0 refl)
read_parts-exceeded max_bytes total ((b ∷ bytes) ∷ parts) full large start =
    let size = length-append (b ∷ bytes) (joined parts) in
    let more = total + length (b ∷ bytes) in
    elim (Bool-cases (ltb max_bytes more)) [
      | inl e ↦ rw e refl
      | inr e ↦
          let rest =
            read_parts-exceeded max_bytes more parts full.1 (omega (arith, size, large))
              (ground (arith, e)) in
          rw e (ap (prefix (b ∷ bytes)) rest)
    ]

-- However the bytes of a response are cut into parts, what is read of them before the peer closes
-- depends on the bytes alone: too many are refused, and any others are taken as the response.
pub read_response-joined :
    (loads : List ℕ → Loaded) (max_bytes : ℕ) (parts : List (List ℕ))
    → Each NotEmpty parts
    → read_response loads (pos max_bytes) (arriving parts) ≡ (
        if ltb max_bytes (length (joined parts))
        then err (exceeded (pos max_bytes))
        else response_of loads (joined parts))
unfolding read_response
read_response-joined loads max_bytes parts full =
    elim (Bool-cases (ltb max_bytes (length (joined parts)))) [
      | inl e ↦
          let read =
            read_parts-exceeded max_bytes 0 parts full
              (omega (arith, ltb→lt max_bytes (length (joined parts)) e)) (omega arith) in
          rw e (ap (λ r. r >>= response_of loads) read)
      | inr e ↦
          let read = read_parts-joined max_bytes 0 parts full (ground (arith, e)) in
          rw e (ap (λ r. r >>= response_of loads) read)
    ]

-- The same for the limit of a profile, which may be negative.
pub read_response-within :
    (loads : List ℕ → Loaded) (max_bytes : ℤ) (parts : List (List ℕ))
    → Each NotEmpty parts
    → lt_ℤ max_bytes (pos (length (joined parts))) ≡ false
    → read_response loads max_bytes (arriving parts) ≡ response_of loads (joined parts)
read_response-within loads (pos max_bytes) parts full fits =
    read_response-joined loads max_bytes parts full ∙ rw fits refl
read_response-within loads (negsuc m) parts full fits = absurd (cc fits)

-- Whatever the peer sends, no more bytes than the limit are accepted.
pub read_parts-bound :
    (max_bytes total : ℕ) (events : List Received) (bytes : List ℕ)
    → total ≤ max_bytes
    → read_parts (pos max_bytes) total events ≡ ok bytes
    → total + length bytes ≤ max_bytes
unfolding read_parts
read_parts-bound max_bytes total [] bytes start h =
    let none_read : [] ≡ bytes = cc h in omega (arith, start, ap length none_read)
read_parts-bound max_bytes total (recv_timeout ∷ events) bytes start h = absurd (cc h)
read_parts-bound max_bytes total (recv_error message ∷ events) bytes start h = absurd (cc h)
read_parts-bound max_bytes total (part [] ∷ events) bytes start h =
    let none_read : [] ≡ bytes = cc h in omega (arith, start, ap length none_read)
read_parts-bound max_bytes total (part (b ∷ bs) ∷ events) bytes start h =
    let more = total + length (b ∷ bs) in
    elim (Bool-cases (ltb max_bytes more)) [
      | inl e ↦ absurd (ground (arith, e, h))
      | inr e ↦ elim (Result-cases (read_parts (pos max_bytes) more events)) [
        | inr (raised, e1) ↦ absurd (ground (arith, e, e1, h))
        | inl (rest, e1) ↦
            let below = read_parts-bound max_bytes more events rest (ground (arith, e)) e1 in
            let whole : append (b ∷ bs) rest ≡ bytes = ground (arith, e, e1, h) in
            omega (arith, below, length-append (b ∷ bs) rest, ap length whole)
      ]
    ]

without_spaces-ascii : (s : String) → is_ascii s ≡ true → is_ascii (without_spaces s) ≡ true
without_spaces-ascii String.[] h = refl
without_spaces-ascii (String.◌∷◌ c s) h = ground (arith, without_spaces-ascii s)

nonempty_base64 : (bytes : List ℕ) → bytes ≢ [] → is_empty (to_base64 bytes) ≡ false
nonempty_base64 [] h = absurd (h refl)
nonempty_base64 (a ∷ []) h = refl
nonempty_base64 (a ∷ b ∷ []) h = refl
nonempty_base64 (a ∷ b ∷ c ∷ bytes) h = refl

-- A file that is not empty, and that the guest prints in base64 with line breaks or other white space
-- anywhere, is fetched as it is.
pub file_of-to_base64 :
    (repr : String → String) (path : String) (gcr : GuestCommandResult) (bytes : List ℕ)
    → gcr.exit_code ≡ pos 0
    → bytes ≢ []
    → Each IsByte bytes
    → is_ascii gcr.stdout ≡ true
    → without_spaces gcr.stdout ≡ to_base64 bytes
    → file_of repr path gcr ≡ ok bytes
unfolding file_of
file_of-to_base64 repr path gcr bytes exit some_bytes small ascii printed =
    let here = nonempty_base64 bytes some_bytes in
    let clean : is_ascii (to_base64 bytes) ≡ true =
      sym (ap is_ascii printed) ∙ without_spaces-ascii gcr.stdout ascii in
    let read = base64_bytes-to_base64 bytes small in
    rw (exit, printed) (rw here (rw clean (rw read refl)))
