-- ===== src/Launch/ValidateLaws.antt =====
-- Which profiles are accepted.
use sev_certify.Prelude.{
  ℕ, zero, suc, ℤ, pos, negsuc, is_positive, lt_ℤ, length, ap, ◌≤◌, ◌<◌, ◌≡◌, ◌↔◌, refl, String,
  Bool, true, false, not, List, [], ◌∷◌, Option, none, some, Result, ok, err, ◌>>◌, arith, inl, inr,
  Bool-cases, Option-cases, ◌==◌, any,
}
use sev_certify.Harness.Profile.{VmProfile}
use sev_certify.Launch.HostData.{
  ProfileError, image_not_found, memory_not_positive, cid_too_small, port_out_of_range,
  response_not_positive, validate_host_data, decode_host_data, check_size,
}
use sev_certify.Launch.Validate.{
  require, found_or, forget, path_text, default_ovmf_candidates, find_ovmf_path, first_file,
  resolved_ovmf_path, check_host_data, in_range, validate,
}

-- Where the firmware is: at the path given, or at one of the three default places.
abbrev pub HasOvmf : (String → Bool) → Option String → Type 0
HasOvmf is_file none = any is_file default_ovmf_candidates ≡ true
HasOvmf is_file (some String.[]) = any is_file default_ovmf_candidates ≡ true
HasOvmf is_file (some (String.◌∷◌ c path)) = is_file (String.◌∷◌ c path) ≡ true

abbrev pub HasHostData : Option String → Type 0
HasHostData none = Unit
HasHostData (some host_data) =
    (bytes : List ℕ) × (decode_host_data host_data ≡ ok bytes) × (length bytes ≡ 32)

pub record IsLaunchable (is_file : String → Bool) (p : VmProfile) : Type 0 where
  pub image : is_file p.image_path ≡ true
  pub host_data : HasHostData p.host_data
  pub memory : (n : ℕ) × (p.memory_mb ≡ pos (suc n))
  pub cid : (n : ℕ) × (p.vsock_cid ≡ pos n) × (3 ≤ n)
  pub port : (n : ℕ) × (p.vsock_port ≡ pos n) × (1 ≤ n) × (n < 4294967296)
  pub response : (n : ℕ) × (p.vsock_max_response_bytes ≡ pos (suc n))
  pub ovmf : HasOvmf is_file p.ovmf_path

first_file_iff :
    (is_file : String → Bool) (paths : List String)
    → any is_file paths ≡ true
    → (path : String) × (first_file is_file paths ≡ some path)
unfolding first_file
first_file_iff is_file [] h = absurd (cc h)
first_file_iff is_file (path ∷ paths) h = elim (Bool-cases (is_file path)) [
  | inl e ↦ (path, rw e refl)
  | inr e ↦
      let (found, later) = first_file_iff is_file paths (ground (arith, e, h)) in
      (found, rw e later)
]

first_file-none :
    (is_file : String → Bool) (paths : List String)
    → any is_file paths ≡ false
    → first_file is_file paths ≡ none
unfolding first_file
first_file-none is_file [] h = refl
first_file-none is_file (path ∷ paths) h = ground (arith, first_file-none is_file paths)

default_ovmf :
    (is_file : String → Bool)
    → (any is_file default_ovmf_candidates ≡ true)
      ↔ ((path : String) × (find_ovmf_path is_file ≡ some path))
unfolding find_ovmf_path
default_ovmf is_file = (
  first_file_iff is_file default_ovmf_candidates,
  λ h. elim (Bool-cases (any is_file default_ovmf_candidates)) [
    | inl e ↦ e
    | inr e ↦ absurd (cc (first_file-none is_file default_ovmf_candidates e, h.1))
  ],
)

default_resolved :
    (is_file : String → Bool)
    → (any is_file default_ovmf_candidates ≡ true)
      ↔ ((path : String) × (found_or (find_ovmf_path is_file) ≡ ok path))
default_resolved is_file =
    let found = default_ovmf is_file in
    (
      λ h. let (path, e) = found.0 h in (path, rw e refl),
      λ h. elim (Option-cases (find_ovmf_path is_file)) [
        | inl e ↦ absurd (ground (arith, e, h.1))
        | inr e ↦ found.1 e
      ],
    )

pub resolved_ovmf_path-HasOvmf :
    (is_file : String → Bool) (ovmf_path : Option String)
    → HasOvmf is_file ovmf_path
      ↔ ((path : String) × (resolved_ovmf_path is_file ovmf_path ≡ ok path))
unfolding resolved_ovmf_path
resolved_ovmf_path-HasOvmf is_file none = default_resolved is_file
resolved_ovmf_path-HasOvmf is_file (some String.[]) = default_resolved is_file
resolved_ovmf_path-HasOvmf is_file (some (String.◌∷◌ c path)) =
    elim (Bool-cases (is_file (String.◌∷◌ c path))) [
      | inl e ↦ (λ h. (path_text (String.◌∷◌ c path), rw e refl), λ h. e)
      | inr e ↦ (λ h. absurd (cc (e, h)), λ h. absurd (ground (arith, e, h.1)))
    ]

check_size-length :
    (decoded : Result ProfileError (List ℕ))
    → (check_size decoded ≡ ok tt) ↔ ((bytes : List ℕ) × (decoded ≡ ok bytes) × (length bytes ≡ 32))
check_size-length (err e) = (λ h. absurd (cc h), λ h. absurd (cc h.1))
check_size-length (ok bytes) = elim (Bool-cases (length bytes == 32)) [
  | inl e ↦ (λ h. (bytes, refl, ground (arith, e)), λ h. rw e refl)
  | inr e ↦ (
    λ h. absurd (cc (e, h)),
    λ h. let same : h.0 ≡ bytes = cc h.1 in absurd (ground (arith, e, h.2, ap length same)),
  )
]

check_host_data-HasHostData :
    (host_data : Option String) → (check_host_data host_data ≡ ok tt) ↔ HasHostData host_data
unfolding validate_host_data
check_host_data-HasHostData none = (λ h. tt, λ h. refl)
check_host_data-HasHostData (some host_data) = check_size-length (decode_host_data host_data)

-- The checks of the integers, also of the negative ones.
is_positive_iff : (x : ℤ) → (is_positive x ≡ true) ↔ ((n : ℕ) × (x ≡ pos (suc n)))
is_positive_iff (pos zero) = (λ h. absurd (cc h), λ h. absurd (ground (arith, h.1)))
is_positive_iff (pos (suc n)) = (λ h. (n, refl), λ h. refl)
is_positive_iff (negsuc n) = (λ h. absurd (cc h), λ h. absurd (ground (arith, h.1)))

cid_iff : (x : ℤ) → (not (lt_ℤ x (pos 3)) ≡ true) ↔ ((n : ℕ) × (x ≡ pos n) × (3 ≤ n))
cid_iff (pos m) = (
  λ h. (m, refl, ground (arith, h)),
  λ h. let same : m ≡ h.0 = ground (arith, h.1) in ground (arith, same, h.2),
)
cid_iff (negsuc m) = (λ h. absurd (cc h), λ h. absurd (ground (arith, h.1)))

port_iff : (x : ℤ) → (in_range x ≡ true) ↔ ((n : ℕ) × (x ≡ pos n) × (1 ≤ n) × (n < 4294967296))
port_iff (pos m) = (
  λ h. (m, refl, ground (arith, h), ground (arith, h)),
  λ h. let same : m ≡ h.0 = ground (arith, h.1) in ground (arith, same, h.2, h.3),
)
port_iff (negsuc m) = (λ h. absurd (cc h), λ h. absurd (ground (arith, h.1)))

forget-ok :
    (r : Result ProfileError String) → (forget r ≡ ok tt) ↔ ((path : String) × (r ≡ ok path))
forget-ok (ok path) = (λ h. (path, refl), λ h. refl)
forget-ok (err e) = (λ h. absurd (cc h), λ h. absurd (cc h.1))

-- The chain of the checks ends well exactly if each of them does.
all_required :
    (image : Bool) (host_data : Result ProfileError (Unit {0})) (memory cid port response : Bool)
    (ovmf : Result ProfileError (Unit {0})) (e0 e1 e2 e3 e4 : ProfileError)
    → ((do
      require image e0
      host_data
      require memory e1
      require cid e2
      require port e3
      require response e4
      ovmf)
        ≡ ok tt)
      ↔ ((image ≡ true)
          × (host_data ≡ ok tt)
          × (memory ≡ true)
          × (cid ≡ true)
          × (port ≡ true)
          × (response ≡ true)
          × (ovmf ≡ ok tt))
all_required true (ok done) true true true true ovmf e0 e1 e2 e3 e4 =
    (λ h. (refl, refl, refl, refl, refl, refl, h), λ h. h.6)
all_required false host_data memory cid port response ovmf e0 e1 e2 e3 e4 =
    (λ h. absurd (cc h), λ h. absurd (cc h.0))
all_required true (err e) memory cid port response ovmf e0 e1 e2 e3 e4 =
    (λ h. absurd (cc h), λ h. absurd (cc h.1))
all_required true (ok done) false cid port response ovmf e0 e1 e2 e3 e4 =
    (λ h. absurd (cc h), λ h. absurd (cc h.2))
all_required true (ok done) true false port response ovmf e0 e1 e2 e3 e4 =
    (λ h. absurd (cc h), λ h. absurd (cc h.3))
all_required true (ok done) true true false response ovmf e0 e1 e2 e3 e4 =
    (λ h. absurd (cc h), λ h. absurd (cc h.4))
all_required true (ok done) true true true false ovmf e0 e1 e2 e3 e4 =
    (λ h. absurd (cc h), λ h. absurd (cc h.5))

-- A profile is accepted exactly if its image is a file, its host data decodes to 32 bytes, its memory
-- and its response limit are positive, its CID is 3 or more, its port lies between 1 and 2 ^ 32 - 1, and
-- the firmware is found.
pub validate-IsLaunchable :
    (is_file : String → Bool) (p : VmProfile)
    → (validate is_file p ≡ ok tt) ↔ IsLaunchable is_file p
unfolding validate
validate-IsLaunchable is_file p =
    let checks =
      all_required (is_file p.image_path) (check_host_data p.host_data) (is_positive p.memory_mb)
        (not (lt_ℤ p.vsock_cid (pos 3))) (in_range p.vsock_port)
        (is_positive p.vsock_max_response_bytes) (forget (resolved_ovmf_path is_file p.ovmf_path))
        (image_not_found p.image_path) memory_not_positive (cid_too_small p.vsock_cid)
        (port_out_of_range p.vsock_port) response_not_positive in
    let host_data = check_host_data-HasHostData p.host_data in
    let memory = is_positive_iff p.memory_mb in
    let cid = cid_iff p.vsock_cid in
    let port = port_iff p.vsock_port in
    let response = is_positive_iff p.vsock_max_response_bytes in
    let found = resolved_ovmf_path-HasOvmf is_file p.ovmf_path in
    let resolved = forget-ok (resolved_ovmf_path is_file p.ovmf_path) in
    (
      λ h.
          let c = checks.0 h in
          record {
            image = c.0;
            host_data = host_data.0 c.1;
            memory = memory.0 c.2;
            cid = cid.0 c.3;
            port = port.0 c.4;
            response = response.0 c.5;
            ovmf = found.1 (resolved.0 c.6);
          },
      λ l. checks.1 (
        l.image,
        host_data.1 l.host_data,
        memory.1 l.memory,
        cid.1 l.cid,
        port.1 l.port,
        response.1 l.response,
        resolved.1 (found.0 l.ovmf),
      ),
    )
