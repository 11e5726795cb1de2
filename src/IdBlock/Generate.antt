-- ===== src/IdBlock/Generate.antt =====
-- cvm_props.py: the steps that compute a measurement and generate an ID block.
use Prim.Native.String.{◌++◌}
use sev_certify.Prelude.{
  ℕ, String, Bool, List, [], ◌∷◌, Option, none, some, Result, ok, err, and_then, ℤ, pos, eq_ℤ,
  if◌then◌else◌,
}
use sev_certify.Prelude.Texts.{strip}
use sev_certify.Prelude.Quoting.{shell_join}
use sev_certify.Prelude.Decimal.{show_ℕ, hex}
use sev_certify.Prelude.Bytes.{take_text}
use sev_certify.Models.Definitions.{StepHandlerResult}
use sev_certify.Harness.World.{Exc, os_error, CompletedProcess}
use sev_certify.Harness.Profile.{VmProfile, int_policy}
use sev_certify.Launch.HostData.{ProfileError}
use sev_certify.Launch.Validate.{resolved_ovmf_path}
use sev_certify.IdBlock.Metadata.{MetadataError, IdBlockMetadata, read_id_block_metadata}
use sev_certify.IdBlock.Measurement.{MeasurementError, measurement_missing, read_measurement}

-- The processes, files and environment that the steps use, the two key files of a temporary directory,
-- and the texts of the errors.
pub record Bench (W : Type 0) : Type 0 where
  pub run : List String → W → Result Exc CompletedProcess × W
  pub is_file : String → W → Bool
  pub read_text : String → W → Option String
  pub environ : String → Option String
  pub new_keys : W → (String × String) × W
  pub profile_text : ProfileError → String
  pub metadata_text : MetadataError → String
  pub measurement_text : MeasurementError → String

-- `ctx.profile` and the world.
pub record Bound (W : Type 0) : Type 0 where
  pub profile : VmProfile
  pub world : W

abbrev pub Ran : Type 0 → Type 0
Ran W = Result Exc StepHandlerResult × Bound W

abbrev pub failure : ℤ → (stdout stderr : String) → Option String → StepHandlerResult
failure exit_code stdout stderr command = record {
  exit_code = exit_code;
  stdout = stdout;
  stderr = stderr;
  command = command;
}

abbrev pub success : String → Option String → StepHandlerResult
success stdout command = record {
  exit_code = pos 0;
  stdout = stdout;
  stderr = "";
  command = command;
}

-- `policy` of the profile and the two blocks: `replace(ctx.profile, ...)`.
abbrev pub with_id_block : VmProfile → (id_block id_auth : String) → (policy : ℕ) → VmProfile
with_id_block p id_block id_auth policy = record p {
  id_block = some id_block;
  id_auth = some id_auth;
  policy = some (int_policy policy);
}

module _ {W : Type 0} (b : Bench W) where
  abbrev pub run_here : List String → Bound W → Result Exc CompletedProcess × Bound W
  run_here args s = let (result, w) = b.run args s.world in (result, record s { world = w })

  -- `path.read_text().strip()`.
  abbrev pub read_stripped : String → Bound W → Result Exc String × Bound W
  read_stripped path s = elim (b.read_text path s.world) [
    | none ↦ (err (os_error path), s)
    | some text ↦ (ok (strip text), s)
  ]

  abbrev measurement_args : (ovmf guest_path measurement_file : String) → List String
  measurement_args ovmf guest_path measurement_file =
      "snpguest" ∷ "generate" ∷ "measurement" ∷ "--vcpu-type" ∷ "EPYC-v4" ∷ "--ovmf" ∷ ovmf
      ∷ "--kernel" ∷ guest_path ∷ "--output-format" ∷ "hex" ∷ "--measurement-file"
      ∷ measurement_file ∷ []

  abbrev measured :
      (args : List String) → (measurement_file : String) → CompletedProcess → Bound W → Ran W
  measured args measurement_file result s =
      if eq_ℤ result.returncode (pos 0)
      then and_then (read_stripped measurement_file s) (λ measurement s1.
        (ok (success ("Measurement: " ++ measurement) (some (shell_join args))), s1))
      else (ok (failure result.returncode result.stdout result.stderr (some (shell_join args))), s)

  unfoldable pub calculate_measurement : (artifact_dir guest_path : String) → Bound W → Ran W
  unfolding strip resolved_ovmf_path
  calculate_measurement artifact_dir guest_path s =
      let measurement_file = artifact_dir ++ "/guest_measurement.txt" in
      elim (resolved_ovmf_path (λ path. b.is_file path s.world) s.profile.ovmf_path) [
        | err e ↦ (ok (failure (pos 1) "" (b.profile_text e) none), s)
        | ok ovmf ↦
            let args = measurement_args ovmf guest_path measurement_file in
            and_then (run_here args s) (measured args measurement_file)
      ]

  abbrev pub id_block_args :
      (keys : String × String)
      → (measurement : String) → IdBlockMetadata
      → (policy : ℕ) → (id_file auth_file : String) → List String
  id_block_args keys measurement meta policy id_file auth_file =
      "snpguest"
      ∷ "generate"
      ∷ "id-block"
      ∷ keys.0
      ∷ keys.1
      ∷ measurement
      ∷ "--family-id"
      ∷ meta.family_id
      ∷ "--image-id"
      ∷ meta.image_id
      ∷ "--svn"
      ∷ show_ℕ meta.guest_svn
      ∷ "--policy"
      ∷ hex policy
      ∷ "--id-file"
      ∷ id_file
      ∷ "--auth-file"
      ∷ auth_file
      ∷ []

  -- `snpguest` with fresh keys.
  abbrev pub with_keys : Bound W → (String × String) × Bound W
  with_keys s = let (keys, w) = b.new_keys s.world in (keys, record s { world = w })

  -- Behind a successful `snpguest`: the two files become part of the profile.
  abbrev pub adopt :
      (id_file auth_file : String) → (policy : ℕ) → StepHandlerResult → Bound W → Ran W
  adopt id_file auth_file policy result s = and_then (read_stripped id_file s) λ id_block s1.
      and_then (read_stripped auth_file s1) λ id_auth s2.
        (ok result, record s2 { profile = with_id_block s2.profile id_block id_auth policy })

  abbrev generated_text : (measurement : String) → IdBlockMetadata → String
  generated_text measurement meta =
      "Generated ID block for measurement "
      ++ (take_text 16 measurement
          ++ ("...\n  family_id="
              ++ (meta.family_id
                  ++ (" image_id="
                      ++ (meta.image_id
                          ++ (" svn="
                              ++ (show_ℕ meta.guest_svn ++ (" policy=" ++ hex meta.policy))))))))

  abbrev pub generated :
      (artifact_dir : String)
      → (args : List String) → (measurement : String) → IdBlockMetadata
      → CompletedProcess
      → Bound W
      → Ran W
  generated artifact_dir args measurement meta result s =
      if eq_ℤ result.returncode (pos 0)
      then adopt (artifact_dir ++ "/id-block.b64") (artifact_dir ++ "/id-auth.b64") meta.policy
          (success (generated_text measurement meta) (some (shell_join args))) s
      else (ok (failure result.returncode result.stdout result.stderr (some (shell_join args))), s)

  abbrev pub generate_with :
      (artifact_dir : String) → IdBlockMetadata → Result MeasurementError String → Bound W → Ran W
  generate_with artifact_dir meta (err measurement_missing) s = (
    ok (
        success
          ("INFO: "
            ++ (b.measurement_text measurement_missing ++ " — skipping ID block generation"))
          none),
    s,
  )
  generate_with artifact_dir meta (err e) s =
      (ok (failure (pos 1) "" (b.measurement_text e) none), s)
  generate_with artifact_dir meta (ok measurement) s =
      let (keys, s1) = with_keys s in
      let args =
        id_block_args keys ("0x" ++ measurement) meta meta.policy (artifact_dir ++ "/id-block.b64")
          (artifact_dir ++ "/id-auth.b64") in
      and_then (run_here args s1) (generated artifact_dir args measurement meta)

  abbrev pub measurement_of : (artifact_dir : String) → Bound W → Result MeasurementError String
  measurement_of artifact_dir s =
      read_measurement (b.read_text (artifact_dir ++ "/guest_measurement.txt") s.world)

  unfoldable pub generate_id_block : (artifact_dir : String) → Bound W → Ran W
  unfolding read_measurement read_id_block_metadata show_ℕ hex strip
  generate_id_block artifact_dir s = elim (read_id_block_metadata b.environ) [
    | err e ↦ (ok (failure (pos 1) "" (b.metadata_text e) none), s)
    | ok meta ↦ generate_with artifact_dir meta (measurement_of artifact_dir s) s
  ]
