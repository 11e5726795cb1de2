-- ===== src/IdBlock/FrameLaws.antt =====
-- What the steps around an ID block change of the profile that the guest is launched with.
use Prim.Native.String.{◌++◌}
use sev_certify.Prelude.{
  ℕ, ◌≡◌, refl, ap, String, true, List, none, Result, ok, err, and_then, pos, eq_ℤ, eq_ℤ_iff, arith,
  Option-cases, Result-cases, inl, inr, ◌⊎◌, if_cases,
}
use sev_certify.Prelude.Texts.{strip}
use sev_certify.Models.Definitions.{StepHandlerResult}
use sev_certify.Harness.World.{CompletedProcess}
use sev_certify.Harness.Profile.{VmProfile}
use sev_certify.IdBlock.Metadata.{IdBlockMetadata, read_id_block_metadata}
use sev_certify.IdBlock.Measurement.{
  MeasurementError, measurement_missing, wrong_length, non_hex, flipped, bad_policy,
}
use sev_certify.IdBlock.Generate.{
  Bench, Bound, Ran, success, failure, id_block_args, with_id_block, run_here, with_keys, adopt,
  generated, generate_with, measurement_of, generate_id_block,
}
use sev_certify.IdBlock.Negative.{
  regenerated, regenerate_with, regenerate_id_block, told, with_both, set_bad_measurement,
  set_bad_abi_version,
}

-- The profile is as it was; or the handler succeeded, and the profile has another ID block and this
-- policy, and is otherwise as it was.
abbrev pub Frames : {W : Type 0} → VmProfile → (policy : ℕ) → Ran W → Type 0
Frames p policy ran =
    (ran.1.profile ≡ p)
    ⊎ ((id_block : String) × (id_auth : String) × (ran.1.profile
          ≡ with_id_block p id_block id_auth policy)
        × (r : StepHandlerResult) × (ran.0 ≡ ok r)
        × (r.exit_code ≡ pos 0))

module _ {W : Type 0} (b : Bench W) where
  adopt-Frames :
      (id_file auth_file : String) (policy : ℕ) (result : StepHandlerResult) (s : Bound W)
      → result.exit_code ≡ pos 0
      → Frames s.profile policy (adopt b id_file auth_file policy result s)
  adopt-Frames id_file auth_file policy result s zero =
      elim (Option-cases (b.read_text id_file s.world)) [
        | inl e ↦ inl (ground (arith, e))
        | inr (id_block, e) ↦ elim (Option-cases (b.read_text auth_file s.world)) [
          | inl e1 ↦ inl (ground (arith, e, e1))
          | inr (id_auth, e1) ↦ inr (
            strip id_block,
            strip id_auth,
            ground (arith, e, e1),
            result,
            ground (arith, e, e1),
            zero,
          )
        ]
      ]

  -- A process changes the world alone.
  ran-Frames :
      (args : List String) (policy : ℕ) (s : Bound W) (next : CompletedProcess → Bound W → Ran W)
      → ((result : CompletedProcess) (s1 : Bound W) → Frames s1.profile policy (next result s1))
      → Frames s.profile policy (and_then (run_here b args s) next)
  ran-Frames args policy s next h = elim (Result-cases (b.run args s.world).0) [
    | inr (raised, e) ↦ inl (ground (arith, e))
    | inl (result, e) ↦
        let s1 : Bound W = record s { world = (b.run args s.world).1 } in
        let same : and_then (run_here b args s) next ≡ next result s1 =
          ap (λ r. and_then (r, s1) next) e in
        coe 1 0 (i. Frames s.profile policy (same i)) (h result s1)
  ]

  generated-Frames :
      (artifact_dir : String) (args : List String) (measurement : String) (meta : IdBlockMetadata)
      (result : CompletedProcess) (s : Bound W)
      → Frames s.profile meta.policy (generated b artifact_dir args measurement meta result s)
  generated-Frames artifact_dir args measurement meta result s =
      if_cases (Frames s.profile meta.policy) (eq_ℤ result.returncode (pos 0))
        (λ e. adopt-Frames _ _ meta.policy _ s refl) (λ e. inl refl)

  generate_with-Frames :
      (artifact_dir : String) (meta : IdBlockMetadata) (m : Result MeasurementError String)
      (s : Bound W)
      → Frames s.profile meta.policy (generate_with b artifact_dir meta m s)
  generate_with-Frames artifact_dir meta (err measurement_missing) s = inl refl
  generate_with-Frames artifact_dir meta (err (wrong_length n)) s = inl refl
  generate_with-Frames artifact_dir meta (err non_hex) s = inl refl
  generate_with-Frames artifact_dir meta (ok measurement) s =
      let args =
        id_block_args b (with_keys b s).0 ("0x" ++ measurement) meta meta.policy
          (artifact_dir ++ "/id-block.b64") (artifact_dir ++ "/id-auth.b64") in
      ran-Frames args meta.policy (with_keys b s).1 (generated b artifact_dir args measurement meta)
        (generated-Frames artifact_dir args measurement meta)

  regenerated-Frames :
      (artifact_dir : String) (args : List String) (policy : ℕ) (result : CompletedProcess)
      (s : Bound W)
      → Frames s.profile policy (regenerated b artifact_dir args policy result s)
  regenerated-Frames artifact_dir args policy result s =
      if_cases (Frames s.profile policy) (eq_ℤ result.returncode (pos 0))
        (λ e. adopt-Frames _ _ policy _ s refl) (λ e. inl refl)

  regenerate_with-Frames :
      (artifact_dir measurement : String) (policy : ℕ) (meta : IdBlockMetadata) (s : Bound W)
      → Frames s.profile policy (regenerate_with b artifact_dir measurement policy meta s)
  regenerate_with-Frames artifact_dir measurement policy meta s =
      let args =
        id_block_args b (with_keys b s).0 measurement meta policy
          (artifact_dir ++ "/neg-id-block.b64") (artifact_dir ++ "/neg-id-auth.b64") in
      ran-Frames args policy (with_keys b s).1 (regenerated b artifact_dir args policy)
        (regenerated-Frames artifact_dir args policy)

  regenerate_id_block-Frames :
      (artifact_dir measurement : String) (policy : ℕ) (s : Bound W)
      → Frames s.profile policy (regenerate_id_block b artifact_dir measurement policy s)
  unfolding regenerate_id_block
  regenerate_id_block-Frames artifact_dir measurement policy s =
      elim (Result-cases (read_id_block_metadata b.environ)) [
        | inr (e, failed) ↦ inl (ground (arith, failed))
        | inl (meta, read) ↦
            coe 1 0
              (i. Frames s.profile policy (elim (read i) [
                | err e ↦ (ok (failure (pos 1) "" (b.metadata_text e) none), s)
                | ok meta ↦ regenerate_with b artifact_dir measurement policy meta s
              ]))
              (regenerate_with-Frames artifact_dir measurement policy meta s)
      ]

  told-Frames :
      (p : VmProfile) (policy : ℕ) (stdout : String) (ran : Ran W)
      → Frames p policy ran
      → Frames p policy (and_then ran (λ hr s1. (ok (told b stdout hr), s1)))
  told-Frames p policy stdout (err e, s) (inl same) = inl same
  told-Frames p policy stdout (ok hr, s) (inl same) = inl same
  told-Frames p policy stdout (err e, s) (inr (x, y, changed, r, h, zero)) = absurd (cc h)
  told-Frames p policy stdout (ok hr, s) (inr (x, y, changed, r, h, zero)) =
      let exit : eq_ℤ hr.exit_code (pos 0) ≡ true =
        (eq_ℤ_iff hr.exit_code (pos 0)).1 (cc (h, zero)) in
      inr (x, y, changed, success stdout none, ground (arith, exit), refl)

  -- Generating an ID block changes the profile that the guest is launched with only where it succeeds,
  -- and then the ID block and the policy alone, to the policy of the environment.
  pub generate_id_block-Frames :
      (artifact_dir : String) (meta : IdBlockMetadata) (s : Bound W)
      → read_id_block_metadata b.environ ≡ ok meta
      → Frames s.profile meta.policy (generate_id_block b artifact_dir s)
  unfolding generate_id_block
  generate_id_block-Frames artifact_dir meta s read =
      let m = measurement_of b artifact_dir s in
      coe 1 0
        (i. Frames s.profile meta.policy (elim (read i) [
          | err e ↦ (ok (failure (pos 1) "" (b.metadata_text e) none), s)
          | ok meta ↦ generate_with b artifact_dir meta m s
        ]))
        (generate_with-Frames artifact_dir meta m s)

  with_both-Frames :
      (policy : ℕ) (m : Result MeasurementError String) (meta : IdBlockMetadata)
      (next : String → IdBlockMetadata → Bound W → Ran W) (s : Bound W)
      → read_id_block_metadata b.environ ≡ ok meta
      → ((measurement : String) → Frames s.profile policy (next measurement meta s))
      → Frames s.profile policy (with_both b m next s)
  with_both-Frames policy (err e) meta next s read h = inl refl
  with_both-Frames policy (ok measurement) meta next s read h =
      coe 1 0
        (i. Frames s.profile policy (elim (read i) [
          | err e ↦ (ok (failure (pos 1) "" (b.metadata_text e) none), s)
          | ok meta ↦ next measurement meta s
        ]))
        (h measurement)

  -- The corrupted measurement and the ABI version that no firmware has leave the profile as it was, or
  -- change its ID block and its policy alone: to the policy of the environment, and to that policy with
  -- its ABI version replaced.
  pub negative-Frames :
      (artifact_dir : String) (meta : IdBlockMetadata) (s : Bound W)
      → read_id_block_metadata b.environ ≡ ok meta
      → Frames s.profile meta.policy (set_bad_measurement b artifact_dir s)
        × Frames s.profile (bad_policy meta.policy) (set_bad_abi_version b artifact_dir s)
  unfolding set_bad_measurement set_bad_abi_version
  negative-Frames artifact_dir meta s read =
      let m = measurement_of b artifact_dir s in
      (
        with_both-Frames meta.policy m meta _ s read (λ real.
            told-Frames s.profile meta.policy _ _
              (regenerate_id_block-Frames artifact_dir ("0x" ++ flipped real) meta.policy s)),
        with_both-Frames (bad_policy meta.policy) m meta _ s read (λ measurement.
            told-Frames s.profile (bad_policy meta.policy) _ _ (
              regenerate_id_block-Frames artifact_dir ("0x" ++ measurement) (bad_policy meta.policy)
                s)),
      )
