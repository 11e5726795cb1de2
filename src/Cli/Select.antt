-- ===== src/Cli/Select.antt =====
-- cli.py: the version filters: `_parse_version_filters`, `_manifest_version`, `_matches_level`,
-- `_filter_tests` and `discover_manifests`. A path is its text; the file system is a parameter.
use Prim.Native.String.{◌++◌}
use sev_certify.Prelude.{
  String, Bool, true, false, ◌&&◌, not, List, [], ◌∷◌, if◌then◌else◌, str_eq, starts_with, any,
  take, map,
}
use mathlib.Core.List
use sev_certify.Prelude.Texts.{is_empty, contains, split, strip, replace_char}
use sev_certify.Models.Definitions.{CertificationDefinition, member}

abbrev pub keep {ℓ} : {A : Type ℓ} → (A → Bool) → List A → List A
keep p [] = []
keep p (x ∷ xs) = if p x then x ∷ keep p xs else keep p xs

-- The parts of one `-v` value, without blanks and without empty parts.
unfoldable pub parse_parts : List String → List String
parse_parts [] = []
parse_parts (part ∷ parts) =
    if is_empty (strip part) then parse_parts parts else strip part ∷ parse_parts parts

unfoldable pub parse_version_filters : List String → List String
unfolding parse_parts
parse_version_filters [] = []
parse_version_filters (entry ∷ raw) =
    List.◌++◌ (parse_parts (split b',' entry)) (parse_version_filters raw)

-- `".".join(parts)` of at most two parts, of which there is always one.
abbrev join_dot : List String → String
join_dot [] = ""
join_dot (a ∷ []) = a
join_dot (a ∷ b ∷ parts) = a ++ ("." ++ b)

unfoldable pub manifest_version : String → String
manifest_version version_filter = join_dot (take 2 (split b'.' version_filter))

unfoldable pub matches_level : String → String → Bool
matches_level test_level version_filter =
    if is_empty test_level
    then false
    else if str_eq version_filter test_level
    then true
    else not (contains "-" version_filter) && starts_with test_level (version_filter ++ "-")

abbrev pub is_nil {ℓ} : {A : Type ℓ} → List A → Bool
is_nil [] = true
is_nil (x ∷ xs) = false

-- The copy goes through `__post_init__` again; the levels are those of the manifest, which is why it
-- accepts the copy.
unfoldable pub filter_tests : CertificationDefinition → List String → CertificationDefinition
unfolding matches_level
filter_tests cert level_filters = if is_nil level_filters then cert else record cert {
  tests = keep (λ t. any (λ f. matches_level t.level f) level_filters) cert.tests;
}

-- `per_manifest.setdefault(mv, []).append(vf)`.
unfoldable pub add_filter :
    String → String → List (String × List String) → List (String × List String)
add_filter mv vf [] = (mv, vf ∷ []) ∷ []
add_filter mv vf ((k, fs) ∷ entries) =
    if str_eq k mv
    then (k, List.◌++◌ fs (vf ∷ [])) ∷ entries
    else (k, fs) ∷ add_filter mv vf entries

-- `per_manifest.get(mv, [])`.
unfoldable pub filters_of : String → List (String × List String) → List String
filters_of mv [] = []
filters_of mv ((k, fs) ∷ entries) = if str_eq k mv then fs else filters_of mv entries

-- `run_all` and `per_manifest`.
pub record Groups : Type 0 where
  pub run_all : List String
  pub per_manifest : List (String × List String)

unfoldable pub add_group : Groups → String → Groups
unfolding manifest_version add_filter
add_group g vf =
    let mv = manifest_version vf in
    if str_eq vf mv
    then record g { run_all = List.◌++◌ g.run_all (mv ∷ []) }
    else record g { per_manifest = add_filter mv vf g.per_manifest }

unfoldable pub group_filters : Groups → List String → Groups
unfolding add_group
group_filters g [] = g
group_filters g (vf ∷ vfs) = group_filters (add_group g vf) vfs

-- `dict.fromkeys(versions)`.
unfoldable pub distinct_from : List String → List String → List String
distinct_from seen [] = []
distinct_from seen (v ∷ vs) =
    if member v seen then distinct_from seen vs else v ∷ distinct_from (v ∷ seen) vs

abbrev pub manifest_path : String → String → String
manifest_path cert_dir mv = cert_dir ++ ("/c" ++ (replace_char b'.' "_" mv ++ "/manifest.toml"))

-- What is on the disk: whether the directory and a file exist, and the sorted manifests.
pub record Disk : Type 0 where
  pub is_dir : String → Bool
  pub exists : String → Bool
  pub all_manifests : String → List String

module _ (disk : Disk) (cert_dir : String) where
  unfoldable pub find_manifests : Groups → List String → List (String × List String)
  unfolding filters_of
  find_manifests g [] = []
  find_manifests g (mv ∷ mvs) =
      let rest = find_manifests g mvs in
      let path = manifest_path cert_dir mv in
      if not (disk.exists path)
      then rest
      else if member mv g.run_all
      then (path, []) ∷ rest
      else (path, filters_of mv g.per_manifest) ∷ rest

  unfoldable pub discover_manifests : List String → List (String × List String)
  unfolding find_manifests group_filters distinct_from
  discover_manifests version_filters =
      if not (disk.is_dir cert_dir)
      then []
      else if is_nil version_filters
      then map (λ p. (p, [])) (disk.all_manifests cert_dir)
      else find_manifests
          (group_filters (record { run_all = []; per_manifest = [] }) version_filters)
          (distinct_from [] (map manifest_version version_filters))
