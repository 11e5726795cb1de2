-- ===== src/Cli/SelectLaws.antt =====
-- What `discover_manifests` selects, described by the filters of each version alone.
use sev_certify.Prelude.{
  if_cases, ◌≡◌, refl, sym, ap, ◌∙◌, inl, inr, String, Bool, true, ◌&&◌, ◌||◌, not, List, [], ◌∷◌,
  ◌++◌, if◌then◌else◌, str_eq, eq_iff, any, arith, map, Bool-cases, ◌≢◌,
}
use mathlib.Core.List.{append_assoc, append-nil}
use sev_certify.Models.Definitions.{member}
use sev_certify.Models.Levels.{member-snoc}
use sev_certify.Cli.Select.{
  keep, manifest_version, add_filter, filters_of, Groups, group_filters, distinct_from,
  manifest_path, Disk, find_manifests, discover_manifests, add_group,
}

-- A filter that is a whole version, and one that is more special, of the version `mv`.
abbrev pub is_whole : String → String → Bool
is_whole mv vf = str_eq (manifest_version vf) mv && str_eq vf (manifest_version vf)

abbrev pub is_special : String → String → Bool
is_special mv vf = str_eq (manifest_version vf) mv && not (str_eq vf (manifest_version vf))

filters_of-add_filter :
    (mv k vf : String) (entries : List (String × List String))
    → filters_of mv (add_filter k vf entries)
      ≡ (if str_eq k mv then filters_of mv entries ++ vf ∷ [] else filters_of mv entries)
unfolding filters_of add_filter
filters_of-add_filter mv k vf [] = ground arith
filters_of-add_filter mv k vf ((x, fs) ∷ entries) = elim (Bool-cases (str_eq x k)) [
  | inl same ↦
      let e : x ≡ k = (eq_iff x k).0 same in
      let t : str_eq x mv ≡ str_eq k mv = ap (λ z. str_eq z mv) e in ground (arith, same, t)
  | inr other ↦
      ground
        (arith, other, filters_of-add_filter mv k vf entries, eq_iff x mv, eq_iff k mv, eq_iff x k)
]

-- The special filters of one filter.
abbrev special_of : String → String → List String
special_of mv vf = if is_special mv vf then vf ∷ [] else []

add_group-special :
    (mv : String) (g : Groups) (vf : String)
    → filters_of mv (add_group g vf).per_manifest ≡ filters_of mv g.per_manifest ++ special_of mv vf
unfolding add_group
add_group-special mv g vf =
    if_cases {A = Groups}
      (λ x. filters_of mv x.per_manifest ≡ filters_of mv g.per_manifest ++ special_of mv vf)
      (str_eq vf (manifest_version vf))
      (λ whole. ground (arith, whole, append-nil (filters_of mv g.per_manifest)))
      λ special.
        filters_of-add_filter mv (manifest_version vf) vf g.per_manifest
        ∙ ground (arith, special, append-nil (filters_of mv g.per_manifest))

add_group-whole :
    (mv : String) (g : Groups) (vf : String)
    → member mv (add_group g vf).run_all ≡ (member mv g.run_all || is_whole mv vf)
unfolding add_group
add_group-whole mv g vf =
    if_cases {A = Groups} (λ x. member mv x.run_all ≡ (member mv g.run_all || is_whole mv vf))
      (str_eq vf (manifest_version vf))
      (λ whole. ground (arith, whole, member-snoc mv (manifest_version vf) g.run_all))
      λ special. ground (arith, special)

keep-special :
    (mv vf : String) (vfs : List String)
    → special_of mv vf ++ keep (is_special mv) vfs ≡ keep (is_special mv) (vf ∷ vfs)
keep-special mv vf vfs = ground arith

group_filters-special :
    (mv : String) (g : Groups) (vfs : List String)
    → filters_of mv (group_filters g vfs).per_manifest
      ≡ filters_of mv g.per_manifest ++ keep (is_special mv) vfs
unfolding group_filters
group_filters-special mv g [] = sym (append-nil _)
group_filters-special mv g (vf ∷ vfs) =
    group_filters-special mv (add_group g vf) vfs
    ∙ ap (λ fs. fs ++ keep (is_special mv) vfs) (add_group-special mv g vf)
    ∙ append_assoc (filters_of mv g.per_manifest) (special_of mv vf) (keep (is_special mv) vfs)
    ∙ ap (λ fs. filters_of mv g.per_manifest ++ fs) (keep-special mv vf vfs)

group_filters-whole :
    (mv : String) (g : Groups) (vfs : List String)
    → member mv (group_filters g vfs).run_all ≡ (member mv g.run_all || any (is_whole mv) vfs)
unfolding group_filters
group_filters-whole mv g [] = ground arith
group_filters-whole mv g (vf ∷ vfs) =
    ground (arith, group_filters-whole mv (add_group g vf) vfs, add_group-whole mv g vf)

-- The filters that a version's manifest is run with: none where the whole version is asked for.
abbrev pub selected : String → List String → List String
selected mv vfs = if any (is_whole mv) vfs then [] else keep (is_special mv) vfs

abbrev none_yet : Groups
none_yet = record { run_all = []; per_manifest = [] }

module _ (disk : Disk) (cert_dir : String) where
  found :
      (vfs mvs : List String)
      → find_manifests disk cert_dir (group_filters none_yet vfs) mvs
        ≡ map
            (λ mv. (manifest_path cert_dir mv, selected mv vfs))
            (keep (λ mv. disk.exists (manifest_path cert_dir mv)) mvs)
  unfolding find_manifests filters_of
  found vfs [] = refl
  found vfs (mv ∷ mvs) = ground (
    arith,
    found vfs mvs,
    group_filters-special mv none_yet vfs,
    group_filters-whole mv none_yet vfs,
  )

  -- With filters given and the directory of tests there, each version that some filter names is run
  -- once, in the order of their first filters, if its manifest exists: as a whole if a filter is the
  -- version itself, and otherwise with exactly the filters
  -- whose first two components are the version, in order.
  pub discover_manifests-selected :
      (vfs : List String)
      → disk.is_dir cert_dir ≡ true
      → vfs ≢ []
      → discover_manifests disk cert_dir vfs
        ≡ map
            (λ mv. (manifest_path cert_dir mv, selected mv vfs))
            (keep
              (λ mv. disk.exists (manifest_path cert_dir mv))
              (distinct_from [] (map manifest_version vfs)))
  unfolding discover_manifests
  discover_manifests-selected [] there some_filter = absurd (some_filter refl)
  discover_manifests-selected (vf ∷ vfs) there some_filter =
      rw there (found (vf ∷ vfs) (distinct_from [] (map manifest_version (vf ∷ vfs))))
