-- ===== src/Cold/Layout/Sound.antt =====
-- What a layout that `_persistence_layout` of scripts/cold_redis_acceptance.py accepts says of the files.
use kairos_deploy.Base.{
  ◌≤◌, ltb, ltb→le, ◌&&◌, ℕ, ◌≡◌, ◌↔◌, refl, sym, subst, arith, inl, inr, List, [], ◌∷◌, Bool, true,
  false, not, ◌||◌, &&_true, Bool-cases, unnegated, ok, ◌>>◌, raise_if, passed, raise_if-Passed,
  bound, >>=-Bound, ok-injective, length, ◌==◌, ==_iff, all,
}
use kairos_deploy.Base.Bytes.{Bytes, is_ascii, codes, bytes_eq, bytes_eq_sound}
use kairos_deploy.Base.Sets.{contains, bytes_eq_instance}
use kairos_deploy.Base.Text.{split_lines}
use kairos_deploy.Cold.Manifest.{
  base_cardinality, unreferenced_component, manifest_inventory_unsupported, manifest_too_large,
  manifest_non_ascii, orphaned_appendonlydir,
}
use kairos_deploy.Cold.Layout.Listing.{both_false, Lists, on_lines-Lists}
use kairos_deploy.Cold.Layout.{
  manifest_path, manifest_bound, ends_with, is_aof_named, filter, Listed, on_lines, nothing_listed,
  Format, multipart_aof, legacy_aof, rdb_fallback, Layout, bases_in, same_set, checked_manifest,
  listed_layout, with_manifest, fallback, without_manifest, persistence_layout,
}

filter-contains :
    (p : Bytes → Bool) (x : Bytes) (xs : List Bytes)
    → (contains x (filter p xs) ≡ true) ↔ ((contains x xs ≡ true) × (p x ≡ true))
unfolding contains
filter-contains p x [] = (λ h. cc, λ h. cc)
filter-contains p x (y ∷ ys) =
    let (from, to) = filter-contains p x ys in
    elim (Bool-cases (bytes_eq y x)) [
      | inl same ↦
          let eq : y ≡ x = bytes_eq_sound y x same in
          elim (Bool-cases (p y)) [
            | inl kept ↦
                (λ h. (rw same refl, subst (λ z. p z ≡ true) eq kept), λ h. rw (kept, same) refl)
            | inr left ↦ (
              λ h. (rw same refl, (from (rw left at h)).1),
              λ h. absurd (let k = subst (λ z. p z ≡ false) eq left in let j = h.1 in cc),
            )
          ]
      | inr other ↦ elim (Bool-cases (p y)) [
        | inl kept ↦ (
          λ h. rw other (from (rw (kept, other) at h)),
          λ h. rw (kept, other) (to (rw other at h)),
        )
        | inr left ↦ (λ h. rw other (from (rw left at h)), λ h. rw left (to (rw other at h)))
      ]
    ]

all-contains :
    (x : Bytes) (xs ys : List Bytes)
    → all (λ y. contains y ys) xs ≡ true
    → contains x xs ≡ true
    → contains x ys ≡ true
unfolding contains
all-contains x [] ys h k = cc
all-contains x (y ∷ xs) ys h k =
    let (first, rest) = &&_true (contains y ys) _ h in
    elim (Bool-cases (bytes_eq y x)) [
      | inl same ↦ subst (λ z. contains z ys ≡ true) (bytes_eq_sound y x same) first
      | inr other ↦ all-contains x xs ys rest (rw other at k)
    ]

no_length : (xs : List Bytes) → (length xs == 0) ≡ true → xs ≡ []
no_length [] h = refl
no_length (x ∷ xs) h = absurd (ground arith)

-- Whether a file belongs to the directory of a multipart log.
abbrev pub IsAofFile : List Bytes → Bytes → Type 0
IsAofFile files path = (contains path files ≡ true) × (is_aof_named path ≡ true)

-- Bytes of a manifest, within its bound and ASCII, whose lines list the paths.
pub record IsManifest (files : List Bytes) (raw : Bytes) (paths : List Bytes) : Type 0 where
  pub short : length raw ≤ manifest_bound
  pub ascii : is_ascii raw ≡ true
  pub lists : Lists files [] (split_lines raw) paths

-- What the layout says of the files, and of the bytes of the manifest.
abbrev pub Describes : List Bytes → Bytes → Format → List Bytes → Type 0
Describes files raw multipart_aof multipart =
    (bases_in multipart ≡ 1)
    × IsManifest files raw multipart
    × ((path : Bytes) → IsAofFile files path ↔ (contains path (manifest_path ∷ multipart) ≡ true))
Describes files raw legacy_aof multipart =
    (multipart ≡ codes "appendonly.aof" ∷ [])
    × (contains (codes "appendonly.aof") files ≡ true)
    × ((path : Bytes) → contains path files ≡ true → is_aof_named path ≡ false)
Describes files raw rdb_fallback multipart =
    (multipart ≡ [])
    × (contains (codes "dump.rdb") files ≡ true)
    × (contains (codes "appendonly.aof") files ≡ false)
    × ((path : Bytes) → contains path files ≡ true → is_aof_named path ≡ false)

pub record IsSound (files : List Bytes) (raw : Bytes) (r : Layout) : Type 0 where
  pub described : Describes files raw r.format r.multipart
  pub snapshot : r.rdb_present ≡ contains (codes "dump.rdb") files

no_aof_files :
    (files : List Bytes) (path : Bytes)
    → (length (filter is_aof_named files) == 0) ≡ true
    → contains path files ≡ true
    → is_aof_named path ≡ false
unfolding contains
no_aof_files files path h k = elim (Bool-cases (is_aof_named path)) [
  | inl named ↦ absurd (
      let there = (filter-contains is_aof_named path files).1 (k, named) in
      let gone = subst (λ xs. contains path xs ≡ true) (no_length _ h) there in cc)
  | inr other ↦ other
]

same_set-files :
    (files multipart : List Bytes) (path : Bytes)
    → same_set (filter is_aof_named files) (manifest_path ∷ multipart) ≡ true
    → IsAofFile files path ↔ (contains path (manifest_path ∷ multipart) ≡ true)
same_set-files files multipart path h =
    let (from, to) = filter-contains is_aof_named path files in
    let (inside, outside) = &&_true _ _ h in
    (
      λ named.
          all-contains path (filter is_aof_named files) (manifest_path ∷ multipart) inside
            (to named),
      λ listed. from (
          all-contains path (manifest_path ∷ multipart) (filter is_aof_named files) outside listed),
    )

abbrev multipart_layout : List Bytes → List Bytes → Layout
multipart_layout files multipart = record {
  format = multipart_aof;
  multipart = multipart;
  rdb_present = contains (codes "dump.rdb") files;
}

multipart-IsSound :
    (files multipart : List Bytes) (raw : Bytes)
    → (length multipart == 0 || not (bases_in multipart == 1)) ≡ false
    → not (same_set (filter is_aof_named files) (manifest_path ∷ multipart)) ≡ false
    → IsManifest files raw multipart
    → IsSound files raw (multipart_layout files multipart)
multipart-IsSound files multipart raw base listed lists = record {
  described = (
    (==_iff (bases_in multipart) 1).0 (unnegated _ (both_false (length multipart == 0) _ base).1),
    lists,
    λ path. same_set-files files multipart path (unnegated _ listed),
  );
  snapshot = refl;
}

listed_layout-IsSound :
    (files : List Bytes) (raw : Bytes) (s : Listed) {r : Layout}
    → IsManifest files raw s.multipart
    → listed_layout files s ≡ ok r
    → IsSound files raw r
unfolding listed_layout
listed_layout-IsSound files raw s lists h =
    let out = multipart_layout files s.multipart in
    let last =
      raise_if (not (same_set (filter is_aof_named files) (manifest_path ∷ s.multipart)))
        unreferenced_component
      >> ok out in
    elim (raise_if-Passed (length s.multipart == 0 || not (bases_in s.multipart == 1))
      base_cardinality last h) [
        | passed base h1 ↦
            elim (raise_if-Passed
              (not (same_set (filter is_aof_named files) (manifest_path ∷ s.multipart)))
              unreferenced_component (ok out) h1) [
                | passed listed h2 ↦
                    subst (IsSound files raw) (ok-injective h2)
                      (multipart-IsSound files s.multipart raw base listed lists)
              ]
      ]

checked_manifest_lem :
    (manifests : List Bytes) (size : ℕ) (raw : Bytes) {u : Unit {0}}
    → checked_manifest manifests size raw ≡ ok u
    → (length raw ≤ manifest_bound) × (is_ascii raw ≡ true)
unfolding checked_manifest
checked_manifest_lem manifests size raw h =
    let plain = raise_if (not (is_ascii raw)) manifest_non_ascii in
    let bounded = raise_if (ltb manifest_bound (length raw)) manifest_too_large >> plain in
    elim (raise_if-Passed (not (length manifests == 1 && contains manifest_path manifests))
      manifest_inventory_unsupported
      (raise_if (ltb manifest_bound size) manifest_too_large >> bounded) h) [
        | passed _ h1 ↦
            elim (raise_if-Passed (ltb manifest_bound size) manifest_too_large bounded h1) [
              | passed _ h2 ↦
                  elim (raise_if-Passed (ltb manifest_bound (length raw)) manifest_too_large plain
                    h2) [
                      | passed short h3 ↦ (
                        ltb→le manifest_bound (length raw) short,
                        elim (Bool-cases (is_ascii raw)) [
                          | inl ascii ↦ ascii
                          | inr other ↦ cc (rw other at h3)
                        ],
                      )
                    ]
            ]
      ]

with_manifest-IsSound :
    (files manifests : List Bytes) (size : ℕ) (raw : Bytes) {r : Layout}
    → with_manifest files manifests size raw ≡ ok r
    → IsSound files raw r
unfolding with_manifest
with_manifest-IsSound files manifests size raw h =
    elim (>>=-Bound (checked_manifest manifests size raw) _ h) [
      | bound _ checks h1 ↦
          let (short, ascii) = checked_manifest_lem manifests size raw checks in
          elim (>>=-Bound (on_lines files (split_lines raw) nothing_listed)
            (λ s. listed_layout files s) h1) [
              | bound s lines h2 ↦
                  let (paths, same, lists) =
                    on_lines-Lists files (split_lines raw) nothing_listed lines in
                  listed_layout-IsSound files raw s
                    (record {
                      short = short;
                      ascii = ascii;
                      lists = subst (Lists files [] (split_lines raw)) (sym same) lists;
                    })
                    h2
            ]
    ]

fallback-IsSound :
    (files : List Bytes) (raw : Bytes) {r : Layout}
    → (length (filter is_aof_named files) == 0) ≡ true
    → fallback files ≡ ok r
    → IsSound files raw r
unfolding fallback
fallback-IsSound files raw none_named h =
    elim (Bool-cases (contains (codes "appendonly.aof") files)) [
      | inl legacy ↦ subst (IsSound files raw) (ok-injective (rw legacy at h)) (record {
        described = (refl, legacy, λ path k. no_aof_files files path none_named k);
        snapshot = refl;
      })
      | inr absent ↦ elim (Bool-cases (contains (codes "dump.rdb") files)) [
        | inl dump ↦ subst (IsSound files raw) (ok-injective (rw (absent, dump) at h)) (record {
          described = (refl, dump, absent, λ path k. no_aof_files files path none_named k);
          snapshot = sym dump;
        })
        | inr nothing_there ↦ absurd (let k = rw (absent, nothing_there) at h in cc)
      ]
    ]

-- An accepted layout describes the files and the manifest: a multipart log has one base and is the
-- paths of the lines of its manifest that are not blank, in their order, each of which parses, with
-- its type and its sequence those of the name of its file, its offsets allowed, and its file there,
-- and no sequence number and type twice; the manifest is ASCII and within its bound, and the files
-- of its directory are it and what it lists. A single log, or a snapshot alone, is read only if that
-- directory has no file, and a snapshot only if there is no single log either.
pub persistence_layout-IsSound :
    (files : List Bytes) (size : ℕ) (raw : Bytes) {r : Layout}
    → persistence_layout files size raw ≡ ok r
    → IsSound files raw r
unfolding persistence_layout without_manifest
persistence_layout-IsSound files size raw h =
    elim (Bool-cases (length (filter (λ path. ends_with (codes ".manifest") path) files) == 0)) [
      | inl missing ↦
          elim (raise_if-Passed (not (length (filter is_aof_named files) == 0))
            orphaned_appendonlydir (fallback files) (rw missing at h)) [
              | passed empty h1 ↦ fallback-IsSound files raw (unnegated _ empty) h1
            ]
      | inr there ↦ with_manifest-IsSound files _ size raw (rw there at h)
    ]
