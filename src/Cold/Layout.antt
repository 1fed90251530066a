-- ===== src/Cold/Layout.antt =====
-- `_persistence_layout` of scripts/cold_redis_acceptance.py: which files hold the data of a Redis volume.
-- The names of the files, and the size and bytes of a manifest, are parameters; the diagnostic of an
-- error and the hashes of the files are left out.
pub mod Listing
pub mod Sound
mod Tests
use kairos_deploy.Base.{
  ℕ, zero, suc, ◌+◌, ◌≡◌, Option, none, some, List, [], ◌∷◌, ◌++◌, Bool, true, false, not, ◌&&◌,
  ◌||◌, Result, ok, err, ◌>>=◌, ◌>>◌, raise_if, length, take, drop, ltb, leb, ◌==◌, all,
  if◌then◌else◌,
}
use mathlib.Core.Option
use kairos_deploy.Base.Bytes.{
  Bytes, codes, bytes_eq, is_digit, number, is_ascii, is_canonical_number,
}
use kairos_deploy.Base.Sets.{contains, bytes_eq_instance}
use kairos_deploy.Base.Integers.{max_digits}
use kairos_deploy.Base.Text.{starts_with, split_lines}
use kairos_deploy.Cold.Manifest.{
  LayoutError, manifest_inventory_unsupported, manifest_too_large, manifest_non_ascii,
  manifest_entry_unsupported, manifest_sequence_type_conflict, manifest_offsets_invalid,
  component_missing, base_cardinality, unreferenced_component, orphaned_appendonlydir,
  no_persistence_image, too_many_digits, Checked, is_blank, Line, parse_line,
}

abbrev pub manifest_path : Bytes
manifest_path = codes "appendonlydir/appendonly.aof.manifest"

abbrev pub manifest_bound : ℕ
manifest_bound = 1_048_576

-- `path.endswith(suffix)`
unfoldable pub ends_with : Bytes → Bytes → Bool
ends_with suffix [] = bytes_eq [] suffix
ends_with suffix (c ∷ cs) = if bytes_eq (c ∷ cs) suffix then true else ends_with suffix cs

abbrev pub is_aof_named : Bytes → Bool
is_aof_named path = starts_with (codes "appendonlydir/") path

abbrev pub filter : (Bytes → Bool) → List Bytes → List Bytes
filter p [] = []
filter p (x ∷ xs) = if p x then x ∷ filter p xs else filter p xs

abbrev max_offset : ℕ
max_offset = 9_223_372_036_854_775_807

abbrev end_conflicts : ℕ → Option Bytes → Bool
end_conflicts start none = false
end_conflicts start (some last) = ltb max_offset (number last) || ltb (number last) start

-- Offsets that an entry may not have.
unfoldable pub offsets_conflict : Bool → Option Bytes → Option Bytes → Bool
offsets_conflict is_base none last = false
offsets_conflict is_base (some start) last =
    is_base || (ltb max_offset (number start) || end_conflicts (number start) last)

abbrev pub same_bool : Bool → Bool → Bool
same_bool true b = b
same_bool false b = not b

-- `(sequence, entry_type) in seen_sequences`
abbrev pub is_seen : ℕ → Bool → List (ℕ × Bool) → Bool
is_seen n b [] = false
is_seen n b (seen ∷ rest) = (seen.0 == n && same_bool seen.1 b) || is_seen n b rest

-- The variables of the loop over the lines.
pub record Listed : Type 0 where
  pub seen_sequences : List (ℕ × Bool)
  pub multipart : List Bytes

abbrev pub relative_of : Line → Bytes
relative_of l = codes "appendonlydir/" ++ l.filename

module _ (files : List Bytes) where
  -- The loop body behind the match; `int` of a sequence raises above its limit for digits.
  unfoldable pub on_entry : Line → Listed → Checked Listed
  on_entry l s = do
    raise_if (ltb max_digits (length l.sequence)) too_many_digits
    raise_if
        (not (same_bool l.is_base_entry l.is_base_file)
          || (not (bytes_eq l.filename_sequence l.sequence)
              || is_seen (number l.sequence) l.is_base_entry s.seen_sequences))
        manifest_sequence_type_conflict
    raise_if (offsets_conflict l.is_base_entry l.startoffset l.endoffset) manifest_offsets_invalid
    raise_if (not (contains (relative_of l) files)) component_missing
    ok (record {
      seen_sequences = (number l.sequence, l.is_base_entry) ∷ s.seen_sequences;
      multipart = s.multipart ++ (relative_of l ∷ []);
    })

  abbrev pub on_line : Bytes → Listed → Checked Listed
  on_line line s = if is_blank line then ok s else parse_line line >>= λ l. on_entry l s

  unfoldable pub on_lines : List Bytes → Listed → Checked Listed
  on_lines [] s = ok s
  on_lines (line ∷ lines) s = on_line line s >>= λ s'. on_lines lines s'

abbrev pub nothing_listed : Listed
nothing_listed = record { seen_sequences = []; multipart = [] }

pub data Format : Type 0 where
  multipart_aof legacy_aof rdb_fallback : Format

pub record Layout : Type 0 where
  pub format : Format
  pub multipart : List Bytes
  pub rdb_present : Bool

-- `sum(path.endswith(".base.rdb") for path in multipart)`
abbrev pub bases_in : List Bytes → ℕ
bases_in paths = length (filter (λ path. ends_with (codes ".base.rdb") path) paths)

-- `set(xs) == set(ys)`
abbrev pub same_set : List Bytes → List Bytes → Bool
same_set xs ys = all (λ x. contains x ys) xs && all (λ y. contains y xs) ys

-- The checks before the loop over the lines.
unfoldable pub checked_manifest : List Bytes → ℕ → Bytes → Checked (Unit {0})
checked_manifest manifests size raw = do
  raise_if (not (length manifests == 1 && contains manifest_path manifests))
      manifest_inventory_unsupported
  raise_if (ltb manifest_bound size) manifest_too_large
  raise_if (ltb manifest_bound (length raw)) manifest_too_large
  raise_if (not (is_ascii raw)) manifest_non_ascii

module _ (files : List Bytes) where
  -- The checks behind the loop over the lines.
  unfoldable pub listed_layout : Listed → Checked Layout
  listed_layout s = do
    raise_if (length s.multipart == 0 || not (bases_in s.multipart == 1)) base_cardinality
    raise_if (not (same_set (filter is_aof_named files) (manifest_path ∷ s.multipart)))
        unreferenced_component
    ok (record {
      format = multipart_aof;
      multipart = s.multipart;
      rdb_present = contains (codes "dump.rdb") files;
    })

  -- The branch for a manifest, with its size and bytes.
  unfoldable pub with_manifest : List Bytes → ℕ → Bytes → Checked Layout
  with_manifest manifests size raw = do
    checked_manifest manifests size raw
    s ← on_lines files (split_lines raw) nothing_listed
    listed_layout s

  -- The layout where no file belongs to a multipart log.
  unfoldable pub fallback : Checked Layout
  fallback =
      if contains (codes "appendonly.aof") files
      then ok (record {
        format = legacy_aof;
        multipart = codes "appendonly.aof" ∷ [];
        rdb_present = contains (codes "dump.rdb") files;
      })
      else if contains (codes "dump.rdb") files
      then ok (record { format = rdb_fallback; multipart = []; rdb_present = true })
      else err no_persistence_image

  -- The branch without a manifest.
  unfoldable pub without_manifest : Checked Layout
  without_manifest = do
    raise_if (not (length (filter is_aof_named files) == 0)) orphaned_appendonlydir
    fallback

  unfoldable pub persistence_layout : ℕ → Bytes → Checked Layout
  persistence_layout size raw =
      let manifests = filter (λ path. ends_with (codes ".manifest") path) files in
      if length manifests == 0 then without_manifest else with_manifest manifests size raw
