-- ===== src/Cold/Layout/Tests.antt =====
-- Concrete layouts of scripts/cold_redis_acceptance.py.
use kairos_deploy.Base.{◌≡◌, refl, List, [], ◌∷◌, ◌++◌, true, ok, err}
use kairos_deploy.Base.Bytes.{Bytes, codes, bytes_eq, number, is_canonical_number}
use kairos_deploy.Base.Sets.{contains}
use kairos_deploy.Base.Text.{split_lines}
use kairos_deploy.Cold.Manifest.{behind, digits_of, offsets, parse_line, component_missing}
use kairos_deploy.Cold.Layout.{
  manifest_path, ends_with, offsets_conflict, on_entry, on_lines, multipart_aof, Layout,
  checked_manifest, listed_layout, with_manifest, persistence_layout,
}
use kairos_deploy.Cold.Layout.Sound.{IsSound, persistence_layout-IsSound}

abbrev base_path : Bytes
base_path = codes "appendonlydir/appendonly.aof.1.base.rdb"

abbrev increment_path : Bytes
increment_path = codes "appendonlydir/appendonly.aof.1.incr.aof"

-- A blank line, and an entry with offsets.
abbrev manifest : Bytes
manifest =
    codes "file appendonly.aof.1.base.rdb seq 1 type b"
    ++ (10
        ∷ 32
        ∷ 10
        ∷ (codes "file appendonly.aof.1.incr.aof seq 1 type i startoffset 0 endoffset 7"
            ++ (10 ∷ [])))

abbrev files : List Bytes
files = base_path ∷ manifest_path ∷ increment_path ∷ codes "dump.rdb" ∷ []

abbrev layout : Layout
layout = record {
  format = multipart_aof;
  multipart = base_path ∷ increment_path ∷ [];
  rdb_present = true;
}

layout_read : persistence_layout files 100 manifest ≡ ok layout
unfolding persistence_layout with_manifest checked_manifest listed_layout on_lines on_entry
    offsets_conflict parse_line offsets digits_of behind split_lines ends_with contains bytes_eq
    number is_canonical_number
layout_read = refl

layout_missing :
    persistence_layout (base_path ∷ manifest_path ∷ []) 100 manifest ≡ err component_missing
unfolding persistence_layout with_manifest checked_manifest listed_layout on_lines on_entry
    offsets_conflict parse_line offsets digits_of behind split_lines ends_with contains bytes_eq
    number is_canonical_number
layout_missing = refl

persistence_layout-IsSound_example : IsSound files manifest layout
persistence_layout-IsSound_example = persistence_layout-IsSound files 100 manifest layout_read
