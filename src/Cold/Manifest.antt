-- ===== src/Cold/Manifest.antt =====
-- The manifest of a multipart log, as `_persistence_layout` of scripts/cold_redis_acceptance.py reads its
-- lines. Its text is ASCII.
use kairos_deploy.Base.{
  Option, none, some, [], ◌∷◌, ◌++◌, Bool, true, false, not, ◌&&◌, Result, ok, err, ◌>>=◌, ◌>>◌,
  raise_if, length, drop, leb, ◌==◌, all, if◌then◌else◌,
}
use kairos_deploy.Base.Bytes.{Bytes, codes, is_digit, is_canonical_number}
use kairos_deploy.Base.Text.{starts_with, is_white}
use kairos_deploy.Base.Sets.{bytes_eq_instance}

pub data LayoutError : Type 0 where
  manifest_inventory_unsupported manifest_too_large manifest_non_ascii manifest_entry_unsupported :
      LayoutError
  manifest_sequence_type_conflict manifest_offsets_invalid component_missing base_cardinality :
      LayoutError
  unreferenced_component orphaned_appendonlydir no_persistence_image too_many_digits : LayoutError

abbrev pub Checked : Type 0 → Type 0
Checked A = Result LayoutError A

-- `not line.strip()`
abbrev pub is_blank : Bytes → Bool
is_blank = all is_white

-- The bytes behind a literal that the text has to begin with.
unfoldable pub behind : Bytes → Bytes → Checked Bytes
behind literal text =
    if starts_with literal text
    then ok (drop (length literal) text)
    else err manifest_entry_unsupported

-- The digits that bytes begin with, and what follows them.
unfoldable pub digits_of : Bytes → Bytes × Bytes
digits_of [] = ([], [])
digits_of (c ∷ cs) =
    let later = digits_of cs in if is_digit c then (c ∷ later.0, later.1) else ([], c ∷ cs)

-- An entry of a manifest.
pub record Line : Type 0 where
  pub filename : Bytes
  pub filename_sequence : Bytes
  pub is_base_file : Bool
  pub sequence : Bytes
  pub is_base_entry : Bool
  pub startoffset : Option Bytes
  pub endoffset : Option Bytes

-- `\d+`
abbrev pub numeral : Bytes → Checked (Bytes × Bytes)
numeral text =
    if length (digits_of text).0 == 0 then err manifest_entry_unsupported else ok (digits_of text)

-- One of two literals: whether it was the first, and what is behind it.
abbrev pub one_of : Bytes → Bytes → Bytes → Checked (Bool × Bytes)
one_of first second text =
    if starts_with first text
    then ok (true, drop (length first) text)
    else behind second text >>= λ rest. ok (false, rest)

-- `0|[1-9][0-9]{0,18}`
abbrev pub is_offset : Bytes → Bool
is_offset text = is_canonical_number text && leb (length text) 19

abbrev pub end_offset : Bytes → Bytes → Checked (Option Bytes × Option Bytes)
end_offset start [] = ok (some start, none)
end_offset start (c ∷ cs) = do
  last ← behind (codes " endoffset ") (c ∷ cs)
  raise_if (not (is_offset last)) manifest_entry_unsupported
  ok (some start, some last)

-- The offsets at the end of an entry.
unfoldable pub offsets : Bytes → Checked (Option Bytes × Option Bytes)
offsets [] = ok (none, none)
offsets (c ∷ cs) = do
  text ← behind (codes " startoffset ") (c ∷ cs)
  start ← numeral text
  raise_if (not (is_offset start.0)) manifest_entry_unsupported
  end_offset start.0 start.1

-- `re.fullmatch` of an entry.
unfoldable pub parse_line : Bytes → Checked Line
parse_line line = do
  named ← behind (codes "file appendonly.aof.") line
  file_sequence ← numeral named
  kind ← one_of (codes ".base.rdb") (codes ".incr.aof") file_sequence.1
  rest ← behind (codes " seq ") kind.1
  sequence ← numeral rest
  entry_type ← one_of (codes " type b") (codes " type i") sequence.1
  ends ← offsets entry_type.1
  ok (record {
    filename =
        codes "appendonly.aof."
        ++ (file_sequence.0 ++ (if kind.0 then codes ".base.rdb" else codes ".incr.aof"));
    filename_sequence = file_sequence.0;
    is_base_file = kind.0;
    sequence = sequence.0;
    is_base_entry = entry_type.0;
    startoffset = ends.0;
    endoffset = ends.1;
  })
