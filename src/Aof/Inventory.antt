-- ===== src/Aof/Inventory.antt =====
-- `inventory_bytes` of scripts/runtime_epoch_redis_aof.py: the loop over the commands and the
-- report. What `inventory_aof` adds is the reading of the file.
pub mod Stream
pub mod Report
use kairos_deploy.Base.{
  ℕ, zero, suc, ◌+◌, ◌*◌, Bool, ◌||◌, Option, none, some, List, [], ◌∷◌, ◌++◌, Result, ok, err,
  ◌>>=◌, ◌>>◌, raise_if, length, ltb, ◌==◌, if◌then◌else◌, map,
}
use kairos_deploy.Base.Bytes.{Bytes, codes, bytes_eq, is_owner}
use kairos_deploy.Base.Sorting.{sorted}
use kairos_deploy.Aof.Codes.{
  Checked, owner_invalid, malformed_or_truncated, limit_exceeded, transaction_invalid,
  profile_invalid, publication_key,
}
use kairos_deploy.Aof.Commands.{Python}
use kairos_deploy.Aof.Reader.{Reader, next_command}
use kairos_deploy.Aof.Scan.{Counts, Scan, initial, step}

-- `_profile_limits`: the bytes and the commands that a profile admits.
unfoldable pub profile_limits : Bytes → Checked (ℕ × ℕ)
profile_limits profile =
    if bytes_eq profile (codes "standard")
    then ok (8 * 1024 * 1024, 50_000)
    else if bytes_eq profile (codes "forensic32m")
    then ok (32 * 1024 * 1024, 200_000)
    else err profile_invalid

-- `_owner`
unfoldable pub owner_name : Bytes → Checked Bytes
owner_name owner = if is_owner owner then ok owner else err owner_invalid

-- The `while` loop; `none` means that the fuel ran out.
unfoldable pub scan : Python → Bytes → ℕ → Reader → Scan → Option (Checked (Reader × Scan))
scan py exact_key zero r s = none
scan py exact_key (suc fuel) r s = elim (next_command r) [
  | err e ↦ some (err e)
  | ok (none, r') ↦ some (ok (r', s))
  | ok (some command, r') ↦ elim (step py exact_key s command) [
    | err e ↦ some (err e)
    | ok s' ↦ scan py exact_key fuel r' s'
  ]
]

pub record Inventory : Type 0 where
  pub bytes : ℕ
  pub parsed_source_sha256 : Bytes
  pub command_count : ℕ
  pub dbs : List ℕ
  pub subcommand_counts : List (Bytes × ℕ)
  pub xadd_count : ℕ
  pub ledger_fields : ℕ
  pub receipt_count : ℕ
  pub publication_message_ids_sha256 : Bytes
  pub first_publication_message_id : Option Bytes
  pub last_publication_message_id : Option Bytes
  pub matched_receipt_count : ℕ
  pub actor_format_valid : Bool
  pub transactions_balanced : Bool

-- A key is in the counter exactly when it was counted.
counter_entry : Bytes → ℕ → List (Bytes × ℕ) → List (Bytes × ℕ)
counter_entry key zero entries = entries
counter_entry key (suc n) entries = (key, suc n) ∷ entries

-- `dict(sorted(counts.items()))`
unfoldable pub subcommand_counts_of : Counts → List (Bytes × ℕ)
unfolding counter_entry
subcommand_counts_of c = counter_entry (codes "exec") c.exec (
    counter_entry (codes "hset") c.hset (
      counter_entry (codes "multi") c.multi (
        counter_entry (codes "select") c.select (
          counter_entry (codes "xack") c.xack (
            counter_entry (codes "xadd") c.xadd (
              counter_entry (codes "xclaim") c.xclaim (
                counter_entry (codes "xgroup|create") c.xgroup_create
                  (counter_entry (codes "xgroup|setid") c.xgroup_setid []))))))))

first_of : List Bytes → Option Bytes
first_of [] = none
first_of (x ∷ xs) = some x

last_of : List Bytes → Option Bytes
last_of [] = none
last_of (x ∷ []) = some x
last_of (x ∷ y ∷ ys) = last_of (y ∷ ys)

-- The dictionary that is returned.
unfoldable pub report : Python → Bytes → Reader × Scan → Inventory
unfolding first_of last_of
report py input (r, s) = record {
  bytes = length input;
  parsed_source_sha256 = py.sha256 input;
  command_count = r.commands;
  dbs = s.dbs;
  subcommand_counts = subcommand_counts_of s.counts;
  xadd_count = s.counts.xadd;
  ledger_fields = length s.publication_ids;
  receipt_count = s.counts.hset;
  publication_message_ids_sha256 = py.sha256 (py.json_dumps (sorted s.publication_ids));
  first_publication_message_id = first_of s.publication_ids;
  last_publication_message_id = last_of s.publication_ids;
  matched_receipt_count = length s.receipt_fields;
  actor_format_valid = ltb 0 s.counts.xclaim;
  transactions_balanced = s.counts.multi == s.counts.exec;
}

-- The checks behind the loop, and the report.
unfoldable pub conclude : Python → Bytes → Reader × Scan → Checked Inventory
conclude py input (r, s) = do
  raise_if s.in_multi transaction_invalid
  raise_if (length input == 0) malformed_or_truncated
  ok (report py input (r, s))

abbrev pub open_reader : Bytes → ℕ → Reader
open_reader input max_commands = record {
  input = input;
  offset = 0;
  commands = 0;
  max_commands = max_commands;
}

-- The loop on all of the data. Every command takes a byte, so this fuel is enough.
unfoldable pub scan_all : Python → Bytes → Bytes → ℕ → Option (Checked (Reader × Scan))
scan_all py exact_key input max_commands =
    scan py exact_key (suc (length input)) (open_reader input max_commands) initial

-- The checks before the loop: the key's owner and the bound on commands.
unfoldable pub admitted : Bytes → Bytes → Bytes → Checked (Bytes × ℕ)
admitted input owner profile = do
  limits ← profile_limits profile
  name ← owner_name owner
  raise_if (ltb limits.0 (length input)) limit_exceeded
  ok (name, limits.1)

-- What becomes of the loop's outcome.
unfoldable pub concluded :
    Python → Bytes → Option (Checked (Reader × Scan)) → Option (Checked Inventory)
concluded py input none = none
concluded py input (some (err e)) = some (err e)
concluded py input (some (ok end)) = some (conclude py input end)

-- `inventory_bytes`
unfoldable pub inventory_bytes : Python → Bytes → Bytes → Bytes → Option (Checked Inventory)
unfolding concluded
inventory_bytes py input owner profile = elim (admitted input owner profile) [
  | err e ↦ some (err e)
  | ok p ↦ concluded py input (scan_all py (publication_key p.0) input p.1)
]
