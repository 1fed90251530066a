-- ===== src/Aof/Tests.antt =====
-- Small files run through the inventory of scripts/runtime_epoch_redis_aof.py, and its theorems at
-- concrete inputs.
use kairos_deploy.Base.{
  ℕ, ◌+◌, ◌≤◌, ◌≡◌, ◌≢◌, refl, true, false, String, none, some, List, [], ◌∷◌, ◌++◌, arith, ok, err,
  length,
}
use kairos_deploy.Base.Bytes.{
  Bytes, codes, bytes_eq, number, is_canonical_number, is_hex64, is_owner, split_dash, upper, lower,
  find_crlf,
}
use kairos_deploy.Base.Dict.{lookup, insert}
use kairos_deploy.Base.Sets.{contains, add}
use kairos_deploy.Base.Sorting.{sorted}
use kairos_deploy.Aof.Codes.{
  limit_exceeded, transaction_invalid, stream_id_reused, topic, publication_key,
}
use kairos_deploy.Aof.Tokens.{unsigned, stream_id}
use kairos_deploy.Aof.Commands.{Python, loaded, list, str, command_named}
use kairos_deploy.Aof.Reader.{
  Reader, remaining, line, marker, token_bytes, token, tokens, read_command, next_command,
}
use kairos_deploy.Base.Lines.{crlf}
use kairos_deploy.Aof.Reader.Grammar.{IsFrame, IsStream}
use kairos_deploy.Aof.Reader.Sound.{next_command_sound}
use kairos_deploy.Aof.Reader.Complete.{next_command_complete}
use kairos_deploy.Aof.Scan.{Scan, initial, step, steps}
use kairos_deploy.Aof.Inventory.Report.{
  IsAccount, reader_at_end, inventory_bytes-ne-none, inventory_bytes-IsAccount,
  inventory_bytes_sound, inventory_bytes_complete,
}
use kairos_deploy.Aof.Scan.Receipts.{WasAppended, receipts-WasAppended}
use kairos_deploy.Aof.Inventory.{
  Inventory, profile_limits, owner_name, scan, scan_all, admitted, report, conclude,
  inventory_bytes, subcommand_counts_of,
}

abbrev text_line : String → Bytes → Bytes
text_line s rest = codes s ++ (crlf ++ rest)

abbrev digest : Bytes
digest = codes "aaaaaaaaaaaaaaaaaaaaaaaaaaaaaaaaaaaaaaaaaaaaaaaaaaaaaaaaaaaaaaaa"

abbrev owner : Bytes
owner = codes "69893dc7b7c647f49967387e7efca9fb"

-- A hash with one value, and a JSON text that always decodes to the same receipt.
abbrev stub : Python
stub = record {
  sha256 = λ value. digest;
  json_loads = λ value. loaded (list (str digest ∷ str (codes "5-1") ∷ []));
  json_dumps = λ ids. [];
}

-- One published bar: an entry and its receipt in a transaction.
abbrev transaction : List (List Bytes)
transaction =
    (codes "MULTI" ∷ [])
    ∷ (codes "XADD" ∷ topic ∷ codes "5-1" ∷ codes "data" ∷ codes "{}" ∷ [])
    ∷ (codes "HSET" ∷ publication_key owner ∷ digest ∷ codes "[]" ∷ [])
    ∷ (codes "EXEC" ∷ [])
    ∷ []

abbrev exec_wire : Bytes
exec_wire = text_line "*1" (text_line "$4" (text_line "exec" []))

abbrev select_wire : Bytes
select_wire =
    text_line "*2" (text_line "$6" (text_line "SELECT" (text_line "$1" (text_line "0" []))))

abbrev reader_at_exec : Reader
reader_at_exec = record { input = exec_wire; offset = 0; commands = 0; max_commands = 1 }

exec-IsFrame : IsFrame (codes "exec" ∷ []) exec_wire
unfolding number
exec-IsFrame = record {
  header = codes "1";
  body = text_line "$4" (text_line "exec" []);
  numeral = record { nonempty = omega arith; short = omega arith; digits = refl; value = refl };
  least = omega arith;
  most = omega arith;
  tokens = (
    text_line "$4" (text_line "exec" []),
    [],
    record {
      header = codes "4";
      numeral = record { nonempty = omega arith; short = omega arith; digits = refl; value = refl };
      bounded = omega arith;
      spelled = refl;
    },
    refl,
    refl,
  );
  spelled = refl;
}

exec_read :
    next_command reader_at_exec
    ≡ ok (some (codes "exec" ∷ []), record reader_at_exec { offset = 14; commands = 1 })
unfolding next_command read_command marker line find_crlf bytes_eq unsigned number tokens token
    token_bytes
exec_read = refl

next_command-sound_example :
    (wire : Bytes) × IsFrame (codes "exec" ∷ []) wire
    × (remaining reader_at_exec ≡ wire ++ [])
    × (record reader_at_exec { offset = 14; commands = 1 }
        ≡ record reader_at_exec { offset = 0 + length wire; commands = 0 + 1 })
    × (0 + 1 ≤ 1)
next_command-sound_example = next_command_sound reader_at_exec exec_read

next_command-complete_example :
    next_command reader_at_exec
    ≡ ok (some (codes "exec" ∷ []), record reader_at_exec { offset = 14; commands = 1 })
next_command-complete_example =
    next_command_complete reader_at_exec (codes "exec" ∷ []) exec_wire [] exec-IsFrame refl

-- Above the bound of the reader the same bytes are refused.
exec_over_bound : next_command (record reader_at_exec { max_commands = 0 }) ≡ err limit_exceeded
unfolding next_command read_command marker line find_crlf bytes_eq unsigned number tokens token
    token_bytes
exec_over_bound = refl

transaction_end : Scan
transaction_end = record initial {
  counts = record {
    multi = 1;
    exec = 1;
    select = 0;
    xadd = 1;
    hset = 1;
    xgroup_create = 0;
    xgroup_setid = 0;
    xclaim = 0;
    xack = 0;
  };
  publication_ids = digest ∷ [];
  receipt_fields = (digest, (digest, codes "5-1")) ∷ [];
  stream_receipts = (codes "5-1", digest) ∷ [];
  transaction_streams = (digest, codes "5-1") ∷ [];
  transaction_has_hset = true;
  transaction_has_xadd = true;
  xadd_receipts = (digest, codes "5-1") ∷ [];
}

transaction_runs : steps stub (publication_key owner) initial transaction ≡ ok transaction_end
unfolding transaction_end steps step command_named bytes_eq upper lower stream_id split_dash
    is_canonical_number number lookup insert contains add is_hex64
transaction_runs = refl

receipts-WasAppended_example : WasAppended stub transaction (digest, codes "5-1")
unfolding transaction_end lookup bytes_eq
receipts-WasAppended_example =
    receipts-WasAppended stub (publication_key owner) transaction digest (digest, codes "5-1")
      transaction_runs refl

-- A receipt outside a transaction, and an identifier that is used twice.
hset_outside :
    step stub
      (publication_key owner)
      initial
      (codes "HSET" ∷ publication_key owner ∷ digest ∷ codes "[]" ∷ [])
    ≡ err transaction_invalid
unfolding step command_named bytes_eq upper
hset_outside = refl

xadd_twice :
    steps stub (publication_key owner) initial (
      (codes "XADD" ∷ topic ∷ codes "5-1" ∷ codes "data" ∷ codes "{}" ∷ [])
      ∷ (codes "XADD" ∷ topic ∷ codes "5-1" ∷ codes "data" ∷ codes "[]" ∷ [])
      ∷ [])
    ≡ err stream_id_reused
unfolding steps step command_named bytes_eq upper stream_id split_dash is_canonical_number number
    lookup insert add contains
xadd_twice = refl

abbrev select_inventory : Inventory
select_inventory = record {
  bytes = 23;
  parsed_source_sha256 = digest;
  command_count = 1;
  dbs = 0 ∷ [];
  subcommand_counts = (codes "select", 1) ∷ [];
  xadd_count = 0;
  ledger_fields = 0;
  receipt_count = 0;
  publication_message_ids_sha256 = digest;
  first_publication_message_id = none;
  last_publication_message_id = none;
  matched_receipt_count = 0;
  actor_format_valid = false;
  transactions_balanced = true;
}

select_runs : inventory_bytes stub select_wire owner (codes "standard") ≡ some (ok select_inventory)
unfolding inventory_bytes admitted profile_limits owner_name is_owner scan_all scan next_command
    read_command marker line find_crlf bytes_eq unsigned number tokens token token_bytes step
    command_named upper conclude report subcommand_counts_of sorted
select_runs = refl

inventory_bytes-ne-none_example : inventory_bytes stub select_wire owner (codes "standard") ≢ none
inventory_bytes-ne-none_example = inventory_bytes-ne-none stub select_wire owner (codes "standard")

inventory_bytes-IsAccount_example : IsAccount select_wire select_inventory
inventory_bytes-IsAccount_example =
    inventory_bytes-IsAccount stub select_wire owner (codes "standard") select_inventory select_runs

inventory_bytes-sound_example :
    (commands : List (List Bytes)) × (name : Bytes) × (max_commands : ℕ) × (s : Scan) × (admitted
        select_wire owner
        (codes "standard")
      ≡ ok (name, max_commands))
    × IsStream commands select_wire
    × (steps stub (publication_key name) initial commands ≡ ok s)
    × (length commands ≤ max_commands)
    × (s.in_multi ≡ false)
    × (1 ≡ length commands)
inventory_bytes-sound_example =
    inventory_bytes_sound stub select_wire owner (codes "standard") select_inventory select_runs

select-IsFrame : IsFrame (codes "SELECT" ∷ codes "0" ∷ []) select_wire
unfolding number
select-IsFrame = record {
  header = codes "2";
  body = text_line "$6" (text_line "SELECT" (text_line "$1" (text_line "0" [])));
  numeral = record { nonempty = omega arith; short = omega arith; digits = refl; value = refl };
  least = omega arith;
  most = omega arith;
  tokens = (
    text_line "$6" (text_line "SELECT" []),
    text_line "$1" (text_line "0" []),
    record {
      header = codes "6";
      numeral = record { nonempty = omega arith; short = omega arith; digits = refl; value = refl };
      bounded = omega arith;
      spelled = refl;
    },
    (
      text_line "$1" (text_line "0" []),
      [],
      record {
        header = codes "1";
        numeral = record {
          nonempty = omega arith;
          short = omega arith;
          digits = refl;
          value = refl;
        };
        bounded = omega arith;
        spelled = refl;
      },
      refl,
      refl,
    ),
    refl,
  );
  spelled = refl;
}

selected : Scan
selected = record initial { counts = record initial.counts { select = 1 }; dbs = 0 ∷ [] }

inventory_bytes-complete_example :
    inventory_bytes stub select_wire owner (codes "standard")
    ≡ some (ok (report stub select_wire (reader_at_end select_wire 1 50_000, selected)))
unfolding selected admitted profile_limits owner_name is_owner bytes_eq steps step command_named
    upper
inventory_bytes-complete_example =
    inventory_bytes_complete stub select_wire owner (codes "standard")
      ((codes "SELECT" ∷ codes "0" ∷ []) ∷ []) {s = selected} refl
      (select_wire, [], select-IsFrame, refl, refl) refl (omega arith) refl (λ e. cc)
