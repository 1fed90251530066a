-- ===== src/Aof/Scan.antt =====
-- The loop body of `inventory_bytes` in scripts/runtime_epoch_redis_aof.py: the local variables as
-- a record, and one function for each branch on the command's name.
pub mod Accepted
pub mod Invariant
pub mod Receipts
pub mod Tally
use kairos_deploy.Base.{
  ℕ, ◌+◌, Bool, true, false, not, ◌&&◌, ◌||◌, Option, none, some, List, [], ◌∷◌, ◌++◌, Result, ok,
  err, ◌>>=◌, ◌>>◌, raise_if, length, if◌then◌else◌,
}
use kairos_deploy.Base.Bytes.{Bytes, codes, bytes_eq, is_ascii, is_hex64, lower, upper}
use kairos_deploy.Base.Dict.{Dict, lookup, insert}
use kairos_deploy.Base.Sets.{contains, add, two_beq, two_eq_instance}
use kairos_deploy.Aof.Codes.{
  Checked, malformed_or_truncated, unknown_command_or_key, transaction_invalid, db_invalid,
  stream_id_reused, receipt_invalid, receipt_field_rewritten, json_uncaught, topic, group,
}
use kairos_deploy.Aof.Tokens.{GroupCommand, create, setid, stream_id, valid_group_args, valid_claim}
use kairos_deploy.Aof.Commands.{
  JsonItem, str, Json, list, Loaded, loaded, decode_error, uncaught, Python, Command, multi, exec,
  select, xadd, hset, xgroup, xclaim, xack, command_named,
}

-- `counts`, by its keys.
pub record Counts : Type 0 where
  pub multi : ℕ
  pub exec : ℕ
  pub select : ℕ
  pub xadd : ℕ
  pub hset : ℕ
  pub xgroup_create : ℕ
  pub xgroup_setid : ℕ
  pub xclaim : ℕ
  pub xack : ℕ

pub record Scan : Type 0 where
  pub counts : Counts
  pub dbs : List ℕ
  pub publication_ids : List Bytes
  pub receipt_fields : Dict (Bytes × Bytes)
  pub stream_receipts : Dict Bytes
  pub in_multi : Bool
  pub transaction_streams : List (Bytes × Bytes)
  pub transaction_has_hset : Bool
  pub transaction_has_xadd : Bool
  pub xadd_receipts : List (Bytes × Bytes)

abbrev pub no_counts : Counts
no_counts = record {
  multi = 0;
  exec = 0;
  select = 0;
  xadd = 0;
  hset = 0;
  xgroup_create = 0;
  xgroup_setid = 0;
  xclaim = 0;
  xack = 0;
}

abbrev pub initial : Scan
initial = record {
  counts = no_counts;
  dbs = [];
  publication_ids = [];
  receipt_fields = [];
  stream_receipts = [];
  in_multi = false;
  transaction_streams = [];
  transaction_has_hset = false;
  transaction_has_xadd = false;
  xadd_receipts = [];
}

is_empty : List Bytes → Bool
is_empty [] = true
is_empty (x ∷ xs) = false

pub on_multi : List Bytes → Scan → Checked Scan
unfolding is_empty
on_multi args s = do
  raise_if (not (is_empty args) || s.in_multi) transaction_invalid
  ok (record s {
    in_multi = true;
    transaction_streams = [];
    transaction_has_hset = false;
    transaction_has_xadd = false;
    counts = record s.counts { multi = s.counts.multi + 1 };
  })

abbrev differ : Bool → Bool → Bool
differ true b = not b
differ false b = b

pub on_exec : List Bytes → Scan → Checked Scan
unfolding is_empty
on_exec args s = do
  raise_if (not (is_empty args) || not s.in_multi) transaction_invalid
  raise_if (differ s.transaction_has_hset s.transaction_has_xadd) transaction_invalid
  ok (record s { in_multi = false; counts = record s.counts { exec = s.counts.exec + 1 } })

-- `dbs.add(0)`
add_zero_db : List ℕ → List ℕ
add_zero_db [] = 0 ∷ []
add_zero_db (d ∷ dbs) = d ∷ dbs

pub on_select : List Bytes → Scan → Checked Scan
unfolding add_zero_db
on_select (db ∷ []) s = do
  raise_if (not (bytes_eq db (codes "0"))) db_invalid
  ok (record s {
    dbs = add_zero_db s.dbs;
    counts = record s.counts { select = s.counts.select + 1 };
  })
on_select _ s = err db_invalid

-- What an `XADD` of the entry `sid` with the given digest changes.
pub added : Bytes → Bytes → Scan → Scan
added sid digest s = record s {
  stream_receipts = insert sid digest s.stream_receipts;
  xadd_receipts = add (digest, sid) s.xadd_receipts;
  transaction_streams =
      if s.in_multi then add (digest, sid) s.transaction_streams else s.transaction_streams;
  transaction_has_xadd = s.in_multi || s.transaction_has_xadd;
  counts = record s.counts { xadd = s.counts.xadd + 1 };
}

pub on_xadd : Python → List Bytes → Scan → Checked Scan
unfolding added
on_xadd py (key ∷ id ∷ field ∷ payload ∷ []) s = do
  raise_if (not (bytes_eq key topic) || not (bytes_eq field (codes "data"))) unknown_command_or_key
  sid ← stream_id id false
  elim (lookup sid s.stream_receipts) [
    | some _ ↦ err stream_id_reused
    | none ↦ ok (added sid (py.sha256 payload) s)
  ]
on_xadd py _ s = err unknown_command_or_key

-- The receipt `[digest, stream id]`, checked and put in the form of `pair`.
receipt_texts : List JsonItem → Checked (Bytes × Bytes)
receipt_texts (str digest ∷ str id ∷ []) = do
  raise_if (not (is_hex64 digest)) receipt_invalid
  raise_if (not (is_ascii id)) receipt_invalid
  sid ← stream_id id false
  ok (lower digest, sid)
receipt_texts _ = err receipt_invalid

receipt_value : Loaded → Checked (Bytes × Bytes)
unfolding receipt_texts
receipt_value (loaded (list items)) = receipt_texts items
receipt_value (loaded _) = err receipt_invalid
receipt_value decode_error = err receipt_invalid
receipt_value uncaught = err json_uncaught

pub receipt_pair : Python → Bytes → Checked (Bytes × Bytes)
unfolding receipt_value
receipt_pair py value =
    if not (is_ascii value) then err receipt_invalid else receipt_value (py.json_loads value)

-- What the receipt of a message changes.
pub recorded : Bytes → Bytes × Bytes → List Bytes → Scan → Scan
recorded message_id pair ids s = record s {
  publication_ids = ids;
  receipt_fields = insert message_id pair s.receipt_fields;
  transaction_has_hset = true;
  counts = record s.counts { hset = s.counts.hset + 1 };
}

pub record_receipt : Bytes → Bytes × Bytes → Scan → Checked Scan
unfolding recorded
record_receipt message_id pair s = elim (lookup message_id s.receipt_fields) [
  | none ↦ ok (recorded message_id pair (s.publication_ids ++ message_id ∷ []) s)
  | some old ↦
      if two_beq old pair
      then ok (recorded message_id pair s.publication_ids s)
      else err receipt_field_rewritten
]

pub on_hset : Python → Bytes → List Bytes → Scan → Checked Scan
unfolding receipt_pair record_receipt
on_hset py exact_key (key ∷ field ∷ value ∷ []) s = do
  raise_if (not s.in_multi) transaction_invalid
  raise_if (not (bytes_eq key exact_key)) unknown_command_or_key
  raise_if (not (is_ascii field)) malformed_or_truncated
  raise_if (not (is_hex64 field)) unknown_command_or_key
  pair ← receipt_pair py value
  raise_if (not (contains pair s.transaction_streams) || not (contains pair s.xadd_receipts))
      receipt_invalid
  record_receipt (lower field) pair s
on_hset py exact_key _ s =
    if not s.in_multi then err transaction_invalid else err unknown_command_or_key

count_group : GroupCommand → Counts → Counts
count_group create c = record c { xgroup_create = c.xgroup_create + 1 }
count_group setid c = record c { xgroup_setid = c.xgroup_setid + 1 }

pub on_xgroup : List Bytes → Scan → Checked Scan
unfolding count_group
on_xgroup args s = do
  form ← valid_group_args args
  ok (record s { counts = count_group form s.counts })

pub on_xclaim : List Bytes → Scan → Checked Scan
on_xclaim args s = do
  valid_claim args
  ok (record s { counts = record s.counts { xclaim = s.counts.xclaim + 1 } })

-- `for sid in args[2:]: _stream_id(sid)`
stream_ids : List Bytes → Checked (Unit {0})
stream_ids [] = ok tt
stream_ids (sid ∷ sids) = do stream_id sid false; stream_ids sids

pub on_xack : List Bytes → Scan → Checked Scan
unfolding stream_ids
on_xack (key ∷ grp ∷ first ∷ more) s = do
  raise_if (not (bytes_eq key topic) || not (bytes_eq grp group)) unknown_command_or_key
  stream_ids (first ∷ more)
  ok (record s { counts = record s.counts { xack = s.counts.xack + 1 } })
on_xack _ s = err unknown_command_or_key

pub dispatch : Python → Bytes → Command → List Bytes → Scan → Checked Scan
unfolding on_multi on_exec on_select on_xadd on_hset on_xgroup on_xclaim on_xack
dispatch py exact_key multi args s = on_multi args s
dispatch py exact_key exec args s = on_exec args s
dispatch py exact_key select args s = on_select args s
dispatch py exact_key xadd args s = on_xadd py args s
dispatch py exact_key hset args s = on_hset py exact_key args s
dispatch py exact_key xgroup args s = on_xgroup args s
dispatch py exact_key xclaim args s = on_xclaim args s
dispatch py exact_key xack args s = on_xack args s

-- One round of the loop, on a command that was read.
unfoldable pub step : Python → Bytes → Scan → List Bytes → Checked Scan
unfolding dispatch
step py exact_key s [] = err malformed_or_truncated
step py exact_key s (name ∷ args) = elim (command_named (upper name)) [
  | none ↦ err unknown_command_or_key
  | some command ↦ dispatch py exact_key command args s
]

-- The loop body on a list of commands, in order.
unfoldable pub steps : Python → Bytes → Scan → List (List Bytes) → Checked Scan
steps py exact_key s [] = ok s
steps py exact_key s (command ∷ commands) = do
  s' ← step py exact_key s command
  steps py exact_key s' commands
