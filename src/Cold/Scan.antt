-- ===== src/Cold/Scan.antt =====
-- The scan of a stream for one message in `_inspect_stream` of scripts/cold_redis_acceptance.py. The
-- replies to XRANGE, `json.loads` and the digest of a payload are parameters.
pub mod Walk
pub mod Loop
pub mod Verdict
mod Tests
use kairos_deploy.Base.{
  ℕ, zero, suc, ◌+◌, ◌-◌, ◌≡◌, Option, none, some, List, [], ◌∷◌, ◌++◌, Bool, true, false, not,
  ◌&&◌, Result, ok, err, ◌>>=◌, ◌>>◌, raise_if, length, ltb, leb, ◌==◌, all, if◌then◌else◌,
}
use kairos_deploy.Base.Bytes.{Bytes, codes, bytes_eq, all_digits, split_dash}
use kairos_deploy.Cold.Resp.{
  RespError, Reply, Replies, line, integer, nothing, bulk, array, nil, cons,
}
use kairos_deploy.Cold.Resp.Encode.{size}

abbrev pub max_xrange_entries : ℕ
max_xrange_entries = 120_000

abbrev pub xrange_page_size : ℕ
xrange_page_size = 500

pub data ScanError : Type 0 where
  resp : RespError → ScanError
  reply_shape entry_shape bad_stream_id bad_fields undecodable_field loads_failed : ScanError

abbrev pub Checked : Type 0 → Type 0
Checked A = Result ScanError A

-- What `json.loads` does with a text: a payload, one of the errors of decoding that the scan catches,
-- or another exception, such as a number with too many digits or too deep a nesting.
pub data Loaded (P : Type 0) : Type 0 where
  payload : P → Loaded P
  undecodable : Loaded P
  unexpected : Loaded P

-- The message that is looked for, and what is asked of its payload: `json.loads`, the text under
-- `message_id` of a payload that is a dict, and the digest, if there is one.
pub record Probe (P : Type 0) : Type 0 where
  pub message_id : Bytes
  pub payload_sha256 : Bytes
  pub loads : Bytes → Loaded P
  pub id_in : P → Option Bytes
  pub digest_of : P → Option Bytes

pub record Scan : Type 0 where
  pub matches : List Bytes
  pub entries_scanned : ℕ
  pub cursor : Bytes
  pub complete : Bool

abbrev sized : ℕ → Bytes → Bool
sized most part = leb 1 (length part) && (leb (length part) most && all_digits part)

abbrev both_sized : Option (Bytes × Bytes) → Bool
both_sized none = false
both_sized (some parts) = sized 20 parts.0 && sized 10 parts.1

-- `[0-9]{1,20}-[0-9]{1,10}`
unfoldable pub is_stream_id : Bytes → Bool
is_stream_id value = both_sized (split_dash value)

abbrev pub bytes_of : Reply → Option Bytes
bytes_of (line text) = some text
bytes_of (bulk value) = some value
bytes_of _ = none

-- `_decode(value) == "data"`
abbrev pub is_data : Reply → Checked Bool
is_data (line text) = ok (bytes_eq text (codes "data"))
is_data (bulk value) = ok (bytes_eq value (codes "data"))
is_data nothing = ok false
is_data _ = err undecodable_field

-- `not len(fields) % 2`
unfoldable pub is_even : Replies → Bool
is_even nil = true
is_even (cons name nil) = false
is_even (cons name (cons value rest)) = is_even rest

abbrev pub kept_if : Bool → Reply → List Reply → List Reply
kept_if true value values = value ∷ values
kept_if false value values = values

-- The values under `data`, of fields that come in pairs.
unfoldable pub data_fields : Replies → Checked (List Reply)
data_fields nil = ok []
data_fields (cons name nil) = err bad_fields
data_fields (cons name (cons value rest)) = do
  named ← is_data name
  values ← data_fields rest
  ok (kept_if named value values)

abbrev pub is_same : Option Bytes → Bytes → Bool
is_same none wanted = false
is_same (some value) wanted = bytes_eq value wanted

-- `cursor if cursor == "-" else "(" + cursor`
abbrev pub minimum_of : Bytes → Bytes
minimum_of cursor = if bytes_eq cursor (codes "-") then cursor else 40 ∷ cursor

abbrev pub count_of : ℕ → ℕ
count_of scanned =
    if leb xrange_page_size (max_xrange_entries - scanned)
    then xrange_page_size
    else max_xrange_entries - scanned

-- What is done behind the entries of a reply: the next page, unless two matches or a short reply end
-- the loop.
unfoldable pub behind_page : (Scan → Checked Scan) → Bool → Scan → Checked Scan
behind_page next short s = elim (ltb 1 (length s.matches)) [
  | true ↦ ok s
  | false ↦ elim short [ true ↦ ok (record s { complete = true }) | false ↦ next s ]
]

module _ {P : Type 0} (probe : Probe P) where
  abbrev pub is_wanted : P → Bool
  is_wanted p =
      is_same (probe.id_in p) probe.message_id && is_same (probe.digest_of p) probe.payload_sha256

  -- An error of decoding is passed over; any other exception leaves the scan.
  abbrev pub loaded_match : Loaded P → Checked Bool
  loaded_match (payload p) = ok (is_wanted p)
  loaded_match undecodable = ok false
  loaded_match unexpected = err loads_failed

  abbrev pub holds : Option Bytes → Checked Bool
  holds none = ok false
  holds (some text) = loaded_match (probe.loads text)

  -- Whether the one value under `data` is the message.
  unfoldable pub is_match : List Reply → Checked Bool
  is_match (value ∷ []) = holds (bytes_of value)
  is_match _ = ok false

  -- The scan behind an entry.
  abbrev pub passed_entry : Bytes → Bool → Scan → Scan
  passed_entry id found s = record s {
    matches = if found then s.matches ++ (id ∷ []) else s.matches;
    entries_scanned = s.entries_scanned + 1;
    cursor = id;
  }

  unfoldable pub on_fields : Bytes → Reply → Scan → Checked Scan
  on_fields id (array fields) s = do
    raise_if (not (is_even fields)) bad_fields
    values ← data_fields fields
    found ← is_match values
    ok (passed_entry id found s)
  on_fields id _ s = err bad_fields

  unfoldable pub on_id : Option Bytes → Reply → Scan → Checked Scan
  on_id none fields s = err entry_shape
  on_id (some id) fields s = if is_stream_id id then on_fields id fields s else err bad_stream_id

  -- The body of the loop over the entries of a reply.
  unfoldable pub on_entry : Reply → Scan → Checked Scan
  on_entry (array (cons id (cons fields nil))) s = on_id (bytes_of id) fields s
  on_entry _ s = err entry_shape

  unfoldable pub on_entries : Replies → Scan → Checked Scan
  on_entries nil s = ok s
  on_entries (cons entry entries) s = on_entry entry s >>= λ s'. on_entries entries s'

  unfoldable pub on_reply : (Scan → Checked Scan) → ℕ → Reply → Scan → Checked Scan
  on_reply next count (array nil) s = ok (record s { complete = true })
  on_reply next count (array (cons entry entries)) s = do
    raise_if (ltb count (size (cons entry entries))) reply_shape
    s' ← on_entries (cons entry entries) s
    behind_page next (ltb (size (cons entry entries)) count) s'
  on_reply next count _ s = err reply_shape

  -- The loop over the pages, on fuel.
  unfoldable pub scan_with : ℕ → (Bytes → ℕ → Checked Reply) → Scan → Checked Scan
  scan_with zero xrange s = ok s
  scan_with (suc fuel) xrange s = elim (ltb s.entries_scanned max_xrange_entries) [
    | true ↦ xrange (minimum_of s.cursor) (count_of s.entries_scanned) >>= λ reply.
        on_reply (λ s'. scan_with fuel xrange s') (count_of s.entries_scanned) reply s
    | false ↦ ok s
  ]

abbrev pub scan_start : Scan
scan_start = record { matches = []; entries_scanned = 0; cursor = codes "-"; complete = false }

pub data State : Type 0 where
  conflict positive_accepted inconclusive_zero_match inconclusive_scan_limit : State

unfoldable pub state_of : Scan → State
state_of s =
    if ltb 1 (length s.matches)
    then conflict
    else if s.complete && length s.matches == 1
    then positive_accepted
    else if s.complete
    then inconclusive_zero_match
    else inconclusive_scan_limit

unfoldable pub inspect : {P : Type 0} → Probe P → (Bytes → ℕ → Checked Reply) → Checked State
inspect probe xrange = scan_with probe max_xrange_entries xrange scan_start >>= λ s. ok (state_of s)
