-- ===== src/Cold/Resp.antt =====
-- `RESPReader` and `_resp_command` of scripts/cold_redis_acceptance.py. What the socket receives, in its
-- parts, and whether each part is asked for before the deadline, are parameters.
pub mod Stream
pub mod Encode
pub mod Kinds
pub mod Roundtrip
mod Tests
use kairos_deploy.Base.{
  ℕ, zero, suc, ◌+◌, ◌*◌, Option, none, some, List, [], ◌∷◌, ◌++◌, Bool, true, false, not, ◌&&◌,
  ◌||◌, Result, ok, err, ◌>>=◌, ◌>>◌, raise_if, length, take, drop, ltb, leb, ◌==◌, if◌then◌else◌,
}
use kairos_deploy.Base.Bytes.{Bytes, bytes_eq, find_crlf}
use kairos_deploy.Base.Integers.{ℤ, pos, negsuc, decimal, int_of}
use kairos_deploy.Base.Lines.{crlf}

-- `MAX_XRANGE_ENTRIES * 8 + 16`
abbrev pub max_array : ℕ
max_array = 120_000 * 8 + 16

pub data RespError : Type 0 where
  over_bound ended response_too_long connection_failed : RespError
  nesting_exceeded redis_error bad_integer bad_length length_outside bad_terminator : RespError
  bad_count count_outside unsupported_type : RespError

-- A part that the socket receives; `in_time` if the deadline has not passed when it is asked for.
pub record Arrival : Type 0 where
  pub in_time : Bool
  pub data_received : Bytes

pub record Reader : Type 0 where
  pub maximum_bytes : ℕ
  pub received : ℕ
  pub buffer : Bytes

-- A result with the reader and what the socket receives later.
pub record Read (A : Type 0) : Type 0 where
  pub value : A
  pub reader : Reader
  pub later : List Arrival

abbrev pub Checked : Type 0 → Type 0
Checked A = Result RespError A

mutual
  pub data Reply : Type 0 where
    line : Bytes → Reply
    integer : ℤ → Reply
    nothing : Reply
    bulk : Bytes → Reply
    array : Replies → Reply

  pub data Replies : Type 0 where
    nil : Replies
    cons : Reply → Replies → Replies

abbrev pub is_empty : Bytes → Bool
is_empty [] = true
is_empty (c ∷ cs) = false

-- `_more` for a part that the socket receives.
unfoldable pub more : Arrival → Reader → Checked Reader
more a r = do
  raise_if (not a.in_time || leb r.maximum_bytes r.received) over_bound
  raise_if (is_empty a.data_received) ended
  raise_if (ltb r.maximum_bytes (r.received + length a.data_received)) response_too_long
  ok (record r {
    received = r.received + length a.data_received;
    buffer = r.buffer ++ a.data_received;
  })

-- `_more` where the socket receives nothing any more.
abbrev pub no_more : Reader → RespError
no_more r = if leb r.maximum_bytes r.received then over_bound else connection_failed

abbrev pub taken : ℕ → Reader → List Arrival → Read Bytes
taken count r later = record {
  value = take count r.buffer;
  reader = record r { buffer = drop count r.buffer };
  later = later;
}

-- `_take`
unfoldable pub take_bytes : ℕ → Reader → List Arrival → Checked (Read Bytes)
take_bytes count r [] =
    if leb count (length r.buffer) then ok (taken count r []) else err (no_more r)
take_bytes count r (a ∷ later) = elim (leb count (length r.buffer)) [
  | true ↦ ok (taken count r (a ∷ later))
  | false ↦ more a r >>= λ r'. take_bytes count r' later
]

abbrev pub line_at : ℕ → Reader → List Arrival → Read Bytes
line_at position r later = record {
  value = take position r.buffer;
  reader = record r { buffer = drop (position + 2) r.buffer };
  later = later;
}

-- `_line`
unfoldable pub read_line : Reader → List Arrival → Checked (Read Bytes)
read_line r [] = elim (find_crlf r.buffer) [
  | none ↦ err (no_more r)
  | some position ↦ ok (line_at position r [])
]
read_line r (a ∷ later) = elim (find_crlf r.buffer) [
  | none ↦ more a r >>= λ r'. read_line r' later
  | some position ↦ ok (line_at position r (a ∷ later))
]

-- A result with another value.
abbrev pub with_value : {A B : Type 0} → B → Read A → Read B
with_value b x = record { value = b; reader = x.reader; later = x.later }

abbrev pub integer_reply : Option ℤ → Read Bytes → Checked (Read Reply)
integer_reply none x = err bad_integer
integer_reply (some n) x = ok (with_value (integer n) x)

-- `value[-2:] == b"\r\n"`, of a value of two bytes at least.
abbrev pub bulk_reply : ℕ → Read Bytes → Checked (Read Reply)
bulk_reply n x =
    if bytes_eq (drop n x.value) (13 ∷ 10 ∷ [])
    then ok (with_value (bulk (take n x.value)) x)
    else err bad_terminator

unfoldable pub bulk_of : Option ℤ → Read Bytes → Checked (Read Reply)
bulk_of none x = err bad_length
bulk_of (some (negsuc zero)) x = ok (with_value nothing x)
bulk_of (some (negsuc (suc n))) x = err length_outside
bulk_of (some (pos n)) x =
    if ltb x.reader.maximum_bytes n
    then err length_outside
    else take_bytes (n + 2) x.reader x.later >>= bulk_reply n

abbrev pub Parser : Type 0
Parser = Reader → List Arrival → Checked (Read Reply)

-- `[self.parse(depth + 1) for _ in range(count)]`
unfoldable pub parse_items : Parser → ℕ → Reader → List Arrival → Checked (Read Replies)
parse_items parse zero r later = ok (record { value = nil; reader = r; later = later })
parse_items parse (suc n) r later = do
  x ← parse r later
  xs ← parse_items parse n x.reader x.later
  ok (with_value (cons x.value xs.value) xs)

unfoldable pub array_of : Parser → Option ℤ → Read Bytes → Checked (Read Reply)
array_of parse none x = err bad_count
array_of parse (some (negsuc zero)) x = ok (with_value nothing x)
array_of parse (some (negsuc (suc n))) x = err count_outside
array_of parse (some (pos n)) x =
    if ltb max_array n
    then err count_outside
    else parse_items parse n x.reader x.later >>= λ xs. ok (with_value (array xs.value) xs)

-- The reply behind its first byte.
unfoldable pub reply_of : Parser → Bytes → Reader → List Arrival → Checked (Read Reply)
reply_of parse prefix r later =
    if bytes_eq prefix (43 ∷ [])
    then (read_line r later >>= λ x. ok (with_value (line x.value) x))
    else if bytes_eq prefix (45 ∷ [])
    then (read_line r later >>= λ x. err redis_error)
    else if bytes_eq prefix (58 ∷ [])
    then (read_line r later >>= λ x. integer_reply (int_of x.value) x)
    else if bytes_eq prefix (36 ∷ [])
    then (read_line r later >>= λ x. bulk_of (int_of x.value) x)
    else if bytes_eq prefix (42 ∷ [])
    then (read_line r later >>= λ x. array_of parse (int_of x.value) x)
    else err unsupported_type

-- `parse` where so many levels of depth are left.
unfoldable pub parse : ℕ → Reader → List Arrival → Checked (Read Reply)
parse zero r later = err nesting_exceeded
parse (suc levels) r later =
    take_bytes 1 r later >>= λ x. reply_of (parse levels) x.value x.reader x.later

-- `if depth > 8`
abbrev pub max_levels : ℕ
max_levels = 9

unfoldable pub joined_parts : List Bytes → Bytes
joined_parts [] = []
joined_parts (part ∷ parts) =
    (36 ∷ decimal (length part)) ++ (crlf ++ (part ++ (crlf ++ joined_parts parts)))

-- The request of `_resp_command`.
unfoldable pub request : List Bytes → Bytes
request parts = (42 ∷ decimal (length parts)) ++ (crlf ++ joined_parts parts)

-- `RESPReader(connection, ...)`
abbrev pub new_reader : ℕ → Reader
new_reader maximum_bytes = record { maximum_bytes = maximum_bytes; received = 0; buffer = [] }
