-- ===== src/Aof/Reader.antt =====
-- `class _RespReader` of scripts/runtime_epoch_redis_aof.py: a cursor over the captured bytes that
-- yields one command after another.
pub mod Cursor
pub mod Grammar
pub mod Sound
pub mod Complete
use kairos_deploy.Base.{
  ℕ, zero, suc, ◌+◌, Bool, not, ◌||◌, Option, none, some, List, [], ◌∷◌, ◌++◌, Result, ok, err,
  ◌>>=◌, ◌>>◌, raise_if, length, take, drop, ltb, ◌==◌, if◌then◌else◌,
}
use kairos_deploy.Base.Bytes.{Bytes, codes, bytes_eq, find_crlf}
use kairos_deploy.Aof.Codes.{
  Checked, malformed_or_truncated, limit_exceeded, max_array_length, max_token_bytes,
}
use kairos_deploy.Aof.Tokens.{unsigned}

pub record Reader : Type 0 where
  pub input : Bytes
  pub offset : ℕ
  pub commands : ℕ
  pub max_commands : ℕ

-- `self.data[self.offset:]`
abbrev pub remaining : Reader → Bytes
remaining r = drop r.offset r.input

-- `self.offset += n`
abbrev pub advance : ℕ → Reader → Reader
advance n r = record r { offset = r.offset + n }

-- `_line`: the bytes up to the next line break, and the cursor behind it.
unfoldable pub line : Reader → Checked (Bytes × Reader)
line r = elim (find_crlf (remaining r)) [
  | none ↦ err malformed_or_truncated
  | some n ↦
      let text = take n (remaining r) in
      if ltb max_token_bytes (length text) then err limit_exceeded else ok (text, advance (n + 2) r)
]

-- `self.data[self.offset:self.offset + 1] != bytes([c])`, and the step over that byte.
unfoldable pub marker : ℕ → Reader → Checked Reader
marker c r =
    if bytes_eq (take 1 (remaining r)) (c ∷ [])
    then ok (advance 1 r)
    else err malformed_or_truncated

-- The bytes of a token of a given length, and the line break behind them.
unfoldable pub token_bytes : ℕ → Reader → Checked (Bytes × Reader)
token_bytes n r =
    if ltb (length r.input) (r.offset + n + 2)
      || not (bytes_eq (take 2 (drop (r.offset + n) r.input)) (13 ∷ 10 ∷ []))
    then err malformed_or_truncated
    else ok (take n (remaining r), advance (n + 2) r)

-- One round of the loop over the tokens.
unfoldable pub token : Reader → Checked (Bytes × Reader)
unfolding marker
token r = do
  r' ← marker b'$' r
  raw_length ← line r'
  length ← unsigned raw_length.0 max_token_bytes limit_exceeded
  raise_if (ltb max_token_bytes length) limit_exceeded
  token_bytes length raw_length.1

-- `for _ in range(count)`, with the tokens in the order of reading.
unfoldable pub tokens : ℕ → Reader → Checked (List Bytes × Reader)
tokens zero r = ok ([], r)
tokens (suc n) r = do first ← token r; rest ← tokens n first.1; ok (first.0 ∷ rest.0, rest.1)

-- The array of tokens at the cursor.
unfoldable pub read_command : Reader → Checked (List Bytes × Reader)
read_command r = do
  r' ← marker b'*' r
  raw_count ← line r'
  count ← unsigned raw_count.0 max_array_length limit_exceeded
  raise_if (ltb count 1 || ltb max_array_length count) limit_exceeded
  tokens count raw_count.1

-- `self.commands += 1`, within the bound.
unfoldable pub counted : List Bytes × Reader → Checked (Option (List Bytes) × Reader)
counted (command, r) =
    if ltb r.max_commands (r.commands + 1)
    then err limit_exceeded
    else ok (some command, record r { commands = r.commands + 1 })

-- `next_command`: `none` at the end of the data.
unfoldable pub next_command : Reader → Checked (Option (List Bytes) × Reader)
unfolding counted
next_command r = if r.offset == length r.input then ok (none, r) else read_command r >>= counted
