-- ===== src/Aof/Reader/Complete.antt =====
-- What stands on the wire is read: the reader of scripts/runtime_epoch_redis_aof.py accepts every
-- command of the grammar that its bound on commands admits.
use kairos_deploy.Base.{
  ℕ, ◌+◌, ◌≤◌, ◌<◌, ◌≡◌, sym, ap, ◌∙◌, true, false, ◌||◌, none, some, List, [], ◌∷◌, ◌++◌,
  append_assoc, arith, ok, err, length, length-append, take, drop, drop-add, take-length_append,
  drop-length_append, length-drop, ltb, ◌==◌, if◌then◌else◌,
}
use kairos_deploy.Base.Bytes.{Bytes, bytes_eq, all_digits, find_crlf}
use kairos_deploy.Aof.Codes.{AofError, limit_exceeded, max_array_length, max_token_bytes}
use kairos_deploy.Aof.Tokens.{unsigned}
use kairos_deploy.Aof.Reader.{
  Reader, remaining, advance, line, marker, token_bytes, token, tokens, read_command, next_command,
}
use kairos_deploy.Base.Lines.{crlf, find_crlf-digits}
use kairos_deploy.Aof.Reader.Cursor.{remaining-advance}
use kairos_deploy.Aof.Reader.Grammar.{IsNumeral, IsToken, IsTokens, IsFrame}

unsigned_complete :
    (ds : Bytes) (maximum : ℕ) (code : AofError) {n : ℕ}
    → IsNumeral ds n
    → n ≤ maximum
    → unsigned ds maximum code ≡ ok n
unfolding unsigned
unsigned_complete ds maximum code numeral h = ground arith

marker_complete :
    (c : ℕ) (r : Reader) (rest : Bytes)
    → remaining r ≡ (c ∷ []) ++ rest
    → marker c r ≡ ok (advance 1 r)
unfolding marker bytes_eq
marker_complete c r rest h = rw (h, marker) (ground arith)

line_complete :
    (r : Reader) (ds rest : Bytes)
    → all_digits ds ≡ true
    → length ds ≤ 20
    → remaining r ≡ ds ++ (crlf ++ rest)
    → line r ≡ ok (ds, advance (length ds + 2) r)
unfolding line
line_complete r ds rest digits short h =
    let found : find_crlf (remaining r) ≡ some (length ds) =
      rw h (find_crlf-digits ds rest digits) in
    let taken : take (length ds) (remaining r) ≡ ds = rw h (take-length_append ds (crlf ++ rest)) in
    rw (found, line) (rw taken (ground arith))

token_bytes_complete :
    (r : Reader) (arg rest : Bytes)
    → remaining r ≡ arg ++ (crlf ++ rest)
    → token_bytes (length arg) r ≡ ok (arg, advance (length arg + 2) r)
unfolding token_bytes bytes_eq
token_bytes_complete r arg rest h =
    let taken : take (length arg) (remaining r) ≡ arg =
      rw h (take-length_append arg (crlf ++ rest)) in
    let behind : drop (r.offset + length arg) r.input ≡ crlf ++ rest =
      drop-add r.offset (length arg) r.input
      ∙ (ap (drop (length arg)) h ∙ drop-length_append arg (crlf ++ rest)) in
    let fits : r.offset + length arg + 2 ≤ length r.input =
      omega
        (arith, ap length h, length-append {0} arg (crlf ++ rest), length-drop r.offset r.input) in
    rw (taken, behind) (ground arith)

-- The reader behind a marker and a line with the digits `ds`.
abbrev behind_header : Bytes → Reader → Reader
behind_header ds r = advance (length ds + 2) (advance 1 r)

header_complete :
    (c : ℕ) (r : Reader) (ds rest : Bytes)
    → all_digits ds ≡ true
    → length ds ≤ 20
    → remaining r ≡ (c ∷ ds) ++ (crlf ++ rest)
    → (marker c r ≡ ok (advance 1 r))
      × (line (advance 1 r) ≡ ok (ds, behind_header ds r))
      × (remaining (behind_header ds r) ≡ rest)
header_complete c r ds rest digits short h =
    let at1 : remaining (advance 1 r) ≡ ds ++ (crlf ++ rest) = remaining-advance r (c ∷ []) _ h in
    let size : length (ds ++ crlf) ≡ length ds + 2 = length-append ds crlf in
    (
      marker_complete c r (ds ++ (crlf ++ rest)) h,
      line_complete (advance 1 r) ds rest digits short at1,
      rw (← size) (
          remaining-advance (advance 1 r) (ds ++ crlf) rest
            (at1 ∙ sym (append_assoc ds crlf rest))),
    )

token_complete :
    (r : Reader) (arg wire rest : Bytes)
    → IsToken arg wire
    → remaining r ≡ wire ++ rest
    → token r ≡ ok (arg, advance (length wire) r)
unfolding token
token_complete r arg wire rest t h =
    let spelled : remaining r ≡ (b'$' ∷ t.header) ++ (crlf ++ (arg ++ (crlf ++ rest))) =
      h ∙ (ap (λ w. w ++ rest) t.spelled ∙ simp append_assoc) in
    let (at_marker, at_line, at_arg) =
      header_complete b'$' r t.header _ t.numeral.digits t.numeral.short spelled in
    let at_length : unsigned t.header max_token_bytes limit_exceeded ≡ ok (length arg) =
      unsigned_complete t.header max_token_bytes limit_exceeded t.numeral t.bounded in
    let small : ltb max_token_bytes (length arg) ≡ false = ground (arith, t.bounded) in
    let at_bytes = token_bytes_complete (behind_header t.header r) arg rest at_arg in
    let size : length wire ≡ 1 + (length t.header + 2) + (length arg + 2) =
      rw t.spelled (simp length-append (omega arith)) in
    rw (at_marker, token)
      (rw at_line (rw at_length (rw small (rw at_bytes (ground (arith, size))))))

tokens_complete :
    (r : Reader) (args : List Bytes) (wire rest : Bytes)
    → IsTokens args wire
    → remaining r ≡ wire ++ rest
    → tokens (length args) r ≡ ok (args, advance (length wire) r)
unfolding tokens
tokens_complete r [] wire rest t h = ground (arith, ap (length {0}) t)
tokens_complete r (arg ∷ args) wire rest (v, w, first, more, e) h =
    let spelled : remaining r ≡ v ++ (w ++ rest) =
      h ∙ (ap (λ u. u ++ rest) e ∙ append_assoc v w rest) in
    let at_first = token_complete r arg v (w ++ rest) first spelled in
    let at_more =
      tokens_complete (advance (length v) r) args w rest more
        (remaining-advance r v (w ++ rest) spelled) in
    let size : length wire ≡ length v + length w = rw e (length-append v w) in
    rw (at_first, tokens) (rw at_more (ground (arith, size)))

read_command_complete :
    (r : Reader) (command : List Bytes) (wire rest : Bytes)
    → IsFrame command wire
    → remaining r ≡ wire ++ rest
    → read_command r ≡ ok (command, advance (length wire) r)
unfolding read_command
read_command_complete r command wire rest f h =
    let spelled : remaining r ≡ (b'*' ∷ f.header) ++ (crlf ++ (f.body ++ rest)) =
      h ∙ (ap (λ w. w ++ rest) f.spelled ∙ simp append_assoc) in
    let (at_marker, at_line, at_body) =
      header_complete b'*' r f.header _ f.numeral.digits f.numeral.short spelled in
    let at_count : unsigned f.header max_array_length limit_exceeded ≡ ok (length command) =
      unsigned_complete f.header max_array_length limit_exceeded f.numeral f.most in
    let in_range : (ltb (length command) 1 || ltb max_array_length (length command)) ≡ false =
      ground (arith, f.most, f.least) in
    let at_tokens =
      tokens_complete (behind_header f.header r) command f.body rest f.tokens at_body in
    let size : length wire ≡ 1 + (length f.header + 2) + length f.body =
      rw f.spelled (simp length-append (omega arith)) in
    rw (at_marker, read_command)
      (rw at_line (rw at_count (rw in_range (rw at_tokens (ground (arith, size))))))

-- A command of the grammar at the place of the cursor is returned, and the cursor moves behind it,
-- while fewer commands than the bound were read; one command more is refused as over the limit.
pub next_command_complete :
    (r : Reader) (command : List Bytes) (wire rest : Bytes)
    → IsFrame command wire
    → remaining r ≡ wire ++ rest
    → next_command r ≡ (
        if ltb r.commands r.max_commands
        then ok
            (some command, record r { offset = r.offset + length wire; commands = r.commands + 1 })
        else err limit_exceeded)
unfolding next_command
next_command_complete r command wire rest f h =
    let within : r.offset < length r.input = omega (
      arith,
      ap length h,
      ap length f.spelled,
      length-append {0} wire rest,
      length-drop r.offset r.input,
    ) in
    let more : (r.offset == length r.input) ≡ false = ground (arith, within) in
    rw (more, next_command) (rw (read_command_complete r command wire rest f h) (ground arith))

-- At the end of the data the reader says so.
pub next_command-at_end : (r : Reader) → r.offset ≡ length r.input → next_command r ≡ ok (none, r)
unfolding next_command
next_command-at_end r h = ground arith
