-- ===== src/Aof/Reader/Sound.antt =====
-- What the reader of scripts/runtime_epoch_redis_aof.py returns is what stands on the wire.
use kairos_deploy.Base.{
  ℕ, zero, suc, ◌+◌, ◌≤◌, ◌≡◌, refl, sym, subst, ap, ◌∙◌, inl, inr, true, ◌||◌, none, some, List,
  [], ◌∷◌, ◌++◌, append_assoc, arith, ok, bound, >>=-Bound, passed, raise_if-Passed, length,
  length-append, take, drop, drop-add, take-append-drop, length-take, length-drop, ltb, ◌==◌,
  Bool-cases, Option-cases,
}
use kairos_deploy.Base.Bytes.{Bytes, bytes_eq, find_crlf}
use kairos_deploy.Aof.Codes.{AofError, limit_exceeded, max_array_length, max_token_bytes}
use kairos_deploy.Aof.Tokens.{unsigned}
use kairos_deploy.Aof.Reader.{
  Reader, remaining, advance, line, marker, token_bytes, token, tokens, read_command, next_command,
}
use kairos_deploy.Base.Lines.{crlf, find_crlf_sound, find_crlf-le}
use kairos_deploy.Aof.Reader.Cursor.{Passes, Passes-advance, Passes-trans}
use kairos_deploy.Aof.Reader.Grammar.{IsNumeral, IsToken, IsTokens, IsFrame}

pub unsigned_sound :
    (ds : Bytes) (maximum : ℕ) (code : AofError) {n : ℕ}
    → unsigned ds maximum code ≡ ok n
    → IsNumeral ds n × (n ≤ maximum)
unfolding unsigned
unsigned_sound ds maximum code h = ground arith

-- What starts with `c` is `c` and the rest.
take_one : (c : ℕ) (bs : Bytes) → bytes_eq (take 1 bs) (c ∷ []) ≡ true → bs ≡ (c ∷ []) ++ drop 1 bs
unfolding bytes_eq
take_one c [] h = cc
take_one c (b ∷ bs) h = ground arith

take_two : (bs : Bytes) → bytes_eq (take 2 bs) crlf ≡ true → bs ≡ crlf ++ drop 2 bs
unfolding bytes_eq
take_two [] h = cc
take_two (b ∷ []) h = ground arith
take_two (b ∷ c ∷ bs) h = ground arith

marker_sound : (c : ℕ) (r : Reader) {r' : Reader} → marker c r ≡ ok r' → Passes r (c ∷ []) r'
unfolding marker
marker_sound c r h = elim (Bool-cases (bytes_eq (take 1 (remaining r)) (c ∷ []))) [
  | inl there ↦
      Passes-advance r (c ∷ []) (drop 1 (remaining r)) (take_one c (remaining r) there)
        (cc (rw there at h))
  | inr missing ↦ cc (rw missing at h)
]

line_sound :
    (r : Reader) {text : Bytes} {r' : Reader} → line r ≡ ok (text, r') → Passes r (text ++ crlf) r'
unfolding line
line_sound r {text} {r'} h = elim (Option-cases (find_crlf (remaining r))) [
  | inl stuck ↦ cc (rw (stuck, line) at h)
  | inr (n, e) ↦
      let bs = remaining r in
      let found : text ≡ take n bs = ground (arith, rw (e, line) at h) in
      let moved : r' ≡ advance (n + 2) r = ground (arith, rw (e, line) at h) in
      let size : length (take n bs) ≡ n = length-take n bs (omega (arith, find_crlf-le bs n e)) in
      Passes-advance r (text ++ crlf) (drop (suc (suc n)) bs)
        (rw (found, append_assoc) (find_crlf_sound bs n e))
        (rw (moved, found, length-append, size) refl)
]

token_bytes_sound :
    (n : ℕ) (r : Reader) {arg : Bytes} {r' : Reader}
    → token_bytes n r ≡ ok (arg, r')
    → Passes r (arg ++ crlf) r' × (length arg ≡ n)
unfolding token_bytes
token_bytes_sound n r {arg} {r'} h =
    let bs = remaining r in
    let behind = drop (r.offset + n) r.input in
    let fits : r.offset + n + 2 ≤ length r.input = ground arith in
    let closed : bytes_eq (take 2 behind) crlf ≡ true = ground arith in
    let found : arg ≡ take n bs = ground arith in
    let moved : r' ≡ advance (n + 2) r = ground arith in
    let size : length (take n bs) ≡ n =
      length-take n bs (omega (arith, length-drop r.offset r.input)) in
    let ends : drop n bs ≡ crlf ++ drop 2 behind =
      sym (drop-add r.offset n r.input) ∙ take_two behind closed in
    let split : bs ≡ take n bs ++ (crlf ++ drop 2 behind) =
      sym (take-append-drop n bs) ∙ ap (λ t. take n bs ++ t) ends in
    (
      Passes-advance r (arg ++ crlf) (drop 2 behind) (rw (found, append_assoc) split)
          (rw (moved, found, length-append, size) refl),
      rw (found, size) refl,
    )

-- A token that is read is a token of the grammar, at the place of the cursor.
token_sound :
    (r : Reader) {arg : Bytes} {r' : Reader}
    → token r ≡ ok (arg, r')
    → (wire : Bytes) × IsToken arg wire × Passes r wire r'
unfolding token
token_sound r {arg} {r'} h = elim (>>=-Bound (marker b'$' r) _ h) [
  | bound r1 at_marker h1 ↦ elim (>>=-Bound (line r1) _ h1) [
    | bound (header, r2) at_line h2 ↦
        elim (>>=-Bound (unsigned header max_token_bytes limit_exceeded) _ h2) [
          | bound n is_length h3 ↦
              elim (raise_if-Passed (ltb max_token_bytes n) limit_exceeded _ h3) [
                | passed _ at_bytes ↦
                    let (taken, size) = token_bytes_sound n r2 at_bytes in
                    let (numeral, bounded) =
                      unsigned_sound header max_token_bytes limit_exceeded is_length in
                    (
                      (b'$' ∷ header) ++ (crlf ++ (arg ++ crlf)),
                      record {
                        header = header;
                        numeral = subst (IsNumeral header) (sym size) numeral;
                        bounded = omega arith;
                        spelled = refl;
                      },
                      rw (← append_assoc header crlf (arg ++ crlf)) (
                          Passes-trans (b'$' ∷ []) _ (marker_sound b'$' r at_marker) (
                            Passes-trans (header ++ crlf) (arg ++ crlf) (line_sound r1 at_line)
                              taken)),
                    )
              ]
        ]
  ]
]

-- The tokens that are read are those of the grammar, one behind the other.
tokens_sound :
    (n : ℕ) (r : Reader) {args : List Bytes} {r' : Reader}
    → tokens n r ≡ ok (args, r')
    → (wire : Bytes) × IsTokens args wire × Passes r wire r' × (length args ≡ n)
unfolding tokens
tokens_sound zero r {args} {r'} h =
    let same : args ≡ [] = ground arith in
    let end : r' ≡ advance 0 r = ground arith in
    rw same ([], refl, Passes-advance r [] (remaining r) refl end, refl)
tokens_sound (suc n) r {args} {r'} h = elim (>>=-Bound (token r) _ h) [
  | bound (arg, r1) at_token h1 ↦ elim (>>=-Bound (tokens n r1) _ h1) [
    | bound (more, r2) at_more h2 ↦
        let (v, is_token, first) = token_sound r at_token in
        let (w, are_tokens, rest, size) = tokens_sound n r1 at_more in
        let same : args ≡ arg ∷ more = ground (arith, h2) in
        let end : r' ≡ r2 = ground (arith, h2) in
        rw (same, end)
          (v ++ w, (v, w, is_token, are_tokens, refl), Passes-trans v w first rest, ap suc size)
  ]
]

-- The array that is read is a frame of the grammar.
read_command_sound :
    (r : Reader) {command : List Bytes} {r' : Reader}
    → read_command r ≡ ok (command, r')
    → (wire : Bytes) × IsFrame command wire × Passes r wire r'
unfolding read_command
read_command_sound r {command} {r'} h = elim (>>=-Bound (marker b'*' r) _ h) [
  | bound r1 at_marker h1 ↦ elim (>>=-Bound (line r1) _ h1) [
    | bound (header, r2) at_line h2 ↦
        elim (>>=-Bound (unsigned header max_array_length limit_exceeded) _ h2) [
          | bound n is_count h3 ↦
              elim (raise_if-Passed (ltb n 1 || ltb max_array_length n) limit_exceeded _ h3) [
                | passed in_range at_tokens ↦
                    let (body, are_tokens, taken, size) = tokens_sound n r2 at_tokens in
                    let (numeral, most) =
                      unsigned_sound header max_array_length limit_exceeded is_count in
                    (
                      (b'*' ∷ header) ++ (crlf ++ body),
                      record {
                        header = header;
                        body = body;
                        numeral = subst (IsNumeral header) (sym size) numeral;
                        least = ground (arith, size, in_range);
                        most = omega arith;
                        tokens = are_tokens;
                        spelled = refl;
                      },
                      rw (← append_assoc header crlf body) (
                          Passes-trans (b'*' ∷ []) _ (marker_sound b'*' r at_marker)
                            (Passes-trans (header ++ crlf) body (line_sound r1 at_line) taken)),
                    )
              ]
        ]
  ]
]

-- A command that the reader returns stands on the wire at the place of the cursor, which moves
-- behind it; and it was counted within the bound.
pub next_command_sound :
    (r : Reader) {command : List Bytes} {r' : Reader}
    → next_command r ≡ ok (some command, r')
    → (wire : Bytes) × IsFrame command wire
      × (remaining r ≡ wire ++ remaining r')
      × (r' ≡ record r { offset = r.offset + length wire; commands = r.commands + 1 })
      × (r.commands + 1 ≤ r.max_commands)
unfolding next_command
next_command_sound r {command} {r'} h = elim (Bool-cases (r.offset == length r.input)) [
  | inl end ↦ ground (arith, rw (end, next_command) at h)
  | inr more ↦ elim (>>=-Bound (read_command r) _ (rw (more, next_command) at h)) [
    | bound (args, r1) at_args h1 ↦
        let (wire, frame, taken) = read_command_sound r at_args in
        let same : command ≡ args = ground (arith, h1) in
        let end : r' ≡ record r1 { commands = r1.commands + 1 } = ground (arith, h1) in
        let room : r1.commands + 1 ≤ r1.max_commands = ground (arith, h1) in
        rw (same, end)
          (wire, frame, taken.read, ground (arith, taken.moved), ground (arith, taken.moved, room))
  ]
]

-- The reader reports the end of the data exactly there, and stays.
pub next_command-end :
    (r : Reader) {r' : Reader}
    → next_command r ≡ ok (none, r')
    → (r.offset ≡ length r.input) × (r' ≡ r)
unfolding next_command
next_command-end r {r'} h = elim (Bool-cases (r.offset == length r.input)) [
  | inl end ↦ ground (arith, rw (end, next_command) at h)
  | inr more ↦ elim (>>=-Bound (read_command r) _ (rw (more, next_command) at h)) [
    | bound (args, r1) at_args h1 ↦ ground (arith, h1)
  ]
]
