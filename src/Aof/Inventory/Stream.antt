-- ===== src/Aof/Inventory/Stream.antt =====
-- The loop of `inventory_bytes` in scripts/runtime_epoch_redis_aof.py against the grammar: it ends
-- within its fuel, and accepts exactly the streams of commands that the loop body accepts in turn.
use kairos_deploy.Base.{
  ℕ, zero, suc, ◌+◌, ◌-◌, ◌≤◌, ◌<◌, ◌≡◌, refl, ap, ◌∙◌, inl, inr, ◌≢◌, none, some, List, [], ◌∷◌,
  arith, ok, Result-cases, bound, >>=-Bound, length, length-append, length-drop,
}
use kairos_deploy.Base.Bytes.{Bytes}
use kairos_deploy.Aof.Commands.{Python}
use kairos_deploy.Aof.Reader.{Reader, remaining, next_command}
use kairos_deploy.Aof.Reader.Cursor.{remaining-advance}
use kairos_deploy.Aof.Reader.Grammar.{IsFrame, IsStream}
use kairos_deploy.Aof.Reader.Sound.{next_command_sound, next_command-end}
use kairos_deploy.Aof.Reader.Complete.{next_command_complete, next_command-at_end}
use kairos_deploy.Aof.Scan.{Scan, initial, step, steps}
use kairos_deploy.Aof.Inventory.{scan, scan_all, open_reader}

-- A command takes at least one byte.
IsFrame-length : (command : List Bytes) (wire : Bytes) → IsFrame command wire → 1 ≤ length wire
IsFrame-length command wire f = omega (arith, ap length f.spelled)

-- At the end of the data nothing is left.
drop-end : (r : Reader) → r.offset ≡ length r.input → remaining r ≡ []
drop-end r h = nothing (remaining r) (omega (arith, length-drop r.offset r.input))
  where
    nothing : (bs : Bytes) → length bs ≡ 0 → bs ≡ []
    nothing [] e = refl
    nothing (b ∷ bs) e = absurd (omega arith)

-- The bytes that are left become fewer with every command.
left-decreases :
    (r : Reader) {command : List Bytes} {r' : Reader}
    → next_command r ≡ ok (some command, r')
    → length (remaining r') < length (remaining r)
left-decreases r {command} {r'} h =
    let (wire, frame, read, moved, room) = next_command_sound r h in
    omega (
      arith,
      IsFrame-length command wire frame,
      ap length read,
      length-append {0} wire (remaining r'),
    )

module _ (py : Python) (exact_key : Bytes) where
  scan-ne-none :
      (fuel : ℕ) (r : Reader) (s : Scan)
      → length (remaining r) < fuel
      → scan py exact_key fuel r s ≢ none
  unfolding scan
  scan-ne-none zero r s h = absurd (omega arith)
  scan-ne-none (suc fuel) r s h = elim (Result-cases (next_command r)) [
    | inr (e, failed) ↦ rw (failed, scan) (λ e. cc)
    | inl ((none, r'), at_end) ↦ rw (at_end, scan) (λ e. cc)
    | inl ((some command, r'), read) ↦ elim (Result-cases (step py exact_key s command)) [
      | inr (e, refused) ↦ rw (read, scan) (rw refused (λ e. cc))
      | inl (s', taken) ↦
          rw (read, scan)
            (rw taken (scan-ne-none fuel r' s' (omega (arith, left-decreases r read))))
    ]
  ]

  -- Where the reader stands after all of `commands`.
  abbrev at_end_of : Reader → List (List Bytes) → Reader
  at_end_of r commands = record r {
    offset = length r.input;
    commands = r.commands + length commands;
  }

  scan_sound :
      (fuel : ℕ) (r : Reader) (s : Scan) {r' : Reader} {s' : Scan}
      → scan py exact_key fuel r s ≡ some (ok (r', s'))
      → (commands : List (List Bytes)) × IsStream commands (remaining r)
        × (steps py exact_key s commands ≡ ok s')
        × (r' ≡ at_end_of r commands)
        × ((r.commands ≤ r.max_commands) → r.commands + length commands ≤ r.max_commands)
  unfolding scan steps
  scan_sound zero r s h = cc
  scan_sound (suc fuel) r s {r'} {s'} h = elim (Result-cases (next_command r)) [
    | inr (e, failed) ↦ cc (rw (failed, scan) at h)
    | inl ((none, r1), at_end) ↦
        let (ended, stayed) = next_command-end r at_end in
        let moved : r' ≡ r1 = ground (arith, rw (at_end, scan) at h) in
        let state : s' ≡ s = ground (arith, rw (at_end, scan) at h) in
        (
          [],
          drop-end r ended,
          rw state refl,
          ground (arith, moved, stayed, ended),
          λ x. omega arith,
        )
    | inl ((some command, r1), read) ↦ elim (Result-cases (step py exact_key s command)) [
      | inr (e, refused) ↦ cc (rw (refused, scan) at (rw (read, scan) at h))
      | inl (s1, taken) ↦
          let (commands, stream, run, end, count) =
            scan_sound fuel r1 s1 (rw (taken, scan) at (rw (read, scan) at h)) in
          let (wire, frame, split, moved, room) = next_command_sound r read in
          (
            command ∷ commands,
            (wire, remaining r1, frame, stream, split),
            rw (taken, run) refl,
            ground (arith, end, moved),
            λ x. ground (arith, moved, room, count),
          )
    ]
  ]

  scan_complete :
      (commands : List (List Bytes)) (fuel : ℕ) (r : Reader) (s : Scan) {s' : Scan}
      → IsStream commands (remaining r)
      → steps py exact_key s commands ≡ ok s'
      → r.commands + length commands ≤ r.max_commands
      → r.offset ≤ length r.input
      → length (remaining r) < fuel
      → scan py exact_key fuel r s ≡ some (ok (at_end_of r commands, s'))
  unfolding scan steps
  scan_complete commands zero r s stream run room within enough = absurd (omega arith)
  scan_complete [] (suc fuel) r s stream run room within enough =
      let ended : r.offset ≡ length r.input =
        omega (arith, ap length stream, length-drop r.offset r.input) in
      rw (next_command-at_end r ended, scan) (ground (arith, run, ended))
  scan_complete (command ∷ commands) (suc fuel) r s (v, w, frame, more, e) run room within enough =
      let r1 = record r { offset = r.offset + length v; commands = r.commands + 1 } in
      let read : next_command r ≡ ok (some command, r1) =
        next_command_complete r command v w frame e ∙ ground arith in
      let left : remaining r1 ≡ w = remaining-advance r v w e in
      let size : length (remaining r) ≡ length v + length w = rw e (length-append v w) in
      let least : 1 ≤ length v = IsFrame-length command v frame in
      let whole : length (remaining r) ≡ length r.input - r.offset = length-drop r.offset r.input in
      elim (>>=-Bound (step py exact_key s command) _ run) [
        | bound s1 taken later ↦
            let rest =
              scan_complete commands fuel r1 s1 (rw left more) later (omega arith) (omega arith)
                (omega (arith, ap length left)) in
            rw (read, scan) (rw taken (rest ∙ ground arith))
      ]

-- The loop ends within its fuel on any data, whatever the bound on commands.
pub scan_all-ne-none :
    (py : Python) (exact_key input : Bytes) (max_commands : ℕ)
    → scan_all py exact_key input max_commands ≢ none
unfolding scan_all
scan_all-ne-none py exact_key input max_commands =
    scan-ne-none py exact_key (suc (length input)) (open_reader input max_commands) initial
      (omega arith)

-- What the loop accepts is a stream of commands of the grammar, no more than the bound, that the
-- loop body accepts in turn from the initial state; its result is their result.
pub scan_all_sound :
    (py : Python) (exact_key input : Bytes) (max_commands : ℕ) {r : Reader} {s : Scan}
    → scan_all py exact_key input max_commands ≡ some (ok (r, s))
    → (commands : List (List Bytes)) × IsStream commands input
      × (steps py exact_key initial commands ≡ ok s)
      × (r.commands ≡ length commands)
      × (length commands ≤ max_commands)
unfolding scan_all
scan_all_sound py exact_key input max_commands {r} {s} h =
    let (commands, stream, run, end, count) =
      scan_sound py exact_key (suc (length input)) (open_reader input max_commands) initial h in
    (commands, stream, run, ground (arith, end), ground (arith, count (omega arith)))

-- Every stream of commands of the grammar, no more than the bound, that the loop body accepts in
-- turn is accepted by the loop, with their result and their number.
pub scan_all_complete :
    (py : Python) (exact_key input : Bytes) (max_commands : ℕ) (commands : List (List Bytes))
    {s : Scan}
    → IsStream commands input
    → steps py exact_key initial commands ≡ ok s
    → length commands ≤ max_commands
    → scan_all py exact_key input max_commands
      ≡ some (
          ok (
            record {
              input = input;
              offset = length input;
              commands = length commands;
              max_commands = max_commands;
            },
            s,
          ))
unfolding scan_all
scan_all_complete py exact_key input max_commands commands stream run room =
    scan_complete py exact_key commands (suc (length input)) (open_reader input max_commands)
      initial stream run (omega arith) (omega arith) (omega arith)
    ∙ ground arith
