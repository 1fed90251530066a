-- ===== src/Aof/Inventory/Report.antt =====
-- `inventory_bytes` of scripts/runtime_epoch_redis_aof.py as a whole: it always ends, and what it
-- reports describes the file.
use kairos_deploy.Base.{
  ℕ, zero, suc, ◌+◌, ◌≤◌, ◌<◌, ◌≡◌, ◌≢◌, refl, sym, ap, ◌∙◌, inl, inr, true, false, Option, none,
  some, List, [], ◌∷◌, arith, ok, err, ok-injective, Result-cases, passed, raise_if-Passed, length,
  length-append, ◌==◌, subst, ltb,
}
use kairos_deploy.Base.Bytes.{Bytes, codes}
use kairos_deploy.Base.Count.{count}
use native.Mathlib.Nat.{zero-add}
use kairos_deploy.Base.Dict.{length-keys}
use kairos_deploy.Aof.Codes.{Checked, publication_key}
use kairos_deploy.Aof.Commands.{Python}
use kairos_deploy.Aof.Reader.{Reader}
use kairos_deploy.Aof.Reader.Grammar.{IsStream}
use kairos_deploy.Aof.Scan.{Counts, Scan, initial, steps}
use kairos_deploy.Aof.Scan.Invariant.{
  IsCounted, initial-IsCounted, open_transactions, steps-IsCounted, total,
}
use kairos_deploy.Aof.Scan.Tally.{
  is_named, tally_of, present, tallied-named, entries_of, steps-IsTallied,
}
use kairos_deploy.Aof.Inventory.{
  Inventory, admitted, concluded, scan_all, report, conclude, inventory_bytes, subcommand_counts_of,
  counter_entry,
}
use kairos_deploy.Aof.Inventory.Stream.{scan_all-ne-none, scan_all_sound, scan_all_complete}

concluded-ne-none :
    (py : Python) (input : Bytes) (outcome : Option (Checked (Reader × Scan)))
    → outcome ≢ none
    → concluded py input outcome ≢ none
unfolding concluded
concluded-ne-none py input none h = absurd (h refl)
concluded-ne-none py input (some (err e)) h = λ e. cc
concluded-ne-none py input (some (ok end)) h = λ e. cc

-- The call returns or raises on any bytes: it never runs out of fuel.
pub inventory_bytes-ne-none :
    (py : Python) (input owner profile : Bytes) → inventory_bytes py input owner profile ≢ none
unfolding inventory_bytes
inventory_bytes-ne-none py input owner profile =
    elim (Result-cases (admitted input owner profile)) [
      | inr (e, refused) ↦ rw (refused, inventory_bytes) (λ e. cc)
      | inl (p, e) ↦
          rw (e, inventory_bytes)
            (concluded-ne-none py input _ (scan_all-ne-none py (publication_key p.0) input p.1))
    ]

-- How an accepted file was read.
pub record Accepted (py : Python) (input owner profile : Bytes) (inv : Inventory) : Type 0 where
  pub name : Bytes
  pub max_commands : ℕ
  pub reader : Reader
  pub state : Scan
  pub commands : List (List Bytes)
  pub admission : admitted input owner profile ≡ ok (name, max_commands)
  pub stream : IsStream commands input
  pub run : steps py (publication_key name) initial commands ≡ ok state
  pub count : reader.commands ≡ length commands
  pub few : length commands ≤ max_commands
  pub closed : state.in_multi ≡ false
  pub nonempty : 0 < length input
  pub reported : inv ≡ report py input (reader, state)

-- The outcome of the loop behind a report.
concluded-Ran :
    (py : Python) (input : Bytes) (outcome : Option (Checked (Reader × Scan))) {inv : Inventory}
    → concluded py input outcome ≡ some (ok inv)
    → (r : Reader) × (s : Scan) × (outcome ≡ some (ok (r, s))) × (conclude py input (r, s) ≡ ok inv)
unfolding concluded
concluded-Ran py input none h = cc
concluded-Ran py input (some (err e)) h = cc
concluded-Ran py input (some (ok (r, s))) h = (r, s, refl, cc)

-- What a report says of the end of the loop.
conclude-ok :
    (py : Python) (input : Bytes) (r : Reader) (s : Scan) {inv : Inventory}
    → conclude py input (r, s) ≡ ok inv
    → (s.in_multi ≡ false) × (0 < length input) × (inv ≡ report py input (r, s))
unfolding conclude
conclude-ok py input r s h = elim (raise_if-Passed s.in_multi _ _ h) [
  | passed closed h1 ↦ elim (raise_if-Passed (length input == 0) _ _ h1) [
    | passed some_bytes done ↦ (closed, ground arith, sym (ok-injective done))
  ]
]

pub inventory_bytes-Accepted :
    (py : Python) (input owner profile : Bytes) {inv : Inventory}
    → inventory_bytes py input owner profile ≡ some (ok inv)
    → Accepted py input owner profile inv
unfolding inventory_bytes
inventory_bytes-Accepted py input owner profile h =
    elim (Result-cases (admitted input owner profile)) [
      | inr (e, refused) ↦ cc (rw (refused, inventory_bytes) at h)
      | inl ((name, max_commands), e) ↦
          let loop = scan_all py (publication_key name) input max_commands in
          let (r, s, ended, done) = concluded-Ran py input loop (rw (e, inventory_bytes) at h) in
          let (closed, nonempty, reported) = conclude-ok py input r s done in
          let (commands, stream, run, count, few) =
            scan_all_sound py (publication_key name) input max_commands ended in
          record {
            name = name;
            max_commands = max_commands;
            reader = r;
            state = s;
            commands = commands;
            admission = e;
            stream = stream;
            run = run;
            count = count;
            few = few;
            closed = closed;
            nonempty = nonempty;
            reported = reported;
          }
    ]

-- The sum of the entries of a counter.
abbrev pub sum_counts : List (Bytes × ℕ) → ℕ
sum_counts [] = 0
sum_counts (e ∷ es) = e.1 + sum_counts es

counter_entry-sum :
    (key : Bytes) (n : ℕ) (es : List (Bytes × ℕ))
    → sum_counts (counter_entry key n es) ≡ n + sum_counts es
unfolding counter_entry
counter_entry-sum key zero es = omega arith
counter_entry-sum key (suc n) es = refl

subcommand_counts-sum : (c : Counts) → sum_counts (subcommand_counts_of c) ≡ total c
unfolding subcommand_counts_of
subcommand_counts-sum c = simp counter_entry-sum (omega arith)

counter_entry-present :
    (key : Bytes) (n : ℕ) (es : List (Bytes × ℕ))
    → counter_entry key n (present es) ≡ present ((key, n) ∷ es)
unfolding counter_entry
counter_entry-present key zero es = refl
counter_entry-present key (suc n) es =
    let some_of : (suc n == 0) ≡ false = ground arith in rw some_of refl

subcommand_counts-entries_of : (c : Counts) → subcommand_counts_of c ≡ present (entries_of c)
unfolding subcommand_counts_of
subcommand_counts-entries_of c = simp (counter_entry-present _ _ [], counter_entry-present) refl

-- What the report of a file says of the commands of the file.
pub record IsAccount (input : Bytes) (inv : Inventory) : Type 0 where
  pub commands : List (List Bytes)
  pub stream : IsStream commands input
  pub all_commands : inv.command_count ≡ length commands
  pub by_name : inv.subcommand_counts ≡ tally_of commands
  pub none_else : sum_counts inv.subcommand_counts ≡ length commands
  pub entries : inv.xadd_count ≡ count (is_named (codes "XADD")) commands
  pub receipts : inv.receipt_count ≡ count (is_named (codes "HSET")) commands
  pub claims : inv.actor_format_valid ≡ ltb 0 (count (is_named (codes "XCLAIM")) commands)
  pub balanced : inv.transactions_balanced ≡ true
  pub pairs : count (is_named (codes "MULTI")) commands ≡ count (is_named (codes "EXEC")) commands
  pub matched : inv.matched_receipt_count ≡ inv.ledger_fields
  pub fields : inv.ledger_fields ≤ inv.receipt_count
  pub all_bytes : inv.bytes ≡ length input

-- A report accounts for the whole file: the file is a stream of commands, and the report has their
-- number, how many of them have each name, of XADD and HSET among them, and whether there is an XCLAIM;
-- no command has another name, as many open a transaction as close one, and it lists as many ledger
-- fields as it matched receipts, no more than the receipts that were written.
pub inventory_bytes-IsAccount :
    (py : Python) (input owner profile : Bytes) (inv : Inventory)
    → inventory_bytes py input owner profile ≡ some (ok inv)
    → IsAccount input inv
unfolding report
inventory_bytes-IsAccount py input owner profile inv h =
    let a = inventory_bytes-Accepted py input owner profile h in
    let i : IsCounted (length a.commands) a.state =
      rw zero-add at (
        steps-IsCounted py (publication_key a.name) 0 initial a.commands initial-IsCounted a.run) in
    let s = a.state in
    let t = steps-IsTallied py (publication_key a.name) initial a.commands a.run in
    let ledger : length s.publication_ids ≡ length s.receipt_fields =
      rw i.ledger (length-keys s.receipt_fields) in
    subst (IsAccount input) (sym a.reported) (record {
      commands = a.commands;
      stream = a.stream;
      all_commands = a.count;
      by_name =
          subcommand_counts-entries_of s.counts
          ∙ ap (λ c. present (entries_of c)) (tallied-named a.commands s.counts t);
      none_else = subcommand_counts-sum s.counts ∙ i.counted;
      entries = omega (arith, t.xadd_of);
      receipts = omega (arith, t.hset_of);
      claims = ap (λ (n : ℕ). ltb 0 n) (omega (arith, t.xclaim_of));
      balanced = ground (arith, i.balanced, a.closed);
      pairs =
          omega (arith, t.multi_of, t.exec_of, i.balanced, ap (λ b. open_transactions b) a.closed);
      matched = sym ledger;
      fields = omega (arith, i.receipts, ledger);
      all_bytes = refl;
    })

-- A stream takes a byte for each command at least.
IsStream-nonempty :
    (commands : List (List Bytes)) (input : Bytes)
    → IsStream commands input
    → commands ≢ []
    → 0 < length input
IsStream-nonempty [] input stream h = absurd (h refl)
IsStream-nonempty (command ∷ commands) input (v, w, frame, more, e) h =
    omega (arith, ap length e, ap length frame.spelled, length-append {0} v w)

-- The reader at the end of all of the data.
abbrev pub reader_at_end : Bytes → ℕ → ℕ → Reader
reader_at_end input commands max_commands = record {
  input = input;
  offset = length input;
  commands = commands;
  max_commands = max_commands;
}

-- For an owner, a profile and a size that are admitted, a stream of commands of the grammar, at least
-- one and no more than the bound of the profile, that the loop body accepts in turn and that leaves no
-- transaction open is reported, with the state that the loop body ends in.
pub inventory_bytes_complete :
    (py : Python) (input owner profile : Bytes) (commands : List (List Bytes)) {name : Bytes}
    {max_commands : ℕ} {s : Scan}
    → admitted input owner profile ≡ ok (name, max_commands)
    → IsStream commands input
    → steps py (publication_key name) initial commands ≡ ok s
    → length commands ≤ max_commands
    → s.in_multi ≡ false
    → commands ≢ []
    → inventory_bytes py input owner profile
      ≡ some (ok (report py input (reader_at_end input (length commands) max_commands, s)))
unfolding inventory_bytes conclude
inventory_bytes_complete py input owner profile commands {name} {max_commands} {s} e stream run few
      closed some_commands =
    let ended =
      scan_all_complete py (publication_key name) input max_commands commands stream run few in
    let filled : (length input == 0) ≡ false =
      ground (arith, IsStream-nonempty commands input stream some_commands) in
    rw (e, inventory_bytes) (rw (ended, concluded) (rw (closed, filled) refl))

-- What is reported was read from a stream of commands of the grammar, within the bounds of the
-- profile, that the loop body accepts in turn and that leaves no transaction open.
pub inventory_bytes_sound :
    (py : Python) (input owner profile : Bytes) (inv : Inventory)
    → inventory_bytes py input owner profile ≡ some (ok inv)
    → (commands : List (List Bytes)) × (name : Bytes) × (max_commands : ℕ) × (s : Scan) × (admitted
          input owner profile
        ≡ ok (name, max_commands))
      × IsStream commands input
      × (steps py (publication_key name) initial commands ≡ ok s)
      × (length commands ≤ max_commands)
      × (s.in_multi ≡ false)
      × (inv.command_count ≡ length commands)
unfolding report
inventory_bytes_sound py input owner profile inv h =
    let a = inventory_bytes-Accepted py input owner profile h in
    (
      a.commands,
      a.name,
      a.max_commands,
      a.state,
      a.admission,
      a.stream,
      a.run,
      a.few,
      a.closed,
      ap (λ (i : Inventory). i.command_count) a.reported ∙ a.count,
    )
