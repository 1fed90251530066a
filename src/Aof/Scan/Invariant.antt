-- ===== src/Aof/Scan/Invariant.antt =====
-- What holds of the local variables of `inventory_bytes` in scripts/runtime_epoch_redis_aof.py
-- between two commands.
use kairos_deploy.Base.{
  ℕ, suc, ◌+◌, ◌≤◌, ◌≡◌, ok-injective, sym, ap, inl, inr, Bool, true, false, List, [], ◌∷◌, arith,
  ok, bound, >>=-Bound, length, length-append, Option-cases,
}
use kairos_deploy.Base.Bytes.{Bytes, upper}
use native.Mathlib.Nat.{add-zero, add-suc, suc-add}
use kairos_deploy.Base.Dict.{insert, keys, keys-append, insert_new, insert_same}
use kairos_deploy.Base.Sets.{Two, two_eq_instance}
use kairos_deploy.Aof.Commands.{
  Python, Command, multi, exec, select, xadd, hset, xgroup, xclaim, xack, command_named,
}
use kairos_deploy.Aof.Scan.Accepted.{on_xadd-accepted, on_hset-accepted, record_receipt-cases}
use kairos_deploy.Aof.Scan.{
  Counts, Scan, initial, on_multi, on_exec, on_select, on_xadd, recorded, record_receipt, on_xgroup,
  on_xclaim, on_xack, dispatch, step, steps,
}

-- All commands that were counted.
abbrev pub total : Counts → ℕ
total c =
    c.multi + c.exec + c.select + c.xadd + c.hset + c.xgroup_create + c.xgroup_setid + c.xclaim
    + c.xack

-- The transactions that are open.
abbrev pub open_transactions : Bool → ℕ
open_transactions true = 1
open_transactions false = 0

-- The counters, after `n` commands.
pub record IsCounted (n : ℕ) (s : Scan) : Type 0 where
  pub counted : total s.counts ≡ n
  pub balanced : s.counts.multi ≡ s.counts.exec + open_transactions s.in_multi
  pub streams : length s.stream_receipts ≡ s.counts.xadd
  pub receipts : length s.receipt_fields ≤ s.counts.hset
  pub ledger : s.publication_ids ≡ keys s.receipt_fields

module _ (n : ℕ) (s : Scan) {s' : Scan} (i : IsCounted n s) where
  on_multi-IsCounted : (args : List Bytes) → on_multi args s ≡ ok s' → IsCounted (suc n) s'
  unfolding on_multi
  on_multi-IsCounted args h = ground arith

  on_exec-IsCounted : (args : List Bytes) → on_exec args s ≡ ok s' → IsCounted (suc n) s'
  unfolding on_exec
  on_exec-IsCounted args h = ground arith

  on_select-IsCounted : (args : List Bytes) → on_select args s ≡ ok s' → IsCounted (suc n) s'
  unfolding on_select
  on_select-IsCounted args h = ground arith

  on_xgroup-IsCounted : (args : List Bytes) → on_xgroup args s ≡ ok s' → IsCounted (suc n) s'
  unfolding on_xgroup
  on_xgroup-IsCounted args h = ground arith

  on_xclaim-IsCounted : (args : List Bytes) → on_xclaim args s ≡ ok s' → IsCounted (suc n) s'
  unfolding on_xclaim
  on_xclaim-IsCounted args h = ground arith

  on_xack-IsCounted : (args : List Bytes) → on_xack args s ≡ ok s' → IsCounted (suc n) s'
  unfolding on_xack
  on_xack-IsCounted args h = ground arith

  on_xadd-IsCounted :
      (py : Python) (args : List Bytes) → on_xadd py args s ≡ ok s' → IsCounted (suc n) s'
  unfolding on_xadd
  on_xadd-IsCounted py args h =
      let a = on_xadd-accepted py args s h in
      let added_entry : length (insert a.sid (py.sha256 a.payload) s.stream_receipts)
          ≡ length s.stream_receipts + 1 =
        rw (insert_new a.sid (py.sha256 a.payload) s.stream_receipts a.fresh)
          (length-append s.stream_receipts ((a.sid, py.sha256 a.payload) ∷ [])) in
      rw a.result (record {
        counted = omega (arith, i.counted);
        balanced = i.balanced;
        streams = omega (arith, i.streams, added_entry);
        receipts = i.receipts;
        ledger = i.ledger;
      })

  record_receipt-IsCounted :
      (message_id : Bytes) (pair : Two)
      → record_receipt message_id pair s ≡ ok s'
      → IsCounted (suc n) s'
  unfolding recorded
  record_receipt-IsCounted message_id pair h = elim (record_receipt-cases message_id pair s h) [
    | inl (fresh, result) ↦
        let grown = insert_new message_id pair s.receipt_fields fresh in
        rw result (record {
          counted = omega (arith, i.counted);
          balanced = i.balanced;
          streams = i.streams;
          receipts = omega (
            arith,
            i.receipts,
            ap length grown,
            length-append s.receipt_fields ((message_id, pair) ∷ []),
          );
          ledger =
              rw (grown, i.ledger) (sym (keys-append s.receipt_fields ((message_id, pair) ∷ [])));
        })
    | inr (there, result) ↦
        let kept = insert_same message_id pair s.receipt_fields there in
        rw result (record {
          counted = omega (arith, i.counted);
          balanced = i.balanced;
          streams = i.streams;
          receipts = rw kept (omega (arith, i.receipts));
          ledger = rw kept i.ledger;
        })
  ]

  dispatch-IsCounted :
      (py : Python) (exact_key : Bytes) (command : Command) (args : List Bytes)
      → dispatch py exact_key command args s ≡ ok s'
      → IsCounted (suc n) s'
  unfolding dispatch
  dispatch-IsCounted py exact_key multi args h = on_multi-IsCounted args h
  dispatch-IsCounted py exact_key exec args h = on_exec-IsCounted args h
  dispatch-IsCounted py exact_key select args h = on_select-IsCounted args h
  dispatch-IsCounted py exact_key xadd args h = on_xadd-IsCounted py args h
  dispatch-IsCounted py exact_key hset args h =
      let a = on_hset-accepted py exact_key args s h in
      record_receipt-IsCounted a.message_id a.pair a.result
  dispatch-IsCounted py exact_key xgroup args h = on_xgroup-IsCounted args h
  dispatch-IsCounted py exact_key xclaim args h = on_xclaim-IsCounted args h
  dispatch-IsCounted py exact_key xack args h = on_xack-IsCounted args h

-- A command that the loop body accepts keeps the counters and the dictionaries in step.
pub step-IsCounted :
    (py : Python) (exact_key : Bytes) (n : ℕ) (s : Scan) (command : List Bytes) {s' : Scan}
    → IsCounted n s
    → step py exact_key s command ≡ ok s'
    → IsCounted (suc n) s'
unfolding step
step-IsCounted py exact_key n s [] i h = cc
step-IsCounted py exact_key n s (name ∷ args) i h =
    elim (Option-cases (command_named (upper name))) [
      | inl unknown ↦ cc (rw (unknown, step) at h)
      | inr (command, e) ↦ dispatch-IsCounted n s i py exact_key command args (rw (e, step) at h)
    ]

pub initial-IsCounted : IsCounted 0 initial
initial-IsCounted = ground arith

pub steps-IsCounted :
    (py : Python) (exact_key : Bytes) (n : ℕ) (s : Scan) (commands : List (List Bytes)) {s' : Scan}
    → IsCounted n s
    → steps py exact_key s commands ≡ ok s'
    → IsCounted (n + length commands) s'
unfolding steps
steps-IsCounted py exact_key n s [] i h = rw add-zero (rw (← ok-injective h) i)
steps-IsCounted py exact_key n s (command ∷ commands) {s'} i h =
    elim (>>=-Bound (step py exact_key s command) _ h) [
      | bound s1 taken rest ↦
          rw (add-suc, ← suc-add)
            (steps-IsCounted py exact_key (suc n) s1 commands
              (step-IsCounted py exact_key n s command i taken) rest)
    ]
