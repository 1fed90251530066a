-- ===== src/Aof/Scan/Receipts.antt =====
-- Where the receipts of scripts/runtime_epoch_redis_aof.py come from: each names an entry that an
-- `XADD` of the same file appended, with the digest of that entry's payload.
use kairos_deploy.Base.{
  ◌≡◌, refl, ap, ◌∙◌, subst, inl, inr, true, some, List, [], ◌∷◌, ◌++◌, arith, ok, ok-injective,
  bound, >>=-Bound, append_assoc, append-nil, Bool-cases, Option-cases,
}
use kairos_deploy.Base.Bytes.{Bytes, codes, bytes_eq, upper}
use kairos_deploy.Base.Dict.{lookup, insert, lookup-insert}
use kairos_deploy.Base.Sets.{
  Two, Exists, Exists-append_left, Exists-append_right, contains, two_eq_instance, contains-add,
}
use kairos_deploy.Aof.Codes.{topic}
use kairos_deploy.Aof.Commands.{
  Python, Command, multi, exec, select, xadd, hset, xgroup, xclaim, xack, command_named,
}
use kairos_deploy.Aof.Scan.Accepted.{on_xadd-accepted, on_hset-accepted, record_receipt-cases}
use kairos_deploy.Aof.Scan.{Scan, initial, added, on_xadd, recorded, on_hset, dispatch, step, steps}

-- The command appends to the topic an entry whose identifier and digest of the payload are `pair`.
pub record IsAppend (py : Python) (pair : Two) (command : List Bytes) : Type 0 where
  pub name : Bytes
  pub payload : Bytes
  pub named : command_named (upper name) ≡ some xadd
  pub form : command ≡ name ∷ topic ∷ pair.1 ∷ codes "data" ∷ payload ∷ []
  pub digest : py.sha256 payload ≡ pair.0

-- Some command of `past` appended the entry of the pair.
abbrev pub WasAppended : Python → List (List Bytes) → Two → Type 0
WasAppended py past pair = Exists (IsAppend py pair) past

record HasOrigins (py : Python) (past : List (List Bytes)) (s : Scan) : Type 0 where
  appended : (pair : Two) → contains pair s.xadd_receipts ≡ true → WasAppended py past pair
  receipts :
      (id : Bytes) (pair : Two) → lookup id s.receipt_fields ≡ some pair → WasAppended py past pair

module _ (py : Python) (past : List (List Bytes)) (command : List Bytes) where
  later : (pair : Two) → WasAppended py past pair → WasAppended py (past ++ command ∷ []) pair
  later pair = Exists-append_left (IsAppend py pair) past (command ∷ [])

  now : (pair : Two) → IsAppend py pair command → WasAppended py (past ++ command ∷ []) pair
  now pair this = Exists-append_right (IsAppend py pair) past (command ∷ []) (inl this)

module _ (py : Python) (past : List (List Bytes)) (command : List Bytes) (s : Scan) {s' : Scan}
    (i : HasOrigins py past s) where
  -- A branch that leaves both collections alone.
  kept-HasOrigins :
      s'.xadd_receipts ≡ s.xadd_receipts
      → s'.receipt_fields ≡ s.receipt_fields
      → HasOrigins py (past ++ command ∷ []) s'
  kept-HasOrigins same_adds same_fields = record {
    appended = λ pair h. later py past command pair (i.appended pair (rw same_adds at h));
    receipts = λ id pair h. later py past command pair (i.receipts id pair (rw same_fields at h));
  }

  on_xadd-HasOrigins :
      (name : Bytes) (args : List Bytes)
      → command ≡ name ∷ args
      → command_named (upper name) ≡ some xadd
      → on_xadd py args s ≡ ok s'
      → HasOrigins py (past ++ command ∷ []) s'
  unfolding added
  on_xadd-HasOrigins name args e named h =
      let a = on_xadd-accepted py args s h in
      let new : Two = (py.sha256 a.payload, a.sid) in
      let this : IsAppend py new command = record {
        name = name;
        payload = a.payload;
        named = named;
        form = e ∙ ap (λ t. name ∷ t) a.form;
        digest = refl;
      } in
      rw a.result (record {
        appended = λ pair h'. elim (contains-add pair new s.xadd_receipts h') [
          | inl same ↦ now py past command pair (subst (λ p. IsAppend py p command) same this)
          | inr old ↦ later py past command pair (i.appended pair old)
        ];
        receipts = λ id pair h'. later py past command pair (i.receipts id pair h');
      })

  on_hset-HasOrigins :
      (exact_key : Bytes) (args : List Bytes)
      → on_hset py exact_key args s ≡ ok s'
      → HasOrigins py (past ++ command ∷ []) s'
  unfolding recorded
  on_hset-HasOrigins exact_key args h =
      let a = on_hset-accepted py exact_key args s h in
      let backed : (id : Bytes) (pair : Two)
          → lookup id (insert a.message_id a.pair s.receipt_fields) ≡ some pair
          → WasAppended py past pair =
        λ id pair found. elim (Bool-cases (bytes_eq a.message_id id)) [
          | inl same ↦
              let e : a.pair ≡ pair =
                cc (rw same at (lookup-insert a.message_id id a.pair s.receipt_fields), found) in
              i.appended pair (rw e at a.appended)
          | inr other ↦
              i.receipts id pair
                (cc (rw other at (lookup-insert a.message_id id a.pair s.receipt_fields), found))
        ] in
      elim (record_receipt-cases a.message_id a.pair s a.result) [
        | inl (fresh, result) ↦ rw result (record {
          appended = λ pair h'. later py past command pair (i.appended pair h');
          receipts = λ id pair h'. later py past command pair (backed id pair h');
        })
        | inr (there, result) ↦ rw result (record {
          appended = λ pair h'. later py past command pair (i.appended pair h');
          receipts = λ id pair h'. later py past command pair (backed id pair h');
        })
      ]

  dispatch-HasOrigins :
      (exact_key name : Bytes) (known : Command) (args : List Bytes)
      → command ≡ name ∷ args
      → command_named (upper name) ≡ some known
      → dispatch py exact_key known args s ≡ ok s'
      → HasOrigins py (past ++ command ∷ []) s'
  unfolding dispatch
  dispatch-HasOrigins exact_key name multi args e n h =
      kept-HasOrigins (ground arith) (ground arith)
  dispatch-HasOrigins exact_key name exec args e n h = kept-HasOrigins (ground arith) (ground arith)
  dispatch-HasOrigins exact_key name select args e n h =
      kept-HasOrigins (ground arith) (ground arith)
  dispatch-HasOrigins exact_key name xadd args e n h = on_xadd-HasOrigins name args e n h
  dispatch-HasOrigins exact_key name hset args e n h = on_hset-HasOrigins exact_key args h
  dispatch-HasOrigins exact_key name xgroup args e n h =
      kept-HasOrigins (ground arith) (ground arith)
  dispatch-HasOrigins exact_key name xclaim args e n h =
      kept-HasOrigins (ground arith) (ground arith)
  dispatch-HasOrigins exact_key name xack args e n h = kept-HasOrigins (ground arith) (ground arith)

step-HasOrigins :
    (py : Python) (exact_key : Bytes) (past : List (List Bytes)) (command : List Bytes) (s : Scan)
    {s' : Scan}
    → HasOrigins py past s
    → step py exact_key s command ≡ ok s'
    → HasOrigins py (past ++ command ∷ []) s'
unfolding step
step-HasOrigins py exact_key past [] s i h = cc
step-HasOrigins py exact_key past (name ∷ args) s i h =
    elim (Option-cases (command_named (upper name))) [
      | inl unknown ↦ cc (rw (unknown, step) at h)
      | inr (known, e) ↦
          dispatch-HasOrigins py past (name ∷ args) s i exact_key name known args refl e
            (rw (e, step) at h)
    ]

steps-HasOrigins :
    (py : Python) (exact_key : Bytes) (past commands : List (List Bytes)) (s : Scan) {s' : Scan}
    → HasOrigins py past s
    → steps py exact_key s commands ≡ ok s'
    → HasOrigins py (past ++ commands) s'
unfolding steps
steps-HasOrigins py exact_key past [] s i h = rw append-nil (rw (← ok-injective h) i)
steps-HasOrigins py exact_key past (command ∷ commands) s {s'} i h =
    elim (>>=-Bound (step py exact_key s command) _ h) [
      | bound s1 taken rest ↦
          subst (λ c. HasOrigins py c s') (append_assoc past (command ∷ []) commands)
            (steps-HasOrigins py exact_key (past ++ command ∷ []) commands s1
              (step-HasOrigins py exact_key past command s i taken) rest)
    ]

initial-HasOrigins : (py : Python) → HasOrigins py [] initial
unfolding contains lookup
initial-HasOrigins py = record { appended = λ pair h. cc; receipts = λ id pair h. cc }

-- Every receipt in the ledger at the end of an accepted file names an entry that an `XADD` command
-- of the file appended to the topic, with the digest of that command's payload.
pub receipts-WasAppended :
    (py : Python) (exact_key : Bytes) (commands : List (List Bytes)) {s : Scan} (id : Bytes)
    (pair : Two)
    → steps py exact_key initial commands ≡ ok s
    → lookup id s.receipt_fields ≡ some pair
    → WasAppended py commands pair
receipts-WasAppended py exact_key commands {s} id pair run found =
    (steps-HasOrigins py exact_key [] commands initial (initial-HasOrigins py) run).receipts id pair
      found
