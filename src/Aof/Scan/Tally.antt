-- ===== src/Aof/Scan/Tally.antt =====
-- The counters that `inventory_bytes` of scripts/runtime_epoch_redis_aof.py keeps, against the names of
-- the commands that it took.
use kairos_deploy.Base.{
  ◌==◌, some-injective, if◌then◌else◌, ℕ, ◌+◌, ◌≡◌, sym, subst, inl, inr, Bool, false, Option, some,
  List, [], ◌∷◌, arith, ok, ok-injective, bound, >>=-Bound, Bool-cases, Option-cases, ◌&&◌,
}
use kairos_deploy.Base.Bytes.{Bytes, codes, bytes_eq, bytes_eq_sound, upper}
use kairos_deploy.Base.Count.{one_if, count}
use kairos_deploy.Aof.Tokens.{
  GroupCommand, create, setid, op_of, valid_group_args, valid_group_args-op,
}
use kairos_deploy.Aof.Commands.{
  Python, Command, multi, exec, select, xadd, hset, xgroup, xclaim, xack, command_named,
}
use kairos_deploy.Aof.Scan.Accepted.{on_xadd-accepted, on_hset-accepted, record_receipt-cases}
use kairos_deploy.Aof.Scan.{
  Counts, Scan, no_counts, added, on_multi, on_exec, on_select, on_xadd, on_hset, recorded,
  on_xgroup, on_xclaim, on_xack, count_group, dispatch, step, steps,
}

-- The command has this name, in any case of its letters.
abbrev pub is_named : Bytes → List Bytes → Bool
is_named name [] = false
is_named name (word ∷ words) = bytes_eq (upper word) name

abbrev pub is_op : Bytes → List Bytes → Bool
is_op op [] = false
is_op op (first ∷ words) = bytes_eq first op

-- An `XGROUP` with this operation.
abbrev pub is_group : Bytes → List Bytes → Bool
is_group op [] = false
is_group op (word ∷ words) = bytes_eq (upper word) (codes "XGROUP") && is_op op words

-- What the counters gained is what the commands are.
pub record IsTallied (commands : List (List Bytes)) (c c' : Counts) : Type 0 where
  pub multi_of : c'.multi ≡ c.multi + count (is_named (codes "MULTI")) commands
  pub exec_of : c'.exec ≡ c.exec + count (is_named (codes "EXEC")) commands
  pub select_of : c'.select ≡ c.select + count (is_named (codes "SELECT")) commands
  pub xadd_of : c'.xadd ≡ c.xadd + count (is_named (codes "XADD")) commands
  pub hset_of : c'.hset ≡ c.hset + count (is_named (codes "HSET")) commands
  pub create_of : c'.xgroup_create ≡ c.xgroup_create + count (is_group (codes "CREATE")) commands
  pub setid_of : c'.xgroup_setid ≡ c.xgroup_setid + count (is_group (codes "SETID")) commands
  pub xclaim_of : c'.xclaim ≡ c.xclaim + count (is_named (codes "XCLAIM")) commands
  pub xack_of : c'.xack ≡ c.xack + count (is_named (codes "XACK")) commands

-- What the counters gained by a command, by its name and its arguments.
record Gained (name : Bytes) (args : List Bytes) (c c' : Counts) : Type 0 where
  multi_by : c'.multi ≡ c.multi + one_if (bytes_eq name (codes "MULTI"))
  exec_by : c'.exec ≡ c.exec + one_if (bytes_eq name (codes "EXEC"))
  select_by : c'.select ≡ c.select + one_if (bytes_eq name (codes "SELECT"))
  xadd_by : c'.xadd ≡ c.xadd + one_if (bytes_eq name (codes "XADD"))
  hset_by : c'.hset ≡ c.hset + one_if (bytes_eq name (codes "HSET"))
  create_by :
      c'.xgroup_create
      ≡ c.xgroup_create + one_if (bytes_eq name (codes "XGROUP") && is_op (codes "CREATE") args)
  setid_by :
      c'.xgroup_setid
      ≡ c.xgroup_setid + one_if (bytes_eq name (codes "XGROUP") && is_op (codes "SETID") args)
  xclaim_by : c'.xclaim ≡ c.xclaim + one_if (bytes_eq name (codes "XCLAIM"))
  xack_by : c'.xack ≡ c.xack + one_if (bytes_eq name (codes "XACK"))

-- The keys that were counted at all.
abbrev pub present : List (Bytes × ℕ) → List (Bytes × ℕ)
present [] = []
present (e ∷ es) = if e.1 == 0 then present es else e ∷ present es

-- The keys of the report in their order.
abbrev pub entries_of : Counts → List (Bytes × ℕ)
entries_of c =
    (codes "exec", c.exec)
    ∷ (codes "hset", c.hset)
    ∷ (codes "multi", c.multi)
    ∷ (codes "select", c.select)
    ∷ (codes "xack", c.xack)
    ∷ (codes "xadd", c.xadd)
    ∷ (codes "xclaim", c.xclaim)
    ∷ (codes "xgroup|create", c.xgroup_create)
    ∷ (codes "xgroup|setid", c.xgroup_setid)
    ∷ []

-- How many commands have each name.
abbrev pub named : List (List Bytes) → Counts
named commands = record {
  multi = count (is_named (codes "MULTI")) commands;
  exec = count (is_named (codes "EXEC")) commands;
  select = count (is_named (codes "SELECT")) commands;
  xadd = count (is_named (codes "XADD")) commands;
  hset = count (is_named (codes "HSET")) commands;
  xgroup_create = count (is_group (codes "CREATE")) commands;
  xgroup_setid = count (is_group (codes "SETID")) commands;
  xclaim = count (is_named (codes "XCLAIM")) commands;
  xack = count (is_named (codes "XACK")) commands;
}

-- The same by the keys of the report, without those of no command.
abbrev pub tally_of : List (List Bytes) → List (Bytes × ℕ)
tally_of commands = present (entries_of (named commands))

pub tallied-named :
    (commands : List (List Bytes)) (c : Counts)
    → IsTallied commands no_counts c
    → c ≡ named commands
tallied-named commands c t = ground (arith, t)

abbrev name_of : Command → Bytes
name_of multi = codes "MULTI"
name_of exec = codes "EXEC"
name_of select = codes "SELECT"
name_of xadd = codes "XADD"
name_of hset = codes "HSET"
name_of xgroup = codes "XGROUP"
name_of xclaim = codes "XCLAIM"
name_of xack = codes "XACK"

-- One comparison of the chain.
one_name :
    (name : Bytes) (c d : Command) (rest : Option Command)
    → (if bytes_eq name (name_of c) then some c else rest) ≡ some d
    → (rest ≡ some d → name ≡ name_of d)
    → name ≡ name_of d
one_name name c d rest h later = elim (Bool-cases (bytes_eq name (name_of c))) [
  | inl same ↦
      subst (λ (x : Command). name ≡ name_of x) (some-injective (rw same at h))
        (bytes_eq_sound name (name_of c) same)
  | inr other ↦ later (rw other at h)
]

command_named-name_of :
    (name : Bytes) (d : Command) → command_named name ≡ some d → name ≡ name_of d
unfolding command_named
command_named-name_of name d h = one_name name multi d _ h λ h1. one_name name exec d _ h1 λ h2.
    one_name name select d _ h2 λ h3. one_name name xadd d _ h3 λ h4.
      one_name name hset d _ h4 λ h5.
        one_name name xgroup d _ h5
          λ h6. one_name name xclaim d _ h6 λ h7. one_name name xack d _ h7 λ h8. cc

group-Gained :
    (c : Counts) (form : GroupCommand) (args more : List Bytes)
    → args ≡ op_of form ∷ more
    → Gained (codes "XGROUP") args c (count_group form c)
unfolding count_group bytes_eq
group-Gained c create args more e =
    subst (λ (xs : List Bytes). Gained (codes "XGROUP") xs c (count_group create c)) (sym e)
      (omega arith)
group-Gained c setid args more e =
    subst (λ (xs : List Bytes). Gained (codes "XGROUP") xs c (count_group setid c)) (sym e)
      (omega arith)

module _ (s : Scan) {s' : Scan} (args : List Bytes) where
  on_multi-Gained : on_multi args s ≡ ok s' → Gained (codes "MULTI") args s.counts s'.counts
  unfolding on_multi bytes_eq
  on_multi-Gained h = ground arith

  on_exec-Gained : on_exec args s ≡ ok s' → Gained (codes "EXEC") args s.counts s'.counts
  unfolding on_exec bytes_eq
  on_exec-Gained h = ground arith

  on_select-Gained : on_select args s ≡ ok s' → Gained (codes "SELECT") args s.counts s'.counts
  unfolding on_select bytes_eq
  on_select-Gained h = ground arith

  on_xclaim-Gained : on_xclaim args s ≡ ok s' → Gained (codes "XCLAIM") args s.counts s'.counts
  unfolding on_xclaim bytes_eq
  on_xclaim-Gained h = ground arith

  on_xack-Gained : on_xack args s ≡ ok s' → Gained (codes "XACK") args s.counts s'.counts
  unfolding on_xack bytes_eq
  on_xack-Gained h = ground arith

  on_xadd-Gained :
      (py : Python) → on_xadd py args s ≡ ok s' → Gained (codes "XADD") args s.counts s'.counts
  unfolding added bytes_eq
  on_xadd-Gained py h =
      subst (λ (x : Scan). Gained (codes "XADD") args s.counts x.counts)
        (sym (on_xadd-accepted py args s h).result) (omega arith)

  on_hset-Gained :
      (py : Python) (exact_key : Bytes)
      → on_hset py exact_key args s ≡ ok s'
      → Gained (codes "HSET") args s.counts s'.counts
  unfolding recorded bytes_eq
  on_hset-Gained py exact_key h =
      let a = on_hset-accepted py exact_key args s h in
      elim (record_receipt-cases a.message_id a.pair s a.result) [
        | inl (_, result) ↦
            subst (λ (x : Scan). Gained (codes "HSET") args s.counts x.counts) (sym result)
              (omega arith)
        | inr (_, result) ↦
            subst (λ (x : Scan). Gained (codes "HSET") args s.counts x.counts) (sym result)
              (omega arith)
      ]

  on_xgroup-Gained : on_xgroup args s ≡ ok s' → Gained (codes "XGROUP") args s.counts s'.counts
  unfolding on_xgroup
  on_xgroup-Gained h = elim (>>=-Bound (valid_group_args args) _ h) [
    | bound form e h1 ↦
        let (more, shape) = valid_group_args-op args form e in
        subst (λ (x : Scan). Gained (codes "XGROUP") args s.counts x.counts) (ok-injective h1)
          (group-Gained s.counts form args more shape)
  ]

  dispatch-Gained :
      (py : Python) (exact_key : Bytes) (command : Command)
      → dispatch py exact_key command args s ≡ ok s'
      → Gained (name_of command) args s.counts s'.counts
  unfolding dispatch
  dispatch-Gained py exact_key multi h = on_multi-Gained h
  dispatch-Gained py exact_key exec h = on_exec-Gained h
  dispatch-Gained py exact_key select h = on_select-Gained h
  dispatch-Gained py exact_key xadd h = on_xadd-Gained py h
  dispatch-Gained py exact_key hset h = on_hset-Gained py exact_key h
  dispatch-Gained py exact_key xgroup h = on_xgroup-Gained h
  dispatch-Gained py exact_key xclaim h = on_xclaim-Gained h
  dispatch-Gained py exact_key xack h = on_xack-Gained h

step-Gained :
    (py : Python) (exact_key : Bytes) (s : Scan) (word : Bytes) (args : List Bytes) {s' : Scan}
    → step py exact_key s (word ∷ args) ≡ ok s'
    → Gained (upper word) args s.counts s'.counts
unfolding step
step-Gained py exact_key s word args {s'} h = elim (Option-cases (command_named (upper word))) [
  | inl unknown ↦ cc (rw (unknown, step) at h)
  | inr (command, e) ↦
      subst (λ (n : Bytes). Gained n args s.counts s'.counts)
        (sym (command_named-name_of (upper word) command e))
        (dispatch-Gained s args py exact_key command (rw (e, step) at h))
]

grown-IsTallied :
    (word : Bytes) (args : List Bytes) (commands : List (List Bytes)) (c c1 c' : Counts)
    → Gained (upper word) args c c1
    → IsTallied commands c1 c'
    → IsTallied ((word ∷ args) ∷ commands) c c'
grown-IsTallied word args commands c c1 c' g t = record {
  multi_of = omega (arith, g.multi_by, t.multi_of);
  exec_of = omega (arith, g.exec_by, t.exec_of);
  select_of = omega (arith, g.select_by, t.select_of);
  xadd_of = omega (arith, g.xadd_by, t.xadd_of);
  hset_of = omega (arith, g.hset_by, t.hset_of);
  create_of = omega (arith, g.create_by, t.create_of);
  setid_of = omega (arith, g.setid_by, t.setid_of);
  xclaim_of = omega (arith, g.xclaim_by, t.xclaim_of);
  xack_of = omega (arith, g.xack_by, t.xack_of);
}

step-IsTallied :
    (py : Python) (exact_key : Bytes) (s : Scan) (command : List Bytes)
    (commands : List (List Bytes)) {s1 : Scan} {c' : Counts}
    → step py exact_key s command ≡ ok s1
    → IsTallied commands s1.counts c'
    → IsTallied (command ∷ commands) s.counts c'
unfolding step
step-IsTallied py exact_key s [] commands h t = cc
step-IsTallied py exact_key s (word ∷ args) commands h t =
    grown-IsTallied word args commands _ _ _ (step-Gained py exact_key s word args h) t

-- The counters of the loop are those of the names of the commands that it took.
pub steps-IsTallied :
    (py : Python) (exact_key : Bytes) (s : Scan) (commands : List (List Bytes)) {s' : Scan}
    → steps py exact_key s commands ≡ ok s'
    → IsTallied commands s.counts s'.counts
unfolding steps
steps-IsTallied py exact_key s [] {s'} h =
    subst (λ (x : Scan). IsTallied [] s.counts x.counts) (ok-injective h) (omega arith)
steps-IsTallied py exact_key s (command ∷ commands) h =
    elim (>>=-Bound (step py exact_key s command) _ h) [
      | bound s1 taken rest ↦
          step-IsTallied py exact_key s command commands taken
            (steps-IsTallied py exact_key s1 commands rest)
    ]
