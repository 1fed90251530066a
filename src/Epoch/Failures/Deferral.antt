-- ===== src/Epoch/Failures/Deferral.antt =====
-- When the failure that `recover` of scripts/runtime_epoch_worker.py surfaces may be waited out.
use kairos_deploy.Base.{
  ℕ, zero, suc, ◌+◌, ◌<◌, ◌≡◌, ◌≢◌, ◌↔◌, refl, sym, ap, ◌∙◌, ◌⊎◌, inl, inr, Bool, true, false, not,
  ◌&&◌, ◌||◌, Option, none, some, List, [], ◌∷◌, ◌++◌, all, any, map, arith, Bool-cases,
  Option-cases, &&_true,
}
use kairos_deploy.Epoch.Failures.{
  Reason, fetch_timeout, fetch_dns_failure, Failure, source, fatal, group, Failures, nil, cons,
  reason_eq, agree, source_wait_reason, common_reason, extend, collect, first_leaf, is_none,
  admitted, is_mixed, size, size_all, surfaced,
}

-- Every leaf of a failure passes a test.
unfoldable mutual
  pub every : (Failure → Bool) → Failure → Bool
  every p (source r) = p (source r)
  every p (fatal n) = p (fatal n)
  every p (group f fs) = every p f && every_all p fs

  pub every_all : (Failure → Bool) → Failures → Bool
  every_all p nil = true
  every_all p (cons f fs) = every p f && every_all p fs

-- The leaf is a source failure for the reason `r`.
abbrev pub has_reason : Reason → Failure → Bool
has_reason r (source q) = reason_eq r q
has_reason r (fatal n) = false
has_reason r (group f fs) = false

reason_eq_sound : (r q : Reason) → reason_eq r q ≡ true → r ≡ q
reason_eq_sound r q h = ground arith

reason_eq_refl : (r : Reason) → reason_eq r r ≡ true
reason_eq_refl fetch_timeout = refl
reason_eq_refl fetch_dns_failure = refl

agree_sound : (a b : Option Reason) (r : Reason) → agree a b ≡ some r → (a ≡ some r) × (b ≡ some r)
agree_sound a b r h = ground arith

-- A group that may be waited out has no leaf with another reason.
mutual
  unfolding source_wait_reason every

  reason-every :
      (f : Failure) (r : Reason) → source_wait_reason f ≡ some r → every (has_reason r) f ≡ true
  reason-every (source q) r h = ground (arith, reason_eq_refl r)
  reason-every (fatal n) r h = cc
  reason-every (group f fs) r h =
      let (e, rest) = common-every fs (source_wait_reason f) r h in
      rw (reason-every f r e, rest) refl

  common-every :
      (fs : Failures) (q : Option Reason) (r : Reason)
      → common_reason q fs ≡ some r
      → (q ≡ some r) × (every_all (has_reason r) fs ≡ true)
  common-every nil q r h = (h, refl)
  common-every (cons f fs) q r h =
      let (agreed, rest) = common-every fs (agree q (source_wait_reason f)) r h in
      let (of_q, of_f) = agree_sound q (source_wait_reason f) r agreed in
      (of_q, rw (reason-every f r of_f, rest) refl)

-- A group whose leaves all have one reason has that reason.
mutual
  unfolding source_wait_reason every

  every-reason :
      (f : Failure) (r : Reason) → every (has_reason r) f ≡ true → source_wait_reason f ≡ some r
  every-reason (source q) r h = ap some (sym (reason_eq_sound r q h))
  every-reason (fatal n) r h = cc
  every-reason (group f fs) r h =
      let (first, rest) = &&_true (every (has_reason r) f) (every_all (has_reason r) fs) h in
      rw (every-reason f r first) (every-common fs r rest)

  every-common :
      (fs : Failures) (r : Reason)
      → every_all (has_reason r) fs ≡ true
      → common_reason (some r) fs ≡ some r
  every-common nil r h = refl
  every-common (cons f fs) r h =
      let (first, rest) = &&_true (every (has_reason r) f) (every_all (has_reason r) fs) h in
      rw (every-reason f r first, reason_eq_refl r) (every-common fs r rest)

-- The stack and the leaves of the loop, by a test on leaves.
extend-every :
    (p : Failure → Bool) (fs : Failures) (stack : List Failure)
    → all (every p) (extend fs stack) ≡ (every_all p fs && all (every p) stack)
unfolding extend every
extend-every p nil stack = refl
extend-every p (cons f fs) stack = extend-every p fs (f ∷ stack) ∙ ground arith

all-concat :
    (p : Failure → Bool) (fs : List Failure) (f : Failure)
    → all p (fs ++ f ∷ []) ≡ (all p fs && p f)
all-concat p [] f = ground arith
all-concat p (x ∷ fs) f = ground (arith, all-concat p fs f)

-- The loop keeps what a test says of all the leaves.
collect-every :
    (p : Failure → Bool) (fuel : ℕ) (stack leaves : List Failure) {out : List Failure}
    → collect fuel stack leaves ≡ some out
    → all (every p) out ≡ (all (every p) leaves && all (every p) stack)
unfolding collect every
collect-every p zero stack leaves h = cc
collect-every p (suc fuel) [] leaves h = ground arith
collect-every p (suc fuel) (source r ∷ stack) leaves h =
    collect-every p fuel stack (leaves ++ source r ∷ []) h
    ∙ ground (arith, all-concat (every p) leaves (source r))
collect-every p (suc fuel) (fatal n ∷ stack) leaves h =
    collect-every p fuel stack (leaves ++ fatal n ∷ []) h
    ∙ ground (arith, all-concat (every p) leaves (fatal n))
collect-every p (suc fuel) (group f fs ∷ stack) leaves h =
    collect-every p fuel (extend (cons f fs) stack) leaves h
    ∙ ground (arith, extend-every p fs (f ∷ stack))

sizes : List Failure → ℕ
sizes [] = 0
sizes (f ∷ fs) = size f + sizes fs

extend-size :
    (fs : Failures) (stack : List Failure) → sizes (extend fs stack) ≡ size_all fs + sizes stack
unfolding extend size sizes
extend-size nil stack = omega arith
extend-size (cons f fs) stack = omega (arith, extend-size fs (f ∷ stack))

collect-ne-none :
    (fuel : ℕ) (stack leaves : List Failure) → sizes stack < fuel → collect fuel stack leaves ≢ none
unfolding collect size sizes
collect-ne-none zero stack leaves h = absurd (omega arith)
collect-ne-none (suc fuel) [] leaves h = λ e. cc
collect-ne-none (suc fuel) (source r ∷ stack) leaves h =
    collect-ne-none fuel stack (leaves ++ source r ∷ []) (omega arith)
collect-ne-none (suc fuel) (fatal n ∷ stack) leaves h =
    collect-ne-none fuel stack (leaves ++ fatal n ∷ []) (omega arith)
collect-ne-none (suc fuel) (group f fs ∷ stack) leaves h =
    collect-ne-none fuel (extend (cons f fs) stack) leaves
      (omega (arith, extend-size fs (f ∷ stack)))

abbrev is_leaf : Failure → Bool
is_leaf (group f fs) = false
is_leaf _ = true

abbrev is_fatal : Failure → Bool
is_fatal (fatal n) = true
is_fatal _ = false

collect-leaves :
    (fuel : ℕ) (stack leaves : List Failure) {out : List Failure}
    → all is_leaf leaves ≡ true
    → collect fuel stack leaves ≡ some out
    → all is_leaf out ≡ true
unfolding collect
collect-leaves zero stack leaves l h = cc
collect-leaves (suc fuel) [] leaves l h = ground arith
collect-leaves (suc fuel) (source r ∷ stack) leaves l h =
    collect-leaves fuel stack (leaves ++ source r ∷ [])
      (all-concat is_leaf leaves (source r) ∙ ground (arith, l)) h
collect-leaves (suc fuel) (fatal n ∷ stack) leaves l h =
    collect-leaves fuel stack (leaves ++ fatal n ∷ [])
      (all-concat is_leaf leaves (fatal n) ∙ ground (arith, l)) h
collect-leaves (suc fuel) (group f fs ∷ stack) leaves l h =
    collect-leaves fuel (extend (cons f fs) stack) leaves l h

abbrev same : Reason → Option Reason → Bool
same r none = false
same r (some q) = reason_eq r q

-- A leaf with no reason is fatal.
fatal_leaves :
    (out : List Failure)
    → all is_leaf out ≡ true
    → all is_none (map source_wait_reason out) ≡ true
    → all (every is_fatal) out ≡ true
unfolding source_wait_reason every
fatal_leaves [] l h = refl
fatal_leaves (source r ∷ out) l h = cc
fatal_leaves (fatal n ∷ out) l h = fatal_leaves out l h
fatal_leaves (group f fs ∷ out) l h = cc

same-every : (r : Reason) (f : Failure) → same r (source_wait_reason f) ≡ every (has_reason r) f
same-every r f = elim (Bool-cases (every (has_reason r) f)) [
  | inl yes_all ↦ rw (yes_all, every-reason f r yes_all) (reason_eq_refl r)
  | inr not_all ↦ elim (Option-cases (source_wait_reason f)) [
    | inl no_reason ↦ rw (no_reason, not_all) refl
    | inr (q, e) ↦ elim (Bool-cases (reason_eq r q)) [
      | inr other ↦ rw (e, not_all) other
      | inl agreed ↦
          let whole = reason-every f r (e ∙ ap some (sym (reason_eq_sound r q agreed))) in cc whole
    ]
  ]
]

same_reasons :
    (r : Reason) (out : List Failure)
    → all (same r) (map source_wait_reason out) ≡ all (every (has_reason r)) out
same_reasons r [] = refl
same_reasons r (f ∷ out) = rw (same-every r f, same_reasons r out) refl

-- No leaf without a reason, and all admitted reasons the same.
agreed_admitted :
    (r : Reason) (reasons : List (Option Reason))
    → any is_none reasons ≡ false
    → all (reason_eq r) (admitted reasons) ≡ true
    → all (same r) reasons ≡ true
agreed_admitted r [] n h = refl
agreed_admitted r (none ∷ reasons) n h = cc
agreed_admitted r (some q ∷ reasons) n h = ground (arith, agreed_admitted r reasons)

none_admitted :
    (reasons : List (Option Reason)) → admitted reasons ≡ [] → all is_none reasons ≡ true
none_admitted [] h = refl
none_admitted (none ∷ reasons) h = none_admitted reasons h
none_admitted (some q ∷ reasons) h = cc

admitted-same :
    (r : Reason) (reasons : List (Option Reason))
    → all (same r) reasons ≡ true
    → (any is_none reasons ≡ false) × (all (reason_eq r) (admitted reasons) ≡ true)
admitted-same r [] h = (refl, refl)
admitted-same r (none ∷ reasons) h = cc
admitted-same r (some q ∷ reasons) h = ground (arith, admitted-same r reasons)

unmixed-cases :
    (reasons : List (Option Reason))
    → is_mixed reasons ≡ false
    → (all is_none reasons ≡ true) ⊎ ((r : Reason) × (all (same r) reasons ≡ true))
unfolding is_mixed
unmixed-cases reasons h = on_admitted (admitted reasons) refl
  where
    on_admitted :
        (found : List Reason)
        → admitted reasons ≡ found
        → (all is_none reasons ≡ true) ⊎ ((r : Reason) × (all (same r) reasons ≡ true))
    on_admitted [] e = inl (none_admitted reasons e)
    on_admitted (r ∷ rs) e =
        let t : (any is_none reasons || not (all (reason_eq r) rs)) ≡ false =
          rw (e, is_mixed) at h in
        let rest : all (reason_eq r) rs ≡ true = ground arith in
        inr (r, agreed_admitted r reasons (ground arith) (rw (e, reason_eq_refl r) rest))

same-unmixed :
    (r : Reason) (reasons : List (Option Reason))
    → all (same r) reasons ≡ true
    → is_mixed reasons ≡ false
unfolding is_mixed
same-unmixed r reasons h = on_admitted (admitted reasons) refl
  where
    on_admitted : (found : List Reason) → admitted reasons ≡ found → is_mixed reasons ≡ false
    on_admitted [] e = rw (e, is_mixed) refl
    on_admitted (q ∷ qs) e =
        let (named, agreed) = admitted-same r reasons h in
        let (first, rest) = &&_true (reason_eq r q) (all (reason_eq r) qs) (rw e at agreed) in
        rw (e, is_mixed) (rw (named, ← reason_eq_sound r q first, rest) refl)

every-first_leaf :
    (p : Failure → Bool) (f : Failure) → every p f ≡ true → every p (first_leaf f) ≡ true
unfolding every first_leaf
every-first_leaf p (source r) h = h
every-first_leaf p (fatal n) h = h
every-first_leaf p (group f fs) h = every-first_leaf p f (&&_true (every p f) (every_all p fs) h).0

not_both : (r : Reason) (f : Failure) → every is_fatal f ≡ true → every (has_reason r) f ≡ true → ⊥
unfolding every
not_both r (source q) h k = cc
not_both r (fatal n) h k = cc
not_both r (group f fs) h k =
    not_both r f (&&_true (every is_fatal f) (every_all is_fatal fs) h).0
      (&&_true (every (has_reason r) f) (every_all (has_reason r) fs) k).0

-- What the loop says of all its leaves holds of the group that it began with.
collect-group :
    (p : Failure → Bool) (fuel : ℕ) (errors : Failure) {out : List Failure}
    → collect fuel (errors ∷ []) [] ≡ some out
    → all (every p) out ≡ true
    → every p errors ≡ true
collect-group p fuel errors e h =
    (&&_true (every p errors) true (sym (collect-every p fuel (errors ∷ []) [] e) ∙ h)).0

-- Behind leaves that are not mixed, the first one speaks for all.
unmixed-deferral :
    (errors : Failure) (fuel : ℕ) (r : Reason) {out : List Failure}
    → collect fuel (errors ∷ []) [] ≡ some out
    → is_mixed (map source_wait_reason out) ≡ false
    → source_wait_reason (first_leaf errors) ≡ some r
    → every (has_reason r) errors ≡ true
unmixed-deferral errors fuel r {out} e unmixed h =
    let of_first = reason-every (first_leaf errors) r h in
    elim (unmixed-cases (map source_wait_reason out) unmixed) [
      | inl no_reason ↦
          let all_fatal =
            collect-group is_fatal fuel errors e
              (fatal_leaves out (collect-leaves fuel (errors ∷ []) [] refl e) no_reason) in
          absurd
            (not_both r (first_leaf errors) (every-first_leaf is_fatal errors all_fatal) of_first)
      | inr (q, agreed) ↦
          let whole =
            collect-group (has_reason q) fuel errors e (sym (same_reasons q out) ∙ agreed) in
          let of_q =
            every-reason (first_leaf errors) q (every-first_leaf (has_reason q) errors whole) in
          let q_is_r : q ≡ r = cc (of_q, h) in rw q_is_r at whole
    ]

-- The handler surfaces a failure that may be waited out exactly if every leaf of the group is a
-- source failure for the same reason, and surfaces one in any case.
pub surfaced-deferral :
    (errors : Failure)
    → (f : Failure) × (surfaced errors ≡ some f)
      × ((r : Reason) → (source_wait_reason f ≡ some r) ↔ (every (has_reason r) errors ≡ true))
unfolding surfaced sizes
surfaced-deferral errors = elim (Option-cases (collect (suc (size errors)) (errors ∷ []) [])) [
  | inl stuck ↦ absurd (collect-ne-none (suc (size errors)) (errors ∷ []) [] (omega arith) stuck)
  | inr (out, e) ↦ elim (Bool-cases (is_mixed (map source_wait_reason out))) [
    | inl mixed ↦ (
      errors,
      rw (e, surfaced) (rw mixed refl),
      λ r. (reason-every errors r, every-reason errors r),
    )
    | inr unmixed ↦ (
      first_leaf errors,
      rw (e, surfaced) (rw unmixed refl),
      λ r. (
        unmixed-deferral errors (suc (size errors)) r e unmixed,
        λ h. every-reason (first_leaf errors) r (every-first_leaf (has_reason r) errors h),
      ),
    )
  ]
]
