-- ===== src/Epoch/Failures.antt =====
-- Failures of a catch-up round in scripts/runtime_epoch_worker.py: `source_wait_reason`, and what the
-- handler of `recover` raises in place of the group that `asyncio.TaskGroup` gave it.
pub mod Deferral
use mathlib.Core.Option
use kairos_deploy.Base.{
  ℕ, zero, suc, ◌+◌, Bool, true, false, not, ◌&&◌, ◌||◌, Option, none, some, List, [], ◌∷◌, ◌++◌,
  length, all, any, map, if◌then◌else◌,
}

-- The two failures of a public GET that may be waited out.
pub data Reason : Type 0 where
  fetch_timeout fetch_dns_failure : Reason

-- An exception: one of the two, any other, or a group, which Python never makes empty.
mutual
  pub data Failure : Type 0 where
    source : Reason → Failure
    fatal : ℕ → Failure
    group : Failure → Failures → Failure

  pub data Failures : Type 0 where
    nil : Failures
    cons : Failure → Failures → Failures

abbrev pub reason_eq : Reason → Reason → Bool
reason_eq fetch_timeout fetch_timeout = true
reason_eq fetch_dns_failure fetch_dns_failure = true
reason_eq _ _ = false

-- `reason == reasons[0]` for one more of the children.
abbrev pub agree : Option Reason → Option Reason → Option Reason
agree (some r) (some q) = if reason_eq r q then some r else none
agree _ _ = none

-- `source_wait_reason`, and the children's common reason given that of the first.
unfoldable mutual
  pub source_wait_reason : Failure → Option Reason
  source_wait_reason (source r) = some r
  source_wait_reason (fatal n) = none
  source_wait_reason (group first rest) = common_reason (source_wait_reason first) rest

  pub common_reason : Option Reason → Failures → Option Reason
  common_reason r nil = r
  common_reason r (cons f fs) = common_reason (agree r (source_wait_reason f)) fs

-- `pending_errors.extend(item.exceptions)` on a stack whose top is its head.
extend : Failures → List Failure → List Failure
extend nil stack = stack
extend (cons f fs) stack = extend fs (f ∷ stack)

-- The loop that collects the leaves; `none` means that the fuel ran out.
unfoldable pub collect : ℕ → List Failure → List Failure → Option (List Failure)
unfolding extend
collect zero stack leaves = none
collect (suc fuel) [] leaves = some leaves
collect (suc fuel) (source r ∷ stack) leaves = collect fuel stack (leaves ++ source r ∷ [])
collect (suc fuel) (fatal n ∷ stack) leaves = collect fuel stack (leaves ++ fatal n ∷ [])
collect (suc fuel) (group f fs ∷ stack) leaves = collect fuel (extend (cons f fs) stack) leaves

-- `while isinstance(original, ExceptionGroup): original = original.exceptions[0]`
unfoldable pub first_leaf : Failure → Failure
first_leaf (source r) = source r
first_leaf (fatal n) = fatal n
first_leaf (group f fs) = first_leaf f

abbrev pub is_none : Option Reason → Bool
is_none none = true
is_none (some r) = false

-- The reasons that are not `None`.
abbrev pub admitted : List (Option Reason) → List Reason
admitted [] = []
admitted (none ∷ reasons) = admitted reasons
admitted (some r ∷ reasons) = r ∷ admitted reasons

-- Some reason is admitted, and another leaf has none or a different one.
unfoldable pub is_mixed : List (Option Reason) → Bool
is_mixed reasons = elim (admitted reasons) [
  | [] ↦ false
  | r ∷ rs ↦ any is_none reasons || not (all (reason_eq r) rs)
]

-- The exceptions in a failure, groups included.
unfoldable mutual
  pub size : Failure → ℕ
  size (source r) = 1
  size (fatal n) = 1
  size (group f fs) = 1 + (size f + size_all fs)

  pub size_all : Failures → ℕ
  size_all nil = 0
  size_all (cons f fs) = size f + size_all fs

-- What the handler raises for the group `errors`; the loop takes a round for each exception.
unfoldable pub surfaced : Failure → Option Failure
surfaced errors =
    Option.map
      (λ leaves. if is_mixed (map source_wait_reason leaves) then errors else first_leaf errors)
      (collect (suc (size errors)) (errors ∷ []) [])
