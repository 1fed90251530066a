-- ===== src/Buildkit.antt =====
-- `cgroup_path` and `parse_workers` of scripts/buildkit_resource_gate.py: the proof that the workers of a
-- bounded build server stay within its control group. Which characters are decimal
-- digits, and their values, is a parameter.
pub mod Bounded
mod Tests
use kairos_deploy.Base.{
  ℕ, zero, suc, ◌+◌, ◌*◌, Option, none, some, List, [], ◌∷◌, ◌++◌, Bool, true, false, not, ◌&&◌,
  ◌||◌, Result, ok, err, ◌>>=◌, ◌>>◌, raise_if, length, take, drop, leb, ltb, ◌==◌, all, any,
  if◌then◌else◌,
}
use kairos_deploy.Base.Bytes.{Bytes, codes, bytes_eq, is_digit, number}
use kairos_deploy.Base.Integers.{max_digits}
use kairos_deploy.Base.Text.{starts_with, split_lines, strip, strip_right, split_on}

pub data GateError : Type 0 where
  worker_cgroup_boundary namespace_unproven : GateError
  worker_identity_unproven worker_escaped worker_count_boundary too_many_digits : GateError

abbrev pub Checked : Type 0 → Type 0
Checked A = Result GateError A

abbrev is_numeral : Bytes → Bool
is_numeral [] = false
is_numeral (c ∷ cs) = all is_digit (c ∷ cs)

abbrev is_closed : Bytes → Bool
is_closed [] = false
is_closed (c ∷ []) = false
is_closed (c ∷ d ∷ []) = is_digit c && d == 93
is_closed (c ∷ d ∷ e ∷ cs) = is_digit c && is_closed (d ∷ e ∷ cs)

-- `cgroup:\[[0-9]+\]`
unfoldable pub is_namespace : Bytes → Bool
is_namespace text = starts_with (codes "cgroup:[") text && is_closed (drop 8 text)

abbrev is_alphanumeric : ℕ → Bool
is_alphanumeric c = is_digit c || leb 65 c && leb c 90 || leb 97 c && leb c 122

abbrev is_path_char : ℕ → Bool
is_path_char c = is_alphanumeric c || c == 95 || leb 45 c && leb c 47 || c == 58

-- `/[A-Za-z0-9_./:-]*`
abbrev pub is_path : Bytes → Bool
is_path [] = false
is_path (c ∷ cs) = c == 47 && all is_path_char cs

-- `".." in PurePosixPath(path).parts`
abbrev pub climbs : Bytes → Bool
climbs path = any (λ name. bytes_eq name (codes "..")) (split_on 47 path)

-- `path or "/"`
abbrev pub or_root : Bytes → Bytes
or_root [] = codes "/"
or_root (c ∷ cs) = c ∷ cs

unfoldable pub cgroup_path : Bytes → Checked Bytes
cgroup_path value = do
  raise_if (not (starts_with (codes "0::/") value) || any (λ c. c == 10 || c == 13) value)
      worker_cgroup_boundary
  raise_if (climbs (drop 3 value) || not (is_path (drop 3 value))) worker_cgroup_boundary
  ok (or_root (strip_right (λ c. c == 47) (drop 3 value)))

pub record Worker : Type 0 where
  pub pid : ℕ
  pub start_ticks : ℕ
  pub cgroup : Bytes
  pub namespace : Bytes

-- `parent == "/" or path == parent or path.startswith(parent + "/")`
unfoldable pub is_below : Bytes → Bytes → Bool
is_below parent path =
    bytes_eq parent (codes "/") || (bytes_eq path parent || starts_with (parent ++ codes "/") path)

abbrev pub has_pid : ℕ → List Worker → Bool
has_pid n workers = any (λ w. w.pid == n) workers

-- `len({row["pid"] for row in found}) == len(found)`
abbrev pub are_distinct : List Worker → Bool
are_distinct [] = true
are_distinct (worker ∷ workers) = not (has_pid worker.pid workers) && are_distinct workers

module _ (digit_value : ℕ → Option ℕ) where
  -- The value of a text of decimal digits, `acc` before it.
  unfoldable pub digits_from : ℕ → Bytes → Option ℕ
  digits_from acc [] = some acc
  digits_from acc (c ∷ cs) = elim (digit_value c) [
    | none ↦ none
    | some d ↦ digits_from (acc * 10 + d) cs
  ]

  -- The value where `text.isdecimal()`.
  abbrev pub decimal_value : Bytes → Option ℕ
  decimal_value [] = none
  decimal_value (c ∷ cs) = digits_from 0 (c ∷ cs)

  -- `int(text)` of a text that is decimal.
  abbrev pub int_from : GateError → Bytes → Checked ℕ
  int_from error text = elim (decimal_value text) [
    | none ↦ err error
    | some n ↦ if ltb max_digits (length text) then err too_many_digits else ok n
  ]

  abbrev pub is_decimal : Bytes → Bool
  is_decimal text = elim (decimal_value text) [ none ↦ false | some n ↦ true ]

  -- A decimal number above `least`.
  abbrev pub number_above : ℕ → Bytes → Checked ℕ
  number_above least text = do
    n ← int_from worker_identity_unproven text
    raise_if (leb n least) worker_identity_unproven
    ok n

  unfoldable pub worker_of : Bytes → List Bytes → Checked Worker
  worker_of parent (first ∷ second ∷ third ∷ fourth ∷ []) = do
    raise_if (not (is_decimal first) || not (is_decimal second)) worker_identity_unproven
    pid ← number_above 1 first
    start_ticks ← number_above 0 second
    path ← cgroup_path third
    raise_if (not (is_namespace fourth) || not (is_below parent path)) worker_escaped
    ok (record { pid = pid; start_ticks = start_ticks; cgroup = path; namespace = fourth })
  worker_of parent _ = err worker_identity_unproven

  unfoldable pub workers_of : Bytes → List Bytes → Checked (List Worker)
  workers_of parent [] = ok []
  workers_of parent (line ∷ lines) = do
    worker ← worker_of parent (split_on 124 line)
    workers ← workers_of parent lines
    ok (worker ∷ workers)

  unfoldable pub parse_workers : Bytes → Bytes → Bytes → Checked (List Worker)
  parse_workers text server_cgroup namespace = do
    parent ← cgroup_path server_cgroup
    raise_if (not (is_namespace namespace)) namespace_unproven
    found ← workers_of parent (split_lines (strip text))
    raise_if (ltb 4 (length found) || not (are_distinct found)) worker_count_boundary
    ok found
