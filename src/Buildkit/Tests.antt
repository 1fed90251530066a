-- ===== src/Buildkit/Tests.antt =====
-- Concrete proofs of scripts/buildkit_resource_gate.py, with the digits of ASCII.
use kairos_deploy.Base.{
  ℕ, ◌-◌, ◌≤◌, ◌≡◌, refl, Option, none, some, [], ◌∷◌, ◌++◌, true, ok, err, length, if◌then◌else◌,
}
use kairos_deploy.Base.Bytes.{Bytes, codes, bytes_eq, is_digit}
use kairos_deploy.Base.Sets.{All}
use kairos_deploy.Base.Text.{split_lines, strip_left, strip_right, split_on}
use kairos_deploy.Buildkit.{
  Worker, worker_escaped, is_namespace, cgroup_path, is_below, digits_from, are_distinct, worker_of,
  workers_of, parse_workers,
}
use kairos_deploy.Buildkit.Bounded.{IsBounded, parse_workers-IsBounded}

abbrev ascii : ℕ → Option ℕ
ascii c = if is_digit c then some (c - 48) else none

abbrev space : Bytes
space = codes "cgroup:[4026531835]"

abbrev worker : Worker
worker = record { pid = 17; start_ticks = 9; cgroup = codes "/a/b"; namespace = space }

-- A worker in the group `/a/b` of the server's group `/a`.
abbrev observed : Bytes
observed = (10 ∷ codes "17|9|0::/a/b/|") ++ (space ++ (10 ∷ []))

worker_read : parse_workers ascii observed (codes "0::/a") space ≡ ok (worker ∷ [])
unfolding parse_workers workers_of worker_of digits_from cgroup_path is_namespace is_below
    split_lines strip_left strip_right split_on bytes_eq
worker_read = refl

worker_outside : parse_workers ascii observed (codes "0::/b") space ≡ err worker_escaped
unfolding parse_workers workers_of worker_of digits_from cgroup_path is_namespace is_below
    split_lines strip_left strip_right split_on bytes_eq
worker_outside = refl

parse_workers-IsBounded_example :
    (length (worker ∷ []) ≤ 4)
    × (are_distinct (worker ∷ []) ≡ true)
    × ((parent : Bytes) × (cgroup_path (codes "0::/a") ≡ ok parent)
        × All (IsBounded parent) (worker ∷ []))
parse_workers-IsBounded_example =
    parse_workers-IsBounded ascii observed (codes "0::/a") space worker_read
