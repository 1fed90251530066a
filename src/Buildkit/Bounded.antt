-- ===== src/Buildkit/Bounded.antt =====
-- What the workers that `parse_workers` of scripts/buildkit_resource_gate.py accepts are.
use kairos_deploy.Base.{
  ℕ, ◌≤◌, ◌<◌, ◌≡◌, ◌⊎◌, refl, sym, subst, ap, ◌∙◌, arith, inl, inr, Option, List, [], ◌∷◌, ◌++◌,
  Bool, true, false, not, ◌||◌, Bool-cases, unnegated, ok, raise_if, passed, raise_if-Passed,
  raise_if_passes, bound, >>=-Bound, ok-injective, length, take, drop, take-append-drop,
  append_assoc, append-nil, leb, ltb, leb→gt, ltb→le, ◌==◌, ==_iff, any,
}
use kairos_deploy.Base.Bytes.{Bytes, codes, bytes_eq, bytes_eq_sound}
use kairos_deploy.Base.Sets.{All}
use kairos_deploy.Base.Text.{
  starts_with, split_lines, strip, strip_right, kept, split_on, split_on-append,
}
use kairos_deploy.Buildkit.{
  worker_identity_unproven, worker_escaped, int_from, is_decimal, number_above, namespace_unproven,
  worker_count_boundary, worker_cgroup_boundary, is_namespace, climbs, cgroup_path, Worker,
  is_below, is_path, or_root, worker_of, workers_of, are_distinct, parse_workers,
}

-- The names on a path.
abbrev pub names_of : List Bytes → List Bytes
names_of [] = []
names_of ([] ∷ xs) = names_of xs
names_of ((c ∷ cs) ∷ xs) = (c ∷ cs) ∷ names_of xs

abbrev pub names : Bytes → List Bytes
names path = names_of (split_on 47 path)

-- The path leads on from the parent.
abbrev pub IsWithin : Bytes → Bytes → Type 0
IsWithin parent path = (more : List Bytes) × (names path ≡ names parent ++ more)

names_of-append : (xs ys : List Bytes) → names_of (xs ++ ys) ≡ names_of xs ++ names_of ys
names_of-append [] ys = refl
names_of-append ([] ∷ xs) ys = names_of-append xs ys
names_of-append ((c ∷ cs) ∷ xs) ys = rw (names_of-append xs ys) refl

starts_with-parts :
    (prefix text : Bytes)
    → starts_with prefix text ≡ true
    → text ≡ prefix ++ drop (length prefix) text
starts_with-parts prefix text h =
    let same : take (length prefix) text ≡ prefix =
      bytes_eq_sound (take (length prefix) text) prefix h in
    sym (take-append-drop (length prefix) text) ∙ ap (λ xs. xs ++ drop (length prefix) text) same

root_names : names (codes "/") ≡ []
unfolding split_on
root_names = refl

is_below-IsWithin : (parent path : Bytes) → is_below parent path ≡ true → IsWithin parent path
unfolding is_below
is_below-IsWithin parent path h = elim (Bool-cases (bytes_eq parent (codes "/"))) [
  | inl root ↦
      let same : parent ≡ codes "/" = bytes_eq_sound parent (codes "/") root in
      (names path, rw same (ap (λ xs. xs ++ names path) (sym root_names)))
  | inr inner ↦ elim (Bool-cases (bytes_eq path parent)) [
    | inl equal ↦
        let same : path ≡ parent = bytes_eq_sound path parent equal in
        ([], ap (λ p. names p) same ∙ sym (append-nil (names parent)))
    | inr other ↦
        let start : starts_with (parent ++ codes "/") path ≡ true = rw (inner, other) at h in
        let rest = drop (length (parent ++ codes "/")) path in
        let whole : path ≡ parent ++ (47 ∷ rest) =
          starts_with-parts (parent ++ codes "/") path start
          ∙ append_assoc parent (codes "/") rest in
        (
          names rest,
          ap (λ p. names p) whole
              ∙ ap names_of (split_on-append 47 parent rest)
              ∙ names_of-append (split_on 47 parent) (split_on 47 rest),
        )
  ]
]

-- What stripping leaves, and a first character that it took.
abbrev Stripped : (ℕ → Bool) → Bytes → Bytes → Type 0
Stripped drops text left =
    (text ≡ left) ⊎ ((c : ℕ) × (rest : Bytes) × (text ≡ left ++ (c ∷ rest)) × (drops c ≡ true))

kept_character :
    (drops : ℕ → Bool) (c : ℕ) (cs left : Bytes)
    → Stripped drops cs left
    → Stripped drops (c ∷ cs) (kept drops c left)
kept_character drops c cs [] ih = elim (Bool-cases (drops c)) [
  | inl dropped ↦ rw dropped (inr (c, cs, refl, dropped))
  | inr stays ↦ rw stays (elim ih [
    | inl same ↦ inl (ap (λ xs. c ∷ xs) same)
    | inr (e, rest, whole, taken) ↦ inr (e, rest, ap (λ xs. c ∷ xs) whole, taken)
  ])
]
kept_character drops c cs (d ∷ ds) (inl same) = inl (ap (λ xs. c ∷ xs) same)
kept_character drops c cs (d ∷ ds) (inr (e, rest, whole, taken)) =
    inr (e, rest, ap (λ xs. c ∷ xs) whole, taken)

strip_right-Stripped :
    (drops : ℕ → Bool) (text : Bytes) → Stripped drops text (strip_right drops text)
unfolding strip_right
strip_right-Stripped drops [] = inl refl
strip_right-Stripped drops (c ∷ cs) =
    kept_character drops c cs (strip_right drops cs) (strip_right-Stripped drops cs)

any-append_left :
    (p : Bytes → Bool) (xs ys : List Bytes) → any p (xs ++ ys) ≡ false → any p xs ≡ false
any-append_left p [] ys h = refl
any-append_left p (x ∷ xs) ys h = elim (Bool-cases (p x)) [
  | inl hit ↦ absurd (let k = rw hit at h in cc)
  | inr other ↦ rw (other, any) (any-append_left p xs ys (rw (other, any) at h))
]

-- A path does not climb if it did not before slashes at its end were stripped.
climbs-strip :
    (text left : Bytes)
    → Stripped (λ c. c == 47) text left
    → climbs text ≡ false
    → climbs left ≡ false
climbs-strip text left (inl same) h = subst (λ t. climbs t ≡ false) same h
climbs-strip text left (inr (c, rest, whole, slash)) h =
    let at_slash : text ≡ left ++ (47 ∷ rest) =
      whole ∙ ap (λ d. left ++ (d ∷ rest)) ((==_iff c 47).0 slash) in
    let of_parts : any (λ name. bytes_eq name (codes "..")) (split_on 47 left ++ split_on 47 rest)
        ≡ false =
      subst (λ xs. any (λ name. bytes_eq name (codes "..")) xs ≡ false)
        (ap (λ t. split_on 47 t) at_slash ∙ split_on-append 47 left rest) h in
    any-append_left (λ name. bytes_eq name (codes "..")) (split_on 47 left) (split_on 47 rest)
      of_parts

or_false : (a b : Bool) → (a || b) ≡ false → (a ≡ false) × (b ≡ false)
or_false a b h = (ground arith, ground arith)

or_root-climbs : (left : Bytes) → climbs left ≡ false → climbs (or_root left) ≡ false
unfolding split_on bytes_eq
or_root-climbs [] h = refl
or_root-climbs (c ∷ cs) h = h

-- A path that is read does not climb.
cgroup_path-climbs :
    (value : Bytes) {path : Bytes} → cgroup_path value ≡ ok path → climbs path ≡ false
unfolding cgroup_path
cgroup_path-climbs value h =
    elim (>>=-Bound
      (raise_if (not (starts_with (codes "0::/") value) || any (λ c. c == 10 || c == 13) value)
        worker_cgroup_boundary)
      _ h) [
        | bound _ _ h1 ↦
            elim (>>=-Bound
              (raise_if (climbs (drop 3 value) || not (is_path (drop 3 value)))
                worker_cgroup_boundary)
              _ h1) [
                | bound _ e h2 ↦
                    let (level, _) =
                      or_false (climbs (drop 3 value)) _
                        (raise_if_passes _ worker_cgroup_boundary e) in
                    subst (λ p. climbs p ≡ false) (ok-injective h2)
                      (or_root-climbs _ (
                        climbs-strip (drop 3 value) _
                          (strip_right-Stripped (λ c. c == 47) (drop 3 value)) level))
              ]
      ]

-- A worker of the server: no system process, and in a group below the server's that names no parent.
pub record IsBounded (parent : Bytes) (w : Worker) : Type 0 where
  pub own_process : 1 < w.pid
  pub started : 0 < w.start_ticks
  pub within : IsWithin parent w.cgroup
  pub level : climbs w.cgroup ≡ false

module _ (digit_value : ℕ → Option ℕ) where
  number_above_least :
      (least : ℕ) (text : Bytes) {n : ℕ} → number_above digit_value least text ≡ ok n → least < n
  number_above_least least text h =
      elim (>>=-Bound (int_from digit_value worker_identity_unproven text) _ h) [
        | bound m _ h1 ↦ elim (raise_if-Passed (leb m least) worker_identity_unproven (ok m) h1) [
          | passed above h2 ↦ subst (λ k. least < k) (ok-injective h2) (leb→gt m least above)
        ]
      ]

  worker_of-IsBounded :
      (parent : Bytes) (fields : List Bytes) {w : Worker}
      → worker_of digit_value parent fields ≡ ok w
      → IsBounded parent w
  unfolding worker_of
  worker_of-IsBounded parent (first ∷ second ∷ third ∷ fourth ∷ []) h =
      elim (>>=-Bound
        (raise_if (not (is_decimal digit_value first) || not (is_decimal digit_value second))
          worker_identity_unproven)
        _ h) [
          | bound _ _ h1 ↦ elim (>>=-Bound (number_above digit_value 1 first) _ h1) [
            | bound pid p h2 ↦ elim (>>=-Bound (number_above digit_value 0 second) _ h2) [
              | bound ticks t h3 ↦ elim (>>=-Bound (cgroup_path third) _ h3) [
                | bound path c h4 ↦
                    elim (>>=-Bound
                      (raise_if (not (is_namespace fourth) || not (is_below parent path))
                        worker_escaped)
                      _ h4) [
                        | bound _ e h5 ↦
                            let (_, below) =
                              or_false (not (is_namespace fourth)) _
                                (raise_if_passes _ worker_escaped e) in
                            subst (IsBounded parent) (ok-injective h5) (record {
                              own_process = number_above_least 1 first p;
                              started = number_above_least 0 second t;
                              within = is_below-IsWithin parent path (unnegated _ below);
                              level = cgroup_path-climbs third c;
                            })
                      ]
              ]
            ]
          ]
        ]
  worker_of-IsBounded parent [] h = cc
  worker_of-IsBounded parent (a ∷ []) h = cc
  worker_of-IsBounded parent (a ∷ b ∷ []) h = cc
  worker_of-IsBounded parent (a ∷ b ∷ c ∷ []) h = cc
  worker_of-IsBounded parent (a ∷ b ∷ c ∷ d ∷ e ∷ rest) h = cc

  workers_of-IsBounded :
      (parent : Bytes) (lines : List Bytes) {found : List Worker}
      → workers_of digit_value parent lines ≡ ok found
      → All (IsBounded parent) found
  unfolding workers_of
  workers_of-IsBounded parent [] h = subst (All (IsBounded parent)) (ok-injective h) tt
  workers_of-IsBounded parent (line ∷ lines) h =
      elim (>>=-Bound (worker_of digit_value parent (split_on 124 line)) _ h) [
        | bound w e h1 ↦ elim (>>=-Bound (workers_of digit_value parent lines) _ h1) [
          | bound ws es h2 ↦ subst (All (IsBounded parent)) (ok-injective h2) (
            worker_of-IsBounded parent (split_on 124 line) e,
            workers_of-IsBounded parent lines es,
          )
        ]
      ]

  -- Workers that are accepted are four at most, with different process ids, none of them the first, each
  -- in a group that leads on from the server's and never climbs.
  pub parse_workers-IsBounded :
      (text server_cgroup namespace : Bytes) {found : List Worker}
      → parse_workers digit_value text server_cgroup namespace ≡ ok found
      → (length found ≤ 4)
        × (are_distinct found ≡ true)
        × ((parent : Bytes) × (cgroup_path server_cgroup ≡ ok parent)
            × All (IsBounded parent) found)
  unfolding parse_workers
  parse_workers-IsBounded text server_cgroup namespace h =
      elim (>>=-Bound (cgroup_path server_cgroup) _ h) [
        | bound parent p h1 ↦
            elim (>>=-Bound (raise_if (not (is_namespace namespace)) namespace_unproven) _ h1) [
              | bound _ _ h2 ↦
                  elim (>>=-Bound (workers_of digit_value parent (split_lines (strip text))) _ h2) [
                    | bound ws e h3 ↦
                        elim (raise_if-Passed (ltb 4 (length ws) || not (are_distinct ws))
                          worker_count_boundary (ok ws) h3) [
                            | passed few h4 ↦
                                let (count, distinct) = or_false (ltb 4 (length ws)) _ few in
                                let same = ok-injective h4 in
                                (
                                  subst (λ xs. length xs ≤ 4) same (ltb→le 4 (length ws) count),
                                  subst (λ xs. are_distinct xs ≡ true) same (unnegated _ distinct),
                                  (
                                    parent,
                                    p,
                                    subst (All (IsBounded parent)) same
                                        (workers_of-IsBounded parent _ e),
                                  ),
                                )
                          ]
                  ]
            ]
      ]
