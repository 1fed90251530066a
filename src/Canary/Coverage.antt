-- ===== src/Canary/Coverage.antt =====
-- What the sets that the loop over the trades of `evaluate_evidence` in
-- scripts/paper_canary_acceptance.py collects say about the trades.
use kairos_deploy.Base.{
  ◌≡◌, ◌⊎◌, ◌↔◌, inl, inr, refl, sym, subst, List, [], ◌∷◌, true, false, Bool-cases,
}
use kairos_deploy.Base.Bytes.{Bytes, bytes_eq, bytes_eq_sound, bytes_eq_refl}
use kairos_deploy.Base.Sets.{
  contains, add, contains-add, contains-add_self, contains-add_keep, Exists, All, bytes_eq_instance,
}
use kairos_deploy.Canary.Evidence.{Decimals, Trade}
use kairos_deploy.Canary.Judge.{is_protected_flat, required_exits}
use kairos_deploy.Canary.Report.{Totals, updated, difference, seen, tally}

contains_head : (x : Bytes) (xs : List Bytes) → contains x (x ∷ xs) ≡ true
unfolding contains
contains_head x xs = rw (bytes_eq_refl x)

contains_tail : (x y : Bytes) (xs : List Bytes) → contains x xs ≡ true → contains x (y ∷ xs) ≡ true
unfolding contains
contains_tail x y xs h = elim (Bool-cases (bytes_eq y x)) [
  | inl same ↦ rw same
  | inr other ↦ rw (other, h)
]

contains_parts :
    (x y : Bytes) (xs : List Bytes) → contains x (y ∷ xs) ≡ true → (y ≡ x) ⊎ (contains x xs ≡ true)
unfolding contains
contains_parts x y xs h = elim (Bool-cases (bytes_eq y x)) [
  | inl same ↦ inl (bytes_eq_sound y x same)
  | inr other ↦ inr (rw other at h)
]

contains_nothing : (x : Bytes) → contains x [] ≡ false
unfolding contains
contains_nothing x = refl

-- After the additions a set holds what it held and what was added.
updated-contains_from :
    (x : Bytes) (set xs : List Bytes)
    → contains x (updated set xs) ≡ true
    → (contains x set ≡ true) ⊎ (contains x xs ≡ true)
updated-contains_from x set [] h = inl h
updated-contains_from x set (y ∷ xs) h = elim (updated-contains_from x (add y set) xs h) [
  | inl l ↦ elim (contains-add x y set l) [
    | inl same ↦ inr (subst (λ z. contains x (z ∷ xs) ≡ true) (sym same) (contains_head x xs))
    | inr old ↦ inl old
  ]
  | inr r ↦ inr (contains_tail x y xs r)
]

updated-contains_kept :
    (x : Bytes) (set xs : List Bytes) → contains x set ≡ true → contains x (updated set xs) ≡ true
updated-contains_kept x set [] h = h
updated-contains_kept x set (y ∷ xs) h =
    updated-contains_kept x (add y set) xs (contains-add_keep x y set h)

updated-contains_new :
    (x : Bytes) (set xs : List Bytes) → contains x xs ≡ true → contains x (updated set xs) ≡ true
updated-contains_new x set [] h = absurd (let k = contains_nothing x in cc)
updated-contains_new x set (y ∷ xs) h = elim (contains_parts x y xs h) [
  | inl same ↦
      updated-contains_kept x (add y set) xs
        (subst (λ z. contains z (add y set) ≡ true) same (contains-add_self y set))
  | inr later ↦ updated-contains_new x (add y set) xs later
]

pub difference-nil :
    (xs ys : List Bytes) → (difference xs ys ≡ []) ↔ All (λ x. contains x ys ≡ true) xs
difference-nil [] ys = (λ h. tt, λ h. refl)
difference-nil (x ∷ xs) ys =
    let (from, to) = difference-nil xs ys in
    elim (Bool-cases (contains x ys)) [
      | inl inside ↦ (λ h. (inside, from (rw inside at h)), λ h. rw inside (to h.1))
      | inr outside ↦ (λ h. absurd (let g = rw outside at h in cc), λ h. absurd (let k = h.0 in cc))
    ]

module _ {F : Type 0} (decimals : Decimals F) where
  -- A protected round trip of the symbol.
  abbrev pub IsTripOf : Bytes → Trade F → Type 0
  IsTripOf symbol t = (is_protected_flat decimals t ≡ true) × (t.symbol ≡ symbol)

  -- A protected round trip that ended for the reason.
  abbrev pub IsExitBy : Bytes → Trade F → Type 0
  IsExitBy reason t =
      (is_protected_flat decimals t ≡ true) × (contains reason (required_exits t) ≡ true)

  seen-symbol :
      (x : Bytes) (t : Trade F) (s : Totals)
      → (contains x (seen decimals t s).protected_symbols ≡ true)
        ↔ (IsTripOf x t ⊎ (contains x s.protected_symbols ≡ true))
  unfolding seen
  seen-symbol x t s = elim (Bool-cases (is_protected_flat decimals t)) [
    | inl flat ↦ (
      λ h. elim (contains-add x t.symbol s.protected_symbols (rw flat at h)) [
        | inl same ↦ inl (flat, same)
        | inr old ↦ inr old
      ],
      λ h. elim h [
        | inl (_, same) ↦ rw flat (
            subst (λ z. contains z (add t.symbol s.protected_symbols) ≡ true) same
              (contains-add_self t.symbol s.protected_symbols))
        | inr old ↦ rw flat (contains-add_keep x t.symbol s.protected_symbols old)
      ],
    )
    | inr other ↦ (
      λ h. inr (rw other at h),
      λ h. elim h [ inl (flat, _) ↦ absurd cc | inr old ↦ rw other old ],
    )
  ]

  seen-reason :
      (x : Bytes) (t : Trade F) (s : Totals)
      → (contains x (seen decimals t s).observed_exit_reasons ≡ true)
        ↔ (IsExitBy x t ⊎ (contains x s.observed_exit_reasons ≡ true))
  unfolding seen
  seen-reason x t s = elim (Bool-cases (is_protected_flat decimals t)) [
    | inl flat ↦ (
      λ h.
          elim (updated-contains_from x s.observed_exit_reasons (required_exits t) (rw flat at h)) [
            | inl old ↦ inr old
            | inr now ↦ inl (flat, now)
          ],
      λ h. elim h [
        | inl (_, now) ↦
            rw flat (updated-contains_new x s.observed_exit_reasons (required_exits t) now)
        | inr old ↦ rw flat (updated-contains_kept x s.observed_exit_reasons (required_exits t) old)
      ],
    )
    | inr other ↦ (
      λ h. inr (rw other at h),
      λ h. elim h [ inl (flat, _) ↦ absurd cc | inr old ↦ rw other old ],
    )
  ]

  pub tally-symbol :
      (x : Bytes) (ts : List (Trade F)) (s : Totals)
      → (contains x (tally decimals ts s).protected_symbols ≡ true)
        ↔ (Exists (IsTripOf x) ts ⊎ (contains x s.protected_symbols ≡ true))
  unfolding tally
  tally-symbol x [] s = (λ h. inr h, λ h. elim h [ inl never ↦ absurd never | inr old ↦ old ])
  tally-symbol x (t ∷ ts) s =
      let (from, to) = tally-symbol x ts (seen decimals t s) in
      let (now_from, now_to) = seen-symbol x t s in
      (
        λ h. elim (from h) [
          | inl later ↦ inl (inr later)
          | inr now ↦ elim (now_from now) [ inl here ↦ inl (inl here) | inr old ↦ inr old ]
        ],
        λ h. elim h [
          | inl (inl here) ↦ to (inr (now_to (inl here)))
          | inl (inr later) ↦ to (inl later)
          | inr old ↦ to (inr (now_to (inr old)))
        ],
      )

  pub tally-reason :
      (x : Bytes) (ts : List (Trade F)) (s : Totals)
      → (contains x (tally decimals ts s).observed_exit_reasons ≡ true)
        ↔ (Exists (IsExitBy x) ts ⊎ (contains x s.observed_exit_reasons ≡ true))
  unfolding tally
  tally-reason x [] s = (λ h. inr h, λ h. elim h [ inl never ↦ absurd never | inr old ↦ old ])
  tally-reason x (t ∷ ts) s =
      let (from, to) = tally-reason x ts (seen decimals t s) in
      let (now_from, now_to) = seen-reason x t s in
      (
        λ h. elim (from h) [
          | inl later ↦ inl (inr later)
          | inr now ↦ elim (now_from now) [ inl here ↦ inl (inl here) | inr old ↦ inr old ]
        ],
        λ h. elim h [
          | inl (inl here) ↦ to (inr (now_to (inl here)))
          | inl (inr later) ↦ to (inl later)
          | inr old ↦ to (inr (now_to (inr old)))
        ],
      )
