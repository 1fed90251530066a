-- ===== src/Base/Dict.antt =====
-- A Python dict with byte strings as keys, in insertion order.
use kairos_deploy.Base.Tests.{if◌then◌else◌, Bool-cases}
use kairos_deploy.Base.Lists.{length}
use kairos_deploy.Base.Bytes.{Bytes, bytes_eq, bytes_eq_sound}
use mathlib.Core.Path.{◌≡◌, refl}
use mathlib.Core.Logic.{inl, inr}
use mathlib.Core.Bool.{true, false}
use mathlib.Core.Option.{Option, none, some}
use mathlib.Core.List.{List, [], ◌∷◌, ◌++◌}
use native.Mathlib.Omega.{arith}

abbrev pub Dict {ℓ} : Type ℓ → Type ℓ
Dict V = List (Bytes × V)

-- A key that is equal to one of two different keys differs from the other.
bytes_eq-apart : (a k j : Bytes) → bytes_eq a j ≡ true → bytes_eq a k ≡ false → bytes_eq k j ≡ false
bytes_eq-apart a k j found other = elim (Bool-cases (bytes_eq k j)) [
  | inr apart ↦ apart
  | inl same ↦ let k_is_j : k ≡ j = bytes_eq_sound k j same in cc k_is_j
]

module _ {ℓ} {V : Type ℓ} where
  -- `d.get(k)`
  unfoldable pub lookup : Bytes → Dict V → Option V
  lookup k [] = none
  lookup k (e ∷ d) = if bytes_eq e.0 k then some e.1 else lookup k d

  -- `d[k] = v`
  unfoldable pub insert : Bytes → V → Dict V → Dict V
  insert k v [] = (k, v) ∷ []
  insert k v (e ∷ d) = if bytes_eq e.0 k then (k, v) ∷ d else e ∷ insert k v d

  -- `list(d)`
  abbrev pub keys : Dict V → List Bytes
  keys [] = []
  keys (e ∷ d) = e.0 ∷ keys d

  -- A write under a new key appends its entry.
  pub insert_new :
      (k : Bytes) (v : V) (d : Dict V) → lookup k d ≡ none → insert k v d ≡ d ++ (k, v) ∷ []
  unfolding lookup insert
  insert_new k v [] h = refl
  insert_new k v (e ∷ d) h = elim (Bool-cases (bytes_eq e.0 k)) [
    | inl same ↦ cc (rw same at h)
    | inr other ↦ rw other (rw (insert_new k v d (rw other at h)) refl)
  ]

  -- A write of the value that is there already changes nothing.
  pub insert_same : (k : Bytes) (v : V) (d : Dict V) → lookup k d ≡ some v → insert k v d ≡ d
  unfolding lookup insert
  insert_same k v [] h = cc
  insert_same k v (e ∷ d) h = elim (Bool-cases (bytes_eq e.0 k)) [
    | inl same ↦ rw same (ground (arith, rw same at h, bytes_eq_sound e.0 k same))
    | inr other ↦ rw other (rw (insert_same k v d (rw other at h)) refl)
  ]

  pub keys-append : (c d : Dict V) → keys (c ++ d) ≡ keys c ++ keys d
  keys-append [] d = refl
  keys-append (e ∷ c) d = rw (keys-append c d)

  pub length-keys : (d : Dict V) → length (keys d) ≡ length d
  length-keys [] = refl
  length-keys (e ∷ d) = rw (length-keys d)

  pub lookup-insert :
      (k j : Bytes) (v : V) (d : Dict V)
      → lookup j (insert k v d) ≡ (if bytes_eq k j then some v else lookup j d)
  unfolding lookup insert
  lookup-insert k j v [] = refl
  lookup-insert k j v (e ∷ d) = elim (Bool-cases (bytes_eq e.0 k)) [
    | inl same ↦ rw (same, bytes_eq_sound e.0 k same) (ground arith)
    | inr other ↦ elim (Bool-cases (bytes_eq e.0 j)) [
      | inl found ↦
          let apart : bytes_eq k j ≡ false = bytes_eq-apart e.0 k j found other in
          rw (other, found) (rw apart refl)
      | inr not_found ↦ rw (other, not_found) (lookup-insert k j v d)
    ]
  ]

-- No key stands twice.
abbrev pub HasDistinctKeys : {V : Type 0} → Dict V → Type 0
HasDistinctKeys [] = Unit
HasDistinctKeys (e ∷ d) = (lookup e.0 d ≡ none) × HasDistinctKeys d
