-- ===== src/Base/Sets.antt =====
-- A Python set as a list without repetition, over a type with a Boolean equality.
use kairos_deploy.Base.Tests.{if◌then◌else◌, Bool-cases, &&_true}
use kairos_deploy.Base.Bytes.{Bytes, bytes_eq, bytes_eq_sound, bytes_eq_refl}
use mathlib.Core.Path.{◌≡◌}
use mathlib.Core.Logic.{◌≢◌, ◌⊎◌, inl, inr}
use mathlib.Core.Bool.{Bool, true, false, ◌&&◌}
use mathlib.Core.List.{List, [], ◌∷◌, ◌++◌}
use native.Mathlib.Omega.{arith}

pub record Eq {ℓ} (A : Type ℓ) : Type ℓ where
  pub beq : A → A → Bool
  pub beq_sound : (a b : A) → beq a b ≡ true → a ≡ b
  pub beq_refl : (a : A) → beq a a ≡ true

instance abbrev pub bytes_eq_instance : Eq Bytes
bytes_eq_instance = record { beq = bytes_eq; beq_sound = bytes_eq_sound; beq_refl = bytes_eq_refl }

abbrev pub Two : Type 0
Two = Bytes × Bytes

abbrev pub two_beq : Two → Two → Bool
two_beq a b = bytes_eq a.0 b.0 && bytes_eq a.1 b.1

pub two_beq_sound : (a b : Two) → two_beq a b ≡ true → a ≡ b
two_beq_sound a b h =
    let (l, r) = &&_true (bytes_eq a.0 b.0) (bytes_eq a.1 b.1) h in
    ground (arith, bytes_eq_sound a.0 b.0 l, bytes_eq_sound a.1 b.1 r)

pub two_beq_refl : (a : Two) → two_beq a a ≡ true
two_beq_refl a = rw (bytes_eq_refl a.0, bytes_eq_refl a.1)

instance abbrev pub two_eq_instance : Eq (Bytes × Bytes)
two_eq_instance = record { beq = two_beq; beq_sound = two_beq_sound; beq_refl = two_beq_refl }

-- There is an element of the list with `P`.
abbrev pub Exists {ℓ} : {A : Type ℓ} → (A → Type 0) → List A → Type 0
Exists P [] = ⊥
Exists P (x ∷ xs) = P x ⊎ Exists P xs

module _ {ℓ} {A : Type ℓ} (P : A → Type 0) where
  pub Exists-append_left : (xs ys : List A) → Exists P xs → Exists P (xs ++ ys)
  Exists-append_left [] ys h = absurd h
  Exists-append_left (x ∷ xs) ys (inl h) = inl h
  Exists-append_left (x ∷ xs) ys (inr h) = inr (Exists-append_left xs ys h)

  pub Exists-append_right : (xs ys : List A) → Exists P ys → Exists P (xs ++ ys)
  Exists-append_right [] ys h = h
  Exists-append_right (x ∷ xs) ys h = inr (Exists-append_right xs ys h)

module _ {ℓ} {A : Type ℓ} ⦃e : Eq A⦄ where
  -- `a in s`
  unfoldable pub contains : A → List A → Bool
  contains a [] = false
  contains a (x ∷ xs) = if e.beq x a then true else contains a xs

  -- `s.add(a)`
  unfoldable pub add : A → List A → List A
  unfolding contains
  add a s = if contains a s then s else a ∷ s

  pub contains-add_self : (a : A) (s : List A) → contains a (add a s) ≡ true
  unfolding contains add
  contains-add_self a s = elim (Bool-cases (contains a s)) [
    | inl old ↦ rw (old, old)
    | inr new ↦ rw (new, e.beq_refl a)
  ]

  -- What a set holds after an addition was there, or is what was added.
  pub contains-add :
      (b a : A) (s : List A) → contains b (add a s) ≡ true → (a ≡ b) ⊎ (contains b s ≡ true)
  unfolding contains add
  contains-add b a s h = elim (Bool-cases (contains a s)) [
    | inl old ↦ inr (rw old at h)
    | inr new ↦ elim (Bool-cases (e.beq a b)) [
      | inl same ↦ inl (e.beq_sound a b same)
      | inr other ↦ inr (rw other at (rw new at h))
    ]
  ]

  pub contains-add_keep : (b a : A) (s : List A) → contains b s ≡ true → contains b (add a s) ≡ true
  unfolding contains add
  contains-add_keep b a s h = elim (Bool-cases (contains a s)) [
    | inl old ↦ rw (old, h)
    | inr new ↦ elim (Bool-cases (e.beq a b)) [
      | inl same ↦ rw (new, same)
      | inr other ↦ rw (new, other, h)
    ]
  ]

pub add-ne-nil : (a : Bytes) (xs : List Bytes) → add a xs ≢ []
unfolding add contains
add-ne-nil a [] h = cc
add-ne-nil a (x ∷ xs) h = elim (Bool-cases (contains a (x ∷ xs))) [
  | inl old ↦ let h1 = rw old at h in cc
  | inr new ↦ let h1 = rw new at h in cc
]

-- Every element of the list has `P`.
abbrev pub All {ℓ} : {A : Type ℓ} → (A → Type 0) → List A → Type 0
All P [] = Unit
All P (x ∷ xs) = P x × All P xs
