-- ===== src/Base/Count.antt =====
-- How many items of a list pass a test.
use kairos_deploy.Base.{ℕ, ◌+◌, Bool, true, false, List, [], ◌∷◌}

abbrev pub one_if : Bool → ℕ
one_if true = 1
one_if false = 0

abbrev pub count {ℓ} : {A : Type ℓ} → (A → Bool) → List A → ℕ
count test [] = 0
count test (x ∷ xs) = one_if (test x) + count test xs
