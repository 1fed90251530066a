-- ===== src/Base/Json.antt =====
-- A value that Python's `json.loads` returns, over a type of floats.
use kairos_deploy.Base.Tests.{◌==◌}
use kairos_deploy.Base.Lists.{length, all}
use kairos_deploy.Base.Bytes.{Bytes}
use kairos_deploy.Base.Dict.{Dict, lookup}
use Prim.Native.Nat.{ℕ}
use mathlib.Core.Bool.{Bool, true, false, ◌&&◌}
use mathlib.Core.Option.{none, some}
use mathlib.Core.List.{List, [], ◌∷◌}

-- `negative n` is -(n + 1).
mutual
  pub data Json (F : Type 0) : Type 0 where
    null : Json F
    bool : Bool → Json F
    number negative : ℕ → Json F
    decimal : F → Json F
    text : Bytes → Json F
    array : Items F → Json F
    object : Fields F → Json F

  pub data Items (F : Type 0) : Type 0 where
    nil : Items F
    cons : Json F → Items F → Items F

  pub data Fields (F : Type 0) : Type 0 where
    end : Fields F
    field : Bytes → Json F → Fields F → Fields F

abbrev pub items : {F : Type 0} → Items F → List (Json F)
items nil = []
items (cons x xs) = x ∷ items xs

abbrev pub fields : {F : Type 0} → Fields F → Dict (Json F)
fields end = []
fields (field k x xs) = (k, x) ∷ fields xs

abbrev pub from_items : {F : Type 0} → List (Json F) → Items F
from_items [] = nil
from_items (x ∷ xs) = cons x (from_items xs)

abbrev pub from_fields : {F : Type 0} → Dict (Json F) → Fields F
from_fields [] = end
from_fields (e ∷ d) = field e.0 e.1 (from_fields d)

abbrev pub has_key {ℓ} : {V : Type ℓ} → Dict V → Bytes → Bool
has_key d key = elim (lookup key d) [ none ↦ false | some value ↦ true ]

-- `set(d) == expected`, where the keys of `d` differ and so do the expected ones.
unfoldable pub has_exact_keys {ℓ} : {V : Type ℓ} → List Bytes → Dict V → Bool
has_exact_keys expected d = length d == length expected && all (has_key d) expected
