-- ===== src/Dict.antt =====
-- The JavaScript `Map` that the in-memory stores are built on: entries in the order in which
-- their keys were first inserted. `set` keeps the place of a key that is there already.
pub mod Laws
pub mod Listed
use cqut_auth.Base.{
  Option, none, some, Bool, true, false, List, [], ◌∷◌, map, if◌then◌else◌, Eq, ◌==◌, ◌≡◌, All,
}

abbrev pub Dict {ℓ κ} : Type ℓ → Type κ → Type (ℓ ⊔ κ)
Dict K V = List (K × V)

module _ {ℓ κ} {K : Type ℓ} {V : Type κ} where
  -- map.values()
  abbrev pub values : Dict K V → List V
  values = map (λ e. e.1)

  module _ ⦃e : Eq K⦄ where
    -- map.get(k), with `none` for undefined
    unfoldable pub get : K → Dict K V → Option V
    get k [] = none
    get k ((j, v) ∷ m) = if j == k then some v else get k m

    -- map.set(k, v)
    unfoldable pub set : K → V → Dict K V → Dict K V
    set k v [] = (k, v) ∷ []
    set k v ((j, w) ∷ m) = if j == k then (j, v) ∷ m else (j, w) ∷ set k v m

    -- map.delete(k)
    unfoldable pub delete : K → Dict K V → Dict K V
    delete k [] = []
    delete k ((j, w) ∷ m) = let rest = delete k m in if j == k then rest else (j, w) ∷ rest

    -- map.has(k)
    unfoldable pub has : K → Dict K V → Bool
    has k m = elim (get k m) [ none ↦ false | some _ ↦ true ]

    -- No key stands twice, which a `Map` guarantees.
    abbrev pub Lacks : K → Dict K V → Type ℓ
    Lacks k m = All (λ e. e.0 ≡ k → ⊥) m

    abbrev pub IsMap : Dict K V → Type ℓ
    IsMap [] = Unit
    IsMap ((k, v) ∷ m) = Lacks k m × IsMap m
