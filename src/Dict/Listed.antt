-- ===== src/Dict/Listed.antt =====
-- Which keys the records of a list have, where every record of a dictionary stands under its
-- own key: for loops over the values that a test has picked.
use cqut_auth.Base.{
  ℕ, zero, suc, Bool, true, false, some, List, [], ◌∷◌, ◌≡◌, refl, arith, Eq, ◌==◌, ◌||◌, All,
  filter, Bool-cases, inl, inr, drop, find, sort_desc, insert_desc, ltb,
}
use cqut_auth.Dict.{Dict, values, get, Lacks, IsMap}
use cqut_auth.Dict.Laws.{get_of_Lacks}

module _ {ℓ κ} {K : Type ℓ} {V : Type κ} ⦃e : Eq K⦄ (key : V → K) where
  -- A record with that key is in the list.
  abbrev pub listed : K → List V → Bool
  listed id [] = false
  listed id (r ∷ rs) = key r == id || listed id rs

  abbrev pub Keyed : Dict K V → Type ℓ
  Keyed = All (λ e. key e.1 ≡ e.0)

  pub listed_of_get :
      (p : V → Bool) (id : K) (r : V) (m : Dict K V)
      → Keyed m
      → get id m ≡ some r
      → p r ≡ true
      → listed id (filter p (values m)) ≡ true
  unfolding get
  listed_of_get p id r [] k found h = cc
  listed_of_get p id r ((j, x) ∷ m) (q, k) found h = elim (Bool-cases (j == id)) [
    | inl same ↦ ground (arith, same, q, e.agrees j id, e.agrees (key x) id)
    | inr other ↦ ground (arith, listed_of_get p id r m k (rw (other, get) at found) h)
  ]

  unlisted_of_Lacks :
      (p : V → Bool) (id : K) (m : Dict K V)
      → Keyed m
      → Lacks id m
      → listed id (filter p (values m)) ≡ false
  unlisted_of_Lacks p id [] k l = refl
  unlisted_of_Lacks p id ((j, x) ∷ m) (q, k) (l, ls) =
      ground (arith, q, l, unlisted_of_Lacks p id m k ls, e.agrees (key x) id)

  pub unlisted_of_get :
      (p : V → Bool) (id : K) (r : V) (m : Dict K V)
      → IsMap m
      → Keyed m
      → get id m ≡ some r
      → p r ≡ false
      → listed id (filter p (values m)) ≡ false
  unfolding get
  unlisted_of_get p id r [] u k found h = cc
  unlisted_of_get p id r ((j, x) ∷ m) (l, u) (q, k) found h = elim (Bool-cases (j == id)) [
    | inl same ↦
        let at_id : j ≡ id = (e.agrees j id).0 same in
        ground (arith, same, unlisted_of_Lacks p id m k (rw at_id at l))
    | inr other ↦ ground (
      arith,
      q,
      e.agrees j id,
      e.agrees (key x) id,
      unlisted_of_get p id r m u k (rw (other, get) at found) h,
    )
  ]

  unlisted-drop : (n : ℕ) (id : K) (l : List V) → listed id l ≡ false → listed id (drop n l) ≡ false
  unlisted-drop zero id l h = h
  unlisted-drop (suc n) id [] h = refl
  unlisted-drop (suc n) id (x ∷ l) h = unlisted-drop n id l (ground arith)

  listed-insert_desc :
      (f : V → ℕ) (id : K) (x : V) (l : List V)
      → listed id (insert_desc f x l) ≡ (key x == id || listed id l)
  listed-insert_desc f id x [] = refl
  listed-insert_desc f id x (y ∷ l) = elim (Bool-cases (ltb (f x) (f y))) [
    | inl less ↦ rw less (ground (arith, listed-insert_desc f id x l))
    | inr more ↦ rw more
  ]

  listed-sort_desc : (f : V → ℕ) (id : K) (l : List V) → listed id (sort_desc f l) ≡ listed id l
  listed-sort_desc f id [] = refl
  listed-sort_desc f id (x ∷ l) =
      ground (arith, listed-insert_desc f id x (sort_desc f l), listed-sort_desc f id l)

  pub unlisted-drop-sort_desc :
      (f : V → ℕ) (n : ℕ) (id : K) (l : List V)
      → listed id l ≡ false
      → listed id (drop n (sort_desc f l)) ≡ false
  unlisted-drop-sort_desc f n id l h = unlisted-drop n id (sort_desc f l) (rw listed-sort_desc h)

  -- What a search over the values finds stands under its own key.
  pub get_of_find :
      (p : V → Bool) (m : Dict K V) (y : V)
      → IsMap m
      → Keyed m
      → find p (values m) ≡ some y
      → (get (key y) m ≡ some y) × (p y ≡ true)
  unfolding get
  get_of_find p [] y u k found = cc
  get_of_find p ((j, x) ∷ m) y (l, u) (q, k) found = elim (Bool-cases (p x)) [
    | inl hit ↦
        let same : x ≡ y = ground arith in
        (ground (arith, q, same, e.agrees j (key y)), rw (← same) hit)
    | inr miss ↦
        let (later, h) = get_of_find p m y u k (rw miss at found) in
        (ground (arith, later, e.agrees j (key y), get_of_Lacks j m l), h)
  ]
