-- ===== src/Dict/Laws.antt =====
-- The laws of the `Map` operations, and how they change a count over the values.
use cqut_auth.Base.{
  find, All-filter, filter, true, Option-cases, length, ◌≤◌, ◌≤◌, ◌+◌, none, some, Bool, [], ◌∷◌,
  if◌then◌else◌, Eq, ◌==◌, ◌≡◌, refl, All, weight, count, arith, Bool-cases, inl, inr, ◌≢◌,
}
use cqut_auth.Dict.{Dict, values, get, set, delete, Lacks, IsMap}

module _ {ℓ κ} {K : Type ℓ} {V : Type κ} ⦃e : Eq K⦄ where
  pub get-set :
      (k j : K) (v : V) (m : Dict K V) → get j (set k v m) ≡ (if k == j then some v else get j m)
  unfolding get set
  get-set k j v [] = refl
  get-set k j v ((i, w) ∷ m) =
      ground (arith, e.agrees k j, e.agrees i k, e.agrees i j, get-set k j v m)

  pub get-set_self : (k : K) (v : V) (m : Dict K V) → get k (set k v m) ≡ some v
  get-set_self k v m = ground (arith, get-set k k v m, e.agrees k k)

  pub get-set_ne : (k j : K) (v : V) (m : Dict K V) → k ≢ j → get j (set k v m) ≡ get j m
  get-set_ne k j v m h = ground (arith, get-set k j v m, e.agrees k j)

  pub get-delete :
      (k j : K) (m : Dict K V) → get j (delete k m) ≡ (if k == j then none else get j m)
  unfolding get delete
  get-delete k j [] = ground arith
  get-delete k j ((i, w) ∷ m) =
      ground (arith, e.agrees k j, e.agrees i k, e.agrees i j, get-delete k j m)

  -- A predicate on the entries that holds of the new one and of all old ones holds of all.
  pub set-All {ι} :
      (P : K × V → Type ι) (k : K) (v : V) (m : Dict K V) → P (k, v) → All P m → All P (set k v m)
  unfolding set
  set-All P k v [] p h = (p, tt)
  set-All P k v ((j, w) ∷ m) p (q, h) = elim (Bool-cases (j == k)) [
    | inl same ↦ rw same (rw ((e.agrees j k).0 same) p, h)
    | inr other ↦ rw other (q, set-All P k v m p h)
  ]

  pub delete-All {ι} : (P : K × V → Type ι) (k : K) (m : Dict K V) → All P m → All P (delete k m)
  unfolding delete
  delete-All P k [] h = tt
  delete-All P k ((j, w) ∷ m) (q, h) = elim (Bool-cases (j == k)) [
    | inl same ↦ rw same (delete-All P k m h)
    | inr other ↦ rw other (q, delete-All P k m h)
  ]

  -- What holds of every entry holds of one that is found.
  pub get-All {ι} :
      (P : K × V → Type ι) (k : K) (v : V) (m : Dict K V) → All P m → get k m ≡ some v → P (k, v)
  unfolding get
  get-All P k v [] h found = cc
  get-All P k v ((j, w) ∷ m) (q, h) found = elim (Bool-cases (j == k)) [
    | inl same ↦ ground (arith, (e.agrees j k).0 same)
    | inr other ↦ get-All P k v m h (rw (other, get) at found)
  ]

  pub set-IsMap : (k : K) (v : V) (m : Dict K V) → IsMap m → IsMap (set k v m)
  unfolding set
  set-IsMap k v [] h = (tt, tt)
  set-IsMap k v ((j, w) ∷ m) (l, h) = elim (Bool-cases (j == k)) [
    | inl same ↦ rw same (l, h)
    | inr other ↦
        rw other (
          set-All (λ e. e.0 ≡ j → ⊥) k v m (λ q. ground (arith, e.agrees j k)) l,
          set-IsMap k v m h,
        )
  ]

  pub delete-IsMap : (k : K) (m : Dict K V) → IsMap m → IsMap (delete k m)
  unfolding delete
  delete-IsMap k [] h = tt
  delete-IsMap k ((j, w) ∷ m) (l, h) = elim (Bool-cases (j == k)) [
    | inl same ↦ rw same (delete-IsMap k m h)
    | inr other ↦ rw other (delete-All (λ e. e.0 ≡ j → ⊥) k m l, delete-IsMap k m h)
  ]

  pub delete_of_Lacks : (k : K) (m : Dict K V) → Lacks k m → delete k m ≡ m
  unfolding delete
  delete_of_Lacks k [] h = refl
  delete_of_Lacks k ((j, w) ∷ m) (q, h) = ground (arith, e.agrees j k, q, delete_of_Lacks k m h)

  -- Replacing a value moves a count by the weights of the old value and of the new one.
  pub count-set_old :
      (p : V → Bool) (k : K) (v w : V) (m : Dict K V)
      → get k m ≡ some w
      → count p (values (set k v m)) + weight (p w) ≡ count p (values m) + weight (p v)
  unfolding get set
  count-set_old p k v w [] found = cc
  count-set_old p k v w ((j, u) ∷ m) found = elim (Bool-cases (j == k)) [
    | inl same ↦ ground (arith, same)
    | inr other ↦ rw other (omega (arith, count-set_old p k v w m (rw (other, get) at found)))
  ]

  pub count-set_new :
      (p : V → Bool) (k : K) (v : V) (m : Dict K V)
      → get k m ≡ none
      → count p (values (set k v m)) ≡ count p (values m) + weight (p v)
  unfolding get set
  count-set_new p k v [] found = omega arith
  count-set_new p k v ((j, u) ∷ m) found = elim (Bool-cases (j == k)) [
    | inl same ↦ absurd (ground (arith, same))
    | inr other ↦ rw other (omega (arith, count-set_new p k v m (rw (other, get) at found)))
  ]

  -- Putting one entry in raises a count by one at most.
  pub count-set-le :
      (p : V → Bool) (k : K) (v : V) (m : Dict K V)
      → count p (values (set k v m)) ≤ count p (values m) + 1
  count-set-le p k v m = elim (Option-cases (get k m)) [
    | inl new ↦ ground (arith, count-set_new p k v m new)
    | inr (w, old) ↦ ground (arith, count-set_old p k v w m old)
  ]

  pub count-delete :
      (p : V → Bool) (k : K) (w : V) (m : Dict K V)
      → IsMap m
      → get k m ≡ some w
      → count p (values (delete k m)) + weight (p w) ≡ count p (values m)
  unfolding get delete
  count-delete p k w [] u found = cc
  count-delete p k w ((j, v) ∷ m) (l, u) found = elim (Bool-cases (j == k)) [
    | inl same ↦ rw same (ground (arith, delete_of_Lacks k m (rw ((e.agrees j k).0 same) at l)))
    | inr other ↦ rw other (omega (arith, count-delete p k w m u (rw (other, get) at found)))
  ]

  pub weight-le-count :
      (p : V → Bool) (k : K) (w : V) (m : Dict K V)
      → get k m ≡ some w
      → weight (p w) ≤ count p (values m)
  unfolding get
  weight-le-count p k w [] found = cc
  weight-le-count p k w ((j, v) ∷ m) found = elim (Bool-cases (j == k)) [
    | inl same ↦ ground (arith, same)
    | inr other ↦ omega (arith, weight-le-count p k w m (rw (other, get) at found))
  ]

  pub count-delete-le :
      (p : V → Bool) (k : K) (m : Dict K V) → count p (values (delete k m)) ≤ count p (values m)
  unfolding delete
  count-delete-le p k [] = omega arith
  count-delete-le p k ((j, w) ∷ m) = elim (Bool-cases (j == k)) [
    | inl same ↦ rw same (omega (arith, count-delete-le p k m))
    | inr other ↦ rw other (omega (arith, count-delete-le p k m))
  ]

  pub get_of_Lacks : (k : K) (m : Dict K V) → Lacks k m → get k m ≡ none
  unfolding get
  get_of_Lacks k [] h = refl
  get_of_Lacks k ((j, w) ∷ m) (q, h) = ground (arith, e.agrees j k, q, get_of_Lacks k m h)

  pub length-set-le : (k : K) (v : V) (m : Dict K V) → length (set k v m) ≤ length m + 1
  unfolding set
  length-set-le k v [] = omega arith
  length-set-le k v ((j, w) ∷ m) = ground (arith, length-set-le k v m)

  pub length-delete-le : (k : K) (m : Dict K V) → length (delete k m) ≤ length m
  unfolding delete
  length-delete-le k [] = omega arith
  length-delete-le k ((j, w) ∷ m) = ground (arith, length-delete-le k m)

  -- An entry that is found and passes a test is found among those that pass it.
  pub get-filter :
      (p : K × V → Bool) (k : K) (v : V) (m : Dict K V)
      → get k m ≡ some v
      → p (k, v) ≡ true
      → get k (filter p m) ≡ some v
  unfolding get
  get-filter p k v [] found h = cc
  get-filter p k v ((j, w) ∷ m) found h = elim (Bool-cases (j == k)) [
    | inl same ↦
        let key : j ≡ k = (e.agrees j k).0 same in
        let value : w ≡ v = ground (arith, found, same) in
        let passes : p (j, w) ≡ true = rw (key, value) h in rw passes (ground (arith, found, same))
    | inr other ↦ elim (Bool-cases (p (j, w))) [
      | inl kept ↦ rw (kept, get, other) (get-filter p k v m (rw (other, get) at found) h)
      | inr gone ↦ rw gone (get-filter p k v m (rw (other, get) at found) h)
    ]
  ]

  away {ι} :
      (P : K × V → Type ι) (k : K) (m : Dict K V)
      → Lacks k m
      → All (λ e. (e.0 ≡ k → ⊥) → P e) m
      → All P m
  away P k [] l h = tt
  away P k (x ∷ m) (l, ls) (q, h) = (q l, away P k m ls h)

  -- In a map, a predicate that the new entry has and the others had before holds of all.
  pub set-All_new {ι} :
      (P : K × V → Type ι) (k : K) (v : V) (m : Dict K V)
      → IsMap m
      → P (k, v)
      → All (λ e. (e.0 ≡ k → ⊥) → P e) m
      → All P (set k v m)
  unfolding set
  set-All_new P k v [] u p h = (p, tt)
  set-All_new P k v ((j, w) ∷ m) (l, u) p (q, h) = elim (Bool-cases (j == k)) [
    | inl same ↦
        let key : j ≡ k = (e.agrees j k).0 same in rw same (rw key p, away P k m (rw key at l) h)
    | inr other ↦
        rw other (q (λ b. ground (arith, b, other, e.agrees j k)), set-All_new P k v m u p h)
  ]

  pub filter-IsMap : (p : K × V → Bool) (m : Dict K V) → IsMap m → IsMap (filter p m)
  filter-IsMap p [] u = tt
  filter-IsMap p ((k, v) ∷ m) (l, u) = elim (Bool-cases (p (k, v))) [
    | inl kept ↦ rw kept (All-filter (λ e. e.0 ≡ k → ⊥) p m l, filter-IsMap p m u)
    | inr gone ↦ rw gone (filter-IsMap p m u)
  ]

  -- A value that a search of the values finds stands under a key, and passes the test.
  pub find-values :
      (p : V → Bool) (m : Dict K V) (v : V)
      → IsMap m
      → find p (values m) ≡ some v
      → (k : K) × (get k m ≡ some v) × (p v ≡ true)
  unfolding get
  find-values p [] v u found = cc
  find-values p ((j, w) ∷ m) v (l, u) found = elim (Bool-cases (p w)) [
    | inl good ↦ (j, ground (arith, good, found, e.agrees j j), ground (arith, good, found))
    | inr bad ↦
        let (k, is, good) = find-values p m v u (rw bad at found) in
        (k, ground (arith, is, e.agrees j k, get_of_Lacks j m l), good)
  ]

  -- What stands under a key among the entries that pass a test stood there before.
  pub filter-get :
      (p : K × V → Bool) (k : K) (v : V) (m : Dict K V)
      → IsMap m
      → get k (filter p m) ≡ some v
      → get k m ≡ some v
  unfolding get
  filter-get p k v [] u found = found
  filter-get p k v ((j, w) ∷ m) (l, u) found = elim (Bool-cases (p (j, w))) [
    | inl kept ↦ elim (Bool-cases (j == k)) [
      | inl same ↦ ground (arith, same, rw (kept, get, same) at found)
      | inr other ↦ ground (arith, other, filter-get p k v m u (rw (kept, get, other) at found))
    ]
    | inr gone ↦
        let there = filter-get p k v m u (rw gone at found) in
        ground (arith, there, e.agrees j k, get_of_Lacks j m l)
  ]
