-- ===== src/Artifacts/Replay.antt =====
-- An artifact that was consumed is not consumed again: the replay of a code or a refresh token.
use cqut_auth.Base.{
  subst, ℕ, String, true, false, Option, none, some, List, [], ◌∷◌, ◌≡◌, refl, ◌≢◌, All,
  Option-cases, inl, inr, arith, string_eq, ap,
}
use cqut_auth.Dict
use cqut_auth.Dict.{Dict, IsMap}
use cqut_auth.Dict.Laws.{set-All_new, get-All}
use cqut_auth.Artifacts.{
  ◌∷◌, ArtifactRecord, ArtifactStore, ClientAuthorizationState, OpportunisticCleanupOptions,
  consume_artifact,
}
use cqut_auth.Artifacts.Gate.{Call, IsKeyed, run}
use cqut_auth.Artifacts.Lasting.{Entry, Admits, Lasting, run-All}

-- What stands under `id` has been consumed.
abbrev IsSpent : String → Entry → Type 0
IsSpent id e = (e.1.id ≡ e.0) × (e.0 ≡ id → e.1.consumed_at ≢ none)

IsSpent-Lasting : (hash : String → String) (id : String) → Lasting hash (λ j. j ≢ id) (IsSpent id)
IsSpent-Lasting hash id = record {
  keyed = λ e h. h.0;
  consuming = λ j x now h. (h.0, λ same. cc);
  trying = λ j x payload c g u v h. h;
  storing = λ j kind p ttl g now s ne known. (refl, λ same. absurd (ne same));
  gating = λ uid ttl now ne. (refl, λ same. absurd (ne same));
}

others :
    (id : String) (m : Dict String ArtifactRecord)
    → All (λ e. e.1.id ≡ e.0) m
    → All (λ e. (e.0 ≡ id → ⊥) → IsSpent id e) m
others id [] k = tt
others id (e ∷ m) (k, ks) = ((λ ne. (k, λ same. absurd (ne same))), others id m ks)

consume-IsSpent :
    (id : String) (now : ℕ) (s t : ArtifactStore)
    → IsKeyed s
    → IsMap s.artifacts
    → consume_artifact id now s ≡ (t, true)
    → All (IsSpent id) t.artifacts
unfolding consume_artifact
consume-IsSpent id now s t k m got = elim (Option-cases (Dict.get id s.artifacts)) [
  | inl missing ↦ absurd (ground (arith, got, missing))
  | inr (x, found) ↦ elim (Option-cases x.consumed_at) [
    | inr (at, before) ↦ absurd (ground (arith, got, found, before))
    | inl first ↦
        subst (λ u. All (IsSpent id) u.artifacts)
          (ap (λ r. r.0) (rw (found, first, consume_artifact) at got))
          (set-All_new (IsSpent id) id (record x { consumed_at = some now }) s.artifacts m
            (get-All (λ e. e.1.id ≡ e.0) id x s.artifacts k found, λ same. cc)
            (others id s.artifacts k))
  ]
]

spent-refused :
    (id : String) (now : ℕ) (s : ArtifactStore)
    → All (IsSpent id) s.artifacts
    → consume_artifact id now s ≡ (s, false)
unfolding consume_artifact
spent-refused id now s h = elim (Option-cases (Dict.get id s.artifacts)) [
  | inl missing ↦ ground (arith, missing)
  | inr (x, found) ↦ elim (Option-cases x.consumed_at) [
    | inr (at, before) ↦ ground (arith, found, before)
    | inl first ↦ absurd ((get-All (IsSpent id) id x s.artifacts h found).1 refl first)
  ]
]

-- In a store whose records stand under their own identifiers, each once: once an artifact was
-- consumed, no later call of `consumeArtifact` for it goes through or
-- changes the store, whatever calls come between, those that put in new records under other
-- identifiers included.
pub consume-once :
    (hash : String → String) (state_of : String → Option ClientAuthorizationState)
    (options : OpportunisticCleanupOptions) (id : String) (now later : ℕ) (calls : List Call)
    (s t : ArtifactStore)
    → IsKeyed s
    → IsMap s.artifacts
    → consume_artifact id now s ≡ (t, true)
    → All (Admits (λ j. j ≢ id)) calls
    → let u = run hash state_of options calls t in consume_artifact id later u ≡ (u, false)
consume-once hash state_of options id now later calls s t k m got w =
    let u = run hash state_of options calls t in
    spent-refused id later u (
      run-All hash (λ j. j ≢ id) (IsSpent id) (IsSpent-Lasting hash id) state_of options calls t w
        (consume-IsSpent id now s t k m got))
