-- ===== src/Artifacts/Revocation.antt =====
-- What `revokeArtifactsByClientId` takes away and what it keeps.
use cqut_auth.Base.{
  given, ◌⊎◌, not, ◌&&◌, String, Bool, true, false, Option, some, [], ◌∷◌, ◌≡◌, ◌≢◌, All,
  Bool-cases, inl, inr, arith, string_eq, nat_eq, eq_iff,
}
use cqut_auth.Dict
use cqut_auth.Dict.{Dict}
use cqut_auth.Dict.Laws.{get-filter}
use cqut_auth.Artifacts.{
  filter, ArtifactRecord, ArtifactStore, ClientAuthorizationState, OpportunisticCleanupOptions,
  is_revocable, is_some, revoke_artifacts_by_client_id,
}
use cqut_auth.Artifacts.Lasting.{Entry}
use cqut_auth.Artifacts.Shape.{Shape}

given-some : (c : String) → c ≢ "" → given (some c) ≡ some c
given-some c ne = ground (arith, eq_iff c "")

module _ (hash : String → String) (client_id : String) where
  abbrev Unrevoked : Entry → Type 0
  Unrevoked e = e.1.payload.client_id ≡ some client_id → is_revocable e.1.kind ≡ false

  abbrev spared : Entry → Bool
  spared e = not (is_some e.1.client_id_hash (hash client_id) && is_revocable e.1.kind)

  spared-Unrevoked : (e : Entry) → client_id ≢ "" → Shape hash e → spared e ≡ true → Unrevoked e
  spared-Unrevoked (j, x) ne k kept own =
      let stands_for : x.client_id_hash ≡ some (hash client_id) =
        cc (k.client, own, given-some client_id ne) in
      ground (arith, stands_for, kept, eq_iff (hash client_id) (hash client_id))

  filter-Unrevoked :
      (m : Dict String ArtifactRecord)
      → client_id ≢ ""
      → All (Shape hash) m
      → All Unrevoked (filter spared m)
  filter-Unrevoked [] ne h = tt
  filter-Unrevoked (e ∷ m) ne (k, ks) = elim (Bool-cases (spared e)) [
    | inl kept ↦ rw kept (spared-Unrevoked e ne k kept, filter-Unrevoked m ne ks)
    | inr lost ↦ rw lost (filter-Unrevoked m ne ks)
  ]

-- Revoking the artifacts of a client leaves none of its codes, tokens and grants in the store,
-- and keeps every record that is none of these or has another client hash.
pub revoke_artifacts_by_client_id-All :
    (hash : String → String) (state_of : String → Option ClientAuthorizationState)
    (options : OpportunisticCleanupOptions) (client_id : String) (s : ArtifactStore)
    → client_id ≢ ""
    → All (Shape hash) s.artifacts
    → let t = revoke_artifacts_by_client_id hash state_of options client_id s in
      All (λ e. e.1.payload.client_id ≡ some client_id → is_revocable e.1.kind ≡ false) t.artifacts
      × ((id : String) (x : ArtifactRecord)
          → Dict.get id s.artifacts ≡ some x
          → (is_revocable x.kind ≡ false) ⊎ (is_some x.client_id_hash (hash client_id) ≡ false)
          → Dict.get id t.artifacts ≡ some x)
unfolding revoke_artifacts_by_client_id is_revocable
revoke_artifacts_by_client_id-All hash state_of options client_id s ne h = (
  filter-Unrevoked hash client_id s.artifacts ne h,
  λ id x found other. get-filter _ id x s.artifacts found (ground (arith, other)),
)
