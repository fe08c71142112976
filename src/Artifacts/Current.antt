-- ===== src/Artifacts/Current.antt =====
-- What a lookup still answers after a client was disabled or its authorizations were revoked,
-- with the function of persistence/persistence.ts that tells the store of the clients.
use cqut_auth.Base.{
  given, sym, ◌∙◌, ℕ, ◌+◌, String, Bool, true, false, Option, none, some, List, ◌≡◌, All,
  Option-cases, Bool-cases, inl, inr, arith, string_eq, nat_eq, ap,
}
use cqut_auth.Dict
use cqut_auth.Dict.{Dict}
use cqut_auth.Dict.Laws.{get-set_self}
use cqut_auth.Artifacts.{
  ArtifactRecord, ArtifactStore, ClientAuthorizationState, OpportunisticCleanupOptions, Found,
  found, is_revocable, is_disabled,
}
use cqut_auth.Clients.Records.{
  ClientStore, OidcClientRecord, OidcClientAuditRecord, ManagedOidcClientRecord,
}
use cqut_auth.Clients.Lifecycle.{
  disabled_client, next_generation, disable, disable_locked, revoke_authorizations_locked,
}
use cqut_auth.Artifacts.Shape.{Shape}
use cqut_auth.Artifacts.Answers.{Lookup, Selects, look, Current, look-Current}
use cqut_auth.Dict.{IsMap}

-- The client states that the artifact store is given: the standing of a managed client.
unfoldable pub authorization_state : ClientStore → String → Option ClientAuthorizationState
authorization_state s client_id = elim (Dict.get client_id s.clients) [
  | none ↦ none
  | some c ↦ some (record {
    lifecycle_status = c.lifecycle_status;
    authorization_generation = c.authorization_generation;
  })
]

-- The code, token or grant of a client that a lookup answers has the client's generation.
abbrev pub Dated : ClientStore → String → ArtifactRecord → Type 0
Dated clients client_id x =
    (c : OidcClientRecord) × (Dict.get client_id clients.clients ≡ some c)
    × (is_disabled c.lifecycle_status ≡ false)
    × (x.authorization_generation ≡ some c.authorization_generation)

Current-Dated :
    (hash : String → String) (clients : ClientStore) (client_id : String) (x : ArtifactRecord)
    → given x.payload.client_id ≡ some client_id
    → is_revocable x.kind ≡ true
    → Current hash (authorization_state clients) x
    → Dated clients client_id x
unfolding authorization_state
Current-Dated hash clients client_id x own r current =
    let (state, known, live, dated) = current client_id own r in
    elim (Option-cases (Dict.get client_id clients.clients)) [
      | inl missing ↦ absurd (ground (arith, missing, known))
      | inr (c, is) ↦ (c, is, ground (arith, is, known, live), ground (arith, is, known, dated))
    ]

disabled-client :
    (c : OidcClientRecord) (client_id : String) (v at : ℕ) (a : OidcClientAuditRecord)
    (l : List OidcClientAuditRecord) (s t : ClientStore) (m : ManagedOidcClientRecord)
    → disable_locked (some c) client_id v at a l s ≡ (t, some m)
    → Dict.get client_id t.clients ≡ some (disabled_client at c)
unfolding disable_locked disable
disabled-client c client_id v at a l s t m e =
    let same : disable c client_id at a l s ≡ t = ground arith in
    ap (λ u. Dict.get client_id u.clients) (sym same)
    ∙ get-set_self client_id (disabled_client at c) s.clients

revoked-client :
    (c : OidcClientRecord) (client_id : String) (v at : ℕ) (a : OidcClientAuditRecord)
    (s t : ClientStore) (m : ManagedOidcClientRecord)
    → revoke_authorizations_locked (some c) client_id v at a s ≡ (t, some m)
    → Dict.get client_id t.clients ≡ some (next_generation at c)
unfolding revoke_authorizations_locked
revoked-client c client_id v at a s t m e =
    let same : t.clients ≡ Dict.set client_id (next_generation at c) s.clients =
      ground (arith, e) in
    ap (Dict.get client_id) same ∙ get-set_self client_id (next_generation at c) s.clients

-- Once a client was disabled, no lookup, by identifier, uid or user code, answers one of its
-- codes, tokens and grants, those that are stored after its disabling included: what a lookup
-- answers is a record of the store that it selects, and if that is of the client, it is not of
-- these kinds. The store's records have the shape that the calls give them, each stands once.
pub look-disable_locked :
    (hash : String → String) (options : OpportunisticCleanupOptions) (c : OidcClientRecord)
    (client_id : String) (v at : ℕ) (a : OidcClientAuditRecord) (l : List OidcClientAuditRecord)
    (clients clients' : ClientStore) (m : ManagedOidcClientRecord) (lookup : Lookup)
    (sampled : Bool) (now : ℕ) (s : ArtifactStore) (f : Found)
    → disable_locked (some c) client_id v at a l clients ≡ (clients', some m)
    → All (Shape hash) s.artifacts
    → IsMap s.artifacts
    → (look hash (authorization_state clients') options lookup sampled now s).1 ≡ some f
    → (id : String) × (x : ArtifactRecord) × (Dict.get id s.artifacts ≡ some x)
      × Selects hash lookup id x
      × (f ≡ found x)
      × (given x.payload.client_id ≡ some client_id → is_revocable x.kind ≡ false)
look-disable_locked hash options c client_id v at a l clients clients' m lookup sampled now s f done
      h u e =
    let (id, x, is, chosen, live, same, current) =
      look-Current hash (authorization_state clients') options lookup sampled now s f h u e in
    (
      id,
      x,
      is,
      chosen,
      same,
      λ own. elim (Bool-cases (is_revocable x.kind)) [
        | inr other ↦ other
        | inl r ↦
            let (d, there, alive, dated) = Current-Dated hash clients' client_id x own r current in
            absurd (
              ground
                (arith, there, alive, disabled-client c client_id v at a l clients clients' m done))
      ],
    )

-- Once the authorizations of a client were revoked, a lookup, by identifier, uid or user code,
-- answers only those of its codes, tokens and grants that have its new generation, the one after
-- that before: what a lookup answers is a record of the store that it selects, and if that is a
-- code, a token or a grant of the client, it has this generation. The store's records have the
-- shape that the calls give them, each stands once.
pub look-revoke_authorizations_locked :
    (hash : String → String) (options : OpportunisticCleanupOptions) (c : OidcClientRecord)
    (client_id : String) (v at : ℕ) (a : OidcClientAuditRecord) (clients clients' : ClientStore)
    (m : ManagedOidcClientRecord) (lookup : Lookup) (sampled : Bool) (now : ℕ) (s : ArtifactStore)
    (f : Found)
    → revoke_authorizations_locked (some c) client_id v at a clients ≡ (clients', some m)
    → All (Shape hash) s.artifacts
    → IsMap s.artifacts
    → (look hash (authorization_state clients') options lookup sampled now s).1 ≡ some f
    → (id : String) × (x : ArtifactRecord) × (Dict.get id s.artifacts ≡ some x)
      × Selects hash lookup id x
      × (f ≡ found x)
      × (given x.payload.client_id ≡ some client_id
          → is_revocable x.kind ≡ true
          → x.authorization_generation ≡ some (c.authorization_generation + 1))
look-revoke_authorizations_locked hash options c client_id v at a clients clients' m lookup sampled
      now s f done h u e =
    let (id, x, is, chosen, live, same, current) =
      look-Current hash (authorization_state clients') options lookup sampled now s f h u e in
    (
      id,
      x,
      is,
      chosen,
      same,
      λ own r.
          let (d, there, alive, dated) = Current-Dated hash clients' client_id x own r current in
          ground (arith, there, dated, revoked-client c client_id v at a clients clients' m done),
    )
