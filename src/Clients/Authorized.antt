-- ===== src/Clients/Authorized.antt =====
-- The calls of the client store as their callers make them: the access check, then the write.
use cqut_auth.Base.{inl, inr, String, Option, List, ◌≡◌, arith}
use cqut_auth.Contracts.{Result, ok, err, Result-cases, ◌>>=◌, ProjectRecord}
use cqut_auth.Projects.Access.{ProjectWriteAuthorization}
use cqut_auth.Projects.Store.{ProjectStore, authorize_write}
use cqut_auth.Projects.Store.Authorization.{Authorized, authorize_write_iff}
use cqut_auth.Clients.Records.{
  OidcClientRecord, OidcClientSecretRecord, OidcClientRevisionRecord, OidcClientAuditRecord,
  ClientProjectLimits, ManagedOidcClientRecord, ClientStore,
}
use cqut_auth.Clients.Queries.{project_of}
use cqut_auth.Clients.Registration.{create_oidc_client, create_locked, update_oidc_client_metadata}
use cqut_auth.Clients.Revisions.{save_oidc_client_revision}
use cqut_auth.Clients.Secrets.{rotate_oidc_client_secret, revoke_oidc_client_secret}
use cqut_auth.Clients.Lifecycle.{disable_oidc_client, revoke_oidc_client_authorizations}
use cqut_auth.Clients.Calls.{
  Write, update_metadata, save_revision, rotate_secret, revoke_secret, revoke_authorizations,
  perform,
}

abbrev store_of {ℓ} : {A : Type ℓ} → Result (ClientStore × A) → Result ClientStore
store_of (ok (s, a)) = ok s
store_of (err e) = err e

-- A write of an existing client, with what its call read before it waited.
unfoldable pub submit :
    Option OidcClientRecord
    → String
    → Write
    → ProjectWriteAuthorization
    → ProjectStore
    → ClientStore
    → Result ClientStore
submit snapshot client_id (update_metadata patch v a) auth projects s =
    store_of (update_oidc_client_metadata snapshot client_id patch v a auth projects s)
submit snapshot client_id (save_revision r id v l) auth projects s =
    store_of (save_oidc_client_revision snapshot client_id r id v l auth projects s)
submit snapshot client_id (rotate_secret x v grace interval a) auth projects s =
    store_of (rotate_oidc_client_secret snapshot client_id x v grace interval a auth projects s)
submit snapshot client_id (revoke_secret id v w at a) auth projects s =
    store_of (revoke_oidc_client_secret snapshot client_id id v w at a auth projects s)
submit snapshot client_id (Write.disable v at a l) auth projects s =
    store_of (disable_oidc_client snapshot client_id v at a l auth projects s)
submit snapshot client_id (revoke_authorizations v at a) auth projects s =
    store_of (revoke_oidc_client_authorizations snapshot client_id v at a auth projects s)

submit-perform :
    (snapshot : Option OidcClientRecord) (client_id : String) (w : Write)
    (auth : ProjectWriteAuthorization) (projects : ProjectStore) (s : ClientStore)
    → submit snapshot client_id w auth projects s ≡ (
        authorize_write auth (project_of snapshot) projects >>= λ _.
        ok (perform snapshot client_id w s))
unfolding submit perform update_oidc_client_metadata save_oidc_client_revision
    rotate_oidc_client_secret revoke_oidc_client_secret disable_oidc_client
    revoke_oidc_client_authorizations
submit-perform snapshot client_id (update_metadata patch v a) auth projects s = ground arith
submit-perform snapshot client_id (save_revision r id v l) auth projects s = ground arith
submit-perform snapshot client_id (rotate_secret x v grace interval a) auth projects s =
    ground arith
submit-perform snapshot client_id (revoke_secret id v w at a) auth projects s = ground arith
submit-perform snapshot client_id (Write.disable v at a l) auth projects s = ground arith
submit-perform snapshot client_id (revoke_authorizations v at a) auth projects s = ground arith

-- A write of an existing client changes the store only for an actor who is authorized in the
-- project of the client that it read.
pub submit-Authorized :
    (snapshot : Option OidcClientRecord) (client_id : String) (w : Write)
    (auth : ProjectWriteAuthorization) (projects : ProjectStore) (s t : ClientStore)
    → submit snapshot client_id w auth projects s ≡ ok t
    → (p : ProjectRecord) × Authorized auth (project_of snapshot) projects p
      × (t ≡ perform snapshot client_id w s)
submit-Authorized snapshot client_id w auth projects s t e =
    elim (Result-cases (authorize_write auth (project_of snapshot) projects)) [
      | inl (p, admitted) ↦ (
        p,
        (authorize_write_iff auth (project_of snapshot) projects p).0 admitted,
        ground (arith, e, admitted, submit-perform snapshot client_id w auth projects s),
      )
      | inr (f, refused) ↦
          absurd (ground (arith, e, refused, submit-perform snapshot client_id w auth projects s))
    ]

-- A client is registered only by an actor who is authorized in the client's project.
pub create_oidc_client-Authorized :
    (c : OidcClientRecord) (r : OidcClientRevisionRecord) (x : Option OidcClientSecretRecord)
    (l : List OidcClientAuditRecord) (limits : Option ClientProjectLimits)
    (auth : ProjectWriteAuthorization) (projects : ProjectStore) (s t : ClientStore)
    (m : Option ManagedOidcClientRecord)
    → create_oidc_client c r x l limits auth projects s ≡ ok (t, m)
    → (p : ProjectRecord) × Authorized auth c.project_id projects p
      × (create_locked c r x l limits p s ≡ ok (t, m))
unfolding create_oidc_client
create_oidc_client-Authorized c r x l limits auth projects s t m e =
    elim (Result-cases (authorize_write auth c.project_id projects)) [
      | inl (p, admitted) ↦ (
        p,
        (authorize_write_iff auth c.project_id projects p).0 admitted,
        rw (create_oidc_client, admitted) at e,
      )
      | inr (f, refused) ↦ absurd (ground (arith, e, refused))
    ]
