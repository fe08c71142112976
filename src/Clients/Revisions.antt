-- ===== src/Clients/Revisions.antt =====
-- `saveOidcClientRevision`: a draft is edited, or a revision is added; an approved one becomes
-- the client's active revision.
use cqut_auth.Base.{
  ℕ, ◌+◌, String, Bool, false, ◌&&◌, List, ◌++◌, map, Option, none, some, ◌==◌, nat_eq, string_eq,
  if◌then◌else◌,
}
use cqut_auth.Contracts.{Result, ok, ◌>>=◌, ClientLifecycleStatus}
use cqut_auth.Dict
use cqut_auth.Projects.Access.{ProjectWriteAuthorization}
use cqut_auth.Projects.Store.{ProjectStore, authorize_write}
use cqut_auth.Clients.Records.{
  OidcClientRecord, OidcClientRevisionRecord, OidcClientAuditRecord, ClientStore,
  RevisionMutationResult,
}
use cqut_auth.Clients.Queries.{
  is_approved, is_draft, is_disabled, assign_revision_id, with_revision, project_of, updated_result,
}

-- The client record after a revision of it has been approved.
abbrev pub activate : OidcClientRecord → OidcClientRevisionRecord → OidcClientRecord
activate client revision = record client {
  lifecycle_status = ClientLifecycleStatus.active;
  active_revision_id = some revision.revision_id;
  updated_at = revision.updated_at;
  version = client.version + 1;
}

-- Storing a revision, with its audit records, and activating it if it is approved.
unfoldable pub store_revision :
    OidcClientRecord
    → String
    → OidcClientRevisionRecord
    → List OidcClientAuditRecord
    → ClientStore
    → ClientStore
store_revision client client_id revision audits s = record s {
  revisions = Dict.set revision.revision_id revision s.revisions;
  audits = s.audits ++ map (with_revision revision) audits;
  clients =
      if is_approved revision.status
      then Dict.set client_id (activate client revision) s.clients
      else s.clients;
}

-- `current.version !== expectedRevisionVersion`, where the expectation may be null
abbrev pub is_version : Option ℕ → ℕ → Bool
is_version none v = false
is_version (some e) v = v == e

abbrev pub editable : String → Option ℕ → OidcClientRevisionRecord → Bool
editable client_id expected current =
    current.client_id == client_id && is_version expected current.version && is_draft current.status

unfoldable pub edit_revision :
    OidcClientRecord
    → String
    → OidcClientRevisionRecord
    → ℕ
    → Option ℕ
    → List OidcClientAuditRecord
    → ClientStore
    → ClientStore × RevisionMutationResult
edit_revision client client_id revision expected_id expected_version audits s =
    elim (Dict.get expected_id s.revisions) [
      | none ↦ (s, RevisionMutationResult.version_conflict)
      | some current ↦
          if editable client_id expected_version current
          then (let next = record revision {
            revision_id = current.revision_id;
            revision_number = current.revision_number;
            version = current.version + 1;
          } in
              updated_result client_id (store_revision client client_id next audits s))
          else (s, RevisionMutationResult.version_conflict)
    ]

unfoldable pub add_revision :
    OidcClientRecord
    → String
    → OidcClientRevisionRecord
    → List OidcClientAuditRecord
    → ClientStore
    → ClientStore × RevisionMutationResult
add_revision client client_id revision audits s =
    let (assigned, s') = assign_revision_id revision s in
    updated_result client_id (store_revision client client_id assigned audits s')

unfoldable pub save_revision_locked :
    Option OidcClientRecord
    → String
    → OidcClientRevisionRecord
    → Option ℕ
    → Option ℕ
    → List OidcClientAuditRecord
    → ClientStore
    → ClientStore × RevisionMutationResult
save_revision_locked none client_id revision expected_id expected_version audits s =
    (s, RevisionMutationResult.version_conflict)
save_revision_locked (some client) client_id revision expected_id expected_version audits s =
    if is_disabled client.lifecycle_status
    then (s, RevisionMutationResult.version_conflict)
    else elim expected_id [
      | none ↦ add_revision client client_id revision audits s
      | some id ↦ edit_revision client client_id revision id expected_version audits s
    ]

-- `snapshot` is the client that was read before the lock; see Clients/Registration.antt.
unfoldable pub save_oidc_client_revision :
    Option OidcClientRecord
    → String
    → OidcClientRevisionRecord
    → Option ℕ
    → Option ℕ
    → List OidcClientAuditRecord
    → ProjectWriteAuthorization
    → ProjectStore
    → ClientStore
    → Result (ClientStore × RevisionMutationResult)
save_oidc_client_revision snapshot client_id revision expected_id expected_version audits auth
      projects s =
    authorize_write auth (project_of snapshot) projects >>= λ _.
    ok (save_revision_locked snapshot client_id revision expected_id expected_version audits s)
