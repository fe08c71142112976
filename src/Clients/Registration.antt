-- ===== src/Clients/Registration.antt =====
-- Creating clients, replacing bootstrap clients, and changing a client's metadata.
--
-- A write of an existing client reads the client before it waits for the project's lock and
-- checks the version of what it read: `snapshot` is that record, and the store argument is the
-- store at the time when the write has the lock. With no other write between them the snapshot
-- is `Dict.get client_id s.clients`.
use cqut_auth.Base.{
  ℕ, ◌+◌, String, Bool, false, ◌||◌, List, [], ◌∷◌, ◌++◌, map, Option, none, some, ◌==◌, nat_eq,
  string_eq, if◌then◌else◌,
}
use Prim.Native.String.{◌++◌ as str_append}
use cqut_auth.Contracts.{Result, ok, err, error, ◌>>=◌, ClientLifecycleStatus, ProjectRecord}
use cqut_auth.Dict
use cqut_auth.Dict.{Dict, values}
use cqut_auth.Projects.Access.{ProjectWriteAuthorization}
use cqut_auth.Projects.Store.{ProjectStore, authorize_write}
use cqut_auth.Clients.Records.{
  OidcClientRecord, OidcClientSecretRecord, OidcClientRevisionRecord, ManagedOidcClientRecord,
  OidcClientAuditRecord, ClientProjectLimits, ClientStore,
}
use cqut_auth.Clients.Queries.{
  is_approved, memory_managed, assign_revision_id, with_revision_if, project_quota_exceeded,
  subject_client_quota_exceeded, project_of,
}

unfoldable pub quota_exceeded :
    OidcClientRecord → Option ClientProjectLimits → ProjectRecord → ClientStore → Bool
quota_exceeded client none project s = false
quota_exceeded client (some limits) project s =
    project_quota_exceeded client limits s
    || subject_client_quota_exceeded project.created_by_subject_id
        limits.max_non_disabled_clients_per_subject s

abbrev pub put_secret :
    Option OidcClientSecretRecord
    → Dict String OidcClientSecretRecord
    → Dict String OidcClientSecretRecord
put_secret none secrets = secrets
put_secret (some x) secrets = Dict.set x.secret_id x secrets

-- The record that is stored for a new client: active at once if its revision is approved.
unfoldable pub stored_client : OidcClientRecord → OidcClientRevisionRecord → OidcClientRecord
stored_client client assigned =
    if is_approved assigned.status
    then record client {
      lifecycle_status = ClientLifecycleStatus.active;
      active_revision_id = some assigned.revision_id;
    }
    else client

unfoldable pub insert_client :
    OidcClientRecord
    → OidcClientRevisionRecord
    → Option OidcClientSecretRecord
    → List OidcClientAuditRecord
    → Option String
    → ClientStore
    → ClientStore
insert_client client revision secret audits subject s =
    let (assigned, s') = assign_revision_id revision s in
    record s' {
      clients = Dict.set client.client_id (stored_client client assigned) s'.clients;
      client_quota_subjects = Dict.set client.client_id subject s'.client_quota_subjects;
      revisions = Dict.set assigned.revision_id assigned s'.revisions;
      secrets = put_secret secret s'.secrets;
      audits = s'.audits ++ map (with_revision_if assigned) audits;
    }

-- The mutation of `createOidcClient`, which runs under the locks.
unfoldable pub create_locked :
    OidcClientRecord
    → OidcClientRevisionRecord
    → Option OidcClientSecretRecord
    → List OidcClientAuditRecord
    → Option ClientProjectLimits
    → ProjectRecord
    → ClientStore
    → Result (ClientStore × Option ManagedOidcClientRecord)
create_locked client revision secret audits limits project s =
    if Dict.has client.client_id s.clients
    then err (error (str_append "oidc client already exists: " client.client_id))
    else if quota_exceeded client limits project s
    then ok (s, none)
    else let s' = insert_client client revision secret audits project.created_by_subject_id s in
      ok (s', memory_managed client.client_id s')

unfoldable pub create_oidc_client :
    OidcClientRecord
    → OidcClientRevisionRecord
    → Option OidcClientSecretRecord
    → List OidcClientAuditRecord
    → Option ClientProjectLimits
    → ProjectWriteAuthorization
    → ProjectStore
    → ClientStore
    → Result (ClientStore × Option ManagedOidcClientRecord)
create_oidc_client client revision secret audits limits auth projects s =
    authorize_write auth client.project_id projects >>= λ project.
    create_locked client revision secret audits limits project s

pub record MetadataPatch : Type 0 where
  pub display_name : String
  pub description : String
  pub require_pkce : Bool
  pub updated_at : ℕ

abbrev pub apply_patch : MetadataPatch → OidcClientRecord → OidcClientRecord
apply_patch patch current = record current {
  display_name = patch.display_name;
  description = patch.description;
  require_pkce = patch.require_pkce;
  updated_at = patch.updated_at;
  version = current.version + 1;
}

unfoldable pub update_metadata_locked :
    Option OidcClientRecord
    → String
    → MetadataPatch
    → ℕ
    → OidcClientAuditRecord
    → ClientStore
    → ClientStore × Option ManagedOidcClientRecord
update_metadata_locked none client_id patch expected_version audit s = (s, none)
update_metadata_locked (some current) client_id patch expected_version audit s =
    if current.version == expected_version
    then (let s' = record s {
      clients = Dict.set client_id (apply_patch patch current) s.clients;
      audits = s.audits ++ audit ∷ [];
    } in
        (s', memory_managed client_id s'))
    else (s, none)

unfoldable pub update_oidc_client_metadata :
    Option OidcClientRecord
    → String
    → MetadataPatch
    → ℕ
    → OidcClientAuditRecord
    → ProjectWriteAuthorization
    → ProjectStore
    → ClientStore
    → Result (ClientStore × Option ManagedOidcClientRecord)
update_oidc_client_metadata snapshot client_id patch expected_version audit auth projects s =
    authorize_write auth (project_of snapshot) projects >>= λ _.
    ok (update_metadata_locked snapshot client_id patch expected_version audit s)
