-- ===== src/Clients/Lifecycle.antt =====
-- `disableOidcClient` and `revokeOidcClientAuthorizations`.
use cqut_auth.Base.{
  ℕ, ◌+◌, String, Bool, true, false, not, ◌&&◌, List, [], ◌∷◌, ◌++◌, map, Option, none, some,
  filter, head?, ◌==◌, nat_eq, string_eq, if◌then◌else◌,
}
use cqut_auth.Contracts.{Result, ok, ◌>>=◌, ClientLifecycleStatus, ClientRevisionStatus}
use cqut_auth.Dict
use cqut_auth.Dict.{Dict, values}
use cqut_auth.Projects.Access.{ProjectWriteAuthorization}
use cqut_auth.Projects.Store.{ProjectStore, authorize_write}
use cqut_auth.Clients.Records.{
  OidcClientRecord, OidcClientSecretRecord, OidcClientRevisionRecord, OidcClientAuditRecord,
  OidcClientAuditAction, ClientStore, ManagedOidcClientRecord,
}
use cqut_auth.Clients.Queries.{is_open, is_revoked, memory_managed, project_of}
use cqut_auth.Clients.Secrets.{revoke}

abbrev pub disabled_client : ℕ → OidcClientRecord → OidcClientRecord
disabled_client at client = record client {
  lifecycle_status = ClientLifecycleStatus.disabled;
  authorization_generation = client.authorization_generation + 1;
  updated_at = at;
  version = client.version + 1;
}

abbrev pub open_for : String → OidcClientRevisionRecord → Bool
open_for client_id r = r.client_id == client_id && is_open r.status

abbrev pub cancelled : ℕ → OidcClientRevisionRecord → OidcClientRevisionRecord
cancelled at r = record r {
  status = ClientRevisionStatus.cancelled;
  updated_at = at;
  version = r.version + 1;
}

-- The loop over the open revisions of the client.
unfoldable pub cancel_all :
    ℕ
    → List OidcClientRevisionRecord
    → Dict ℕ OidcClientRevisionRecord
    → Dict ℕ OidcClientRevisionRecord
cancel_all at [] revisions = revisions
cancel_all at (r ∷ rs) revisions =
    cancel_all at rs (Dict.set r.revision_id (cancelled at r) revisions)

abbrev pub live_for : String → OidcClientSecretRecord → Bool
live_for client_id x = x.client_id == client_id && not (is_revoked x.status)

-- The loop over the secrets: each entry in turn, so the map of the values and the audit records.
unfoldable pub revoke_all :
    String → ℕ → Dict String OidcClientSecretRecord → Dict String OidcClientSecretRecord
revoke_all client_id at [] = []
revoke_all client_id at ((k, x) ∷ secrets) =
    (k, if live_for client_id x then revoke at x else x) ∷ revoke_all client_id at secrets

unfoldable pub revoke_audits :
    String → OidcClientAuditRecord → Dict String OidcClientSecretRecord → List OidcClientAuditRecord
revoke_audits client_id audit [] = []
revoke_audits client_id audit ((k, x) ∷ secrets) =
    let rest = revoke_audits client_id audit secrets in
    if live_for client_id x
    then record audit {
      action = OidcClientAuditAction.client_secret_revoked;
      secret_id = some k;
      changed_fields = "status" ∷ "revokedAt" ∷ [];
    }
      ∷ rest
    else rest

abbrev is_cancellation : OidcClientAuditAction → Bool
is_cancellation OidcClientAuditAction.revision_cancelled = true
is_cancellation _ = false

abbrev pub cancelled_audit :
    Option OidcClientRevisionRecord → OidcClientAuditRecord → OidcClientAuditRecord
cancelled_audit none audit = audit
cancelled_audit (some r) audit =
    if is_cancellation audit.action
    then record audit {
      revision_id = some r.revision_id;
      revision_number = some r.revision_number;
      previous_revision_status = some r.status;
    }
    else audit

-- The writes of a call that is admitted. The source takes the first of its audit records for
-- each secret, and its callers pass one at least: `audit` and `more`.
unfoldable pub disable :
    OidcClientRecord
    → String
    → ℕ
    → OidcClientAuditRecord
    → List OidcClientAuditRecord
    → ClientStore
    → ClientStore
disable client client_id at audit more s =
    let doomed = filter (open_for client_id) (values s.revisions) in
    record s {
      clients = Dict.set client_id (disabled_client at client) s.clients;
      revisions = cancel_all at doomed s.revisions;
      secrets = revoke_all client_id at s.secrets;
      revocations = s.revocations ++ client_id ∷ [];
      audits =
          (s.audits ++ revoke_audits client_id audit s.secrets)
          ++ map (cancelled_audit (head? doomed)) (audit ∷ more);
    }

unfoldable pub disable_locked :
    Option OidcClientRecord
    → String
    → ℕ
    → ℕ
    → OidcClientAuditRecord
    → List OidcClientAuditRecord
    → ClientStore
    → ClientStore × Option ManagedOidcClientRecord
disable_locked none client_id expected at audit more s = (s, none)
disable_locked (some client) client_id expected at audit more s =
    if client.version == expected
    then (let s' = disable client client_id at audit more s in (s', memory_managed client_id s'))
    else (s, none)

-- `snapshot` is the client that was read before the lock; see Clients/Registration.antt.
unfoldable pub disable_oidc_client :
    Option OidcClientRecord
    → String
    → ℕ
    → ℕ
    → OidcClientAuditRecord
    → List OidcClientAuditRecord
    → ProjectWriteAuthorization
    → ProjectStore
    → ClientStore
    → Result (ClientStore × Option ManagedOidcClientRecord)
disable_oidc_client snapshot client_id expected at audit more auth projects s =
    authorize_write auth (project_of snapshot) projects >>= λ _.
    ok (disable_locked snapshot client_id expected at audit more s)

abbrev pub next_generation : ℕ → OidcClientRecord → OidcClientRecord
next_generation at client = record client {
  authorization_generation = client.authorization_generation + 1;
  updated_at = at;
  version = client.version + 1;
}

unfoldable pub revoke_authorizations_locked :
    Option OidcClientRecord
    → String
    → ℕ
    → ℕ
    → OidcClientAuditRecord
    → ClientStore
    → ClientStore × Option ManagedOidcClientRecord
revoke_authorizations_locked none client_id expected at audit s = (s, none)
revoke_authorizations_locked (some client) client_id expected at audit s =
    if client.version == expected
    then (let s' = record s {
      revocations = s.revocations ++ client_id ∷ [];
      clients = Dict.set client_id (next_generation at client) s.clients;
      audits = s.audits ++ audit ∷ [];
    } in
        (s', memory_managed client_id s'))
    else (s, none)

unfoldable pub revoke_oidc_client_authorizations :
    Option OidcClientRecord
    → String
    → ℕ
    → ℕ
    → OidcClientAuditRecord
    → ProjectWriteAuthorization
    → ProjectStore
    → ClientStore
    → Result (ClientStore × Option ManagedOidcClientRecord)
revoke_oidc_client_authorizations snapshot client_id expected at audit auth projects s =
    authorize_write auth (project_of snapshot) projects >>= λ _.
    ok (revoke_authorizations_locked snapshot client_id expected at audit s)
