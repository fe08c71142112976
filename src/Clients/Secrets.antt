-- ===== src/Clients/Secrets.antt =====
-- `rotateOidcClientSecret` and `revokeOidcClientSecret`.
pub mod Limits
use cqut_auth.Base.{
  ℕ, suc, zero, ◌+◌, ◌-◌, ◌*◌, ◌/◌, String, Bool, true, false, not, ◌&&◌, ◌||◌, List, [], ◌∷◌, ◌++◌,
  map, Option, none, some, length, filter, head?, sort_desc, find, drop, ltb, leb, ◌==◌, nat_eq,
  string_eq, if◌then◌else◌,
}
use cqut_auth.Contracts.{Result, ok, err, ◌>>=◌, ClientSecretStatus}
use cqut_auth.Dict
use cqut_auth.Dict.{Dict, values}
use cqut_auth.Projects.Access.{ProjectWriteAuthorization}
use cqut_auth.Projects.Store.{ProjectStore, authorize_write}
use cqut_auth.Clients.Records.{
  OidcClientRecord, OidcClientSecretRecord, OidcClientAuditRecord, OidcClientAuditAction,
  ClientStore, ClientSecurityMutationResult, ManagedOidcClientRecord,
}
use cqut_auth.Clients.Queries.{
  is_current, is_revoked, expires_after, usable_memory_secrets, memory_managed, project_of,
}

-- `Math.ceil((newest + interval * 1000 - now) / 1000)`, or 0 where that is not positive.
unfoldable pub retry_after : ℕ → ℕ → ℕ → ℕ
retry_after newest interval now = (newest + interval * 1000 - now + 999) / 1000

unfoldable pub newest_secret : String → ClientStore → Option OidcClientSecretRecord
newest_secret client_id s =
    head?
      (sort_desc (λ x. x.created_at) (filter (λ x. x.client_id == client_id) (values s.secrets)))

-- The wait that the rotation has left, 0 if none.
unfoldable pub cooldown : String → ℕ → ℕ → ClientStore → ℕ
cooldown client_id interval now s = elim (newest_secret client_id s) [
  | none ↦ 0
  | some newest ↦ retry_after newest.created_at interval now
]

-- The secret that was active, after a rotation at the time `now`.
abbrev pub retired : ℕ → ℕ → OidcClientSecretRecord → OidcClientSecretRecord
retired grace now x = record x {
  status = if grace == 0 then ClientSecretStatus.revoked else ClientSecretStatus.retiring;
  expires_at = if grace == 0 then x.expires_at else some (now + grace * 1000);
  revoked_at = if grace == 0 then some now else none;
  version = x.version + 1;
}

abbrev pub retired_audit : ℕ → String → OidcClientAuditRecord → OidcClientAuditRecord
retired_audit grace secret_id audit = record audit {
  action =
      if grace == 0
      then OidcClientAuditAction.client_secret_revoked
      else OidcClientAuditAction.client_secret_retired;
  secret_id = some secret_id;
  changed_fields = "status" ∷ (if grace == 0 then "revokedAt" else "expiresAt") ∷ [];
}

unfoldable pub retire_active :
    ℕ → ℕ → OidcClientAuditRecord → Option OidcClientSecretRecord → ClientStore → ClientStore
retire_active grace now audit none s = s
retire_active grace now audit (some x) s = record s {
  secrets = Dict.set x.secret_id (retired grace now x) s.secrets;
  audits = s.audits ++ retired_audit grace x.secret_id audit ∷ [];
}

-- `candidate.expiresAt !== null && candidate.expiresAt <= now`
abbrev pub expired_by : Option ℕ → ℕ → Bool
expired_by none now = false
expired_by (some t) now = leb t now

abbrev pub terminal_status : ClientSecretStatus → Option ℕ → ℕ → Bool
terminal_status ClientSecretStatus.revoked expires_at now = true
terminal_status ClientSecretStatus.retiring expires_at now = expired_by expires_at now
terminal_status ClientSecretStatus.active expires_at now = false

abbrev pub is_terminal : String → ℕ → OidcClientSecretRecord → Bool
is_terminal client_id now x = x.client_id == client_id && terminal_status x.status x.expires_at now

unfoldable pub delete_all :
    List OidcClientSecretRecord
    → Dict String OidcClientSecretRecord
    → Dict String OidcClientSecretRecord
delete_all [] secrets = secrets
delete_all (x ∷ xs) secrets = delete_all xs (Dict.delete x.secret_id secrets)

-- How many dead secrets of a client are kept.
abbrev pub kept_terminal : ℕ
kept_terminal = 100

unfoldable pub prune_terminal :
    String → ℕ → Dict String OidcClientSecretRecord → Dict String OidcClientSecretRecord
prune_terminal client_id now secrets =
    delete_all
      (drop kept_terminal
        (sort_desc (λ x. x.created_at) (filter (is_terminal client_id now) (values secrets))))
      secrets

-- The writes of a rotation that is admitted.
unfoldable pub rotate :
    OidcClientRecord
    → String
    → OidcClientSecretRecord
    → ℕ
    → OidcClientAuditRecord
    → ClientStore
    → ClientStore
rotate client client_id secret grace audit s =
    let now = secret.created_at in
    let current = find (λ x. is_current x.status) (usable_memory_secrets client_id now s) in
    let s' = retire_active grace now audit current s in
    record s' {
      secrets = prune_terminal client_id now (Dict.set secret.secret_id secret s'.secrets);
      clients =
          Dict.set client_id (record client { updated_at = now; version = client.version + 1 })
            s'.clients;
      audits = s'.audits ++ audit ∷ [];
    }

abbrev pub security_result :
    String → Option OidcClientSecretRecord → ClientStore → ClientSecurityMutationResult
security_result client_id secret s = elim (memory_managed client_id s) [
  -- Not reached: the client has just been written.
  | none ↦ ClientSecurityMutationResult.version_conflict
  | some m ↦ ClientSecurityMutationResult.updated m secret
]

unfoldable pub rotate_locked :
    Option OidcClientRecord
    → String
    → OidcClientSecretRecord
    → ℕ
    → ℕ
    → ℕ
    → OidcClientAuditRecord
    → ClientStore
    → ClientStore × ClientSecurityMutationResult
rotate_locked none client_id secret expected grace interval audit s =
    (s, ClientSecurityMutationResult.version_conflict)
rotate_locked (some client) client_id secret expected grace interval audit s =
    if not (client.version == expected)
    then (s, ClientSecurityMutationResult.version_conflict)
    else if leb 2 (length (usable_memory_secrets client_id secret.created_at s))
    then (s, ClientSecurityMutationResult.secret_limit_exceeded)
    else if ltb 0 (cooldown client_id interval secret.created_at s)
    then (
      s,
      ClientSecurityMutationResult.secret_rotation_cooldown
          (cooldown client_id interval secret.created_at s),
    )
    else let s' = rotate client client_id secret grace audit s in
      (s', security_result client_id (some secret) s')

-- `snapshot` is the client that was read before the lock; see Clients/Registration.antt.
unfoldable pub rotate_oidc_client_secret :
    Option OidcClientRecord
    → String
    → OidcClientSecretRecord
    → ℕ
    → ℕ
    → ℕ
    → OidcClientAuditRecord
    → ProjectWriteAuthorization
    → ProjectStore
    → ClientStore
    → Result (ClientStore × ClientSecurityMutationResult)
rotate_oidc_client_secret snapshot client_id secret expected grace interval audit auth projects s =
    authorize_write auth (project_of snapshot) projects >>= λ _.
    ok (rotate_locked snapshot client_id secret expected grace interval audit s)

abbrev pub revoke : ℕ → OidcClientSecretRecord → OidcClientSecretRecord
revoke at x = record x {
  status = ClientSecretStatus.revoked;
  revoked_at = some at;
  version = x.version + 1;
}

unfoldable pub revoke_known :
    OidcClientRecord
    → String
    → String
    → OidcClientSecretRecord
    → ℕ
    → OidcClientAuditRecord
    → ClientStore
    → ClientStore
revoke_known client client_id secret_id x at audit s = record s {
  secrets = Dict.set secret_id (revoke at x) s.secrets;
  clients =
      Dict.set client_id (record client { updated_at = at; version = client.version + 1 })
        s.clients;
  audits = s.audits ++ audit ∷ [];
}

unfoldable pub revoke_locked :
    Option OidcClientRecord
    → String
    → String
    → ℕ
    → ℕ
    → ℕ
    → OidcClientAuditRecord
    → ClientStore
    → ClientStore × ClientSecurityMutationResult
revoke_locked none client_id secret_id expected expected_secret at audit s =
    (s, ClientSecurityMutationResult.version_conflict)
revoke_locked (some client) client_id secret_id expected expected_secret at audit s =
    if not (client.version == expected)
    then (s, ClientSecurityMutationResult.version_conflict)
    else elim (Dict.get secret_id s.secrets) [
      | none ↦ (s, ClientSecurityMutationResult.secret_not_found)
      | some x ↦
          if not (x.client_id == client_id)
          then (s, ClientSecurityMutationResult.secret_not_found)
          else if not (x.version == expected_secret) || is_revoked x.status
          then (s, ClientSecurityMutationResult.version_conflict)
          else let s' = revoke_known client client_id secret_id x at audit s in
            (s', security_result client_id none s')
    ]

unfoldable pub revoke_oidc_client_secret :
    Option OidcClientRecord
    → String
    → String
    → ℕ
    → ℕ
    → ℕ
    → OidcClientAuditRecord
    → ProjectWriteAuthorization
    → ProjectStore
    → ClientStore
    → Result (ClientStore × ClientSecurityMutationResult)
revoke_oidc_client_secret snapshot client_id secret_id expected expected_secret at audit auth
      projects s =
    authorize_write auth (project_of snapshot) projects >>= λ _.
    ok (revoke_locked snapshot client_id secret_id expected expected_secret at audit s)
