-- ===== src/Clients/Queries.antt =====
-- What the client store answers without changing, and the helpers that its writes share.
use cqut_auth.Base.{
  ℕ, zero, suc, ◌+◌, String, Bool, true, false, not, ◌&&◌, List, [], ◌∷◌, ◌++◌, map, Option, none,
  some, length, filter, head?, sort_desc, ltb, leb, ◌==◌, nat_eq, string_eq, if◌then◌else◌,
}
use cqut_auth.Contracts.{ClientLifecycleStatus, ClientSecretStatus, ClientRevisionStatus}
use cqut_auth.Dict
use cqut_auth.Dict.{Dict, values}
use cqut_auth.Projects.Store.{same_id}
use cqut_auth.Clients.Records.{
  ClientType, web, spa, OidcClientRecord, OidcClientSecretRecord, OidcClientRevisionRecord,
  ManagedOidcClientRecord, ActiveOidcClientRecord, client_secret_basic, no_authentication,
  OidcClientAuditAction, OidcClientAuditRecord, ClientProjectLimits, ClientStore,
  RevisionMutationResult,
}

abbrev pub is_disabled : ClientLifecycleStatus → Bool
is_disabled ClientLifecycleStatus.disabled = true
is_disabled _ = false

abbrev pub is_active : ClientLifecycleStatus → Bool
is_active ClientLifecycleStatus.active = true
is_active _ = false

abbrev pub is_current : ClientSecretStatus → Bool
is_current ClientSecretStatus.active = true
is_current _ = false

abbrev pub is_revoked : ClientSecretStatus → Bool
is_revoked ClientSecretStatus.revoked = true
is_revoked _ = false

abbrev pub is_draft : ClientRevisionStatus → Bool
is_draft ClientRevisionStatus.draft = true
is_draft _ = false

abbrev pub is_approved : ClientRevisionStatus → Bool
is_approved ClientRevisionStatus.approved = true
is_approved _ = false

-- `status === "draft" || status === "pending"`
abbrev pub is_open : ClientRevisionStatus → Bool
is_open ClientRevisionStatus.draft = true
is_open ClientRevisionStatus.pending = true
is_open _ = false

-- `["draft", "pending", "rejected"]`
abbrev pub is_proposal : ClientRevisionStatus → Bool
is_proposal ClientRevisionStatus.rejected = true
is_proposal s = is_open s

-- `audit.action.startsWith("revision.")`
abbrev pub is_revision_action : OidcClientAuditAction → Bool
is_revision_action OidcClientAuditAction.revision_created = true
is_revision_action OidcClientAuditAction.revision_updated = true
is_revision_action OidcClientAuditAction.revision_submitted = true
is_revision_action OidcClientAuditAction.revision_withdrawn = true
is_revision_action OidcClientAuditAction.revision_approved = true
is_revision_action OidcClientAuditAction.revision_rejected = true
is_revision_action OidcClientAuditAction.revision_cancelled = true
is_revision_action OidcClientAuditAction.revision_activated = true
is_revision_action _ = false

-- `expiresAt !== null && expiresAt > now`
abbrev pub expires_after : Option ℕ → ℕ → Bool
expires_after none now = false
expires_after (some t) now = ltb now t

abbrev pub usable_status : ClientSecretStatus → Option ℕ → ℕ → Bool
usable_status ClientSecretStatus.active expires_at now = true
usable_status ClientSecretStatus.retiring expires_at now = expires_after expires_at now
usable_status ClientSecretStatus.revoked expires_at now = false

abbrev pub is_usable_secret : ℕ → OidcClientSecretRecord → Bool
is_usable_secret now secret = usable_status secret.status secret.expires_at now

abbrev pub usable_for : String → ℕ → OidcClientSecretRecord → Bool
usable_for client_id now secret = secret.client_id == client_id && is_usable_secret now secret

abbrev pub usable_memory_secrets : String → ℕ → ClientStore → List OidcClientSecretRecord
usable_memory_secrets client_id now s = filter (usable_for client_id now) (values s.secrets)

-- `id ? this.revisions.get(id) : undefined`; 0 is no identifier.
unfoldable pub revision_of : Option ℕ → ClientStore → Option OidcClientRevisionRecord
revision_of none s = none
revision_of (some zero) s = none
revision_of (some (suc n)) s = Dict.get (suc n) s.revisions

-- `!active || revision.revisionNumber > active.revisionNumber`
abbrev pub newer_than : Option OidcClientRevisionRecord → OidcClientRevisionRecord → Bool
newer_than none revision = true
newer_than (some current) revision = ltb current.revision_number revision.revision_number

unfoldable pub proposed_for : String → ClientStore → Option OidcClientRevisionRecord
proposed_for client_id s = elim (Dict.get client_id s.clients) [
  | none ↦ none
  | some client ↦
      if is_disabled client.lifecycle_status
      then none
      else head? (
          sort_desc (λ r. r.revision_number)
            (filter
              (λ r.
                r.client_id == client_id
                && is_proposal r.status
                && newer_than (revision_of client.active_revision_id s) r)
              (values s.revisions)))
]

unfoldable pub memory_managed : String → ClientStore → Option ManagedOidcClientRecord
memory_managed client_id s = elim (Dict.get client_id s.clients) [
  | none ↦ none
  | some client ↦ some (record {
    client = client;
    secrets =
        sort_desc (λ x. x.created_at) (filter (λ x. x.client_id == client_id) (values s.secrets));
    active_revision = revision_of client.active_revision_id s;
    proposed_revision = proposed_for client_id s;
  })
]

abbrev pub is_web : ClientType → Bool
is_web web = true
is_web spa = false

unfoldable pub to_active :
    OidcClientRecord
    → OidcClientRevisionRecord
    → List OidcClientSecretRecord
    → ActiveOidcClientRecord
to_active client revision secrets =
    let web = is_web client.client_type in
    record {
      client = record client {
        active_revision_id = some revision.revision_id;
        require_pkce = if web then client.require_pkce else true;
      };
      active_revision = revision;
      application_type = "web";
      token_endpoint_auth_method = if web then client_secret_basic else no_authentication;
      redirect_uris = revision.redirect_uris;
      post_logout_redirect_uris = revision.post_logout_redirect_uris;
      grant_types =
          if web then "authorization_code" ∷ "refresh_token" ∷ [] else "authorization_code" ∷ [];
      response_types = "code" ∷ [];
      scope_whitelist = revision.scope_whitelist;
      allow_refresh_token_for_public_client = false;
      client_secret_digests = if web then map (λ x. x.secret_digest) secrets else [];
    }

-- `findOidcClient` at the time `now`
unfoldable pub find_oidc_client : String → ℕ → ClientStore → Option ActiveOidcClientRecord
find_oidc_client client_id now s = elim (memory_managed client_id s) [
  | none ↦ none
  | some managed ↦
      if not (is_active managed.client.lifecycle_status)
      then none
      else elim managed.active_revision [
        | none ↦ none
        | some revision ↦
            some (to_active managed.client revision (filter (is_usable_secret now) managed.secrets))
      ]
]

abbrev or_nil : Option OidcClientRevisionRecord → List String
or_nil none = []
or_nil (some r) = r.redirect_uris

redirect_uris_of : List OidcClientRecord → ClientStore → List String
redirect_uris_of [] s = []
redirect_uris_of (c ∷ cs) s =
    (if is_active c.lifecycle_status then or_nil (revision_of c.active_revision_id s) else [])
    ++ redirect_uris_of cs s

unfoldable pub list_active_redirect_uris : ClientStore → List String
unfolding redirect_uris_of
list_active_redirect_uris s = redirect_uris_of (values s.clients) s

-- `revisionId` of the record that is returned is never 0.
unfoldable pub assign_revision_id :
    OidcClientRevisionRecord → ClientStore → OidcClientRevisionRecord × ClientStore
assign_revision_id revision s =
    if ltb 0 revision.revision_id
    then (
      revision,
      record s {
        next_revision_id =
            if leb s.next_revision_id (revision.revision_id + 1)
            then revision.revision_id + 1
            else s.next_revision_id;
      },
    )
    else (
      record revision { revision_id = s.next_revision_id },
      record s { next_revision_id = s.next_revision_id + 1 },
    )

abbrev pub with_revision : OidcClientRevisionRecord → OidcClientAuditRecord → OidcClientAuditRecord
with_revision r audit = record audit {
  revision_id = some r.revision_id;
  revision_number = some r.revision_number;
}

abbrev pub with_revision_if :
    OidcClientRevisionRecord → OidcClientAuditRecord → OidcClientAuditRecord
with_revision_if r audit = if is_revision_action audit.action then with_revision r audit else audit

unfoldable pub project_quota_exceeded : OidcClientRecord → ClientProjectLimits → ClientStore → Bool
project_quota_exceeded client limits s = leb limits.max_non_disabled_clients (
    length (
      filter (λ c. c.project_id == client.project_id && not (is_disabled c.lifecycle_status))
        (values s.clients)))

-- `this.clientQuotaSubjects.get(id) === subject`, where `subject` is not null
abbrev pub charged_to : String → ClientStore → OidcClientRecord → Bool
charged_to subject s c = elim (Dict.get c.client_id s.client_quota_subjects) [
  | none ↦ false
  | some who ↦ same_id who (some subject)
]

unfoldable pub subject_client_quota_exceeded : Option String → ℕ → ClientStore → Bool
subject_client_quota_exceeded none most s = false
subject_client_quota_exceeded (some subject) most s =
    -- The empty text counts as no subject.
    if subject == ""
    then false
    else leb most (
        length (
          filter (λ c. charged_to subject s c && not (is_disabled c.lifecycle_status))
            (values s.clients)))

-- `client?.projectId ?? ""`
abbrev pub project_of : Option OidcClientRecord → String
project_of none = ""
project_of (some c) = c.project_id

unfoldable pub updated_result : String → ClientStore → ClientStore × RevisionMutationResult
updated_result client_id s = elim (memory_managed client_id s) [
  | none ↦ (s, RevisionMutationResult.version_conflict)
  | some m ↦ (s, RevisionMutationResult.updated m)
]
