-- ===== src/Clients/Tests.antt =====
-- Runs of the client store, and the theorems at them.
use cqut_auth.Base.{
  ap, count, ◌≤◌, ℕ, String, true, false, Option, none, some, [], ◌∷◌, ◌≡◌, ◌≢◌, ◌⊎◌, refl, arith,
  length, string_eq, nat_eq,
}
use cqut_auth.Contracts.{
  owner, Result, ok, err, ClientLifecycleStatus, ClientSecretStatus, ClientRevisionStatus,
  ProjectStatus, ProjectRecord,
}
use cqut_auth.Dict
use cqut_auth.Dict.{values}
use cqut_auth.Clients.Records.{
  ClientProjectLimits, ClientType, OidcClientRecord, OidcClientSecretRecord,
  OidcClientRevisionRecord, OidcClientAuditRecord, OidcClientAuditAction, ManagedOidcClientRecord,
  ClientSecurityMutationResult, ClientStore, empty,
}
use cqut_auth.Clients.Queries.{
  revision_of, proposed_for, memory_managed, find_oidc_client, to_active, assign_revision_id,
  project_quota_exceeded, subject_client_quota_exceeded, updated_result,
}
use cqut_auth.Clients.Registration.{
  quota_exceeded, stored_client, insert_client, create_locked, MetadataPatch, apply_patch,
  create_oidc_client, update_oidc_client_metadata, update_metadata_locked,
}
use cqut_auth.Clients.Secrets.{
  retry_after, newest_secret, cooldown, retire_active, delete_all, prune_terminal, rotate,
  rotate_oidc_client_secret, revoke_oidc_client_secret, rotate_locked, revoke_known, revoke_locked,
}
use cqut_auth.Clients.Secrets.Limits.{Rotated, rotate_locked-Rotated}
use cqut_auth.Clients.Lifecycle.{
  disabled_client, cancel_all, revoke_all, revoke_audits, disable_oidc_client,
  revoke_oidc_client_authorizations, disable, disable_locked, revoke_authorizations_locked,
}
use cqut_auth.Clients.Calls.{Write, update_metadata, rotate_secret, perform, perform_alone}
use cqut_auth.Clients.Quota.{counts_in, create_locked-counts_in}
use cqut_auth.Dict.{values}
use cqut_auth.Clients.Authorized.{submit, submit-Authorized}
use cqut_auth.Projects.Store.{ProjectStore, authorize_write, member_key}
use cqut_auth.Projects.Store.Authorization.{Authorized}
use cqut_auth.Projects.Access.{ProjectAction, ProjectWriteAuthorization, assert_project_access}
use cqut_auth.Clients.Revisions.{save_oidc_client_revision}
use cqut_auth.Clients.Keyed.{IsKeyed}
use cqut_auth.Clients.Keyed.Preservation.{create_locked-IsKeyed}
use cqut_auth.Clients.Keyed.Writes.{perform-IsKeyed}
use cqut_auth.Clients.Disabling.{Disabled, disable_locked-Disabled}
use cqut_auth.Clients.Standing.{Succeeds, perform_alone-Succeeds}
use cqut_auth.Clients.Standing.Conflicts.{perform_alone_conflict}

stores : Unit {0}
unfolding revision_of proposed_for memory_managed find_oidc_client to_active assign_revision_id
    project_quota_exceeded subject_client_quota_exceeded updated_result quota_exceeded stored_client
    insert_client create_locked update_metadata_locked retry_after newest_secret cooldown
    retire_active delete_all prune_terminal rotate rotate_locked revoke_known revoke_locked
    cancel_all revoke_all revoke_audits disable disable_locked revoke_authorizations_locked perform
    perform_alone submit create_oidc_client update_oidc_client_metadata save_oidc_client_revision
    rotate_oidc_client_secret revoke_oidc_client_secret disable_oidc_client
    revoke_oidc_client_authorizations authorize_write member_key assert_project_access Dict.get
    Dict.set Dict.delete Dict.has
stores = tt

abbrev shop : ProjectRecord
shop = record {
  project_id = "shop";
  name = "Shop";
  description = "";
  status = ProjectStatus.active;
  created_by_subject_id = some "ann";
  version = 1;
  created_at = 0;
  updated_at = 0;
}

abbrev till : OidcClientRecord
till = record {
  client_id = "till";
  project_id = "shop";
  display_name = "Till";
  description = "";
  created_by_subject_id = some "ann";
  client_type = ClientType.web;
  auto_consent = false;
  require_pkce = true;
  lifecycle_status = ClientLifecycleStatus.active;
  active_revision_id = none;
  authorization_generation = 1;
  created_at = 0;
  updated_at = 0;
  version = 1;
}

abbrev secret : String → ℕ → OidcClientSecretRecord
secret id at = record {
  secret_id = id;
  client_id = "till";
  secret_digest = "";
  status = ClientSecretStatus.active;
  created_at = at;
  expires_at = none;
  revoked_at = none;
  version = 1;
}

abbrev proposal : OidcClientRevisionRecord
proposal = record {
  revision_id = 0;
  client_id = "till";
  revision_number = 1;
  status = ClientRevisionStatus.pending;
  redirect_uris = "https://shop.test/cb" ∷ [];
  post_logout_redirect_uris = [];
  scope_whitelist = "openid" ∷ [];
  rejection_reason = none;
  created_at = 0;
  updated_at = 0;
  version = 1;
}

abbrev note : OidcClientAuditRecord
note = record {
  id = none;
  project_id = some "shop";
  client_id = "till";
  revision_id = none;
  revision_number = none;
  secret_id = none;
  actor_subject_id = some "ann";
  action = OidcClientAuditAction.client_updated;
  changed_fields = [];
  previous_client_status = none;
  new_client_status = none;
  previous_revision_status = none;
  new_revision_status = none;
  reason = none;
  source_ip = none;
  created_at = 0;
}

abbrev stored : Result (ClientStore × Option ManagedOidcClientRecord) → ClientStore
stored (ok (s, m)) = s
stored (err e) = empty

abbrev answer :
    Result (ClientStore × Option ManagedOidcClientRecord) → Option ManagedOidcClientRecord
answer (ok (s, m)) = m
answer (err e) = none

-- The store after the client was created with its first secret and a pending revision.
abbrev registered : ClientStore
registered =
    stored (create_locked till proposal (some (secret "first" 0)) (note ∷ []) none shop empty)

empty-IsKeyed : IsKeyed empty
empty-IsKeyed = record {
  client_keys = tt;
  revisions_map = tt;
  revision_keys = tt;
  secrets_map = tt;
  secret_keys = tt;
}

registered-IsKeyed : IsKeyed registered
unfolding stores
registered-IsKeyed =
    create_locked-IsKeyed till proposal (some (secret "first" 0)) (note ∷ []) none shop empty
      {t = registered}
      {m = answer
        (create_locked till proposal (some (secret "first" 0)) (note ∷ []) none shop empty)}
      refl empty-IsKeyed

abbrev rotation : Write
rotation = rotate_secret (secret "second" 900000) 1 60 1 note

perform-IsKeyed_example :
    IsKeyed (perform (Dict.get "till" registered.clients) "till" rotation registered)
unfolding stores
perform-IsKeyed_example =
    perform-IsKeyed (Dict.get "till" registered.clients) "till" rotation registered refl
      registered-IsKeyed

-- The client in the store after a rotation, with its version raised and its secrets.
abbrev managed : ClientSecurityMutationResult → ManagedOidcClientRecord → ManagedOidcClientRecord
managed (ClientSecurityMutationResult.updated m x) other = m
managed _ other = other

abbrev plain : ManagedOidcClientRecord
plain = record { client = till; secrets = []; active_revision = none; proposed_revision = none }

abbrev rotated : ClientStore × ClientSecurityMutationResult
rotated = rotate_locked (some till) "till" (secret "second" 900000) 1 60 1 note registered

rotate_locked-Rotated_example : Rotated "till" (secret "second" 900000) rotated.0.secrets
unfolding stores
rotate_locked-Rotated_example =
    rotate_locked-Rotated till "till" (secret "second" 900000) 1 60 1 note registered rotated.0
      (managed rotated.1 plain) registered-IsKeyed (λ q. ground arith) refl refl refl refl

abbrev ended : ClientStore × Option ManagedOidcClientRecord
ended = disable_locked (some till) "till" 1 5 note [] registered

abbrev or_plain : Option ManagedOidcClientRecord → ManagedOidcClientRecord
or_plain none = plain
or_plain (some m) = m

disable_locked-Disabled_example : Disabled "till" 5 till registered ended.0
unfolding stores
disable_locked-Disabled_example =
    disable_locked-Disabled till "till" 1 5 note [] registered ended.0 (or_plain ended.1)
      registered-IsKeyed refl

abbrev patch : MetadataPatch
patch = record { display_name = "Register"; description = ""; require_pkce = true; updated_at = 6 }

perform_alone-Succeeds_example :
    ((d : OidcClientRecord) × (Dict.get "till"
          (perform_alone "till" (update_metadata patch 1 note) registered).clients
        ≡ some d)
      × ((d ≡ till) ⊎ Succeeds till d))
    × ((q : String)
        → "till" ≢ q
        → Dict.get q (perform_alone "till" (update_metadata patch 1 note) registered).clients
          ≡ Dict.get q registered.clients)
unfolding stores
perform_alone-Succeeds_example =
    perform_alone-Succeeds "till" (update_metadata patch 1 note) registered till refl

abbrev disabled_store : ClientStore
disabled_store = perform_alone "till" (Write.disable 1 5 note []) registered

-- The client is disabled, and an update that expects the version before comes too late.
perform_alone_conflict_example :
    perform_alone "till" (update_metadata patch 1 note) disabled_store ≡ disabled_store
unfolding stores
perform_alone_conflict_example =
    perform_alone_conflict "till" (Write.disable 1 5 note []) (update_metadata patch 1 note)
      registered till (disabled_client 5 till) refl refl
      (λ same. ground (arith, ap (λ x. x.version) same)) refl

-- Where the update has read the client before the call that disables it, it is carried out, and
-- the client is not disabled any more.
overtaken :
    Dict.get "till"
      (perform
        (some till)
        "till"
        (update_metadata patch 1 note)
        (perform (some till) "till" (Write.disable 1 5 note []) registered)).clients
    ≡ some (apply_patch patch till)
unfolding stores
overtaken = refl

-- A creation, and one over the quota.
create_locked_tests :
    (length registered.secrets ≡ 1)
    × (length registered.revisions ≡ 1)
    × (create_locked till proposal none []
          (some (record { max_non_disabled_clients = 0; max_non_disabled_clients_per_subject = 9 }))
          shop
          empty
        ≡ ok (empty, none))
unfolding stores
create_locked_tests = (refl, refl, refl)

abbrev projects : ProjectStore
projects = record {
  projects = ("shop", shop) ∷ [];
  members =
      (
        "shop\0ann",
        record {
          project_id = "shop";
          subject_id = "ann";
          role = owner;
          created_at = 0;
          updated_at = 0;
        },
      )
      ∷ [];
  audits = [];
  next_audit_id = 1;
}

abbrev writing : ProjectWriteAuthorization
writing = record {
  actor = record { subject_id = "ann"; is_admin = false; source_ip = none };
  project_id = "shop";
  action = ProjectAction.write_client;
}

abbrev changed : ClientStore
changed = perform (some till) "till" (update_metadata patch 1 note) registered

submit-Authorized_example :
    (p : ProjectRecord) × Authorized writing "shop" projects p
    × (changed ≡ perform (some till) "till" (update_metadata patch 1 note) registered)
unfolding stores
submit-Authorized_example =
    submit-Authorized (some till) "till" (update_metadata patch 1 note) writing projects registered
      changed refl

abbrev two : ClientProjectLimits
two = record { max_non_disabled_clients = 2; max_non_disabled_clients_per_subject = 9 }

abbrev kiosk : OidcClientRecord
kiosk = record till { client_id = "kiosk" }

abbrev grown : Result (ClientStore × Option ManagedOidcClientRecord)
grown = create_locked kiosk proposal none [] (some two) shop registered

create_locked-counts_in_example : count (counts_in "shop") (values (stored grown).clients) ≤ 2
unfolding stores
create_locked-counts_in_example =
    create_locked-counts_in kiosk proposal none [] two shop registered (stored grown)
      (or_plain (answer grown)) refl
