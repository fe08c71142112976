-- ===== src/Clients/Records.antt =====
-- The client records of persistence/contracts.ts, and the state of the in-memory client store.
use cqut_auth.Base.{ℕ, String, Bool, List, [], Option}
use cqut_auth.Contracts.{ClientLifecycleStatus, ClientSecretStatus, ClientRevisionStatus}
use cqut_auth.Dict.{Dict}

pub data ClientType : Type 0 where
  web spa : ClientType

pub record OidcClientRecord : Type 0 where
  pub client_id : String
  pub project_id : String
  pub display_name : String
  pub description : String
  pub created_by_subject_id : Option String
  pub client_type : ClientType
  pub auto_consent : Bool
  pub require_pkce : Bool
  pub lifecycle_status : ClientLifecycleStatus
  pub active_revision_id : Option ℕ
  pub authorization_generation : ℕ
  pub created_at : ℕ
  pub updated_at : ℕ
  pub version : ℕ

pub record OidcClientSecretRecord : Type 0 where
  pub secret_id : String
  pub client_id : String
  pub secret_digest : String
  pub status : ClientSecretStatus
  pub created_at : ℕ
  pub expires_at : Option ℕ
  pub revoked_at : Option ℕ
  pub version : ℕ

pub record OidcClientRevisionRecord : Type 0 where
  pub revision_id : ℕ
  pub client_id : String
  pub revision_number : ℕ
  pub status : ClientRevisionStatus
  pub redirect_uris : List String
  pub post_logout_redirect_uris : List String
  pub scope_whitelist : List String
  pub rejection_reason : Option String
  pub created_at : ℕ
  pub updated_at : ℕ
  pub version : ℕ

pub record ManagedOidcClientRecord : Type 0 where
  pub client : OidcClientRecord
  pub secrets : List OidcClientSecretRecord
  pub active_revision : Option OidcClientRevisionRecord
  pub proposed_revision : Option OidcClientRevisionRecord

pub data RevisionMutationResult : Type 0 where
  updated : ManagedOidcClientRecord → RevisionMutationResult
  version_conflict : RevisionMutationResult

pub data TokenEndpointAuthMethod : Type 0 where
  client_secret_basic no_authentication : TokenEndpointAuthMethod

pub record ActiveOidcClientRecord : Type 0 where
  pub client : OidcClientRecord
  pub active_revision : OidcClientRevisionRecord
  pub application_type : String
  pub token_endpoint_auth_method : TokenEndpointAuthMethod
  pub redirect_uris : List String
  pub post_logout_redirect_uris : List String
  pub grant_types : List String
  pub response_types : List String
  pub scope_whitelist : List String
  pub allow_refresh_token_for_public_client : Bool
  pub client_secret_digests : List String

pub data ClientSecurityMutationResult : Type 0 where
  updated : ManagedOidcClientRecord → Option OidcClientSecretRecord → ClientSecurityMutationResult
  version_conflict secret_limit_exceeded secret_not_found : ClientSecurityMutationResult
  secret_rotation_cooldown : ℕ → ClientSecurityMutationResult

pub data OidcClientAuditAction : Type 0 where
  client_initialized client_created client_updated client_disabled : OidcClientAuditAction
  client_secret_generated client_secret_rotated client_secret_retired : OidcClientAuditAction
  client_secret_revoked client_authorizations_revoked : OidcClientAuditAction
  client_emergency_disabled : OidcClientAuditAction
  revision_created revision_updated revision_submitted revision_withdrawn : OidcClientAuditAction
  revision_approved revision_rejected revision_cancelled revision_activated : OidcClientAuditAction

pub record OidcClientAuditRecord : Type 0 where
  pub id : Option ℕ
  pub project_id : Option String
  pub client_id : String
  pub revision_id : Option ℕ
  pub revision_number : Option ℕ
  pub secret_id : Option String
  pub actor_subject_id : Option String
  pub action : OidcClientAuditAction
  pub changed_fields : List String
  pub previous_client_status : Option ClientLifecycleStatus
  pub new_client_status : Option ClientLifecycleStatus
  pub previous_revision_status : Option ClientRevisionStatus
  pub new_revision_status : Option ClientRevisionStatus
  pub reason : Option String
  pub source_ip : Option String
  pub created_at : ℕ

pub record ClientProjectLimits : Type 0 where
  pub max_non_disabled_clients : ℕ
  pub max_non_disabled_clients_per_subject : ℕ

-- `revocations` lists the clients whose artifacts the store has had revoked, oldest first: its
-- calls of the function that it is given for this.
pub record ClientStore : Type 0 where
  pub clients : Dict String OidcClientRecord
  pub revisions : Dict ℕ OidcClientRevisionRecord
  pub secrets : Dict String OidcClientSecretRecord
  pub audits : List OidcClientAuditRecord
  pub client_quota_subjects : Dict String (Option String)
  pub next_revision_id : ℕ
  pub revocations : List String

abbrev pub empty : ClientStore
empty = record {
  clients = [];
  revisions = [];
  secrets = [];
  audits = [];
  client_quota_subjects = [];
  next_revision_id = 1;
  revocations = [];
}
