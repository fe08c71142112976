-- ===== src/Contracts.antt =====
-- persistence/contracts.ts: the records that the stores keep and the results that they return,
-- with management/management-error.ts. A time is a count of milliseconds: the source keeps
-- times as ISO strings of one fixed width, which compare as these numbers do.
use cqut_auth.Base.{
  Bool, some, if◌then◌else◌, subst, if◌then◌else◌, Bool, some, subst, ◌≡◌, refl, ◌⊎◌, inl, inr, ℕ,
  String, List, Option, none, string_eq,
}

-- `throw new ClientManagementError(status, code, message, field, retryAfterSeconds)`
pub record ClientManagementError : Type 0 where
  pub status : ℕ
  pub code : String
  pub message : String
  pub field : Option String
  pub retry_after_seconds : Option ℕ

-- What is thrown: an error of the management interface, or a plain `Error` with its message.
pub data Failure : Type 0 where
  management : ClientManagementError → Failure
  error : String → Failure

abbrev pub client_management_error : ℕ → String → String → Failure
client_management_error status code message = management (record {
  status = status;
  code = code;
  message = message;
  field = none;
  retry_after_seconds = none;
})

-- A call that may throw.
pub data Result {ℓ} (A : Type ℓ) : Type ℓ where
  ok : A → Result A
  err : Failure → Result A

pub Result-cases {ℓ} :
    {A : Type ℓ} (r : Result A) → ((a : A) × (r ≡ ok a)) ⊎ ((e : Failure) × (r ≡ err e))
Result-cases (ok a) = inl (a, refl)
Result-cases (err e) = inr (e, refl)

-- Goes on with the answer of a call, unless that call threw.
infixl 5 ◌>>=◌
abbrev pub ◌>>=◌ {ℓ κ} : {A : Type ℓ} {B : Type κ} → Result A → (A → Result B) → Result B
◌>>=◌ (ok answer) next = next answer
◌>>=◌ (err thrown) next = err thrown

-- The same, for the calls whose proofs go step by step and do not compute.
infixl 5 ◌>>>◌
unfoldable pub ◌>>>◌ {ℓ κ} : {A : Type ℓ} {B : Type κ} → Result A → (A → Result B) → Result B
◌>>>◌ (ok answer) next = next answer
◌>>>◌ (err thrown) next = err thrown

-- `if (wrong) throw thrown`
abbrev pub refuse : Bool → Failure → Result (Unit {0})
refuse wrong thrown = if wrong then err thrown else ok tt

-- What is there, or a throw.
abbrev pub or_fail {ℓ} : {A : Type ℓ} → Option A → Failure → Result A
or_fail none thrown = err thrown
or_fail (some a) thrown = ok a

-- `P` holds of the answer of a call that does not throw.
abbrev pub Ensures {ℓ κ} : {A : Type ℓ} → (A → Type κ) → Result A → Type κ
Ensures P (ok a) = P a
Ensures P (err _) = Unit

pub bind-Ensures {ℓ κ ι} :
    {A : Type ℓ} {B : Type κ} (P : B → Type ι) (r : Result A) (k : A → Result B)
    → ((a : A) → r ≡ ok a → Ensures P (k a))
    → Ensures P (r >>> k)
unfolding ◌>>>◌
bind-Ensures P (ok a) k h = h a refl
bind-Ensures P (err e) k h = tt

pub ok-Ensures {ℓ κ} :
    {A : Type ℓ} (P : A → Type κ) (r : Result A) (a : A) → Ensures P r → r ≡ ok a → P a
ok-Ensures P r a h e = subst (Ensures P) e h

abbrev pub system_project_id : String
system_project_id = "system"

pub data ClientLifecycleStatus : Type 0 where
  draft active disabled : ClientLifecycleStatus

pub data ClientSecretStatus : Type 0 where
  active retiring revoked : ClientSecretStatus

pub data ClientRevisionStatus : Type 0 where
  draft pending approved rejected cancelled : ClientRevisionStatus

pub data ProjectStatus : Type 0 where
  active archived : ProjectStatus

pub data ProjectRole : Type 0 where
  owner maintainer viewer : ProjectRole

pub record ProjectRecord : Type 0 where
  pub project_id : String
  pub name : String
  pub description : String
  pub status : ProjectStatus
  pub created_by_subject_id : Option String
  pub version : ℕ
  pub created_at : ℕ
  pub updated_at : ℕ

pub record ProjectMemberRecord : Type 0 where
  pub project_id : String
  pub subject_id : String
  pub role : ProjectRole
  pub created_at : ℕ
  pub updated_at : ℕ

pub data ProjectAuditAction : Type 0 where
  client_initialized client_created client_updated client_disabled : ProjectAuditAction
  client_secret_generated client_secret_rotated client_secret_retired : ProjectAuditAction
  client_secret_revoked client_authorizations_revoked : ProjectAuditAction
  client_emergency_disabled : ProjectAuditAction
  revision_created revision_updated revision_submitted revision_withdrawn : ProjectAuditAction
  revision_approved revision_rejected revision_cancelled revision_activated : ProjectAuditAction
  project_created project_updated project_archived : ProjectAuditAction
  project_member_added project_member_removed project_member_role_changed : ProjectAuditAction
  project_ownership_transferred : ProjectAuditAction

pub record ProjectAuditRecord : Type 0 where
  pub id : Option ℕ
  pub project_id : String
  pub client_id : Option String
  pub revision_id : Option ℕ
  pub revision_number : Option ℕ
  pub secret_id : Option String
  pub actor_subject_id : Option String
  pub target_subject_id : Option String
  pub action : ProjectAuditAction
  pub changed_fields : List String
  pub previous_client_status : Option ClientLifecycleStatus
  pub new_client_status : Option ClientLifecycleStatus
  pub previous_revision_status : Option ClientRevisionStatus
  pub new_revision_status : Option ClientRevisionStatus
  pub previous_role : Option ProjectRole
  pub new_role : Option ProjectRole
  pub reason : Option String
  pub source_ip : Option String
  pub created_at : ℕ

pub data ProjectMutationResult : Type 0 where
  updated : ProjectRecord → ProjectMutationResult
  version_conflict last_owner_required member_not_found : ProjectMutationResult
  member_exists subject_not_found : ProjectMutationResult
