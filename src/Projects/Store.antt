-- ===== src/Projects/Store.antt =====
-- persistence/project.repository.ts without a database: the in-memory project store. Each call
-- runs under a lock of its project (or of its creator), so it is one step from store to store.
-- Whether a subject is active is asked of the identity store: the argument `subject_exists`.
pub mod Mutations
pub mod Keys
pub mod Consistency
pub mod Keeping
pub mod Owners
pub mod History
pub mod Commits
pub mod Conflicts
pub mod Authorization
pub mod Quota
pub mod Listing
mod Tests
use Prim.Native.String.{◌++◌ as str_append}
use cqut_auth.Base.{
  ℕ, ◌+◌, String, Bool, true, false, ◌&&◌, ◌||◌, not, Option, none, some, List, [], ◌∷◌, ◌++◌,
  length, filter, take, ltb, leb, ◌==◌, nat_eq, string_eq, if◌then◌else◌,
}
use mathlib.Core.Option
use cqut_auth.Contracts.{
  Result, ok, err, ◌>>=◌, client_management_error, system_project_id, ProjectStatus, ProjectRole,
  owner, maintainer, viewer, ProjectRecord, ProjectMemberRecord, ProjectAuditAction,
  ProjectAuditRecord, ProjectMutationResult,
}
use cqut_auth.Dict
use cqut_auth.Dict.{Dict, values}
use cqut_auth.Projects.Access.{
  ProjectActor, ProjectWriteAuthorization, assert_project_access, not_found,
}

pub record ProjectStore : Type 0 where
  pub projects : Dict String ProjectRecord
  pub members : Dict String ProjectMemberRecord
  pub audits : List ProjectAuditRecord
  pub next_audit_id : ℕ

abbrev pub empty : ProjectStore
empty = record { projects = []; members = []; audits = []; next_audit_id = 1 }

unfoldable pub member_key : String → String → String
member_key project_id subject_id = str_append project_id (str_append "\0" subject_id)

abbrev pub is_owner : ProjectRole → Bool
is_owner owner = true
is_owner _ = false

abbrev pub is_active : ProjectStatus → Bool
is_active ProjectStatus.active = true
is_active ProjectStatus.archived = false

-- `a === b` where either may be null
abbrev pub same_id : Option String → Option String → Bool
same_id none none = true
same_id (some a) (some b) = a == b
same_id _ _ = false

abbrev pub owner_of : String → ProjectMemberRecord → Bool
owner_of project_id member = member.project_id == project_id && is_owner member.role

unfoldable pub push_audit : ProjectAuditRecord → ProjectStore → ProjectStore
push_audit audit s = record s {
  audits = s.audits ++ (record audit { id = some s.next_audit_id }) ∷ [];
  next_audit_id = s.next_audit_id + 1;
}

unfoldable pub push_audits : List ProjectAuditRecord → ProjectStore → ProjectStore
push_audits [] s = s
push_audits (audit ∷ more) s = push_audits more (push_audit audit s)

unfoldable pub find_project : String → ProjectStore → Option ProjectRecord
find_project project_id s = Dict.get project_id s.projects

unfoldable pub find_project_role : String → String → ProjectStore → Option ProjectRole
find_project_role project_id subject_id s =
    Option.map (λ m. m.role) (Dict.get (member_key project_id subject_id) s.members)

pub member : String → String → ProjectStore → Option ProjectMemberRecord
member project_id subject_id s = Dict.get (member_key project_id subject_id) s.members

abbrev pub owner_count : String → ProjectStore → ℕ
owner_count project_id s = length (filter (owner_of project_id) (values s.members))

abbrev pub system_project : ℕ → ProjectRecord
system_project now = record {
  project_id = system_project_id;
  name = "System";
  description = "Bootstrap OIDC clients";
  status = ProjectStatus.active;
  created_by_subject_id = none;
  version = 1;
  created_at = now;
  updated_at = now;
}

-- An audit record with the optional fields left out.
abbrev pub plain_audit :
    String → Option String → ProjectAuditAction → List String → ℕ → ProjectAuditRecord
plain_audit project_id actor action changed now = record {
  id = none;
  project_id = project_id;
  client_id = none;
  revision_id = none;
  revision_number = none;
  secret_id = none;
  actor_subject_id = actor;
  target_subject_id = none;
  action = action;
  changed_fields = changed;
  previous_client_status = none;
  new_client_status = none;
  previous_revision_status = none;
  new_revision_status = none;
  previous_role = none;
  new_role = none;
  reason = none;
  source_ip = none;
  created_at = now;
}

abbrev pub system_audit : ℕ → ProjectAuditRecord
system_audit =
    plain_audit system_project_id none ProjectAuditAction.project_created
      ("name" ∷ "description" ∷ "status" ∷ [])

-- `now` is the time of the call.
unfoldable pub ensure_system_project : ℕ → ProjectStore → ProjectStore × ProjectRecord
unfolding find_project
ensure_system_project now s = elim (find_project system_project_id s) [
  | some existing ↦ (s, existing)
  | none ↦ (
    push_audit (system_audit now)
        (record s { projects = Dict.set system_project_id (system_project now) s.projects }),
    system_project now,
  )
]

-- `candidate.createdBySubjectId === owner.subjectId && candidate.status === "active"`
abbrev pub counts_against : String → ProjectRecord → Bool
counts_against subject_id p =
    same_id p.created_by_subject_id (some subject_id) && is_active p.status

-- `limits?.maxActiveProjects`: with no limit the quota is never reached.
abbrev pub quota_reached : Option ℕ → ℕ → Bool
quota_reached none n = false
quota_reached (some most) n = leb most n

unfoldable pub create_project :
    ProjectRecord
    → ProjectMemberRecord
    → ProjectAuditRecord
    → Option ℕ
    → ProjectStore
    → ProjectStore × Option ProjectRecord
create_project project creator audit limits s =
    if quota_reached limits
      (length (filter (counts_against creator.subject_id) (values s.projects)))
    then (s, none)
    else (
      push_audit audit (record s {
        projects = Dict.set project.project_id project s.projects;
        members = Dict.set (member_key project.project_id creator.subject_id) creator s.members;
      }),
      some project,
    )

abbrev pub or_throw {ℓ} : {A : Type ℓ} → Bool → Result A → Result A
or_throw true r = r
or_throw false r = err (client_management_error 404 "not_found" "client not found")

-- `withMemoryProjectWrite` up to its call of the mutation: the project that the mutation gets.
unfoldable pub authorize_write :
    ProjectWriteAuthorization → String → ProjectStore → Result ProjectRecord
authorize_write auth client_project_id s =
    assert_project_access auth.actor (Dict.get auth.project_id s.projects)
      (Option.map (λ m. m.role)
        (Dict.get (member_key auth.project_id auth.actor.subject_id) s.members))
      auth.action
    >>= λ _.
        or_throw (client_project_id == auth.project_id)
          (elim (Dict.get auth.project_id s.projects) [ none ↦ err not_found | some p ↦ ok p ])
