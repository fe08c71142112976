-- ===== src/Projects/Management.antt =====
-- ProjectManagementService of projects/project-management.service.ts: the calls of the management
-- interface on the project store. A call checks the access and reads the project and its members
-- at one state of the store, `seen`, and has its mutation run at another, since other calls may
-- be served while it waits. A change is therefore two parts: the mutation that it asks for, or
-- the error that it throws before it, and its answer. The time and the new project's identifier
-- are arguments.
pub mod Outcomes
pub mod Rights
mod Tests
use Prim.Native.String.{◌++◌ as str_append}
use cqut_auth.Base.{
  given, ℕ, String, Bool, true, false, not, ◌&&◌, ◌||◌, Option, none, some, List, [], ◌∷◌, ◌++◌,
  map, find, ◌==◌, string_eq, if◌then◌else◌,
}
use cqut_auth.Contracts.{
  or_fail, refuse, Result, ok, err, Failure, client_management_error, ◌>>>◌, system_project_id,
  ProjectStatus, ProjectRole, owner, maintainer, viewer, ProjectRecord, ProjectMemberRecord,
  ProjectAuditAction, ProjectAuditRecord, ProjectMutationResult,
}
use cqut_auth.Body.{
  Json, Members, Platform, undefined, text, field, assert_allowed_keys, parse_positive_version,
  parse_text, invalid_request,
}
use cqut_auth.Projects.Access.{ProjectActor, ProjectAction, capabilities, not_found}
use cqut_auth.Projects.Service.{require}
use cqut_auth.Projects.Store.{
  ProjectStore, find_project_role, create_project, plain_audit, is_owner, is_active,
}
use cqut_auth.Projects.Store.History.{Mutation, update, add, change_role, remove, transfer, perform}
use cqut_auth.Projects.Store.Listing.{
  list_projects_for_subject, list_project_members, list_project_audit_logs,
}

pub record ProjectManagementServiceLimits : Type 0 where
  pub max_active_projects : Option ℕ
  pub admin_quota_exempt : Option Bool

-- The fields of the record, which the source copies one by one, the role, and what the actor may
-- do.
pub record PublicProject : Type 0 where
  pub project : ProjectRecord
  pub role : Option ProjectRole
  pub capabilities : List ProjectAction

unfoldable pub public_project : ProjectActor → ProjectRecord → Option ProjectRole → PublicProject
public_project actor project role = record {
  project = project;
  role = role;
  capabilities = capabilities actor project role;
}

-- `audit` with the fields that every record has; its callers add theirs.
abbrev pub audit : ProjectActor → String → ProjectAuditAction → ℕ → List String → ProjectAuditRecord
audit actor project_id action created_at changed =
    record (plain_audit project_id (some actor.subject_id) action changed created_at) {
      source_ip = given actor.source_ip;
    }

abbrev invalid : String → Failure
invalid name = invalid_request (str_append "invalid " name) (some name)

abbrev pub conflict : Failure
conflict =
    client_management_error 409 "version_conflict" "project changed concurrently; reload and retry"

abbrev pub member_missing : Failure
member_missing = client_management_error 404 "not_found" "member not found"

unfoldable pub parse_role : Json → Result ProjectRole
parse_role (text value) =
    if value == "owner"
    then ok owner
    else if value == "maintainer"
    then ok maintainer
    else if value == "viewer"
    then ok viewer
    else err (invalid "role")
parse_role _ = err (invalid "role")

abbrev pub version : Json → Result ℕ
version value = parse_positive_version value "expectedProjectVersion"

unfoldable pub reject_system_members : String → Result (Unit {0})
reject_system_members project_id = if project_id == system_project_id then err not_found else ok tt

-- `value === undefined ? current : parse(value)`
abbrev pub or_current {ℓ} : {A : Type ℓ} → Json → A → (Json → Result A) → Result A
or_current undefined current parse = ok current
or_current value current parse = parse value

unfoldable pub parse_status : Json → Result ProjectStatus
parse_status (text value) =
    if value == "active"
    then ok ProjectStatus.active
    else if value == "archived"
    then ok ProjectStatus.archived
    else err (invalid "status")
parse_status _ = err (invalid "status")

-- `value ?? ""`
abbrev or_empty : Json → Json
or_empty undefined = text ""
or_empty Json.null = text ""
or_empty value = value

abbrev same_status : ProjectStatus → ProjectStatus → Bool
same_status a b = if is_active a then is_active b else not (is_active b)

abbrev named : Bool → String → List String
named true name = name ∷ []
named false name = []

module _ (platform : Platform) where
  -- `create` up to its call of the store: the project, its owner, and the audit record.
  unfoldable pub new_project :
      ProjectActor
      → String
      → ℕ
      → Json
      → Result (ProjectRecord × ProjectMemberRecord × ProjectAuditRecord)
  new_project actor id now raw = assert_allowed_keys raw ("name" ∷ "description" ∷ []) >>> λ body.
      parse_text platform (field "name" body) "name" 1 100 >>> λ name.
      parse_text platform (or_empty (field "description" body)) "description" 0 1000
      >>> λ description. ok (
        record {
          project_id = id;
          name = name;
          description = description;
          status = ProjectStatus.active;
          created_by_subject_id = some actor.subject_id;
          version = 1;
          created_at = now;
          updated_at = now;
        },
        record {
          project_id = id;
          subject_id = actor.subject_id;
          role = owner;
          created_at = now;
          updated_at = now;
        },
        audit actor id ProjectAuditAction.project_created now
            ("name" ∷ "description" ∷ "status" ∷ []),
      )

  abbrev update_record :
      ProjectActor
      → String
      → ℕ
      → ProjectRecord
      → ℕ
      → String
      → String
      → ProjectStatus
      → Result Mutation
  update_record actor project_id now project expected name description status =
      refuse (project_id == system_project_id && not (is_active status))
        (client_management_error 409 "system_project" "system project cannot be archived")
      >>> λ _.
          refuse
            (not (is_active project.status)
              || (is_active status && name == project.name && description == project.description))
            (client_management_error 400 "invalid_request" "project must change")
          >>> λ _. ok (
              update project_id expected
                (record {
                  name = name;
                  description = description;
                  status = status;
                  updated_at = now;
                })
                (audit actor project_id
                  (if is_active status
                    then ProjectAuditAction.project_updated
                    else ProjectAuditAction.project_archived)
                  now
                  (named (not (name == project.name)) "name"
                    ++ (named (not (description == project.description)) "description"
                        ++ named (not (same_status status project.status)) "status"))))

  unfoldable pub update_change : ProjectActor → String → ℕ → Json → ProjectStore → Result Mutation
  update_change actor project_id now raw seen =
      require actor project_id ProjectAction.manage_project seen >>> λ found.
      assert_allowed_keys raw ("expectedProjectVersion" ∷ "name" ∷ "description" ∷ "status" ∷ [])
      >>> λ body. version (field "expectedProjectVersion" body) >>> λ expected.
          or_current (field "name" body) found.0.name (λ v. parse_text platform v "name" 1 100)
          >>> λ name.
              or_current (field "description" body) found.0.description
                (λ v. parse_text platform v "description" 0 1000)
              >>> λ description.
                  or_current (field "status" body) found.0.status parse_status >>> λ status.
                  update_record actor project_id now found.0 expected name description status

  unfoldable pub add_member_change :
      ProjectActor → String → ℕ → Json → ProjectStore → Result Mutation
  add_member_change actor project_id now raw seen = reject_system_members project_id >>> λ _.
      require actor project_id ProjectAction.manage_members seen >>> λ _.
      assert_allowed_keys raw ("subjectId" ∷ "role" ∷ "expectedProjectVersion" ∷ []) >>> λ body.
      parse_text platform (field "subjectId" body) "subjectId" 1 200 >>> λ subject_id.
      parse_role (field "role" body) >>> λ role.
      version (field "expectedProjectVersion" body) >>> λ expected. ok (
        add
          (record {
            project_id = project_id;
            subject_id = subject_id;
            role = role;
            created_at = now;
            updated_at = now;
          })
          expected
          (record (audit actor project_id ProjectAuditAction.project_member_added now
            ("role" ∷ [])) { target_subject_id = some subject_id; new_role = some role }))

  abbrev member_of : String → List ProjectMemberRecord → Option ProjectMemberRecord
  member_of subject_id = find (λ m. m.subject_id == subject_id)

  unfoldable pub update_member_change :
      ProjectActor → String → String → ℕ → Json → ProjectStore → Result Mutation
  update_member_change actor project_id subject_id now raw seen =
      reject_system_members project_id >>> λ _.
      require actor project_id ProjectAction.manage_members seen >>> λ _.
      assert_allowed_keys raw ("role" ∷ "expectedProjectVersion" ∷ []) >>> λ body.
      or_fail (member_of subject_id (list_project_members project_id seen)) member_missing
      >>> λ current. parse_role (field "role" body) >>> λ role.
          version (field "expectedProjectVersion" body) >>> λ expected. ok (
            change_role project_id subject_id role expected now
              (record (audit actor project_id ProjectAuditAction.project_member_role_changed now
                ("role" ∷ [])) {
                  target_subject_id = some subject_id;
                  previous_role = some current.role;
                  new_role = some role;
                }))

  unfoldable pub remove_member_change :
      ProjectActor → String → String → ℕ → Json → ProjectStore → Result Mutation
  remove_member_change actor project_id subject_id now raw seen =
      reject_system_members project_id >>> λ _.
      require actor project_id ProjectAction.manage_members seen >>> λ _.
      assert_allowed_keys raw ("expectedProjectVersion" ∷ []) >>> λ body.
      or_fail (member_of subject_id (list_project_members project_id seen)) member_missing
      >>> λ current. version (field "expectedProjectVersion" body) >>> λ expected. ok (
          remove project_id subject_id expected now
            (record (audit actor project_id ProjectAuditAction.project_member_removed now
              ("role" ∷ [])) {
                target_subject_id = some subject_id;
                previous_role = some current.role;
              }))

  abbrev role_change :
      ProjectActor → String → ℕ → String → ProjectRole → ProjectRole → ProjectAuditRecord
  role_change actor project_id now subject_id previous new =
      record (audit actor project_id ProjectAuditAction.project_member_role_changed now
        ("role" ∷ [])) {
          target_subject_id = some subject_id;
          previous_role = some previous;
          new_role = some new;
        }

  abbrev transfer_records :
      ProjectActor → String → ℕ → String → String → ProjectRole → List ProjectAuditRecord
  transfer_records actor project_id now from to role =
      record (audit actor project_id ProjectAuditAction.project_ownership_transferred now
        ("role" ∷ [])) { target_subject_id = some to }
      ∷ role_change actor project_id now from owner maintainer
      ∷ role_change actor project_id now to role owner
      ∷ []

  abbrev no_target : Failure
  no_target = client_management_error 404 "not_found" "transfer target not found"

  -- `!source || !target || target.role === "owner"`, with the target's role where it goes on.
  abbrev transfer_target : String → String → List ProjectMemberRecord → Option ProjectRole
  transfer_target from to members =
      elim (find (λ m. m.subject_id == from && is_owner m.role) members) [
        | none ↦ none
        | some _ ↦ elim (member_of to members) [
          | none ↦ none
          | some target ↦ if is_owner target.role then none else some target.role
        ]
      ]

  unfoldable pub transfer_change : ProjectActor → String → ℕ → Json → ProjectStore → Result Mutation
  transfer_change actor project_id now raw seen = reject_system_members project_id >>> λ _.
      require actor project_id ProjectAction.manage_members seen >>> λ _.
      assert_allowed_keys raw ("fromSubjectId" ∷ "toSubjectId" ∷ "expectedProjectVersion" ∷ [])
      >>> λ body. parse_text platform (field "fromSubjectId" body) "fromSubjectId" 1 200 >>> λ from.
          parse_text platform (field "toSubjectId" body) "toSubjectId" 1 200 >>> λ to.
          refuse (from == to) (invalid "toSubjectId") >>> λ _.
          refuse (not actor.is_admin && not (from == actor.subject_id)) (
            client_management_error 403 "access_denied"
              "project owners can only transfer their own ownership")
          >>> λ _.
              or_fail (transfer_target from to (list_project_members project_id seen)) no_target
              >>> λ role. version (field "expectedProjectVersion" body) >>> λ expected. ok (
                  transfer project_id from to expected now
                    (transfer_records actor project_id now from to role))

-- `updated`: the answer of a change, with the actor's role after it.
unfoldable pub updated :
    ProjectActor → ProjectStore × ProjectMutationResult → ProjectStore × Result PublicProject
updated actor (s, ProjectMutationResult.version_conflict) = (s, err conflict)
updated actor (s, ProjectMutationResult.last_owner_required) = (
  s,
  err (client_management_error 409 "last_owner_required" "project must retain at least one owner"),
)
updated actor (s, ProjectMutationResult.subject_not_found) =
    (s, err (client_management_error 404 "subject_not_found" "active subject not found"))
updated actor (s, ProjectMutationResult.member_not_found) = (s, err member_missing)
updated actor (s, ProjectMutationResult.member_exists) =
    (s, err (client_management_error 409 "member_exists" "member already exists"))
updated actor (s, ProjectMutationResult.updated project) =
    (s, ok (public_project actor project (find_project_role project.project_id actor.subject_id s)))

-- A change on the store that it finds when its turn comes.
unfoldable pub change :
    (String → Bool)
    → ProjectActor
    → Result Mutation
    → ProjectStore
    → ProjectStore × Result PublicProject
change active actor (err thrown) s = (s, err thrown)
change active actor (ok mutation) s = updated actor (perform active mutation s)

module _ (platform : Platform) (limits : ProjectManagementServiceLimits) where
  -- `limits.maxActiveProjects ?? 5`, and no limit for an administrator who is exempt.
  abbrev quota : ProjectActor → Option ℕ
  quota actor =
      if actor.is_admin && elim limits.admin_quota_exempt [ none ↦ true | some exempt ↦ exempt ]
      then none
      else some (elim limits.max_active_projects [ none ↦ 5 | some most ↦ most ])

  abbrev create_answer :
      ProjectActor → ProjectStore × Option ProjectRecord → ProjectStore × Result PublicProject
  create_answer actor (s, none) = (
    s,
    err (
        client_management_error 409 "project_quota_exceeded"
          "active project quota exceeded for this subject"),
  )
  create_answer actor (s, some created) = (s, ok (public_project actor created (some owner)))

  unfoldable pub create :
      ProjectActor → String → ℕ → Json → ProjectStore → ProjectStore × Result PublicProject
  create actor id now raw s = elim (new_project platform actor id now raw) [
    | err thrown ↦ (s, err thrown)
    | ok (project, creator, record_of) ↦
        create_answer actor (create_project project creator record_of (quota actor) s)
  ]

pub list : ProjectActor → ProjectStore → List PublicProject
list actor s =
    map (λ e. public_project actor e.0 e.1)
      (list_projects_for_subject actor.subject_id actor.is_admin s)

pub get : ProjectActor → String → ProjectStore → Result PublicProject
get actor project_id s = require actor project_id ProjectAction.view s >>> λ found.
    ok (public_project actor found.0 found.1)

pub members : ProjectActor → String → ProjectStore → Result (List ProjectMemberRecord)
members actor project_id s = reject_system_members project_id >>> λ _.
    require actor project_id ProjectAction.view s >>> λ _. ok (list_project_members project_id s)
