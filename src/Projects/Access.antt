-- ===== src/Projects/Access.antt =====
-- projects/project-access.ts: who may do what in a project.
pub mod Matrix
mod Tests
use cqut_auth.Base.{
  String, Bool, true, false, not, ◌&&◌, ◌||◌, Option, none, some, List, [], ◌∷◌, filter, ◌==◌,
  string_eq, if◌then◌else◌,
}
use cqut_auth.Contracts.{
  Result, ok, err, Failure, client_management_error, system_project_id, ProjectStatus, ProjectRole,
  owner, maintainer, viewer, ProjectRecord,
}

pub record ProjectActor : Type 0 where
  pub subject_id : String
  pub is_admin : Bool
  pub source_ip : Option String

pub data ProjectAction : Type 0 where
  view manage_project manage_members write_client rotate_secret : ProjectAction
  revoke_authorizations revoke_secret disable_client : ProjectAction

-- The action is never `view`, `manage_project` or `manage_members`; nothing here relies on that.
pub record ProjectWriteAuthorization : Type 0 where
  pub actor : ProjectActor
  pub project_id : String
  pub action : ProjectAction

abbrev pub not_found : Failure
not_found = client_management_error 404 "not_found" "project not found"

abbrev pub denied : Failure
denied = client_management_error 403 "access_denied" "project role is insufficient"

abbrev pub project_archived : Failure
project_archived = client_management_error 409 "project_archived" "archived projects are read-only"

abbrev is_view : ProjectAction → Bool
is_view ProjectAction.view = true
is_view _ = false

abbrev is_manage_members : ProjectAction → Bool
is_manage_members ProjectAction.manage_members = true
is_manage_members _ = false

abbrev is_archived : ProjectStatus → Bool
is_archived ProjectStatus.archived = true
is_archived ProjectStatus.active = false

-- `!!role`
abbrev pub has_role : Option ProjectRole → Bool
has_role none = false
has_role (some _) = true

-- `role === "owner"`
abbrev pub owns : Option ProjectRole → Bool
owns (some owner) = true
owns _ = false

-- `role === "maintainer"`
abbrev pub maintains : Option ProjectRole → Bool
maintains (some maintainer) = true
maintains _ = false

unfoldable pub allowed : ProjectActor → Option ProjectRole → ProjectAction → Bool
allowed actor role ProjectAction.view = has_role role || actor.is_admin
allowed actor role ProjectAction.revoke_secret = owns role || actor.is_admin
allowed actor role ProjectAction.disable_client = owns role || actor.is_admin
allowed actor role ProjectAction.manage_project = owns role
allowed actor role ProjectAction.manage_members = owns role
allowed actor role _ = owns role || maintains role

unfoldable pub is_archived_admin_action : ProjectAction → Bool
is_archived_admin_action ProjectAction.revoke_authorizations = true
is_archived_admin_action ProjectAction.revoke_secret = true
is_archived_admin_action ProjectAction.disable_client = true
is_archived_admin_action _ = false

-- `project.status === "archived" && action !== "view" && !(isAdmin && isArchivedAdminAction)`
abbrev frozen : ProjectActor → ProjectRecord → ProjectAction → Bool
frozen actor project action =
    is_archived project.status
    && not (is_view action)
    && not (actor.is_admin && is_archived_admin_action action)

abbrev unknown : ProjectActor → Option ProjectRole → Bool
unknown actor role = not (has_role role) && not actor.is_admin

unfoldable pub assert_project_access :
    ProjectActor → Option ProjectRecord → Option ProjectRole → ProjectAction → Result (Unit {0})
unfolding allowed is_archived_admin_action
assert_project_access actor none role action = err not_found
assert_project_access actor (some project) role action =
    if project.project_id == system_project_id
    then (if actor.is_admin then ok tt else err not_found)
    else if unknown actor role
    then err not_found
    else if not (allowed actor role action)
    then err denied
    else if frozen actor project action
    then err project_archived
    else ok tt

unfoldable pub can : ProjectActor → ProjectRecord → Option ProjectRole → ProjectAction → Bool
unfolding allowed is_archived_admin_action
can actor project role action =
    if project.project_id == system_project_id
    then actor.is_admin && not (is_manage_members action)
    else if unknown actor role
    then false
    else if not (allowed actor role action)
    then false
    else if frozen actor project action
    then false
    else true

-- `ProjectAccessService.capabilities`
unfoldable pub capabilities : ProjectActor → ProjectRecord → Option ProjectRole → List ProjectAction
unfolding can
capabilities actor project role = filter (can actor project role) (
    ProjectAction.view ∷ ProjectAction.manage_project ∷ ProjectAction.manage_members
    ∷ ProjectAction.write_client ∷ ProjectAction.rotate_secret ∷ ProjectAction.revoke_authorizations
    ∷ ProjectAction.revoke_secret ∷ ProjectAction.disable_client ∷ [])
