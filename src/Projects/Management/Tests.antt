-- ===== src/Projects/Management/Tests.antt =====
-- Runs of the management interface's calls, and the theorems at them.
use cqut_auth.Base.{
  ℕ, String, Bool, true, false, none, some, List, [], ◌∷◌, ◌≡◌, ◌≢◌, refl, arith, eq_iff, string_eq,
  nat_eq, map,
}
use cqut_auth.Contracts.{
  ProjectAuditAction, ◌>>>◌, Result, ok, err, ProjectStatus, ProjectRole, owner, maintainer, viewer,
  ProjectRecord, system_project_id,
}
use cqut_auth.Dict
use cqut_auth.Body.{
  Json, Platform, text, number, object, entry, end, field, require_object, assert_allowed_keys,
  parse_positive_version, parse_text,
}
use cqut_auth.Projects.Access.{ProjectActor, assert_project_access, allowed, can, capabilities}
use cqut_auth.Projects.Service.{require}
use cqut_auth.Projects.Store.{
  ProjectStore, empty, find_project, find_project_role, create_project, push_audit, push_audits,
  ensure_system_project, member_key,
}
use cqut_auth.Projects.Store.Mutations.{
  finish, mutate_project, bump_project, update_project, patch_project, add_member,
  add_project_member, set_role, update_project_member_role, remove_member, remove_project_member,
  transfer_ownership, transfer_project_ownership,
}
use cqut_auth.Projects.Store.History.{Mutation, perform, IsOwned}
use cqut_auth.Projects.Store.Listing.{
  list_projects_for_subject, list_project_members, list_project_audit_logs,
}
use cqut_auth.Projects.Management.{
  audit, ProjectManagementServiceLimits, PublicProject, public_project, parse_role, parse_status,
  reject_system_members, new_project, update_change, add_member_change, update_member_change,
  remove_member_change, transfer_change, updated, change, create, list, get, members,
}
use cqut_auth.Projects.Management.Rights.{Request, change_of, change_of-owner}
use cqut_auth.Projects.Management.Outcomes.{
  Serves, change-Serves, Service, created, changed, ensured, serve, run, serve-IsOwned,
}

services : Unit {0}
unfolding ◌>>>◌ field require_object assert_allowed_keys parse_positive_version parse_text require
    find_project find_project_role assert_project_access allowed can capabilities create_project
    push_audit push_audits ensure_system_project member_key finish mutate_project bump_project
    update_project patch_project add_member add_project_member set_role update_project_member_role
    remove_member remove_project_member transfer_ownership transfer_project_ownership perform
    list_projects_for_subject list_project_members list_project_audit_logs public_project parse_role
    parse_status reject_system_members new_project update_change add_member_change
    update_member_change remove_member_change transfer_change updated change create list get members
    change_of serve run Dict.get Dict.set Dict.delete Dict.has
services = tt

-- Strings that are trimmed already, of five code units.
abbrev plain : Platform
plain = record {
  trim = λ x. x;
  to_lower_case = λ x. x;
  units = λ x. 5;
  includes = λ x y. false;
  decimal = λ n. "n";
}

abbrev ann : ProjectActor
ann = record { subject_id = "ann"; is_admin = false; source_ip = none }

abbrev everyone : String → Bool
everyone u = true

abbrev limits : ProjectManagementServiceLimits
limits = record { max_active_projects = some 1; admin_quota_exempt = none }

abbrev shop : Json
shop = object (entry "name" (text "Shop!") end)

abbrev founded : ProjectStore
founded = (create plain limits ann "p1" 7 shop empty).0

abbrev add_bob : Json
add_bob = object (
    entry "subjectId" (text "bob")
      (entry "role" (text "viewer") (entry "expectedProjectVersion" (number 1) end)))

abbrev to_bob : Json
to_bob = object (
    entry "fromSubjectId" (text "ann")
      (entry "toSubjectId" (text "bob") (entry "expectedProjectVersion" (number 2) end)))

abbrev joined : ProjectStore
joined =
    (change everyone ann (change_of plain (Request.add_member add_bob) ann "p1" 8 founded)
      founded).0

abbrev handed_over : ProjectStore
handed_over =
    (change everyone ann (change_of plain (Request.transfer_ownership to_bob) ann "p1" 9 joined)
      joined).0

abbrev status_of : Result PublicProject → ℕ
status_of (ok view) = view.project.version
status_of (err thrown) = 0

-- A second project is over the quota; an unknown field is refused.
create_tests :
    (status_of (create plain limits ann "p1" 7 shop empty).1 ≡ 1)
    × (status_of (create plain limits ann "p2" 7 shop founded).1 ≡ 0)
    × (status_of (create plain limits ann "p2" 7 (object (entry "id" (text "x") end)) empty).1 ≡ 0)
unfolding services
create_tests = (refl, refl, refl)

change_tests :
    (map {B = String × ProjectRole} (λ m. (m.subject_id, m.role)) (list_project_members "p1" joined)
      ≡ ("ann", owner) ∷ ("bob", viewer) ∷ [])
    × (map {B = String × ProjectRole}
          (λ m. (m.subject_id, m.role))
          (list_project_members "p1" handed_over)
        ≡ ("ann", maintainer) ∷ ("bob", owner) ∷ [])
    × (map (λ a. a.id) (list_project_audit_logs "p1" 3 (some 5) handed_over)
        ≡ some 4 ∷ some 3 ∷ some 2 ∷ [])
    × (map (λ v. v.project.version) (list ann handed_over) ≡ 3 ∷ [])
unfolding services
change_tests = (refl, refl, refl, refl)

abbrev bob : ProjectActor
bob = record { subject_id = "bob"; is_admin = false; source_ip = none }

-- A viewer may look, and not change.
read_tests :
    (status_of (get bob "p1" joined) ≡ 2)
    × (status_of
          (change everyone bob
            (change_of plain (Request.add_member add_bob) bob "p1" 8 joined)
            joined).1
        ≡ 0)
unfolding services
read_tests = (refl, refl)

-- Bob is let in at version 1, and then the ownership goes to him at version 2.
change-Serves_example :
    Serves everyone plain (Request.transfer_ownership to_bob) ann "p1" 9 joined joined (
      change everyone ann
        (change_of plain (Request.transfer_ownership to_bob) ann "p1" 9 joined)
        joined)
change-Serves_example =
    change-Serves everyone plain (Request.transfer_ownership to_bob) ann "p1" 9 joined joined

not-system : ◌≢◌ {A = String} "p1" system_project_id
not-system e = ground (arith, eq_iff "p1" system_project_id, e)

abbrev founded_project : ProjectRecord
founded_project = record {
  project_id = "p1";
  name = "Shop!";
  description = "";
  status = ProjectStatus.active;
  created_by_subject_id = some "ann";
  version = 1;
  created_at = 7;
  updated_at = 7;
}

abbrev bob_joins : Mutation
bob_joins =
    Mutation.add
      (record {
        project_id = "p1";
        subject_id = "bob";
        role = viewer;
        created_at = 8;
        updated_at = 8;
      })
      1
      (record (audit ann "p1" ProjectAuditAction.project_member_added 8 ("role" ∷ [])) {
        target_subject_id = some "bob";
        new_role = some viewer;
      })

change_of-owner_example :
    (find_project_role "p1" "ann" founded ≡ some owner)
    × (founded_project.status ≡ ProjectStatus.active)
unfolding services
change_of-owner_example =
    change_of-owner plain (Request.add_member add_bob) ann "p1" 8 founded founded_project bob_joins
      not-system refl refl refl

abbrev history : List Service
history =
    ensured 1
    ∷ created ann "p1" 7 shop
    ∷ changed (Request.add_member add_bob) ann "p1" 8 founded
    ∷ changed (Request.transfer_ownership to_bob) ann "p1" 9 joined
    ∷ []

serve-IsOwned_example : IsOwned (run everyone plain limits history empty)
serve-IsOwned_example =
    serve-IsOwned everyone plain limits history (tt, (omega arith, (tt, (tt, tt))))
