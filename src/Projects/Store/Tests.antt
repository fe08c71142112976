-- ===== src/Projects/Store/Tests.antt =====
-- Runs of the project store, and the theorems at them.
use cqut_auth.Base.{
  count, ◌≤◌, ◌↔◌, ◌⊎◌, string_eq, ℕ, String, Bool, true, false, Option, none, some, List, [], ◌∷◌,
  ◌≡◌, ◌≢◌, ◌↔◌, ◌⊎◌, refl, arith, length,
}
use cqut_auth.Contracts.{
  ok, ProjectRole, owner, maintainer, viewer, ProjectStatus, ProjectRecord, ProjectMemberRecord,
  ProjectAuditRecord, ProjectAuditAction, ProjectMutationResult,
}
use cqut_auth.Dict
use cqut_auth.Projects.Store.{
  counts_against, find_project_role, authorize_write, ProjectStore, ensure_system_project,
  create_project, find_project, push_audit, push_audits, member, empty, member_key, plain_audit,
}
use cqut_auth.Projects.Store.Mutations.{
  update_project, add_project_member, update_project_member_role, remove_project_member,
  transfer_project_ownership, mutate_project, finish, bump_project, patch_project, set_role,
  add_member, remove_member, transfer_ownership,
}
use cqut_auth.Projects.Store.Consistency.{IsConsistent}
use cqut_auth.Projects.Store.History.{
  step, Mutation, update, add, remove, transfer, Call, ensure_system, create, mutate, perform, run,
  IsOwned, run-IsOwned,
}
use cqut_auth.Projects.Store.Commits.{Outcome, perform-Outcome}
use cqut_auth.Projects.Access.{
  ProjectActor, ProjectAction, ProjectWriteAuthorization, assert_project_access,
}
use cqut_auth.Projects.Store.Quota.{create_project-counts_against}
use cqut_auth.Dict.{values}
use cqut_auth.Projects.Store.Authorization.{Authorized, authorize_write_iff, Authorized-writer}
use cqut_auth.Projects.Store.Conflicts.{perform_conflict}

stores : Unit {0}
unfolding run step perform ensure_system_project create_project find_project update_project
    add_project_member update_project_member_role remove_project_member transfer_project_ownership
    find_project_role authorize_write assert_project_access mutate_project finish bump_project
    patch_project set_role add_member remove_member transfer_ownership push_audit push_audits member
    member_key Dict.get Dict.set Dict.delete Dict.has
stores = tt

abbrev shop : ProjectRecord
shop = record {
  project_id = "shop";
  name = "Shop";
  description = "";
  status = ProjectStatus.active;
  created_by_subject_id = some "ann";
  version = 1;
  created_at = 0;
  updated_at = 0;
}

abbrev joins : String → ProjectRole → ProjectMemberRecord
joins subject role = record {
  project_id = "shop";
  subject_id = subject;
  role = role;
  created_at = 0;
  updated_at = 0;
}

abbrev note : ProjectAuditRecord
note = plain_audit "shop" (some "ann") ProjectAuditAction.project_updated [] 5

abbrev everyone : String → Bool
everyone _ = true

abbrev history : List Call
history =
    ensure_system 1
    ∷ create shop (joins "ann" owner) note (some 2)
    ∷ mutate (add (joins "bob" maintainer) 1 note)
    ∷ mutate (remove "shop" "ann" 2 7 note)
    ∷ mutate (transfer "shop" "ann" "bob" 2 8 (note ∷ []))
    ∷ []

abbrev stocked : ProjectStore
stocked = run everyone history empty

abbrev roles : String → ProjectStore → Option ProjectRole
roles subject s = elim (Dict.get (member_key "shop" subject) s.members) [
  | none ↦ none
  | some m ↦ some m.role
]

-- Ann, the last owner, is not removed, and then hands the project over.
history_test :
    (roles "ann" stocked ≡ some maintainer)
    × (roles "bob" stocked ≡ some owner)
    × (length stocked.audits ≡ 4)
unfolding stores
history_test = (refl, refl, refl)

run-IsOwned_example : IsConsistent stocked × IsOwned stocked
run-IsOwned_example =
    run-IsOwned everyone history (tt, ((omega arith, refl, refl), (tt, (tt, (tt, tt)))))

abbrev name : String
name = "ann"

abbrev rename : ℕ → String → Mutation
rename v name =
    update "shop" v
      (record { name = name; description = ""; status = ProjectStatus.active; updated_at = 9 }) note

abbrev started : ProjectStore
started = run everyone (create shop (joins "ann" owner) note none ∷ []) empty

perform-Outcome_example :
    Outcome "shop" 1 (note ∷ []) started (perform everyone (rename 1 "Store") started)
perform-Outcome_example = perform-Outcome everyone (rename 1 "Store") started

-- The store after `started` was renamed.
abbrev renamed : ProjectStore
renamed = (perform everyone (rename 1 "Store") started).0

abbrev store_project : ProjectRecord
store_project = record shop { name = "Store"; updated_at = 9; version = 2 }

perform_conflict_example :
    perform everyone (add (joins "bob" viewer) 1 note) renamed
    ≡ (renamed, ProjectMutationResult.version_conflict)
unfolding stores
perform_conflict_example =
    perform_conflict everyone (rename 1 "Store") (add (joins "bob" viewer) 1 note) started renamed
      store_project refl refl refl

abbrev ann : ProjectActor
ann = record { subject_id = "ann"; is_admin = false; source_ip = none }

abbrev writing : ProjectWriteAuthorization
writing = record { actor = ann; project_id = "shop"; action = ProjectAction.write_client }

find_project_role_test : find_project_role "shop" "ann" started ≡ some owner
unfolding stores
find_project_role_test = refl

let_in : authorize_write writing "shop" started ≡ ok shop
unfolding stores
let_in = refl

started-Authorized :
    (authorize_write writing "shop" started ≡ ok shop) ↔ Authorized writing "shop" started shop
started-Authorized = authorize_write_iff writing "shop" started shop

is_write : ProjectAction.write_client ≢ ProjectAction.view
is_write e = ground (arith, e)

Authorized-writer_example :
    (shop.status ≡ ProjectStatus.active)
    × ((find_project_role "shop" "ann" started ≡ some owner)
        ⊎ (find_project_role "shop" "ann" started ≡ some maintainer))
Authorized-writer_example =
    Authorized-writer writing "shop" started shop (started-Authorized.0 let_in) refl is_write

abbrev second : ProjectRecord
second = record shop { project_id = "bar" }

abbrev hired : ProjectMemberRecord
hired = record (joins "ann" owner) { project_id = "bar" }

create_project-counts_against_example :
    count
      (counts_against "ann")
      (values (create_project second hired note (some 2) started).0.projects)
    ≤ 2
unfolding stores
create_project-counts_against_example =
    create_project-counts_against second second hired note 2 started
      (create_project second hired note (some 2) started).0 refl
