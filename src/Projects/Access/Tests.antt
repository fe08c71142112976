-- ===== src/Projects/Access/Tests.antt =====
-- The access check at work, and its theorems at concrete actors and projects.
use cqut_auth.Base.{[], ◌∷◌, eq_iff, true, false, none, some, ◌≡◌, ◌≢◌, ◌↔◌, ◌⊎◌, refl, arith}
use cqut_auth.Contracts.{ok, err, owner, viewer, ProjectStatus, ProjectRecord, system_project_id}
use cqut_auth.Projects.Access.{
  ProjectActor, ProjectAction, view, write_client, disable_client, manage_members, can,
  capabilities, assert_project_access, not_found, denied, project_archived,
}
use cqut_auth.Projects.Access.Matrix.{MayAct, can-MayAct_iff, assert_project_access-can_iff}

abbrev ann : ProjectActor
ann = record { subject_id = "ann"; is_admin = false; source_ip = none }

abbrev root : ProjectActor
root = record { subject_id = "root"; is_admin = true; source_ip = none }

abbrev shop : ProjectRecord
shop = record {
  project_id = "shop";
  name = "Shop";
  description = "";
  status = ProjectStatus.archived;
  created_by_subject_id = some "ann";
  version = 1;
  created_at = 0;
  updated_at = 0;
}

assert_project_access_tests :
    (assert_project_access ann (some shop) (some owner) write_client ≡ err project_archived)
    × (assert_project_access ann (some shop) (some owner) view ≡ ok tt)
    × (assert_project_access root (some shop) none disable_client ≡ ok tt)
    × (assert_project_access root (some shop) none write_client ≡ err denied)
    × (assert_project_access ann (some shop) none view ≡ err not_found)
unfolding assert_project_access
assert_project_access_tests = (refl, refl, refl, refl, refl)

not-system : shop.project_id ≢ system_project_id
not-system e = ground (arith, eq_iff shop.project_id system_project_id, e)

can-MayAct_iff_example :
    (can root shop none disable_client ≡ true)
    ↔ MayAct root ProjectStatus.archived none disable_client
can-MayAct_iff_example = can-MayAct_iff root shop not-system none disable_client

assert_project_access-can_iff_example :
    (assert_project_access root (some shop) (some viewer) manage_members ≡ ok tt) ↔ (
      (can root shop (some viewer) manage_members ≡ true)
      ⊎ ((shop.project_id ≡ system_project_id)
          × (root.is_admin ≡ true)
          × (manage_members ≡ manage_members)))
assert_project_access-can_iff_example =
    assert_project_access-can_iff root shop (some viewer) manage_members

capabilities_test :
    capabilities root shop none ≡ view ∷ ProjectAction.revoke_secret ∷ disable_client ∷ []
unfolding capabilities can
capabilities_test = refl
