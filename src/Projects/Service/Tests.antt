-- ===== src/Projects/Service/Tests.antt =====
-- The theorem on `require` at a store of one project.
use cqut_auth.Base.{true, false, none, some, [], ◌∷◌, ◌≡◌, refl, ◌≢◌, ◌↔◌, arith, eq_iff}
use cqut_auth.Contracts.{ok, viewer, ProjectRecord, ProjectStatus, system_project_id}
use cqut_auth.Projects.Access.{ProjectActor, ProjectAction, can}
use cqut_auth.Projects.Store.{ProjectStore, find_project, find_project_role}
use cqut_auth.Projects.Service.{require, require_iff}

abbrev ann : ProjectActor
ann = record { subject_id = "ann"; is_admin = false; source_ip = none }

abbrev shop : ProjectRecord
shop = record {
  project_id = "shop";
  name = "Shop";
  description = "";
  status = ProjectStatus.archived;
  created_by_subject_id = some "ann";
  version = 1;
  created_at = 0;
  updated_at = 0;
}

abbrev store : ProjectStore
store = record {
  projects = ("shop", shop) ∷ [];
  members =
      (
        "shop\0ann",
        record {
          project_id = "shop";
          subject_id = "ann";
          role = viewer;
          created_at = 0;
          updated_at = 0;
        },
      )
      ∷ [];
  audits = [];
  next_audit_id = 1;
}

not-system : shop.project_id ≢ system_project_id
not-system e = ground (arith, eq_iff shop.project_id system_project_id, e)

seen_by_viewer : (require ann "shop" ProjectAction.view store ≡ ok (shop, some viewer)) ↔ (
    (find_project "shop" store ≡ some shop)
    × (find_project_role "shop" "ann" store ≡ some viewer)
    × (can ann shop (some viewer) ProjectAction.view ≡ true))
seen_by_viewer = require_iff ann "shop" ProjectAction.view store shop (some viewer) not-system refl
