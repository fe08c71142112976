-- ===== src/Projects/Store/Listing.antt =====
-- The listing calls of persistence/project.repository.ts without a database.
use cqut_auth.Base.{
  ℕ, String, Bool, true, ◌&&◌, ◌||◌, Option, none, some, List, map, filter, take, sort_asc,
  sort_desc, ltb, ◌==◌, string_eq, nat_eq,
}
use cqut_auth.Contracts.{ProjectRole, ProjectRecord, ProjectMemberRecord, ProjectAuditRecord}
use cqut_auth.Dict.{values}
use cqut_auth.Projects.Access.{has_role}
use cqut_auth.Projects.Store.{ProjectStore, find_project_role}

-- The latest changed first.
unfoldable pub list_projects_for_subject :
    String → Bool → ProjectStore → List (ProjectRecord × Option ProjectRole)
list_projects_for_subject subject_id include_all s =
    sort_desc (λ e. e.0.updated_at)
      (filter (λ e. include_all || has_role e.1)
        (map (λ p. (p, find_project_role p.project_id subject_id s)) (values s.projects)))

-- The members who joined first come first.
unfoldable pub list_project_members : String → ProjectStore → List ProjectMemberRecord
list_project_members project_id s =
    sort_asc (λ m. m.created_at) (filter (λ m. m.project_id == project_id) (values s.members))

-- `audit.id ?? 0`
abbrev number : ProjectAuditRecord → ℕ
number a = elim a.id [ none ↦ 0 | some id ↦ id ]

-- `!beforeId || (audit.id ?? 0) < beforeId`
abbrev before : Option ℕ → ProjectAuditRecord → Bool
before none a = true
before (some id) a = id == 0 || ltb (number a) id

-- The latest first, a page of them.
unfoldable pub list_project_audit_logs :
    String → ℕ → Option ℕ → ProjectStore → List ProjectAuditRecord
list_project_audit_logs project_id limit before_id s =
    take limit
      (sort_desc number (filter (λ a. a.project_id == project_id && before before_id a) s.audits))
