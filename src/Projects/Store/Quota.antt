-- ===== src/Projects/Store/Quota.antt =====
-- The limit on the active projects that a subject has created.
use cqut_auth.Base.{
  ℕ, ◌≤◌, some, ◌≡◌, arith, count, length, length-filter, filter, Bool-cases, inl, inr, string_eq,
  leb,
}
use cqut_auth.Contracts.{ProjectRecord, ProjectMemberRecord, ProjectAuditRecord}
use cqut_auth.Dict
use cqut_auth.Dict.{Dict, values}
use cqut_auth.Dict.Laws.{count-set-le}
use cqut_auth.Projects.Store.{ProjectStore, create_project, counts_against, push_audit}

-- After a project was created under a limit, its creator has no more active projects than that.
pub create_project-counts_against :
    (p q : ProjectRecord) (m : ProjectMemberRecord) (a : ProjectAuditRecord) (most : ℕ)
    (s t : ProjectStore)
    → create_project p m a (some most) s ≡ (t, some q)
    → count (counts_against m.subject_id) (values t.projects) ≤ most
unfolding create_project push_audit
create_project-counts_against p q m a most s t e =
    elim (Bool-cases
      (leb most (length (filter (counts_against m.subject_id) (values s.projects))))) [
        | inl full ↦ absurd (ground (arith, e, full))
        | inr room ↦
            let before = length-filter (counts_against m.subject_id) (values s.projects) in
            let same : Dict.set p.project_id p s.projects ≡ t.projects = ground (arith, e, room) in
            let bound : count (counts_against m.subject_id)
                  (values (Dict.set p.project_id p s.projects))
                ≤ most =
              ground (
                arith,
                room,
                before,
                count-set-le (counts_against m.subject_id) p.project_id p s.projects,
              ) in
            rw same at bound
      ]
