-- ===== src/Projects/Store/Keeping.antt =====
-- What every mutation of a project keeps, and `mutate_project` with it.
use cqut_auth.Base.{
  ℕ, ◌+◌, String, none, some, List, ◌≡◌, arith, eq_iff, string_eq, nat_eq, Bool-cases, inl, inr,
  Option-cases, ◌≤◌, ◌==◌,
}
use cqut_auth.Contracts.{ProjectRecord, ProjectAuditRecord}
use cqut_auth.Dict
use cqut_auth.Dict.{values, IsMap}
use cqut_auth.Dict.Laws.{get-set}
use cqut_auth.Projects.Store.{ProjectStore, push_audits}
use cqut_auth.Projects.Store.Mutations.{bump_project, mutate_project, finish, MutationStatus}
use cqut_auth.Projects.Store.Consistency.{
  IsConsistent, owners, bump_project-members, bump_project-IsConsistent, push_audits-members,
  push_audits-projects, push_audits-IsConsistent,
}

-- What a mutation of an existing project guarantees of the store that it leaves.
pub record Keeps (s t : ProjectStore) : Type 0 where
  pub consistent : IsConsistent t
  pub owned : (q : String) → 1 ≤ owners q s → 1 ≤ owners q t
  pub kept : (q : String) → Dict.get q s.projects ≡ none → Dict.get q t.projects ≡ none

pub Keeps-refl : (s : ProjectStore) → IsConsistent s → Keeps s s
Keeps-refl s c = record { consistent = c; owned = λ q h. h; kept = λ q h. h }

pub Keeps-bump :
    (s t : ProjectStore) (p : String) (at : ℕ) {r : ProjectRecord}
    → Dict.get p s.projects ≡ some r
    → Keeps s t
    → Keeps s (bump_project p at t)
unfolding bump_project
Keeps-bump s t p at found k = record {
  consistent = bump_project-IsConsistent p at t k.consistent;
  owned = λ q h. rw (bump_project-members p at t) (k.owned q h);
  kept = λ q h. elim (Option-cases (Dict.get p t.projects)) [
    | inl e ↦ rw (e, bump_project) (k.kept q h)
    | inr (u, e) ↦
        rw (e, bump_project)
          (ground (
            arith,
            h,
            found,
            k.kept q h,
            eq_iff p q,
            get-set p q (record u { version = u.version + 1; updated_at = at }) t.projects,
          ))
  ];
}

Keeps-push :
    (s t : ProjectStore) (l : List ProjectAuditRecord) → Keeps s t → Keeps s (push_audits l t)
Keeps-push s t l k = record {
  consistent = push_audits-IsConsistent l t k.consistent;
  owned = λ q h. rw (push_audits-members l t) (k.owned q h);
  kept = λ q h. rw (push_audits-projects l t) (k.kept q h);
}

finish-Keeps :
    {s : ProjectStore} (p : String) (l : List ProjectAuditRecord)
    (o : ProjectStore × MutationStatus)
    → Keeps s o.0
    → Keeps s (finish p l o).0
unfolding finish
finish-Keeps p l (t, MutationStatus.updated) k =
    elim (Option-cases (Dict.get p (push_audits l t).projects)) [
      | inl e ↦ rw (e, finish) (Keeps-push _ t l k)
      | inr (r, e) ↦ rw (e, finish) (Keeps-push _ t l k)
    ]
finish-Keeps p l (t, _) k = k

-- `mutate_project` keeps what its mutation keeps of an existing project.
pub mutate_project-Keeps :
    {s : ProjectStore} (p : String) (v : ℕ) (audits : List ProjectAuditRecord)
    (f : ProjectStore → ProjectStore × MutationStatus)
    → IsConsistent s
    → ((r : ProjectRecord) → Dict.get p s.projects ≡ some r → Keeps s (f s).0)
    → Keeps s (mutate_project p v audits f s).0
unfolding mutate_project
mutate_project-Keeps {s} p v audits f c keeps = elim (Option-cases (Dict.get p s.projects)) [
  | inl e ↦ rw (e, mutate_project) (Keeps-refl s c)
  | inr (r, e) ↦ elim (Bool-cases (r.version == v)) [
    | inr stale ↦ rw (e, mutate_project, stale) (Keeps-refl s c)
    | inl fresh ↦ rw (e, mutate_project, fresh) (finish-Keeps p audits (f s) (keeps r e))
  ]
]
