-- ===== src/Projects/Service.antt =====
-- ProjectAccessService of projects/project-access.ts: the access check with its lookups.
mod Tests
use cqut_auth.Base.{
  String, Bool, true, false, Option, none, some, ◌≡◌, refl, ◌≢◌, ◌↔◌, ◌⊎◌, ◌==◌, arith, eq_iff,
  string_eq, if◌then◌else◌, Option-cases, Bool-cases, inl, inr,
}
use cqut_auth.Contracts.{
  Result, ok, err, Result-cases, ◌>>=◌, ProjectRecord, ProjectRole, system_project_id,
}
use cqut_auth.Projects.Access.{ProjectActor, ProjectAction, assert_project_access, can, not_found}
use cqut_auth.Projects.Access.Matrix.{assert_project_access-can_iff}
use cqut_auth.Projects.Store.{ProjectStore, find_project, find_project_role}

-- The role is hidden in the system project.
unfoldable pub require :
    ProjectActor
    → String
    → ProjectAction
    → ProjectStore
    → Result (ProjectRecord × Option ProjectRole)
require actor project_id action s = elim (find_project project_id s) [
  | none ↦ err not_found
  | some project ↦
      let role = find_project_role project_id actor.subject_id s in
      assert_project_access actor (some project) role action >>= λ _.
      ok (project, (if project_id == system_project_id then none else role))
]

-- The project that is returned is the one that is stored.
pub require-find_project :
    (actor : ProjectActor) (project_id : String) (action : ProjectAction) (s : ProjectStore)
    (found : ProjectRecord × Option ProjectRole)
    → require actor project_id action s ≡ ok found
    → find_project project_id s ≡ some found.0
unfolding require
require-find_project actor project_id action s found e =
    elim (Option-cases (find_project project_id s)) [
      | inl missing ↦ absurd (ground (arith, e, missing))
      | inr (q, there) ↦
          elim (Result-cases (
            assert_project_access actor (some q) (find_project_role project_id actor.subject_id s)
              action)) [
                | inr (f, denied) ↦ absurd (ground (arith, e, there, denied))
                | inl (u, admitted) ↦ ground (arith, e, there, admitted)
              ]
    ]

module _ (actor : ProjectActor) (project_id : String) (action : ProjectAction) (s : ProjectStore)
    (p : ProjectRecord) (r : Option ProjectRole) (other : project_id ≢ system_project_id)
    (same : p.project_id ≡ project_id) where
  not-system : (project_id == system_project_id) ≡ false
  not-system = ground (arith, other, eq_iff project_id system_project_id)

  require-can :
      require actor project_id action s ≡ ok (p, r)
      → (find_project project_id s ≡ some p)
        × (find_project_role project_id actor.subject_id s ≡ r)
        × (can actor p r action ≡ true)
  unfolding require
  require-can e = elim (Option-cases (find_project project_id s)) [
    | inl missing ↦ absurd (ground (arith, e, missing))
    | inr (q, found) ↦
        let role = find_project_role project_id actor.subject_id s in
        elim (Result-cases (assert_project_access actor (some q) role action)) [
          | inr (f, denied) ↦ absurd (ground (arith, e, found, denied))
          | inl (u, admitted) ↦
              let here : q ≡ p = ground (arith, e, found, admitted) in
              let held : role ≡ r = ground (arith, e, found, admitted, not-system) in
              let passed : assert_project_access actor (some p) r action ≡ ok tt =
                rw (here, held) at admitted in
              (
                rw here at found,
                held,
                ground
                    (arith, other, same, (assert_project_access-can_iff actor p r action).0 passed),
              )
        ]
  ]

  can-require :
      find_project project_id s ≡ some p
      → find_project_role project_id actor.subject_id s ≡ r
      → can actor p r action ≡ true
      → require actor project_id action s ≡ ok (p, r)
  unfolding require
  can-require found held h =
      ground
        (arith, found, held, not-system, (assert_project_access-can_iff actor p r action).1 (inl h))

  -- For a project that is not the system project and stands under its own identifier, `require`
  -- returns the project and the actor's role exactly where `can` admits the action.
  pub require_iff : (require actor project_id action s ≡ ok (p, r)) ↔ (
      (find_project project_id s ≡ some p)
      × (find_project_role project_id actor.subject_id s ≡ r)
      × (can actor p r action ≡ true))
  require_iff = (require-can, λ (found, held, h). can-require found held h)
