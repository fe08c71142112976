-- ===== src/Projects/Store/Authorization.antt =====
-- What it takes to be let into a write under a project's lock.
use cqut_auth.Base.{
  ◌==◌, String, false, Option, none, some, ◌≡◌, ◌≢◌, ◌↔◌, ◌⊎◌, arith, eq_iff, string_eq,
  Option-cases, Bool-cases, inl, inr,
}
use cqut_auth.Contracts.{
  ok, err, Result-cases, ProjectRecord, ProjectStatus, ProjectRole, owner, maintainer,
}
use cqut_auth.Dict
use cqut_auth.Projects.Access.{
  ProjectActor, not_found, ProjectAction, ProjectWriteAuthorization, assert_project_access, allowed,
  is_archived_admin_action,
}
use cqut_auth.Projects.Store.{ProjectStore, find_project, find_project_role, authorize_write}

-- The project of the authorization is there, it is the client's, and its actor has access.
pub record Authorized (auth : ProjectWriteAuthorization) (client_project_id : String)
    (s : ProjectStore) (p : ProjectRecord) : Type 0 where
  pub found : find_project auth.project_id s ≡ some p
  pub same : client_project_id ≡ auth.project_id
  pub access :
      assert_project_access auth.actor
        (some p)
        (find_project_role auth.project_id auth.actor.subject_id s)
        auth.action
      ≡ ok tt

module _ (auth : ProjectWriteAuthorization) (client_project_id : String) (s : ProjectStore)
    (p : ProjectRecord) where
  refused :
      Dict.get auth.project_id s.projects ≡ none
      → authorize_write auth client_project_id s ≡ err not_found
  unfolding authorize_write assert_project_access
  refused missing = ground (arith, missing)

  authorize_write-Authorized :
      authorize_write auth client_project_id s ≡ ok p → Authorized auth client_project_id s p
  unfolding authorize_write find_project find_project_role
  authorize_write-Authorized e = elim (Option-cases (Dict.get auth.project_id s.projects)) [
    | inl missing ↦ absurd (ground (arith, refused missing, e))
    | inr (q, found) ↦
        let role = find_project_role auth.project_id auth.actor.subject_id s in
        elim (Result-cases (assert_project_access auth.actor (some q) role auth.action)) [
          | inr (f, denied) ↦ absurd (ground (arith, found, denied, e))
          | inl (u, admitted) ↦ elim (Bool-cases (client_project_id == auth.project_id)) [
            | inr other ↦ absurd (ground (arith, found, admitted, other, e))
            | inl own ↦
                let same : q ≡ p = ground (arith, found, admitted, own, e) in
                record {
                  found = rw same at found;
                  same = (eq_iff client_project_id auth.project_id).0 own;
                  access = rw same at admitted;
                }
          ]
        ]
  ]

  Authorized-authorize_write :
      Authorized auth client_project_id s p → authorize_write auth client_project_id s ≡ ok p
  unfolding authorize_write find_project find_project_role
  Authorized-authorize_write a =
      ground (arith, a.found, a.same, a.access, eq_iff client_project_id auth.project_id)

  -- A write goes ahead, with project `p`, exactly where it is authorized.
  pub authorize_write_iff :
      (authorize_write auth client_project_id s ≡ ok p) ↔ Authorized auth client_project_id s p
  authorize_write_iff = (authorize_write-Authorized, Authorized-authorize_write)

module _ (actor : ProjectActor) (p : ProjectRecord) (plain : actor.is_admin ≡ false) where
  writer :
      (r : Option ProjectRole) (c : ProjectAction)
      → assert_project_access actor (some p) r c ≡ ok tt
      → c ≢ ProjectAction.view
      → (p.status ≡ ProjectStatus.active) × ((r ≡ some owner) ⊎ (r ≡ some maintainer))
  unfolding assert_project_access allowed is_archived_admin_action
  writer r c e act = ground (arith, e, act, plain)

-- An actor who is no administrator is let into a write only as an owner or a maintainer of an
-- active project.
pub Authorized-writer :
    (auth : ProjectWriteAuthorization) (client_project_id : String) (s : ProjectStore)
    (p : ProjectRecord)
    → Authorized auth client_project_id s p
    → auth.actor.is_admin ≡ false
    → auth.action ≢ ProjectAction.view
    → (p.status ≡ ProjectStatus.active)
      × ((find_project_role auth.project_id auth.actor.subject_id s ≡ some owner)
          ⊎ (find_project_role auth.project_id auth.actor.subject_id s ≡ some maintainer))
Authorized-writer auth client_project_id s p a plain act =
    writer auth.actor p plain (find_project_role auth.project_id auth.actor.subject_id s)
      auth.action a.access act
