-- ===== src/Projects/Access/Matrix.antt =====
-- The access rules of a project as a table, and what the two checks of the code decide.
use cqut_auth.Base.{
  refl, ◌==◌, string_eq, ◌≡◌, ◌↔◌, ◌⊎◌, ◌≢◌, arith, eq_iff, none, false, inr, inl, true, Option,
  some,
}
use cqut_auth.Contracts.{
  viewer, system_project_id, ok, ProjectRecord, ProjectStatus, ProjectRole, owner, maintainer,
}
use cqut_auth.Projects.Access.{
  manage_members, assert_project_access, can, ProjectActor, ProjectAction, view, write_client,
  rotate_secret, revoke_authorizations, revoke_secret, disable_client,
}

-- The actions for which a project that is not the system project admits the actor, by rule.
pub data MayAct (a : ProjectActor) (status : ProjectStatus)
    : Option ProjectRole → ProjectAction → Type 0 where
  read : {r : ProjectRole} → MayAct a status (some r) view
  admin_read : {r : Option ProjectRole} → a.is_admin ≡ true → MayAct a status r view
  owner_act : {c : ProjectAction} → status ≡ ProjectStatus.active → MayAct a status (some owner) c
  maintain :
      {c : ProjectAction}
      → status ≡ ProjectStatus.active
      → (c ≡ write_client) ⊎ ((c ≡ rotate_secret) ⊎ (c ≡ revoke_authorizations))
      → MayAct a status (some maintainer) c
  -- An administrator contains an incident in any project, archived or not.
  admin_contain :
      {r : Option ProjectRole} {c : ProjectAction}
      → a.is_admin ≡ true
      → (c ≡ revoke_secret) ⊎ (c ≡ disable_client)
      → MayAct a status r c
  admin_revoke :
      {r : ProjectRole}
      → a.is_admin ≡ true
      → (r ≡ owner) ⊎ (r ≡ maintainer)
      → MayAct a status (some r) revoke_authorizations

status-cases : (s : ProjectStatus) → (s ≡ ProjectStatus.active) ⊎ (s ≡ ProjectStatus.archived)
status-cases ProjectStatus.active = inl refl
status-cases ProjectStatus.archived = inr refl

module _ (a : ProjectActor) (p : ProjectRecord) (other : p.project_id ≢ system_project_id) where
  not-system : (p.project_id == system_project_id) ≡ false
  not-system = ground (arith, other, eq_iff p.project_id system_project_id)

  -- An action that an administrator may take in an archived project, and others in an active one.
  active_or_admin :
      (r : Option ProjectRole) (c : ProjectAction)
      → (p.status ≡ ProjectStatus.active → MayAct a p.status r c)
      → (a.is_admin ≡ true → MayAct a p.status r c)
      → ((p.status ≡ ProjectStatus.active) ⊎ (a.is_admin ≡ true))
      → MayAct a p.status r c
  active_or_admin r c f g (inl h) = f h
  active_or_admin r c f g (inr h) = g h

  can-MayAct :
      (r : Option ProjectRole) (c : ProjectAction) → can a p r c ≡ true → MayAct a p.status r c
  unfolding can
  can-MayAct none view h = admin_read (ground (arith, not-system))
  can-MayAct none revoke_secret h = admin_contain (ground (arith, not-system)) (inl refl)
  can-MayAct none disable_client h = admin_contain (ground (arith, not-system)) (inr refl)
  can-MayAct none _ h = absurd (ground (arith, not-system))
  can-MayAct (some r) view h = read
  can-MayAct (some owner) revoke_secret h =
      active_or_admin _ _ owner_act (λ e. admin_contain e (inl refl)) (ground (arith, not-system))
  can-MayAct (some owner) disable_client h =
      active_or_admin _ _ owner_act (λ e. admin_contain e (inr refl)) (ground (arith, not-system))
  can-MayAct (some owner) revoke_authorizations h =
      active_or_admin _ _ owner_act (λ e. admin_revoke e (inl refl)) (ground (arith, not-system))
  can-MayAct (some owner) _ h = owner_act (ground (arith, not-system))
  can-MayAct (some maintainer) write_client h = maintain (ground (arith, not-system)) (inl refl)
  can-MayAct (some maintainer) rotate_secret h =
      maintain (ground (arith, not-system)) (inr (inl refl))
  can-MayAct (some maintainer) revoke_authorizations h =
      active_or_admin _ _ (λ e. maintain e (inr (inr refl))) (λ e. admin_revoke e (inr refl))
        (ground (arith, not-system))
  can-MayAct (some maintainer) revoke_secret h =
      admin_contain (ground (arith, not-system)) (inl refl)
  can-MayAct (some maintainer) disable_client h =
      admin_contain (ground (arith, not-system)) (inr refl)
  can-MayAct (some maintainer) _ h = absurd (ground (arith, not-system))
  can-MayAct (some viewer) revoke_secret h = admin_contain (ground (arith, not-system)) (inl refl)
  can-MayAct (some viewer) disable_client h = admin_contain (ground (arith, not-system)) (inr refl)
  can-MayAct (some viewer) _ h = absurd (ground (arith, not-system))

  MayAct-can :
      (r : Option ProjectRole) (c : ProjectAction) → MayAct a p.status r c → can a p r c ≡ true
  unfolding can
  MayAct-can r c read = ground (arith, not-system)
  MayAct-can r c (admin_read e) = ground (arith, not-system)
  MayAct-can r c (owner_act s) = ground (arith, not-system)
  MayAct-can r c (maintain s (inl e)) = ground (arith, not-system)
  MayAct-can r c (maintain s (inr (inl e))) = ground (arith, not-system)
  MayAct-can r c (maintain s (inr (inr e))) = ground (arith, not-system)
  MayAct-can r c (admin_contain e (inl d)) = ground (arith, not-system)
  MayAct-can r c (admin_contain e (inr d)) = ground (arith, not-system)
  MayAct-can r c (admin_revoke e (inl d)) = ground (arith, not-system)
  MayAct-can r c (admin_revoke e (inr d)) = ground (arith, not-system)

  -- Outside the system project `can` answers exactly by the table.
  pub can-MayAct_iff :
      (r : Option ProjectRole) (c : ProjectAction) → (can a p r c ≡ true) ↔ MayAct a p.status r c
  can-MayAct_iff r c = (can-MayAct r c, MayAct-can r c)

-- The check that throws and the check that answers agree, but that an administrator passes the
-- first for `manage_members` in the system project and not the second.
pub assert_project_access-can_iff :
    (a : ProjectActor) (p : ProjectRecord) (r : Option ProjectRole) (c : ProjectAction)
    → (assert_project_access a (some p) r c ≡ ok tt) ↔ (
        (can a p r c ≡ true)
        ⊎ ((p.project_id ≡ system_project_id) × (a.is_admin ≡ true) × (c ≡ manage_members)))
unfolding assert_project_access can
assert_project_access-can_iff a p r c = (
  λ h. ground (arith, eq_iff p.project_id system_project_id),
  λ h. ground (arith, eq_iff p.project_id system_project_id),
)

-- An actor who is not an administrator and has no role in a project gets, for every action, the
-- very answer for a project that does not exist. So does every non-administrator, whatever
-- the role, for the system project.
pub assert_project_access_hides :
    (a : ProjectActor) (p : ProjectRecord) (r : Option ProjectRole) (c : ProjectAction)
    → a.is_admin ≡ false
    → (r ≡ none) ⊎ (p.project_id ≡ system_project_id)
    → assert_project_access a (some p) r c ≡ assert_project_access a none none c
unfolding assert_project_access
assert_project_access_hides a p r c plain (inl e) =
    ground (arith, eq_iff p.project_id system_project_id)
assert_project_access_hides a p r c plain (inr e) =
    ground (arith, eq_iff p.project_id system_project_id)

-- What an archived project admits, it admits when it is active too.
pub can-mono_active :
    (a : ProjectActor) (p : ProjectRecord) (r : Option ProjectRole) (c : ProjectAction)
    → can a p r c ≡ true
    → can a (record p { status = ProjectStatus.active }) r c ≡ true
unfolding can
can-mono_active a p r c h = ground (arith, eq_iff p.project_id system_project_id)
