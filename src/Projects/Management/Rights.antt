-- ===== src/Projects/Management/Rights.antt =====
-- What a change of a project asks of the store, and who may ask for it.
use cqut_auth.Base.{
  List, ◌⊎◌, sym, ap, ◌∙◌, ℕ, String, Option, some, ◌≡◌, refl, ◌≢◌, All, inl, inr, string_eq, arith,
}
use cqut_auth.Contracts.{
  Result, ok, Ensures, bind-Ensures, ok-Ensures, system_project_id, ProjectStatus, ProjectRole,
  owner, ProjectRecord, ProjectAuditRecord,
}
use cqut_auth.Body.{
  Json, Members, object, number, Platform, field, assert_allowed_keys, parse_text,
  assert_allowed_keys-object, parse_positive_version-number,
}
use cqut_auth.Projects.Access.{ProjectActor, ProjectAction}
use cqut_auth.Projects.Access.Matrix.{
  MayAct, read, admin_read, owner_act, maintain, admin_contain, admin_revoke, can-MayAct_iff,
}
use cqut_auth.Projects.Service.{require, require_iff, require-find_project}
use cqut_auth.Projects.Store.{ProjectStore, find_project, find_project_role}
use cqut_auth.Projects.Store.History.{Mutation, update, add, change_role, remove, transfer}
use cqut_auth.Projects.Store.Commits.{target, records}
use cqut_auth.Projects.Management.{
  version, or_current, parse_role, parse_status, update_change, add_member_change,
  update_member_change, remove_member_change, transfer_change,
}

-- A request that changes a project.
pub data Request : Type 0 where
  update_project add_member transfer_ownership : Json → Request
  update_member remove_member : String → Json → Request

unfoldable pub change_of :
    Platform → Request → ProjectActor → String → ℕ → ProjectStore → Result Mutation
change_of platform (update_project raw) actor project_id now seen =
    update_change platform actor project_id now raw seen
change_of platform (add_member raw) actor project_id now seen =
    add_member_change platform actor project_id now raw seen
change_of platform (update_member u raw) actor project_id now seen =
    update_member_change platform actor project_id u now raw seen
change_of platform (remove_member u raw) actor project_id now seen =
    remove_member_change platform actor project_id u now raw seen
change_of platform (transfer_ownership raw) actor project_id now seen =
    transfer_change platform actor project_id now raw seen

abbrev pub action_of : Request → ProjectAction
action_of (update_project raw) = ProjectAction.manage_project
action_of _ = ProjectAction.manage_members

-- An audit record of this actor, project and time.
abbrev pub By : ProjectActor → String → ℕ → ProjectAuditRecord → Type 0
By actor project_id now a =
    (a.actor_subject_id ≡ some actor.subject_id)
    × (a.project_id ≡ project_id)
    × (a.created_at ≡ now)

-- The body is an object, and expects the version.
abbrev pub Expects : Json → Members → ℕ → Type 0
Expects raw body v = (raw ≡ object body) × (field "expectedProjectVersion" body ≡ number v)

-- The mutation is of the kind that the request asks for, at the version that its body expects and
-- with what the body says otherwise, where `p` is the project as the call reads it.
abbrev pub Asks : Platform → ProjectRecord → Request → Mutation → Type 0
Asks platform p (update_project raw) (update id v patch a) =
    (body : Members) × Expects raw body v
    × (or_current (field "name" body) p.name (λ x. parse_text platform x "name" 1 100)
        ≡ ok patch.name)
    × (or_current (field "description" body) p.description
          (λ x. parse_text platform x "description" 0 1000)
        ≡ ok patch.description)
    × (or_current (field "status" body) p.status parse_status ≡ ok patch.status)
Asks platform p (add_member raw) (add m v a) =
    (body : Members) × Expects raw body v
    × (parse_text platform (field "subjectId" body) "subjectId" 1 200 ≡ ok m.subject_id)
    × (parse_role (field "role" body) ≡ ok m.role)
Asks platform p (update_member u raw) (change_role id w role v at a) =
    (body : Members) × Expects raw body v × (w ≡ u) × (parse_role (field "role" body) ≡ ok role)
Asks platform p (remove_member u raw) (remove id w v at a) =
    (body : Members) × Expects raw body v × (w ≡ u)
Asks platform p (transfer_ownership raw) (transfer id from to v at l) =
    (body : Members) × Expects raw body v
    × (parse_text platform (field "fromSubjectId" body) "fromSubjectId" 1 200 ≡ ok from)
    × (parse_text platform (field "toSubjectId" body) "toSubjectId" 1 200 ≡ ok to)
Asks platform p _ _ = ⊥

-- The mutation is the one of the project that is asked for, its audit records name the actor, and
-- the access check passed.
pub record Requested (platform : Platform) (request : Request) (actor : ProjectActor)
    (project_id : String) (now : ℕ) (seen : ProjectStore) (m : Mutation) : Type 0 where
  pub project : target m ≡ project_id
  pub signed : All (By actor project_id now) (records m)
  pub found : ProjectRecord × Option ProjectRole
  pub admitted : require actor project_id (action_of request) seen ≡ ok found
  pub asked : Asks platform found.0 request m

expecting :
    (raw : Json) (allowed : List String) (body : Members) (v : ℕ)
    → assert_allowed_keys raw allowed ≡ ok body
    → version (field "expectedProjectVersion" body) ≡ ok v
    → Expects raw body v
expecting raw allowed body v b e = (
  assert_allowed_keys-object raw allowed body b,
  parse_positive_version-number (field "expectedProjectVersion" body) "expectedProjectVersion" v e,
)

module _ (platform : Platform) (actor : ProjectActor) (project_id : String) (now : ℕ)
    (seen : ProjectStore) where
  abbrev Fit : Request → Mutation → Type 0
  Fit request = Requested platform request actor project_id now seen

  update_change-Requested :
      (raw : Json)
      → Ensures (Fit (update_project raw)) (update_change platform actor project_id now raw seen)
  unfolding update_change
  update_change-Requested raw =
      let P = Fit (update_project raw) in
      bind-Ensures P _ _ (λ found passed. bind-Ensures P _ _ (λ body b. bind-Ensures P _ _ (λ v e.
        bind-Ensures P _ _ (λ name n. bind-Ensures P _ _ (λ description d.
          bind-Ensures P _ _ (λ status st. bind-Ensures P _ _ (λ u ok_system.
            bind-Ensures P _ _ (λ u' changes. record {
              project = refl;
              signed = ((refl, refl, refl), tt);
              found = found;
              admitted = passed;
              asked = (body, expecting raw _ body v b e, n, d, st);
            }))))))))

  add_member_change-Requested :
      (raw : Json)
      → Ensures (Fit (add_member raw)) (add_member_change platform actor project_id now raw seen)
  unfolding add_member_change
  add_member_change-Requested raw =
      let P = Fit (add_member raw) in
      bind-Ensures P _ _ (λ u system. bind-Ensures P _ _ (λ found passed.
        bind-Ensures P _ _ (λ body b. bind-Ensures P _ _ (λ subject_id i.
          bind-Ensures P _ _ (λ role r. bind-Ensures P _ _ (λ v e. record {
            project = refl;
            signed = ((refl, refl, refl), tt);
            found = found;
            admitted = passed;
            asked = (body, expecting raw _ body v b e, i, r);
          }))))))

  update_member_change-Requested :
      (subject_id : String) (raw : Json)
      → Ensures
          (Fit (update_member subject_id raw))
          (update_member_change platform actor project_id subject_id now raw seen)
  unfolding update_member_change
  update_member_change-Requested subject_id raw =
      let P = Fit (update_member subject_id raw) in
      bind-Ensures P _ _ (λ u system. bind-Ensures P _ _ (λ found passed.
        bind-Ensures P _ _ (λ body b. bind-Ensures P _ _ (λ current is.
          bind-Ensures P _ _ (λ role r. bind-Ensures P _ _ (λ v e. record {
            project = refl;
            signed = ((refl, refl, refl), tt);
            found = found;
            admitted = passed;
            asked = (body, expecting raw _ body v b e, refl, r);
          }))))))

  remove_member_change-Requested :
      (subject_id : String) (raw : Json)
      → Ensures
          (Fit (remove_member subject_id raw))
          (remove_member_change platform actor project_id subject_id now raw seen)
  unfolding remove_member_change
  remove_member_change-Requested subject_id raw =
      let P = Fit (remove_member subject_id raw) in
      bind-Ensures P _ _ (λ u system. bind-Ensures P _ _ (λ found passed.
        bind-Ensures P _ _ (λ body b. bind-Ensures P _ _ (λ current is. bind-Ensures P _ _ (λ v e.
          record {
            project = refl;
            signed = ((refl, refl, refl), tt);
            found = found;
            admitted = passed;
            asked = (body, expecting raw _ body v b e, refl);
          })))))

  transfer_change-Requested :
      (raw : Json)
      → Ensures
          (Fit (transfer_ownership raw))
          (transfer_change platform actor project_id now raw seen)
  unfolding transfer_change
  transfer_change-Requested raw =
      let P = Fit (transfer_ownership raw) in
      bind-Ensures P _ _ (λ u system. bind-Ensures P _ _ (λ found passed.
        bind-Ensures P _ _ (λ body b. bind-Ensures P _ _ (λ from f. bind-Ensures P _ _ (λ to t.
          bind-Ensures P _ _ (λ u1 differ. bind-Ensures P _ _ (λ u2 own.
            bind-Ensures P _ _ (λ role is. bind-Ensures P _ _ (λ v e. record {
              project = refl;
              signed = ((refl, refl, refl), ((refl, refl, refl), ((refl, refl, refl), tt)));
              found = found;
              admitted = passed;
              asked = (body, expecting raw _ body v b e, f, t);
            })))))))))

  pub change_of-Requested :
      (request : Request)
      → Ensures (Fit request) (change_of platform request actor project_id now seen)
  unfolding change_of
  change_of-Requested (update_project raw) = update_change-Requested raw
  change_of-Requested (add_member raw) = add_member_change-Requested raw
  change_of-Requested (update_member u raw) = update_member_change-Requested u raw
  change_of-Requested (remove_member u raw) = remove_member_change-Requested u raw
  change_of-Requested (transfer_ownership raw) = transfer_change-Requested raw

MayAct-owner :
    (a : ProjectActor) (status : ProjectStatus) (r : Option ProjectRole) (c : ProjectAction)
    → MayAct a status r c
    → (c ≡ ProjectAction.manage_project) ⊎ (c ≡ ProjectAction.manage_members)
    → (r ≡ some owner) × (status ≡ ProjectStatus.active)
MayAct-owner a status r c read h = absurd (ground arith)
MayAct-owner a status r c (admin_read e) h = absurd (ground arith)
MayAct-owner a status r c (owner_act e) h = (refl, e)
MayAct-owner a status r c (maintain e k) h = absurd (ground (arith, h, k))
MayAct-owner a status r c (admin_contain e k) h = absurd (ground (arith, h, k))
MayAct-owner a status r c (admin_revoke e k) h = absurd (ground arith)

action_of-managing :
    (request : Request)
    → (action_of request ≡ ProjectAction.manage_project)
      ⊎ (action_of request ≡ ProjectAction.manage_members)
action_of-managing (update_project raw) = inl refl
action_of-managing (add_member raw) = inr refl
action_of-managing (update_member u raw) = inr refl
action_of-managing (remove_member u raw) = inr refl
action_of-managing (transfer_ownership raw) = inr refl

-- Outside the system project, only an owner of a project that is active, as the call reads it,
-- gets as far as a change of the project, an administrator no more than others.
pub change_of-owner :
    (platform : Platform) (request : Request) (actor : ProjectActor) (project_id : String) (now : ℕ)
    (seen : ProjectStore) (p : ProjectRecord) (m : Mutation)
    → project_id ≢ system_project_id
    → find_project project_id seen ≡ some p
    → p.project_id ≡ project_id
    → change_of platform request actor project_id now seen ≡ ok m
    → (find_project_role project_id actor.subject_id seen ≡ some owner)
      × (p.status ≡ ProjectStatus.active)
change_of-owner platform request actor project_id now seen p m other there own e =
    let fit =
      ok-Ensures (Requested platform request actor project_id now seen) _ m
        (change_of-Requested platform actor project_id now seen request) e in
    let (q, r) = fit.found in
    let same : q ≡ p = ground (
      arith,
      there,
      require-find_project actor project_id (action_of request) seen fit.found fit.admitted,
    ) in
    let own' : q.project_id ≡ project_id = ap (λ x. x.project_id) same ∙ own in
    let (is, role, may) =
      (require_iff actor project_id (action_of request) seen q r other own').0 fit.admitted in
    let (owns, live) =
      MayAct-owner actor q.status r (action_of request)
        ((can-MayAct_iff actor q (λ system. other (sym own' ∙ system)) r (action_of request)).0 may)
        (action_of-managing request) in
    (role ∙ owns, ap (λ x. x.status) (sym same) ∙ live)
