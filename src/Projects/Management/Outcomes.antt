-- ===== src/Projects/Management/Outcomes.antt =====
-- What the calls of the management interface do to the store: a change commits one mutation that
-- was asked for, or throws and leaves the store as it is.
use cqut_auth.Base.{
  ◌∙◌, ℕ, String, Bool, Option, some, none, List, [], ◌∷◌, ◌≡◌, refl, sym, subst, All, inl, inr,
}
use cqut_auth.Contracts.{
  Result, ok, err, Result-cases, Ensures, bind-Ensures, ok-Ensures, owner, ProjectRecord,
  ProjectMemberRecord, ProjectAuditRecord, ProjectMutationResult,
}
use cqut_auth.Body.{Json, Platform}
use cqut_auth.Projects.Access.{ProjectActor}
use cqut_auth.Projects.Store.{
  ProjectStore, empty, find_project_role, create_project, ensure_system_project,
}
use cqut_auth.Projects.Store.Keys.{HasNoNul}
use cqut_auth.Projects.Store.Consistency.{IsConsistent}
use cqut_auth.Projects.Store.History
use cqut_auth.Projects.Store.History.{
  Mutation, Call, perform, ensure_system, mutate, IsOwned, step-keeps, empty-keeps,
}
use cqut_auth.Projects.Store.Commits.{target, expected, records, Commit, Outcome, perform-Outcome}
use cqut_auth.Projects.Management.{
  PublicProject, ProjectManagementServiceLimits, public_project, new_project, updated, change,
  create, create_answer, quota,
}
use cqut_auth.Projects.Management.Rights.{Request, change_of, Requested, change_of-Requested}

-- A call leaves the store as it is and throws, or commits the mutation and answers the project as
-- it is stored then, with the actor's role in it.
abbrev Answers :
    ProjectActor → Mutation → ProjectStore → ProjectStore × Result PublicProject → Type 0
Answers actor m s (t, err thrown) = t ≡ s
Answers actor m s (t, ok view) =
    Commit (target m) (expected m) (records m) s t view.project
    × (view.role ≡ find_project_role view.project.project_id actor.subject_id t)

updated-Answers :
    (actor : ProjectActor) (m : Mutation) (s : ProjectStore)
    (o : ProjectStore × ProjectMutationResult)
    → Outcome (target m) (expected m) (records m) s o
    → Answers actor m s (updated actor o)
unfolding updated public_project
updated-Answers actor m s (t, ProjectMutationResult.updated p) h = (h, refl)
updated-Answers actor m s (t, ProjectMutationResult.version_conflict) h = h
updated-Answers actor m s (t, ProjectMutationResult.last_owner_required) h = h
updated-Answers actor m s (t, ProjectMutationResult.member_not_found) h = h
updated-Answers actor m s (t, ProjectMutationResult.member_exists) h = h
updated-Answers actor m s (t, ProjectMutationResult.subject_not_found) h = h

updated-store :
    (actor : ProjectActor) (o : ProjectStore × ProjectMutationResult) → (updated actor o).0 ≡ o.0
unfolding updated
updated-store actor (t, ProjectMutationResult.updated p) = refl
updated-store actor (t, ProjectMutationResult.version_conflict) = refl
updated-store actor (t, ProjectMutationResult.last_owner_required) = refl
updated-store actor (t, ProjectMutationResult.member_not_found) = refl
updated-store actor (t, ProjectMutationResult.member_exists) = refl
updated-store actor (t, ProjectMutationResult.subject_not_found) = refl

-- What a request leaves: the store as it was, with an error, or the commit of the mutation that it
-- asks for, carried out on the store, of the project that the access check admitted, at the version that the request's body
-- expects and with audit records in the actor's name.
abbrev pub Serves :
    (String → Bool)
    → Platform
    → Request
    → ProjectActor
    → String
    → ℕ
    → ProjectStore
    → ProjectStore
    → ProjectStore × Result PublicProject
    → Type 0
Serves active platform request actor project_id now seen s (t, err thrown) = t ≡ s
Serves active platform request actor project_id now seen s (t, ok view) =
    (m : Mutation) × Requested platform request actor project_id now seen m
    × (t ≡ (perform active m s).0)
    × Commit project_id (expected m) (records m) s t view.project
    × (view.role ≡ find_project_role view.project.project_id actor.subject_id t)

Answers-Serves :
    (active : String → Bool) (platform : Platform) (request : Request) (actor : ProjectActor)
    (project_id : String) (now : ℕ) (seen s : ProjectStore) (m : Mutation)
    (o : ProjectStore × Result PublicProject)
    → Requested platform request actor project_id now seen m
    → o.0 ≡ (perform active m s).0
    → Answers actor m s o
    → Serves active platform request actor project_id now seen s o
Answers-Serves active platform request actor project_id now seen s m (t, err thrown) fit left h = h
Answers-Serves active platform request actor project_id now seen s m (t, ok view) fit left
      (commit, role) =
    (
      m,
      fit,
      left,
      subst (λ p. Commit p (expected m) (records m) s t view.project) fit.project commit,
      role,
    )

-- A request to change a project either throws and leaves the store as it is, or commits one
-- mutation of that project, of the kind and with the values that the request asks for and at the
-- version that its body expects, whose audit records carry the actor and the time; the answer is the stored project and the actor's role in it. The access
-- check had admitted the actor in the state that the call read before.
pub change-Serves :
    (active : String → Bool) (platform : Platform) (request : Request) (actor : ProjectActor)
    (project_id : String) (now : ℕ) (seen s : ProjectStore)
    → Serves active platform request actor project_id now seen s
        (change active actor (change_of platform request actor project_id now seen) s)
unfolding change
change-Serves active platform request actor project_id now seen s =
    elim (Result-cases (change_of platform request actor project_id now seen)) [
      | inr (thrown, e) ↦ rw (e, change) refl
      | inl (m, e) ↦
          let fit =
            ok-Ensures (Requested platform request actor project_id now seen) _ m
              (change_of-Requested platform actor project_id now seen request) e in
          rw (e, change)
            (Answers-Serves active platform request actor project_id now seen s m
              (updated actor (perform active m s)) fit (updated-store actor (perform active m s))
              (updated-Answers actor m s (perform active m s) (perform-Outcome active m s)))
    ]

-- The calls of the interface that may change the store, with the state that each has read.
pub data Service : Type 0 where
  ensured : ℕ → Service
  created : ProjectActor → String → ℕ → Json → Service
  changed : Request → ProjectActor → String → ℕ → ProjectStore → Service

module _ (active : String → Bool) (platform : Platform)
    (limits : ProjectManagementServiceLimits) where
  unfoldable pub serve : Service → ProjectStore → ProjectStore
  serve (ensured now) s = (ensure_system_project now s).0
  serve (created actor id now raw) s = (create platform limits actor id now raw s).0
  serve (changed request actor project_id now seen) s =
      (change active actor (change_of platform request actor project_id now seen) s).0

  unfoldable pub run : List Service → ProjectStore → ProjectStore
  run [] s = s
  run (c ∷ more) s = run more (serve c s)

  -- New projects are given identifiers that are free of NUL.
  abbrev pub IsPlain : Service → Type 0
  IsPlain (created actor id now raw) = HasNoNul id
  IsPlain _ = Unit

  create_answer-store :
      (actor : ProjectActor) (o : ProjectStore × Option ProjectRecord)
      → (create_answer platform limits actor o).0 ≡ o.0
  create_answer-store actor (t, none) = refl
  create_answer-store actor (t, some p) = refl

  -- The project and its first member, as `create` asks the store for them.
  abbrev Founded : String → ProjectRecord × ProjectMemberRecord × ProjectAuditRecord → Type 0
  Founded id r = (r.0.project_id ≡ id) × (r.1.project_id ≡ id) × (r.1.role ≡ owner)

  new_project-Founded :
      (actor : ProjectActor) (id : String) (now : ℕ) (raw : Json)
      → Ensures (Founded id) (new_project platform actor id now raw)
  unfolding new_project
  new_project-Founded actor id now raw = bind-Ensures (Founded id) _ _ (λ body b.
      bind-Ensures (Founded id) _ _
        (λ name n. bind-Ensures (Founded id) _ _ (λ description d. (refl, refl, refl))))

  abbrev Sound : ProjectStore → Type 0
  Sound s = IsConsistent s × IsOwned s

  serve-Sound : (c : Service) (s : ProjectStore) → IsPlain c → Sound s → Sound (serve c s)
  unfolding serve History.step change create
  serve-Sound (ensured now) s plain h = step-keeps active (ensure_system now) s tt h
  serve-Sound (changed request actor project_id now seen) s plain h =
      elim (Result-cases (change_of platform request actor project_id now seen)) [
        | inr (thrown, e) ↦ rw (serve, change, e) h
        | inl (m, e) ↦
            rw (serve, change, e)
              (subst Sound (sym (updated-store actor (perform active m s)))
                (step-keeps active (mutate m) s tt h))
      ]
  serve-Sound (created actor id now raw) s plain h =
      elim (Result-cases (new_project platform actor id now raw)) [
        | inr (thrown, e) ↦ rw (serve, create, e) h
        | inl ((p, m, a), e) ↦
            let (own, its, role) =
              ok-Ensures (Founded id) _ (p, m, a) (new_project-Founded actor id now raw) e in
            rw (serve, create, e)
              (subst Sound
                (sym (
                  create_answer-store actor (create_project p m a (quota platform limits actor) s)))
                (step-keeps active (Call.create p m a (quota platform limits actor)) s
                  (subst HasNoNul (sym own) plain, its ∙ sym own, role) h))
      ]

  run-Sound :
      (calls : List Service) (s : ProjectStore) → All IsPlain calls → Sound s → Sound (run calls s)
  unfolding run
  run-Sound [] s plain h = h
  run-Sound (c ∷ calls) s (plain, more) h =
      run-Sound calls (serve c s) more (serve-Sound c s plain h)

-- Whatever the management interface is asked, in any order and whatever each call had read before
-- its turn came, every project but the system project has an owner, if the identifiers that are
-- drawn for new projects are free of NUL.
pub serve-IsOwned :
    (active : String → Bool) (platform : Platform) (limits : ProjectManagementServiceLimits)
    (calls : List Service)
    → All (IsPlain active platform limits) calls
    → IsOwned (run active platform limits calls empty)
serve-IsOwned active platform limits calls plain =
    (run-Sound active platform limits calls empty plain empty-keeps).1
