-- ===== src/Projects/Store/History.antt =====
-- The calls of the project store as one type, and what holds after any sequence of them.
use cqut_auth.Base.{
  ℕ, String, Bool, Option, none, List, [], ◌∷◌, ◌≡◌, refl, ◌≢◌, All, count, length, arith, eq_iff,
  string_eq, nat_eq, Bool-cases, inl, inr, Option-cases, sym, ap, ◌≤◌, filter,
}
use cqut_auth.Contracts.{
  ProjectRole, owner, ProjectRecord, ProjectMemberRecord, ProjectAuditRecord, system_project_id,
  ProjectMutationResult,
}
use cqut_auth.Dict
use cqut_auth.Dict.{values, IsMap}
use cqut_auth.Dict.Laws.{set-All, get-set, count-set_old, count-set_new, weight-le-count}
use cqut_auth.Projects.Store.{
  ProjectStore, empty, member_key, owner_of, create_project, ensure_system_project, find_project,
  push_audit, push_audits, system_project, system_audit, counts_against, quota_reached,
}
use cqut_auth.Projects.Store.Mutations.{
  ProjectPatch, update_project, add_project_member, update_project_member_role,
  remove_project_member, transfer_project_ownership,
}
use cqut_auth.Projects.Store.Keys.{HasNoNul}
use cqut_auth.Projects.Store.Consistency.{
  IsConsistent, owners, member_of_key, set_member-IsConsistent, push_audits-IsConsistent,
}
use cqut_auth.Projects.Store.Keeping.{Keeps, mutate_project-Keeps}
use cqut_auth.Projects.Store.Owners.{
  set_role-Keeps, add_member-Keeps, remove_member-Keeps, transfer_ownership-Keeps,
  patch_project-Keeps,
}

-- A call that changes a project which is there already.
pub data Mutation : Type 0 where
  update : String → ℕ → ProjectPatch → ProjectAuditRecord → Mutation
  add : ProjectMemberRecord → ℕ → ProjectAuditRecord → Mutation
  change_role : String → String → ProjectRole → ℕ → ℕ → ProjectAuditRecord → Mutation
  remove : String → String → ℕ → ℕ → ProjectAuditRecord → Mutation
  transfer : String → String → String → ℕ → ℕ → List ProjectAuditRecord → Mutation

pub data Call : Type 0 where
  ensure_system : ℕ → Call
  create : ProjectRecord → ProjectMemberRecord → ProjectAuditRecord → Option ℕ → Call
  mutate : Mutation → Call

module _ (active : String → Bool) where
  unfoldable pub perform : Mutation → ProjectStore → ProjectStore × ProjectMutationResult
  perform (update p v patch a) = update_project p v patch a
  perform (add m v a) = add_project_member active m v a
  perform (change_role p u role v at a) = update_project_member_role p u role v at a
  perform (remove p u v at a) = remove_project_member p u v at a
  perform (transfer p u w v at l) = transfer_project_ownership p u w v at l

  unfoldable pub step : Call → ProjectStore → ProjectStore
  step (ensure_system now) s = (ensure_system_project now s).0
  step (create p m a limits) s = (create_project p m a limits s).0
  step (mutate m) s = (perform m s).0

  unfoldable pub run : List Call → ProjectStore → ProjectStore
  run [] s = s
  run (c ∷ more) s = run more (step c s)

  perform-Keeps : (m : Mutation) (s : ProjectStore) → IsConsistent s → Keeps s (perform m s).0
  unfolding perform update_project add_project_member update_project_member_role
      remove_project_member transfer_project_ownership
  perform-Keeps (update p v patch a) s c =
      mutate_project-Keeps p v _ _ c (λ r found. patch_project-Keeps c p found patch)
  perform-Keeps (add m v a) s c =
      mutate_project-Keeps m.project_id v _ _ c
        (λ r found. add_member-Keeps c m.project_id found active m refl)
  perform-Keeps (change_role p u role v at a) s c =
      mutate_project-Keeps p v _ _ c (λ r found. set_role-Keeps c p found u role at)
  perform-Keeps (remove p u v at a) s c =
      mutate_project-Keeps p v _ _ c (λ r found. remove_member-Keeps c p found u at)
  perform-Keeps (transfer p u w v at l) s c =
      mutate_project-Keeps p v _ _ c (λ r found. transfer_ownership-Keeps c p found u w at)

-- What the callers of `create_project` provide: the first member is an owner of the new project,
-- whose identifier holds no NUL.
abbrev pub IsWellFormed : Call → Type 0
IsWellFormed (ensure_system now) = Unit
IsWellFormed (create p m a limits) =
    HasNoNul p.project_id × (m.project_id ≡ p.project_id) × (m.role ≡ owner)
IsWellFormed (mutate m) = Unit

-- Every project but the system project has an owner.
abbrev pub IsOwned : ProjectStore → Type 0
IsOwned s = (q : String) → q ≢ system_project_id → Dict.get q s.projects ≢ none → 1 ≤ owners q s

module _ (s : ProjectStore) (c : IsConsistent s) where
  set_project-IsConsistent :
      (p : ProjectRecord)
      → HasNoNul p.project_id
      → IsConsistent (record s { projects = Dict.set p.project_id p s.projects })
  set_project-IsConsistent p plain = record {
    project_keys =
        set-All (λ e. (e.1.project_id ≡ e.0) × HasNoNul e.0) p.project_id p s.projects (refl, plain)
          c.project_keys;
    members_map = c.members_map;
    member_keys = c.member_keys;
  }

  -- Putting an owner in takes no owner away.
  put_owner :
      (m : ProjectMemberRecord) (q : String)
      → HasNoNul m.project_id
      → m.role ≡ owner
      → let t = Dict.set (member_key m.project_id m.subject_id) m s.members in
        (owners q s ≤ count (owner_of q) (values t))
        × (m.project_id ≡ q → 1 ≤ count (owner_of q) (values t))
  put_owner m q plain e =
      elim (Option-cases (Dict.get (member_key m.project_id m.subject_id) s.members)) [
        | inl new ↦ ground (
          arith,
          eq_iff m.project_id q,
          count-set_new (owner_of q) (member_key m.project_id m.subject_id) m s.members new,
        )
        | inr (old, found) ↦ ground (
          arith,
          eq_iff m.project_id q,
          (member_of_key c _ _ plain found).0,
          count-set_old (owner_of q) (member_key m.project_id m.subject_id) m old s.members found,
          weight-le-count (owner_of q) (member_key m.project_id m.subject_id) old s.members found,
        )
      ]

  created : ProjectRecord → ProjectMemberRecord → ProjectStore
  created p m = record s {
    projects = Dict.set p.project_id p s.projects;
    members = Dict.set (member_key p.project_id m.subject_id) m s.members;
  }

  created-keeps :
      (p : ProjectRecord) (m : ProjectMemberRecord)
      → HasNoNul p.project_id
      → m.project_id ≡ p.project_id
      → m.role ≡ owner
      → IsOwned s
      → IsConsistent (created p m) × IsOwned (created p m)
  unfolding created
  created-keeps p m plain same own h =
      let plain' : HasNoNul m.project_id = rw same plain in
      let first = set_project-IsConsistent p plain in
      let key : member_key p.project_id m.subject_id ≡ member_key m.project_id m.subject_id =
        ap (λ x. member_key x m.subject_id) (sym same) in
      (
        set_member-IsConsistent first (member_key p.project_id m.subject_id) m key plain',
        λ q ne there. rw key (
            ground (
              arith,
              put_owner m q plain' own,
              h q ne,
              eq_iff p.project_id q,
              get-set p.project_id q p s.projects,
            )),
      )

  create-keeps :
      (p : ProjectRecord) (m : ProjectMemberRecord) (a : ProjectAuditRecord) (limits : Option ℕ)
      → HasNoNul p.project_id
      → m.project_id ≡ p.project_id
      → m.role ≡ owner
      → IsOwned s
      → IsConsistent (create_project p m a limits s).0 × IsOwned (create_project p m a limits s).0
  unfolding create_project push_audit push_audits created
  create-keeps p m a limits plain same own h =
      elim (Bool-cases (
        quota_reached limits (length (filter (counts_against m.subject_id) (values s.projects))))) [
          | inl full ↦ rw (full, create_project) (c, h)
          | inr room ↦
              let (c', h') = created-keeps p m plain same own h in
              rw (room, create_project) (push_audits-IsConsistent (a ∷ []) (created p m) c', h')
        ]

  ensure-keeps :
      (now : ℕ)
      → IsOwned s
      → IsConsistent (ensure_system_project now s).0 × IsOwned (ensure_system_project now s).0
  unfolding ensure_system_project push_audit push_audits find_project
  ensure-keeps now h = elim (Option-cases (Dict.get system_project_id s.projects)) [
    | inr (r, e) ↦ rw (e, ensure_system_project) (c, h)
    | inl e ↦
        rw (e, ensure_system_project)
          (
            push_audits-IsConsistent (system_audit now ∷ []) _
                (set_project-IsConsistent (system_project now) (omega arith)),
            λ q ne there. h q ne (
                ground (
                  arith,
                  eq_iff system_project_id q,
                  get-set system_project_id q (system_project now) s.projects,
                )),
          )
  ]

pub step-keeps :
    (active : String → Bool) (c : Call) (s : ProjectStore)
    → IsWellFormed c
    → IsConsistent s × IsOwned s
    → IsConsistent (step active c s) × IsOwned (step active c s)
unfolding step
step-keeps active (ensure_system now) s w (c, h) = ensure-keeps s c now h
step-keeps active (create p m a limits) s (plain, same, own) (c, h) =
    create-keeps s c p m a limits plain same own h
step-keeps active (mutate m) s w (c, h) =
    let k = perform-Keeps active m s c in
    (k.consistent, λ q ne there. k.owned q (h q ne (λ gone. there (k.kept q gone))))

run-keeps :
    (active : String → Bool) (calls : List Call) (s : ProjectStore)
    → All IsWellFormed calls
    → IsConsistent s × IsOwned s
    → IsConsistent (run active calls s) × IsOwned (run active calls s)
unfolding run
run-keeps active [] s w h = h
run-keeps active (c ∷ calls) s (w, ws) h =
    run-keeps active calls (step active c s) ws (step-keeps active c s w h)

pub empty-keeps : IsConsistent empty × IsOwned empty
unfolding Dict.get
empty-keeps = (
  record { project_keys = tt; members_map = tt; member_keys = tt },
  λ q ne there. absurd (there refl),
)

-- After any sequence of calls on the empty store, in which new projects come with an owner and an
-- identifier free of NUL, every record stands under its own key and every project but the
-- system project has an owner.
pub run-IsOwned :
    (active : String → Bool) (calls : List Call)
    → All IsWellFormed calls
    → IsConsistent (run active calls empty) × IsOwned (run active calls empty)
run-IsOwned active calls w = run-keeps active calls empty w empty-keeps
