-- ===== src/Projects/Store/Mutations.antt =====
-- The versioned mutations of persistence/project.repository.ts: `mutate_project`, and the methods
-- that go through it.
use cqut_auth.Base.{
  ℕ, ◌+◌, String, Bool, ◌&&◌, ◌||◌, not, none, some, List, [], ◌∷◌, ◌==◌, nat_eq, string_eq,
  if◌then◌else◌,
}
use cqut_auth.Contracts.{
  ProjectStatus, ProjectRole, owner, maintainer, ProjectMemberRecord, ProjectAuditRecord,
  ProjectMutationResult,
}
use cqut_auth.Dict
use cqut_auth.Dict.{Dict, values}
use cqut_auth.Projects.Store.{ProjectStore, member_key, is_owner, push_audits, member, owner_count}

-- The outcome of a mutation that `mutate_project` runs.
pub data MutationStatus : Type 0 where
  updated last_owner_required member_not_found member_exists subject_not_found : MutationStatus

unfoldable pub finish :
    String
    → List ProjectAuditRecord
    → ProjectStore × MutationStatus
    → ProjectStore × ProjectMutationResult
finish project_id audits (s, MutationStatus.last_owner_required) =
    (s, ProjectMutationResult.last_owner_required)
finish project_id audits (s, MutationStatus.member_not_found) =
    (s, ProjectMutationResult.member_not_found)
finish project_id audits (s, MutationStatus.member_exists) =
    (s, ProjectMutationResult.member_exists)
finish project_id audits (s, MutationStatus.subject_not_found) =
    (s, ProjectMutationResult.subject_not_found)
finish project_id audits (s, MutationStatus.updated) =
    let s' = push_audits audits s in
    elim (Dict.get project_id s'.projects) [
      -- Not reached: no mutation deletes a project.
      | none ↦ (s', ProjectMutationResult.version_conflict)
      | some project ↦ (s', ProjectMutationResult.updated project)
    ]

unfoldable pub mutate_project :
    String
    → ℕ
    → List ProjectAuditRecord
    → (ProjectStore → ProjectStore × MutationStatus)
    → ProjectStore
    → ProjectStore × ProjectMutationResult
unfolding finish
mutate_project project_id expected_version audits mutation s =
    elim (Dict.get project_id s.projects) [
      | none ↦ (s, ProjectMutationResult.version_conflict)
      | some current ↦
          if current.version == expected_version
          then finish project_id audits (mutation s)
          else (s, ProjectMutationResult.version_conflict)
    ]

-- `bumpMemoryProject`; the project is there, since `mutate_project` has found it.
unfoldable pub bump_project : String → ℕ → ProjectStore → ProjectStore
bump_project project_id updated_at s = elim (Dict.get project_id s.projects) [
  | none ↦ s
  | some current ↦ record s {
    projects =
        Dict.set project_id
          (record current { version = current.version + 1; updated_at = updated_at }) s.projects;
  }
]

pub record ProjectPatch : Type 0 where
  pub name : String
  pub description : String
  pub status : ProjectStatus
  pub updated_at : ℕ

unfoldable pub patch_project : String → ProjectPatch → ProjectStore → ProjectStore × MutationStatus
patch_project project_id patch s = elim (Dict.get project_id s.projects) [
  | none ↦ (s, MutationStatus.updated)
  | some current ↦ (
    record s {
      projects =
          Dict.set project_id
            (record current {
              name = patch.name;
              description = patch.description;
              status = patch.status;
              updated_at = patch.updated_at;
              version = current.version + 1;
            })
            s.projects;
    },
    MutationStatus.updated,
  )
]

unfoldable pub update_project :
    String
    → ℕ
    → ProjectPatch
    → ProjectAuditRecord
    → ProjectStore
    → ProjectStore × ProjectMutationResult
update_project project_id expected_version patch audit =
    mutate_project project_id expected_version (audit ∷ []) (patch_project project_id patch)

unfoldable pub add_member :
    (String → Bool) → ProjectMemberRecord → ProjectStore → ProjectStore × MutationStatus
add_member subject_exists m s =
    if not (subject_exists m.subject_id)
    then (s, MutationStatus.subject_not_found)
    else if Dict.has (member_key m.project_id m.subject_id) s.members
    then (s, MutationStatus.member_exists)
    else (
      bump_project m.project_id m.updated_at
          (record s { members = Dict.set (member_key m.project_id m.subject_id) m s.members }),
      MutationStatus.updated,
    )

unfoldable pub add_project_member :
    (String → Bool)
    → ProjectMemberRecord
    → ℕ
    → ProjectAuditRecord
    → ProjectStore
    → ProjectStore × ProjectMutationResult
add_project_member subject_exists m expected_version audit =
    mutate_project m.project_id expected_version (audit ∷ []) (add_member subject_exists m)

unfoldable pub set_role :
    String → String → ProjectRole → ℕ → ProjectStore → ProjectStore × MutationStatus
unfolding member
set_role project_id subject_id role updated_at s = elim (member project_id subject_id s) [
  | none ↦ (s, MutationStatus.member_not_found)
  | some current ↦
      if is_owner current.role && not (is_owner role) && owner_count project_id s == 1
      then (s, MutationStatus.last_owner_required)
      else (
        bump_project project_id updated_at (record s {
          members =
              Dict.set (member_key project_id subject_id)
                (record current { role = role; updated_at = updated_at }) s.members;
        }),
        MutationStatus.updated,
      )
]

unfoldable pub update_project_member_role :
    String
    → String
    → ProjectRole
    → ℕ
    → ℕ
    → ProjectAuditRecord
    → ProjectStore
    → ProjectStore × ProjectMutationResult
update_project_member_role project_id subject_id role expected_version updated_at audit =
    mutate_project project_id expected_version (audit ∷ [])
      (set_role project_id subject_id role updated_at)

unfoldable pub remove_member : String → String → ℕ → ProjectStore → ProjectStore × MutationStatus
unfolding member
remove_member project_id subject_id updated_at s = elim (member project_id subject_id s) [
  | none ↦ (s, MutationStatus.member_not_found)
  | some current ↦
      if is_owner current.role && owner_count project_id s == 1
      then (s, MutationStatus.last_owner_required)
      else (
        bump_project project_id updated_at
            (record s { members = Dict.delete (member_key project_id subject_id) s.members }),
        MutationStatus.updated,
      )
]

unfoldable pub remove_project_member :
    String
    → String
    → ℕ
    → ℕ
    → ProjectAuditRecord
    → ProjectStore
    → ProjectStore × ProjectMutationResult
remove_project_member project_id subject_id expected_version updated_at audit =
    mutate_project project_id expected_version (audit ∷ [])
      (remove_member project_id subject_id updated_at)

unfoldable pub transfer_ownership :
    String → String → String → ℕ → ProjectStore → ProjectStore × MutationStatus
unfolding member
transfer_ownership project_id from_subject_id to_subject_id updated_at s =
    elim (member project_id from_subject_id s) [
      | none ↦ (s, MutationStatus.member_not_found)
      | some from ↦ elim (member project_id to_subject_id s) [
        | none ↦ (s, MutationStatus.member_not_found)
        | some to ↦
            if not (is_owner from.role) || is_owner to.role
            then (s, MutationStatus.member_not_found)
            else (
              bump_project project_id updated_at (record s {
                members =
                    Dict.set (member_key project_id to_subject_id)
                      (record to { role = owner; updated_at = updated_at })
                      (Dict.set (member_key project_id from_subject_id)
                        (record from { role = maintainer; updated_at = updated_at }) s.members);
              }),
              MutationStatus.updated,
            )
      ]
    ]

unfoldable pub transfer_project_ownership :
    String
    → String
    → String
    → ℕ
    → ℕ
    → List ProjectAuditRecord
    → ProjectStore
    → ProjectStore × ProjectMutationResult
transfer_project_ownership project_id from to expected_version updated_at audits =
    mutate_project project_id expected_version audits
      (transfer_ownership project_id from to updated_at)
