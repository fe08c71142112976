-- ===== src/Projects/Store/Consistency.antt =====
-- The invariant of the project store, and the parts of a store that `bump_project` and the audit
-- log leave alone.
use cqut_auth.Base.{
  ℕ, ◌+◌, String, none, some, List, [], ◌∷◌, ◌≡◌, refl, All, count, arith, eq_iff, string_eq, inl,
  inr, Option-cases, sym,
}
use cqut_auth.Contracts.{ProjectRecord, ProjectMemberRecord, ProjectAuditRecord}
use cqut_auth.Dict
use cqut_auth.Dict.{values, IsMap, get, set}
use cqut_auth.Dict.Laws.{get-All, set-All, set-IsMap, get-set}
use cqut_auth.Projects.Store.{ProjectStore, member_key, owner_of, push_audit, push_audits}
use cqut_auth.Projects.Store.Mutations.{bump_project}
use cqut_auth.Projects.Store.Keys.{HasNoNul, member_key-injective}

-- Every record stands under its own key, no key stands twice, and no project's identifier holds
-- the character that joins the two halves of a member's key.
pub record IsConsistent (s : ProjectStore) : Type 0 where
  pub project_keys : All (λ e. (e.1.project_id ≡ e.0) × HasNoNul e.0) s.projects
  pub members_map : IsMap s.members
  pub member_keys :
      All
        (λ e. (e.0 ≡ member_key e.1.project_id e.1.subject_id) × HasNoNul e.1.project_id)
        s.members

-- How many members of the project are owners.
abbrev pub owners : String → ProjectStore → ℕ
owners project_id s = count (owner_of project_id) (values s.members)

pub bump_project-members :
    (p : String) (t : ℕ) (s : ProjectStore) → (bump_project p t s).members ≡ s.members
unfolding bump_project
bump_project-members p t s = ground arith

pub push_audits-members :
    (l : List ProjectAuditRecord) (s : ProjectStore) → (push_audits l s).members ≡ s.members
unfolding push_audits push_audit
push_audits-members [] s = refl
push_audits-members (a ∷ l) s = push_audits-members l (push_audit a s)

pub push_audits-projects :
    (l : List ProjectAuditRecord) (s : ProjectStore) → (push_audits l s).projects ≡ s.projects
unfolding push_audits push_audit
push_audits-projects [] s = refl
push_audits-projects (a ∷ l) s = push_audits-projects l (push_audit a s)

pub push_audits-IsConsistent :
    (l : List ProjectAuditRecord) (s : ProjectStore)
    → IsConsistent s
    → IsConsistent (push_audits l s)
push_audits-IsConsistent l s c = record {
  project_keys = rw (push_audits-projects l s) c.project_keys;
  members_map = rw (push_audits-members l s) c.members_map;
  member_keys = rw (push_audits-members l s) c.member_keys;
}

pub bump_project-IsConsistent :
    (p : String) (t : ℕ) (s : ProjectStore) → IsConsistent s → IsConsistent (bump_project p t s)
unfolding bump_project
bump_project-IsConsistent p t s c = elim (Option-cases (Dict.get p s.projects)) [
  | inl e ↦ rw (e, bump_project) c
  | inr (r, e) ↦
      rw (e, bump_project)
        (record {
          project_keys =
              set-All (λ e. (e.1.project_id ≡ e.0) × HasNoNul e.0) p _ s.projects
                (get-All (λ e. (e.1.project_id ≡ e.0) × HasNoNul e.0) p r s.projects c.project_keys
                  e)
                c.project_keys;
          members_map = c.members_map;
          member_keys = c.member_keys;
        })
]

-- A project is there after `bump_project` exactly if it was there before.
pub bump_project-none :
    (p q : String) (t : ℕ) (s : ProjectStore)
    → Dict.get q (bump_project p t s).projects ≡ none
    → Dict.get q s.projects ≡ none
unfolding bump_project
bump_project-none p q t s h = elim (Option-cases (Dict.get p s.projects)) [
  | inl e ↦ rw (e, bump_project) at h
  | inr (r, e) ↦ ground (
    arith,
    e,
    eq_iff p q,
    get-set p q (record r { version = r.version + 1; updated_at = t }) s.projects,
  )
]

module _ {s : ProjectStore} (c : IsConsistent s) where
  -- A member that is found by a key is the member that the key names.
  pub member_of_key :
      (p u : String) {m : ProjectMemberRecord}
      → HasNoNul p
      → Dict.get (member_key p u) s.members ≡ some m
      → (m.project_id ≡ p) × (m.subject_id ≡ u)
  member_of_key p u {m} plain e =
      let (key, plain') =
        get-All (λ e. (e.0 ≡ member_key e.1.project_id e.1.subject_id) × HasNoNul e.1.project_id)
          (member_key p u) m s.members c.member_keys e in
      let (same, same') = member_key-injective p m.project_id u m.subject_id plain plain' key in
      (sym same, sym same')

  pub known-HasNoNul :
      (p : String) {r : ProjectRecord} → Dict.get p s.projects ≡ some r → HasNoNul p
  known-HasNoNul p {r} found =
      (get-All (λ e. (e.1.project_id ≡ e.0) × HasNoNul e.0) p r s.projects c.project_keys found).1

  -- Setting a member's record under its own key keeps the store consistent.
  pub set_member-IsConsistent :
      (k : String) (m : ProjectMemberRecord)
      → k ≡ member_key m.project_id m.subject_id
      → HasNoNul m.project_id
      → IsConsistent (record s { members = Dict.set k m s.members })
  set_member-IsConsistent k m own plain = record {
    project_keys = c.project_keys;
    members_map = set-IsMap k m s.members c.members_map;
    member_keys =
        set-All (λ e. (e.0 ≡ member_key e.1.project_id e.1.subject_id) × HasNoNul e.1.project_id) k
          m s.members (own, plain) c.member_keys;
  }
