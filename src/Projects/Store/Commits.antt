-- ===== src/Projects/Store/Commits.antt =====
-- A mutation of a project is all or nothing, and a stale version is refused.
use cqut_auth.Base.{
  ℕ, ◌+◌, String, Bool, some, List, [], ◌∷◌, ◌++◌, ◌≡◌, refl, ◌≢◌, length, arith, string_eq, nat_eq,
  nat_beq_iff, Bool-cases, inl, inr, Option-cases, sym, ◌∙◌, ap, ◌==◌, not, ◌&&◌, ◌||◌,
}
use mathlib.Core.List.{append_assoc, append-nil}
use cqut_auth.Contracts.{
  ProjectRole, ProjectRecord, ProjectMemberRecord, ProjectAuditRecord, ProjectMutationResult,
}
use cqut_auth.Dict
use cqut_auth.Dict.{Dict}
use cqut_auth.Dict.Laws.{get-set_self, get-set_ne}
use cqut_auth.Projects.Store.{
  ProjectStore, member_key, push_audit, push_audits, is_owner, owner_count,
}
use cqut_auth.Projects.Store.Mutations.{
  ProjectPatch, bump_project, set_role, add_member, remove_member, transfer_ownership,
  patch_project, mutate_project, finish, MutationStatus, update_project, add_project_member,
  update_project_member_role, remove_project_member, transfer_project_ownership,
}
use cqut_auth.Projects.Store.Consistency.{push_audits-projects}
use cqut_auth.Projects.Store.History.{Mutation, update, add, change_role, remove, transfer, perform}

-- Audit records with the identifiers that follow on from `n`.
abbrev pub numbered : ℕ → List ProjectAuditRecord → List ProjectAuditRecord
numbered n [] = []
numbered n (a ∷ l) = record a { id = some n } ∷ numbered (n + 1) l

push_audits-audits :
    (l : List ProjectAuditRecord) (s : ProjectStore)
    → ((push_audits l s).audits ≡ s.audits ++ numbered s.next_audit_id l)
      × ((push_audits l s).next_audit_id ≡ s.next_audit_id + length l)
unfolding push_audits push_audit
push_audits-audits [] s = (sym (append-nil s.audits), omega arith)
push_audits-audits (a ∷ l) s =
    let (h, n) = push_audits-audits l (push_audit a s) in
    (h ∙ append_assoc s.audits _ _, omega (arith, n))

-- The version of project `p` goes up by one, and neither another project nor the log changes.
record Bump (p : String) (s t : ProjectStore) : Type 0 where
  before : ProjectRecord
  after : ProjectRecord
  found : Dict.get p s.projects ≡ some before
  result : Dict.get p t.projects ≡ some after
  version : after.version ≡ before.version + 1
  others : (q : String) → p ≢ q → Dict.get q t.projects ≡ Dict.get q s.projects
  audits : t.audits ≡ s.audits
  next : t.next_audit_id ≡ s.next_audit_id

abbrev Bumps : String → ProjectStore → ProjectStore × MutationStatus → Type 0
Bumps p s (t, MutationStatus.updated) = Bump p s t
Bumps p s (t, _) = t ≡ s

module _ (p : String) (s : ProjectStore) {r : ProjectRecord}
    (found : Dict.get p s.projects ≡ some r) where
  bump_project-Bump :
      (ms : Dict String ProjectMemberRecord) (at : ℕ)
      → Bump p s (bump_project p at (record s { members = ms }))
  unfolding bump_project
  bump_project-Bump ms at =
      rw (found, bump_project)
        (record {
          before = r;
          after = record r { version = r.version + 1; updated_at = at };
          found = found;
          result = get-set_self p _ s.projects;
          version = refl;
          others = λ q h. get-set_ne p q _ s.projects h;
          audits = refl;
          next = refl;
        })

  set_role-Bumps : (u : String) (role : ProjectRole) (at : ℕ) → Bumps p s (set_role p u role at s)
  unfolding set_role
  set_role-Bumps u role at = elim (Option-cases (Dict.get (member_key p u) s.members)) [
    | inl e ↦ rw (e, set_role)
    | inr (m, e) ↦
        elim (Bool-cases (is_owner m.role && not (is_owner role) && owner_count p s == 1)) [
          | inl last ↦ rw (e, set_role, last)
          | inr more ↦ rw (e, set_role, more) (bump_project-Bump _ at)
        ]
  ]

  remove_member-Bumps : (u : String) (at : ℕ) → Bumps p s (remove_member p u at s)
  unfolding remove_member
  remove_member-Bumps u at = elim (Option-cases (Dict.get (member_key p u) s.members)) [
    | inl e ↦ rw (e, remove_member)
    | inr (m, e) ↦ elim (Bool-cases (is_owner m.role && owner_count p s == 1)) [
      | inl last ↦ rw (e, remove_member, last)
      | inr more ↦ rw (e, remove_member, more) (bump_project-Bump _ at)
    ]
  ]

  transfer_ownership-Bumps : (u v : String) (at : ℕ) → Bumps p s (transfer_ownership p u v at s)
  unfolding transfer_ownership
  transfer_ownership-Bumps u v at = elim (Option-cases (Dict.get (member_key p u) s.members)) [
    | inl e ↦ rw (e, transfer_ownership)
    | inr (from, e) ↦ elim (Option-cases (Dict.get (member_key p v) s.members)) [
      | inl f ↦ rw (e, f, transfer_ownership)
      | inr (to, f) ↦ elim (Bool-cases (not (is_owner from.role) || is_owner to.role)) [
        | inl bad ↦ rw (e, f, transfer_ownership, bad)
        | inr good ↦ rw (e, f, transfer_ownership, good) (bump_project-Bump _ at)
      ]
    ]
  ]

  patch_project-Bumps : (patch : ProjectPatch) → Bumps p s (patch_project p patch s)
  unfolding patch_project
  patch_project-Bumps patch =
      rw (found, patch_project)
        (record {
          before = r;
          after = record r {
            name = patch.name;
            description = patch.description;
            status = patch.status;
            updated_at = patch.updated_at;
            version = r.version + 1;
          };
          found = found;
          result = get-set_self p _ s.projects;
          version = refl;
          others = λ q h. get-set_ne p q _ s.projects h;
          audits = refl;
          next = refl;
        })

add_member-Bumps :
    (active : String → Bool) (m : ProjectMemberRecord) (s : ProjectStore) {r : ProjectRecord}
    → Dict.get m.project_id s.projects ≡ some r
    → Bumps m.project_id s (add_member active m s)
unfolding add_member
add_member-Bumps active m s found = elim (Bool-cases (active m.subject_id)) [
  | inr gone ↦ rw gone
  | inl there ↦ elim (Bool-cases (Dict.has (member_key m.project_id m.subject_id) s.members)) [
    | inl again ↦ rw (there, again)
    | inr new ↦ rw (there, new) (bump_project-Bump m.project_id s found _ m.updated_at)
  ]
]

-- What a committed mutation of project `p` at version `v` did: it found that version, gave the
-- record that it returns the next one, left other projects alone, and appended its audit records.
pub record Commit (p : String) (v : ℕ) (l : List ProjectAuditRecord) (s t : ProjectStore)
    (r : ProjectRecord) : Type 0 where
  pub before : ProjectRecord
  pub found : Dict.get p s.projects ≡ some before
  pub fresh : before.version ≡ v
  pub result : Dict.get p t.projects ≡ some r
  pub version : r.version ≡ v + 1
  pub others : (q : String) → p ≢ q → Dict.get q t.projects ≡ Dict.get q s.projects
  pub audits : t.audits ≡ s.audits ++ numbered s.next_audit_id l
  pub next : t.next_audit_id ≡ s.next_audit_id + length l

-- A mutation commits, or refuses and leaves the store as it is.
abbrev pub Outcome :
    String
    → ℕ
    → List ProjectAuditRecord
    → ProjectStore
    → ProjectStore × ProjectMutationResult
    → Type 0
Outcome p v l s (t, ProjectMutationResult.updated r) = Commit p v l s t r
Outcome p v l s (t, _) = t ≡ s

finish-Outcome :
    (p : String) (v : ℕ) (l : List ProjectAuditRecord) (s : ProjectStore)
    (o : ProjectStore × MutationStatus) {r : ProjectRecord}
    → Dict.get p s.projects ≡ some r
    → r.version ≡ v
    → Bumps p s o
    → Outcome p v l s (finish p l o)
unfolding finish
finish-Outcome p v l s (t, MutationStatus.updated) {r} found fresh b =
    let same = push_audits-projects l t in
    let (h, n) = push_audits-audits l t in
    let result : Dict.get p (push_audits l t).projects ≡ some b.after =
      ap (Dict.get p) same ∙ b.result in
    let as_before : r.version ≡ b.before.version = ground (arith, found, b.found) in
    rw (result, finish)
      (record {
        before = r;
        found = found;
        fresh = fresh;
        result = result;
        version = omega (arith, b.version, as_before, fresh);
        others = λ q d. ap (Dict.get q) same ∙ b.others q d;
        audits = h ∙ cc (b.audits, b.next);
        next = n ∙ ap (λ (k : ℕ). k + length l) b.next;
      })
finish-Outcome p v l s (t, MutationStatus.last_owner_required) found fresh b = b
finish-Outcome p v l s (t, MutationStatus.member_not_found) found fresh b = b
finish-Outcome p v l s (t, MutationStatus.member_exists) found fresh b = b
finish-Outcome p v l s (t, MutationStatus.subject_not_found) found fresh b = b

mutate_project-Outcome :
    (p : String) (v : ℕ) (l : List ProjectAuditRecord) (s : ProjectStore)
    (f : ProjectStore → ProjectStore × MutationStatus)
    → ((r : ProjectRecord) → Dict.get p s.projects ≡ some r → Bumps p s (f s))
    → Outcome p v l s (mutate_project p v l f s)
unfolding mutate_project
mutate_project-Outcome p v l s f bumps = elim (Option-cases (Dict.get p s.projects)) [
  | inl e ↦ rw (e, mutate_project)
  | inr (r, e) ↦ elim (Bool-cases (r.version == v)) [
    | inr stale ↦ rw (e, mutate_project, stale)
    | inl fresh ↦
        rw (e, mutate_project, fresh)
          (finish-Outcome p v l s (f s) e ((nat_beq_iff _ _).0 fresh) (bumps r e))
  ]
]

abbrev pub target : Mutation → String
target (update p v patch a) = p
target (add m v a) = m.project_id
target (change_role p u role v at a) = p
target (remove p u v at a) = p
target (transfer p u w v at l) = p

abbrev pub expected : Mutation → ℕ
expected (update p v patch a) = v
expected (add m v a) = v
expected (change_role p u role v at a) = v
expected (remove p u v at a) = v
expected (transfer p u w v at l) = v

abbrev pub records : Mutation → List ProjectAuditRecord
records (update p v patch a) = a ∷ []
records (add m v a) = a ∷ []
records (change_role p u role v at a) = a ∷ []
records (remove p u v at a) = a ∷ []
records (transfer p u w v at l) = l

-- Each of the five mutations either refuses and leaves the store as it is, or finds its project
-- at the expected version, returns the stored record with the next version, changes no other
-- project's record and appends exactly its audit records, under fresh consecutive numbers.
pub perform-Outcome :
    (active : String → Bool) (m : Mutation) (s : ProjectStore)
    → Outcome (target m) (expected m) (records m) s (perform active m s)
unfolding perform update_project add_project_member update_project_member_role remove_project_member
    transfer_project_ownership
perform-Outcome active (update p v patch a) s =
    mutate_project-Outcome p v _ s _ (λ r found. patch_project-Bumps p s found patch)
perform-Outcome active (add m v a) s =
    mutate_project-Outcome m.project_id v _ s _ (λ r found. add_member-Bumps active m s found)
perform-Outcome active (change_role p u role v at a) s =
    mutate_project-Outcome p v _ s _ (λ r found. set_role-Bumps p s found u role at)
perform-Outcome active (remove p u v at a) s =
    mutate_project-Outcome p v _ s _ (λ r found. remove_member-Bumps p s found u at)
perform-Outcome active (transfer p u w v at l) s =
    mutate_project-Outcome p v l s _ (λ r found. transfer_ownership-Bumps p s found u w at)
