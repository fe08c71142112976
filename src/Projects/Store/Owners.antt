-- ===== src/Projects/Store/Owners.antt =====
-- No mutation leaves a project without an owner.
use mathlib.Core.Path.{ap₂}
use cqut_auth.Base.{
  not, ◌&&◌, ◌||◌, ℕ, ◌+◌, String, Bool, true, false, some, ◌≡◌, refl, ◌≢◌, length-filter, arith,
  eq_iff, string_eq, nat_eq, Bool-cases, inl, inr, Option-cases, sym, ◌∙◌, ◌⊎◌, ◌==◌,
}
use cqut_auth.Contracts.{ProjectRole, owner, maintainer, ProjectRecord, ProjectMemberRecord}
use cqut_auth.Dict
use cqut_auth.Dict.{values, IsMap}
use cqut_auth.Dict.Laws.{
  get-All, set-All, delete-IsMap, delete-All, get-set, get-set_ne, count-set_old, count-set_new,
  count-delete,
}
use cqut_auth.Projects.Store.{ProjectStore, member_key, owner_of, owner_count, is_owner}
use cqut_auth.Projects.Store.Mutations.{
  ProjectPatch, set_role, add_member, remove_member, transfer_ownership, patch_project,
}
use cqut_auth.Projects.Store.Keys.{HasNoNul}
use cqut_auth.Projects.Store.Consistency.{
  IsConsistent, member_of_key, known-HasNoNul, set_member-IsConsistent,
}
use cqut_auth.Projects.Store.Keeping.{Keeps, Keeps-refl, Keeps-bump}

module _ {s : ProjectStore} (c : IsConsistent s) (p : String) {r : ProjectRecord}
    (found : Dict.get p s.projects ≡ some r) where
  plain : HasNoNul p
  plain = known-HasNoNul c p found

  -- Replacing a member by one of the same project and subject keeps the store consistent.
  replace-IsConsistent :
      (u : String) (old new : ProjectMemberRecord)
      → Dict.get (member_key p u) s.members ≡ some old
      → new.project_id ≡ old.project_id
      → new.subject_id ≡ old.subject_id
      → (new.project_id ≡ p)
        × IsConsistent (record s { members = Dict.set (member_key p u) new s.members })
  replace-IsConsistent u old new e same_p same_u =
      let (old_p, old_u) = member_of_key c p u plain e in
      let new_p = same_p ∙ old_p in
      let own = ap₂ member_key (sym new_p) (sym (same_u ∙ old_u)) in
      (new_p, set_member-IsConsistent c (member_key p u) new own (rw new_p plain))

  -- It keeps an owner too, if the member was none, is one still, or was not the only one.
  replace-Keeps :
      (u : String) (old new : ProjectMemberRecord)
      → Dict.get (member_key p u) s.members ≡ some old
      → new.project_id ≡ old.project_id
      → new.subject_id ≡ old.subject_id
      → (is_owner old.role ≡ false) ⊎ ((is_owner new.role ≡ true) ⊎ (owner_count p s ≢ 1))
      → Keeps s (record s { members = Dict.set (member_key p u) new s.members })
  replace-Keeps u old new e same_p same_u ok =
      let (new_p, consistent) = replace-IsConsistent u old new e same_p same_u in
      record {
        consistent = consistent;
        owned = λ q h. ground (
          arith,
          new_p,
          ok,
          same_p,
          count-set_old (owner_of q) (member_key p u) new old s.members e,
          length-filter (owner_of p) (values s.members),
          eq_iff p q,
        );
        kept = λ q h. h;
      }

  pub set_role-Keeps :
      (u : String) (role : ProjectRole) (at : ℕ) → Keeps s (set_role p u role at s).0
  unfolding set_role
  set_role-Keeps u role at = elim (Option-cases (Dict.get (member_key p u) s.members)) [
    | inl e ↦ rw (e, set_role) (Keeps-refl s c)
    | inr (m, e) ↦
        elim (Bool-cases (is_owner m.role && not (is_owner role) && owner_count p s == 1)) [
          | inl last ↦ rw (e, set_role, last) (Keeps-refl s c)
          | inr more ↦
              rw (e, set_role, more)
                (Keeps-bump s _ p at found (
                  replace-Keeps u m (record m { role = role; updated_at = at }) e refl refl
                    (ground arith)))
        ]
  ]

  pub add_member-Keeps :
      (active : String → Bool) (m : ProjectMemberRecord)
      → m.project_id ≡ p
      → Keeps s (add_member active m s).0
  unfolding add_member Dict.has
  add_member-Keeps active m e = elim (Bool-cases (active m.subject_id)) [
    | inr gone ↦ rw gone (Keeps-refl s c)
    | inl there ↦ elim (Option-cases (Dict.get (member_key m.project_id m.subject_id) s.members)) [
      | inr (old, again) ↦ rw (there, again, Dict.has) (Keeps-refl s c)
      | inl new ↦
          rw (there, new, Dict.has)
            (Keeps-bump s _ m.project_id m.updated_at {r = r} (rw e found) (record {
              consistent = set_member-IsConsistent c _ m refl (rw e plain);
              owned = λ q h. omega (
                arith,
                count-set_new (owner_of q) (member_key m.project_id m.subject_id) m s.members new,
              );
              kept = λ q h. h;
            }))
    ]
  ]

  pub remove_member-Keeps : (u : String) (at : ℕ) → Keeps s (remove_member p u at s).0
  unfolding remove_member
  remove_member-Keeps u at = elim (Option-cases (Dict.get (member_key p u) s.members)) [
    | inl e ↦ rw (e, remove_member) (Keeps-refl s c)
    | inr (m, e) ↦ elim (Bool-cases (is_owner m.role && owner_count p s == 1)) [
      | inl last ↦ rw (e, remove_member, last) (Keeps-refl s c)
      | inr more ↦
          rw (e, remove_member, more)
            (Keeps-bump s _ p at found (record {
              consistent = record {
                project_keys = c.project_keys;
                members_map = delete-IsMap _ s.members c.members_map;
                member_keys = delete-All _ _ s.members c.member_keys;
              };
              owned = λ q h. ground (
                arith,
                more,
                (member_of_key c p u plain e).0,
                count-delete (owner_of q) (member_key p u) m s.members c.members_map e,
                length-filter (owner_of p) (values s.members),
                eq_iff p q,
              );
              kept = λ q h. h;
            }))
    ]
  ]

  pub patch_project-Keeps : (patch : ProjectPatch) → Keeps s (patch_project p patch s).0
  unfolding patch_project
  patch_project-Keeps patch =
      rw (found, patch_project)
        (record {
          consistent = record {
            project_keys =
                set-All (λ e. (e.1.project_id ≡ e.0) × HasNoNul e.0) p _ s.projects
                  (get-All (λ e. (e.1.project_id ≡ e.0) × HasNoNul e.0) p r s.projects
                    c.project_keys found)
                  c.project_keys;
            members_map = c.members_map;
            member_keys = c.member_keys;
          };
          owned = λ q h. h;
          kept = λ q h. ground (
            arith,
            found,
            eq_iff p q,
            get-set p q
                (record r {
                  name = patch.name;
                  description = patch.description;
                  status = patch.status;
                  updated_at = patch.updated_at;
                  version = r.version + 1;
                })
                s.projects,
          );
        })

  -- The first replacement of a transfer may leave no owner; the two together keep the number.
  transfer-Keeps :
      (u v : String) (at : ℕ) (from to : ProjectMemberRecord)
      → Dict.get (member_key p u) s.members ≡ some from
      → Dict.get (member_key p v) s.members ≡ some to
      → is_owner from.role ≡ true
      → is_owner to.role ≡ false
      → Keeps s (record s {
        members =
            Dict.set
              (member_key p v)
              (record to { role = owner; updated_at = at })
              (Dict.set
                (member_key p u)
                (record from { role = maintainer; updated_at = at })
                s.members);
      })
  transfer-Keeps u v at from to e f was is_not =
      let from' : ProjectMemberRecord = record from { role = maintainer; updated_at = at } in
      let to' : ProjectMemberRecord = record to { role = owner; updated_at = at } in
      let apart : member_key p u ≢ member_key p v = λ same. ground (arith, same, e, f) in
      let f' : Dict.get (member_key p v) (Dict.set (member_key p u) from' s.members) ≡ some to =
        get-set_ne (member_key p u) (member_key p v) from' s.members apart ∙ f in
      let (from_p, first) = replace-IsConsistent u from from' e refl refl in
      let (to_p, to_u) = member_of_key c p v plain f in
      record {
        consistent =
            set_member-IsConsistent first (member_key p v) to'
              (ap₂ member_key (sym to_p) (sym to_u)) (rw to_p plain);
        owned = λ q h. ground (
          arith,
          count-set_old (owner_of q) (member_key p u) from' from s.members e,
          count-set_old (owner_of q) (member_key p v) to' to
              (Dict.set (member_key p u) from' s.members) f',
          eq_iff p q,
        );
        kept = λ q h. h;
      }

  pub transfer_ownership-Keeps : (u v : String) (at : ℕ) → Keeps s (transfer_ownership p u v at s).0
  unfolding transfer_ownership
  transfer_ownership-Keeps u v at = elim (Option-cases (Dict.get (member_key p u) s.members)) [
    | inl e ↦ rw (e, transfer_ownership) (Keeps-refl s c)
    | inr (from, e) ↦ elim (Option-cases (Dict.get (member_key p v) s.members)) [
      | inl f ↦ rw (e, f, transfer_ownership) (Keeps-refl s c)
      | inr (to, f) ↦ elim (Bool-cases (not (is_owner from.role) || is_owner to.role)) [
        | inl bad ↦ rw (e, f, transfer_ownership, bad) (Keeps-refl s c)
        | inr good ↦
            rw (e, f, transfer_ownership, good)
              (Keeps-bump s _ p at found
                (transfer-Keeps u v at from to e f (ground arith) (ground arith)))
      ]
    ]
  ]
