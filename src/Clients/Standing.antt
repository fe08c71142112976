-- ===== src/Clients/Standing.antt =====
-- How a client's record moves: its version and generation only grow, and a disabled client
-- stays disabled, as long as no other write comes between a write's reading and its lock.
pub mod Conflicts
use cqut_auth.Base.{
  ℕ, suc, zero, ◌+◌, ◌≤◌, String, Bool, true, false, Option, none, some, List, [], ◌∷◌, ◌++◌, ◌≡◌,
  refl, ◌≢◌, ◌⊎◌, arith, eq_iff, string_eq, nat_eq, nat_beq_iff, Bool-cases, Option-cases, inl, inr,
  ◌==◌, not, ◌&&◌, ◌||◌, sym, ap, ◌∙◌, leb, ltb, length,
}
use cqut_auth.Dict
use cqut_auth.Dict.Laws.{get-set, get-set_self, get-set_ne}
use cqut_auth.Clients.Records.{
  ClientType, OidcClientRecord, OidcClientSecretRecord, OidcClientRevisionRecord,
  OidcClientAuditRecord, ClientStore,
}
use cqut_auth.Clients.Queries.{
  is_disabled, is_approved, is_revoked, assign_revision_id, updated_result, usable_memory_secrets,
}
use cqut_auth.Clients.Registration.{MetadataPatch, update_metadata_locked}
use cqut_auth.Clients.Revisions.{
  save_revision_locked, add_revision, edit_revision, store_revision, editable,
}
use cqut_auth.Clients.Secrets.{
  rotate_locked, rotate, revoke_locked, revoke_known, retire_active, cooldown,
}
use cqut_auth.Clients.Lifecycle.{disable_locked, disable, revoke_authorizations_locked}
use cqut_auth.Clients.Calls.{
  Write, update_metadata, save_revision, rotate_secret, revoke_secret, revoke_authorizations,
  perform, perform_alone,
}

-- The record of a client after a write that changed it.
pub record Succeeds (c d : OidcClientRecord) : Type 0 where
  pub version : d.version ≡ c.version + 1
  pub generation : c.authorization_generation ≤ d.authorization_generation
  pub stays_disabled : is_disabled c.lifecycle_status ≡ true → is_disabled d.lifecycle_status ≡ true
  pub same_client : d.client_id ≡ c.client_id
  pub same_project : d.project_id ≡ c.project_id
  pub same_type : d.client_type ≡ c.client_type

-- A write leaves the clients alone, or puts one record in for the client that it names.
abbrev Replaces : String → OidcClientRecord → ClientStore → ClientStore → Type 0
Replaces client_id c s t =
    (t.clients ≡ s.clients)
    ⊎ ((d : OidcClientRecord) × (t.clients ≡ Dict.set client_id d s.clients) × Succeeds c d)

retire_active-clients :
    (grace now : ℕ) (a : OidcClientAuditRecord) (x : Option OidcClientSecretRecord)
    (s : ClientStore)
    → (retire_active grace now a x s).clients ≡ s.clients
unfolding retire_active
retire_active-clients grace now a none s = refl
retire_active-clients grace now a (some x) s = refl

assign_revision_id-clients :
    (r : OidcClientRevisionRecord) (s : ClientStore)
    → (assign_revision_id r s).1.clients ≡ s.clients
unfolding assign_revision_id
assign_revision_id-clients r s = ground arith

updated_result-store : (client_id : String) (s : ClientStore) → (updated_result client_id s).0 ≡ s
unfolding updated_result
updated_result-store client_id s = ground arith

module _ (client_id : String) (c : OidcClientRecord) (s : ClientStore) where
  store_revision-Replaces :
      (r : OidcClientRevisionRecord) (l : List OidcClientAuditRecord) (t : ClientStore)
      → t.clients ≡ s.clients
      → is_disabled c.lifecycle_status ≡ false
      → Replaces client_id c s (store_revision c client_id r l t)
  unfolding store_revision
  store_revision-Replaces r l t e live = elim (Bool-cases (is_approved r.status)) [
    | inr other ↦ rw other (inl e)
    | inl approved ↦
        rw (approved, e)
          (inr (
            _,
            refl,
            record {
              version = refl;
              generation = omega arith;
              stays_disabled = λ h. cc;
              same_client = refl;
              same_project = refl;
              same_type = refl;
            },
          ))
  ]

  save-Replaces :
      (r : OidcClientRevisionRecord) (id v : Option ℕ) (l : List OidcClientAuditRecord)
      → Replaces client_id c s (save_revision_locked (some c) client_id r id v l s).0
  unfolding save_revision_locked add_revision edit_revision
  save-Replaces r none v l = elim (Bool-cases (is_disabled c.lifecycle_status)) [
    | inl gone ↦ rw gone (inl refl)
    | inr live ↦
        rw (live, updated_result-store)
          (store_revision-Replaces _ l _ (assign_revision_id-clients r s) live)
  ]
  save-Replaces r (some i) v l = elim (Bool-cases (is_disabled c.lifecycle_status)) [
    | inl gone ↦ rw gone (inl refl)
    | inr live ↦ elim (Option-cases (Dict.get i s.revisions)) [
      | inl missing ↦ rw (live, missing, edit_revision) (inl refl)
      | inr (current, found) ↦ elim (Bool-cases (editable client_id v current)) [
        | inr refused ↦ rw (live, found, edit_revision, refused) (inl refl)
        | inl admitted ↦
            rw (live, found, edit_revision, admitted, updated_result-store)
              (store_revision-Replaces _ l s refl live)
      ]
    ]
  ]

  touched : (at : ℕ) → Succeeds c (record c { updated_at = at; version = c.version + 1 })
  touched at = record {
    version = refl;
    generation = omega arith;
    stays_disabled = λ h. h;
    same_client = refl;
    same_project = refl;
    same_type = refl;
  }

  rotate-Replaces :
      (x : OidcClientSecretRecord) (v grace interval : ℕ) (a : OidcClientAuditRecord)
      → Replaces client_id c s (rotate_locked (some c) client_id x v grace interval a s).0
  unfolding rotate_locked rotate
  rotate-Replaces x v grace interval a = elim (Bool-cases (c.version == v)) [
    | inr stale ↦ rw (stale, rotate_locked) (inl refl)
    | inl fresh ↦
        elim (Bool-cases (leb 2 (length (usable_memory_secrets client_id x.created_at s)))) [
          | inl full ↦ rw (fresh, full, rotate_locked) (inl refl)
          | inr room ↦ elim (Bool-cases (ltb 0 (cooldown client_id interval x.created_at s))) [
            | inl wait ↦ rw (fresh, room, wait, rotate_locked) (inl refl)
            | inr ready ↦
                rw (fresh, room, ready, rotate_locked)
                  (inr (
                    _,
                    ap (Dict.set client_id _) (retire_active-clients grace _ a _ s),
                    touched x.created_at,
                  ))
          ]
        ]
  ]

  revoke-Replaces :
      (id : String) (v w at : ℕ) (a : OidcClientAuditRecord)
      → Replaces client_id c s (revoke_locked (some c) client_id id v w at a s).0
  unfolding revoke_locked revoke_known
  revoke-Replaces id v w at a = elim (Bool-cases (c.version == v)) [
    | inr stale ↦ rw (stale, revoke_locked) (inl refl)
    | inl fresh ↦ elim (Option-cases (Dict.get id s.secrets)) [
      | inl missing ↦ rw (fresh, missing, revoke_locked) (inl refl)
      | inr (x, found) ↦ elim (Bool-cases (x.client_id == client_id)) [
        | inr foreign ↦ rw (fresh, found, foreign, revoke_locked) (inl refl)
        | inl own ↦ elim (Bool-cases (not (x.version == w) || is_revoked x.status)) [
          | inl refused ↦ rw (fresh, found, own, refused, revoke_locked) (inl refl)
          | inr admitted ↦
              rw (fresh, found, own, admitted, revoke_locked) (inr (_, refl, touched at))
        ]
      ]
    ]
  ]

  perform-Replaces : (w : Write) → Replaces client_id c s (perform (some c) client_id w s)
  unfolding perform update_metadata_locked disable_locked disable revoke_authorizations_locked
  perform-Replaces (update_metadata patch v a) = elim (Bool-cases (c.version == v)) [
    | inr stale ↦ rw (stale, perform) (inl refl)
    | inl fresh ↦
        rw (fresh, perform)
          (inr (
            _,
            refl,
            record {
              version = refl;
              generation = omega arith;
              stays_disabled = λ h. h;
              same_client = refl;
              same_project = refl;
              same_type = refl;
            },
          ))
  ]
  perform-Replaces (save_revision r id v l) = save-Replaces r id v l
  perform-Replaces (rotate_secret x v grace interval a) = rotate-Replaces x v grace interval a
  perform-Replaces (revoke_secret id v w at a) = revoke-Replaces id v w at a
  perform-Replaces (Write.disable v at a l) = elim (Bool-cases (c.version == v)) [
    | inr stale ↦ rw (stale, perform) (inl refl)
    | inl fresh ↦
        rw (fresh, perform)
          (inr (
            _,
            refl,
            record {
              version = refl;
              generation = omega arith;
              stays_disabled = λ h. refl;
              same_client = refl;
              same_project = refl;
              same_type = refl;
            },
          ))
  ]
  perform-Replaces (revoke_authorizations v at a) = elim (Bool-cases (c.version == v)) [
    | inr stale ↦ rw (stale, perform) (inl refl)
    | inl fresh ↦
        rw (fresh, perform)
          (inr (
            _,
            refl,
            record {
              version = refl;
              generation = omega arith;
              stays_disabled = λ h. h;
              same_client = refl;
              same_project = refl;
              same_type = refl;
            },
          ))
  ]

-- A write that no other overtakes leaves the named client's record as it is, or replaces it by
-- one with the next version, no smaller a generation, the same project and type, and disabled
-- if it was disabled. Every other client's record stays.
pub perform_alone-Succeeds :
    (client_id : String) (w : Write) (s : ClientStore) (c : OidcClientRecord)
    → Dict.get client_id s.clients ≡ some c
    → ((d : OidcClientRecord) × (Dict.get client_id (perform_alone client_id w s).clients ≡ some d)
        × ((d ≡ c) ⊎ Succeeds c d))
      × ((q : String)
          → client_id ≢ q
          → Dict.get q (perform_alone client_id w s).clients ≡ Dict.get q s.clients)
unfolding perform_alone
perform_alone-Succeeds client_id w s c found =
    rw (found, perform_alone)
      (settle (perform (some c) client_id w s) (perform-Replaces client_id c s w))
  where
    settle :
        (t : ClientStore)
        → Replaces client_id c s t
        → ((d : OidcClientRecord) × (Dict.get client_id t.clients ≡ some d)
            × ((d ≡ c) ⊎ Succeeds c d))
          × ((q : String) → client_id ≢ q → Dict.get q t.clients ≡ Dict.get q s.clients)
    settle t (inl same) =
        ((c, ap (Dict.get client_id) same ∙ found, inl refl), λ q h. ap (Dict.get q) same)
    settle t (inr (d, put, k)) = (
      (d, ap (Dict.get client_id) put ∙ get-set_self client_id d s.clients, inr k),
      λ q h. ap (Dict.get q) put ∙ get-set_ne client_id q d s.clients h,
    )
