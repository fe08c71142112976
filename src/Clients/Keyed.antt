-- ===== src/Clients/Keyed.antt =====
-- The invariant of the client store: every record stands under its own key.
pub mod Preservation
pub mod Writes
use cqut_auth.Base.{
  ℕ, suc, zero, ◌+◌, ◌<◌, ◌≤◌, String, Bool, true, false, Option, none, some, List, [], ◌∷◌, ◌≡◌,
  refl, ◌≢◌, All, arith, eq_iff, string_eq, nat_eq, nat_beq_iff, Bool-cases, Option-cases, inl, inr,
  ◌==◌, ltb, leb, not, ◌&&◌, ◌||◌, drop, length, sort_desc, filter, find,
}
use cqut_auth.Contracts.{ok, ProjectRecord}
use cqut_auth.Dict
use cqut_auth.Dict.{Dict, IsMap, values, Lacks}
use cqut_auth.Dict.Laws.{get-All, set-All, delete-All, set-IsMap, delete-IsMap, get-set}
use cqut_auth.Clients.Records.{
  OidcClientRecord, OidcClientSecretRecord, OidcClientRevisionRecord, OidcClientAuditRecord,
  ClientProjectLimits, ClientStore, ManagedOidcClientRecord,
}
use cqut_auth.Clients.Queries.{
  assign_revision_id, updated_result, memory_managed, is_disabled, is_revoked,
  usable_memory_secrets, is_approved,
}
use cqut_auth.Clients.Registration.{
  MetadataPatch, create_locked, insert_client, stored_client, update_metadata_locked,
  quota_exceeded, put_secret,
}
use cqut_auth.Clients.Revisions.{
  save_revision_locked, add_revision, edit_revision, store_revision, editable,
}
use cqut_auth.Clients.Secrets.{
  rotate_locked, rotate, revoke_locked, revoke_known, retire_active, prune_terminal, delete_all,
  cooldown, revoke,
}
use cqut_auth.Clients.Lifecycle.{
  disable_locked, disable, revoke_authorizations_locked, cancel_all, revoke_all, live_for,
}
use cqut_auth.Clients.Calls.{
  Write, update_metadata, save_revision, rotate_secret, revoke_secret, revoke_authorizations,
  perform,
}

abbrev pub RevisionKeys : ℕ → Dict ℕ OidcClientRevisionRecord → Type 0
RevisionKeys bound = All (λ e. (e.1.revision_id ≡ e.0) × (e.0 < bound))

abbrev pub SecretKeys : Dict String OidcClientSecretRecord → Type 0
SecretKeys = All (λ e. e.1.secret_id ≡ e.0)

pub record IsKeyed (s : ClientStore) : Type 0 where
  pub client_keys : All (λ e. e.1.client_id ≡ e.0) s.clients
  pub revisions_map : IsMap s.revisions
  pub revision_keys : RevisionKeys s.next_revision_id s.revisions
  pub secrets_map : IsMap s.secrets
  pub secret_keys : SecretKeys s.secrets

pub RevisionKeys-mono :
    (a b : ℕ) (m : Dict ℕ OidcClientRevisionRecord) → a ≤ b → RevisionKeys a m → RevisionKeys b m
RevisionKeys-mono a b [] h k = tt
RevisionKeys-mono a b (e ∷ m) h (k, ks) = ((k.0, omega arith), RevisionKeys-mono a b m h ks)

-- The identifier that is assigned is below the next one, and nothing else moves.
pub assign_revision_id_lem :
    (r : OidcClientRevisionRecord) (s : ClientStore)
    → let (r', t) = assign_revision_id r s in
      (r'.revision_id < t.next_revision_id)
      × (s.next_revision_id ≤ t.next_revision_id)
      × (t ≡ record s { next_revision_id = t.next_revision_id })
unfolding assign_revision_id
assign_revision_id_lem r s = elim (Bool-cases (ltb 0 r.revision_id)) [
  | inl given ↦ rw given (elim (Bool-cases (leb s.next_revision_id (r.revision_id + 1))) [
    | inl above ↦ rw above (omega arith, ground arith, refl)
    | inr below ↦ rw below (ground arith, omega arith, refl)
  ])
  | inr fresh ↦ rw fresh (omega arith, omega arith, refl)
]

pub delete_all-IsMap :
    (l : List OidcClientSecretRecord) (m : Dict String OidcClientSecretRecord)
    → IsMap m
    → IsMap (delete_all l m)
unfolding delete_all
delete_all-IsMap [] m h = h
delete_all-IsMap (x ∷ l) m h = delete_all-IsMap l _ (delete-IsMap x.secret_id m h)

pub delete_all-All {ι} :
    (P : String × OidcClientSecretRecord → Type ι) (l : List OidcClientSecretRecord)
    (m : Dict String OidcClientSecretRecord)
    → All P m
    → All P (delete_all l m)
unfolding delete_all
delete_all-All P [] m h = h
delete_all-All P (x ∷ l) m h = delete_all-All P l _ (delete-All P x.secret_id m h)

pub cancel_all-IsMap :
    (at : ℕ) (l : List OidcClientRevisionRecord) (m : Dict ℕ OidcClientRevisionRecord)
    → IsMap m
    → IsMap (cancel_all at l m)
unfolding cancel_all
cancel_all-IsMap at [] m h = h
cancel_all-IsMap at (r ∷ l) m h = cancel_all-IsMap at l _ (set-IsMap r.revision_id _ m h)

pub cancel_all-RevisionKeys :
    (at b : ℕ) (l : List OidcClientRevisionRecord) (m : Dict ℕ OidcClientRevisionRecord)
    → All (λ r. r.revision_id < b) l
    → RevisionKeys b m
    → RevisionKeys b (cancel_all at l m)
unfolding cancel_all
cancel_all-RevisionKeys at b [] m l h = h
cancel_all-RevisionKeys at b (r ∷ rs) m (k, ks) h =
    cancel_all-RevisionKeys at b rs _ ks
      (set-All (λ e. (e.1.revision_id ≡ e.0) × (e.0 < b)) r.revision_id _ m (refl, k) h)

pub RevisionKeys-filter :
    (b : ℕ) (p : OidcClientRevisionRecord → Bool) (m : Dict ℕ OidcClientRevisionRecord)
    → RevisionKeys b m
    → All (λ r. r.revision_id < b) (filter p (values m))
RevisionKeys-filter b p [] h = tt
RevisionKeys-filter b p ((k, r) ∷ m) (e, h) = ground (arith, RevisionKeys-filter b p m h)

revoke_all-Lacks :
    (c : String) (at : ℕ) (k : String) (m : Dict String OidcClientSecretRecord)
    → Lacks k m
    → Lacks k (revoke_all c at m)
unfolding revoke_all
revoke_all-Lacks c at k [] h = tt
revoke_all-Lacks c at k (e ∷ m) (q, h) = (q, revoke_all-Lacks c at k m h)

pub revoke_all-IsMap :
    (c : String) (at : ℕ) (m : Dict String OidcClientSecretRecord)
    → IsMap m
    → IsMap (revoke_all c at m)
unfolding revoke_all
revoke_all-IsMap c at [] h = tt
revoke_all-IsMap c at ((k, x) ∷ m) (l, h) = (revoke_all-Lacks c at k m l, revoke_all-IsMap c at m h)

pub revoke_all-SecretKeys :
    (c : String) (at : ℕ) (m : Dict String OidcClientSecretRecord)
    → SecretKeys m
    → SecretKeys (revoke_all c at m)
unfolding revoke_all
revoke_all-SecretKeys c at [] h = tt
revoke_all-SecretKeys c at ((k, x) ∷ m) (q, h) = ground (arith, q, revoke_all-SecretKeys c at m h)
