-- ===== src/Clients/Keyed/Preservation.antt =====
-- Creating a client and saving a revision keep every record under its own key.
use cqut_auth.Base.{
  ℕ, ◌<◌, String, Option, none, some, List, ◌≡◌, refl, arith, string_eq, nat_eq, Bool-cases,
  Option-cases, inl, inr,
}
use cqut_auth.Contracts.{ok, ProjectRecord}
use cqut_auth.Dict
use cqut_auth.Dict.{Dict, IsMap, values, Lacks}
use cqut_auth.Dict.Laws.{get-All, set-All, set-IsMap}
use cqut_auth.Clients.Records.{
  OidcClientRecord, OidcClientSecretRecord, OidcClientRevisionRecord, OidcClientAuditRecord,
  ClientProjectLimits, ClientStore, ManagedOidcClientRecord,
}
use cqut_auth.Clients.Queries.{assign_revision_id, updated_result, is_disabled, is_approved}
use cqut_auth.Clients.Registration.{
  create_locked, insert_client, stored_client, quota_exceeded, put_secret,
}
use cqut_auth.Clients.Revisions.{
  save_revision_locked, add_revision, edit_revision, store_revision, editable,
}
use cqut_auth.Clients.Keyed.{IsKeyed, RevisionKeys-mono, assign_revision_id_lem}

-- What a call read of the client before it had the lock is a record of that client.
abbrev pub IsOf : String → Option OidcClientRecord → Type 0
IsOf client_id none = Unit
IsOf client_id (some c) = c.client_id ≡ client_id

assign-IsKeyed :
    (r : OidcClientRevisionRecord) (s : ClientStore)
    → IsKeyed s
    → IsKeyed (assign_revision_id r s).1
assign-IsKeyed r s k =
    let (below, grows, same) = assign_revision_id_lem r s in
    rw same (record {
      client_keys = k.client_keys;
      revisions_map = k.revisions_map;
      revision_keys = RevisionKeys-mono _ _ s.revisions grows k.revision_keys;
      secrets_map = k.secrets_map;
      secret_keys = k.secret_keys;
    })

pub put_client :
    (c : OidcClientRecord) (client_id : String) (s : ClientStore)
    → c.client_id ≡ client_id
    → IsKeyed s
    → IsKeyed (record s { clients = Dict.set client_id c s.clients })
put_client c client_id s e k = record {
  client_keys = set-All (λ e. e.1.client_id ≡ e.0) client_id c s.clients e k.client_keys;
  revisions_map = k.revisions_map;
  revision_keys = k.revision_keys;
  secrets_map = k.secrets_map;
  secret_keys = k.secret_keys;
}

put_revision :
    (r : OidcClientRevisionRecord) (s : ClientStore)
    → r.revision_id < s.next_revision_id
    → IsKeyed s
    → IsKeyed (record s { revisions = Dict.set r.revision_id r s.revisions })
put_revision r s below k = record {
  client_keys = k.client_keys;
  revisions_map = set-IsMap r.revision_id r s.revisions k.revisions_map;
  revision_keys =
      set-All (λ e. (e.1.revision_id ≡ e.0) × (e.0 < s.next_revision_id)) r.revision_id r
        s.revisions (refl, below) k.revision_keys;
  secrets_map = k.secrets_map;
  secret_keys = k.secret_keys;
}

pub put_secret_record :
    (x : OidcClientSecretRecord) (key : String) (s : ClientStore)
    → x.secret_id ≡ key
    → IsKeyed s
    → IsKeyed (record s { secrets = Dict.set key x s.secrets })
put_secret_record x key s e k = record {
  client_keys = k.client_keys;
  revisions_map = k.revisions_map;
  revision_keys = k.revision_keys;
  secrets_map = set-IsMap key x s.secrets k.secrets_map;
  secret_keys = set-All (λ e. e.1.secret_id ≡ e.0) key x s.secrets e k.secret_keys;
}

-- The log, the quota subjects and the revocations carry no keys.
pub same_records :
    (s t : ClientStore)
    → t.clients ≡ s.clients
    → t.revisions ≡ s.revisions
    → t.secrets ≡ s.secrets
    → t.next_revision_id ≡ s.next_revision_id
    → IsKeyed s
    → IsKeyed t
same_records s t c r x n k = record {
  client_keys = rw c k.client_keys;
  revisions_map = rw r k.revisions_map;
  revision_keys = rw (r, n) k.revision_keys;
  secrets_map = rw x k.secrets_map;
  secret_keys = rw x k.secret_keys;
}

stored_client-client_id :
    (c : OidcClientRecord) (r : OidcClientRevisionRecord)
    → (stored_client c r).client_id ≡ c.client_id
unfolding stored_client
stored_client-client_id c r = ground arith

put_secret-IsKeyed :
    (x : Option OidcClientSecretRecord) (s : ClientStore)
    → IsKeyed s
    → IsKeyed (record s { secrets = put_secret x s.secrets })
put_secret-IsKeyed none s k = k
put_secret-IsKeyed (some x) s k = put_secret_record x x.secret_id s refl k

insert_client-IsKeyed :
    (c : OidcClientRecord) (r : OidcClientRevisionRecord) (x : Option OidcClientSecretRecord)
    (l : List OidcClientAuditRecord) (subject : Option String) (s : ClientStore)
    → IsKeyed s
    → IsKeyed (insert_client c r x l subject s)
unfolding insert_client
insert_client-IsKeyed c r x l subject s k =
    let (r', t) = assign_revision_id r s in
    let first = put_client _ c.client_id t (stored_client-client_id c r') (assign-IsKeyed r s k) in
    let second = put_revision r' _ (assign_revision_id_lem r s).0 first in
    same_records _ _ refl refl refl refl (put_secret-IsKeyed x _ second)

-- Creating a client keeps every record under its own key.
pub create_locked-IsKeyed :
    (c : OidcClientRecord) (r : OidcClientRevisionRecord) (x : Option OidcClientSecretRecord)
    (l : List OidcClientAuditRecord) (limits : Option ClientProjectLimits) (p : ProjectRecord)
    (s : ClientStore) {t : ClientStore} {m : Option ManagedOidcClientRecord}
    → create_locked c r x l limits p s ≡ ok (t, m)
    → IsKeyed s
    → IsKeyed t
unfolding create_locked
create_locked-IsKeyed c r x l limits p s {t} e k =
    elim (Bool-cases (Dict.has c.client_id s.clients)) [
      | inl there ↦ cc (rw (there, create_locked) at e)
      | inr new ↦ elim (Bool-cases (quota_exceeded c limits p s)) [
        | inl full ↦ let same : s ≡ t = ground arith in rw (← same) k
        | inr room ↦
            let same : insert_client c r x l p.created_by_subject_id s ≡ t = ground arith in
            rw (← same) (insert_client-IsKeyed c r x l p.created_by_subject_id s k)
      ]
    ]

store_revision-IsKeyed :
    (c : OidcClientRecord) (client_id : String) (r : OidcClientRevisionRecord)
    (l : List OidcClientAuditRecord) (s : ClientStore)
    → c.client_id ≡ client_id
    → r.revision_id < s.next_revision_id
    → IsKeyed s
    → IsKeyed (store_revision c client_id r l s)
unfolding store_revision
store_revision-IsKeyed c client_id r l s e below k = elim (Bool-cases (is_approved r.status)) [
  | inl approved ↦
      rw approved (
        same_records _ _ refl refl refl refl
          (put_client _ client_id _ e (put_revision r s below k)))
  | inr other ↦ rw other (same_records _ _ refl refl refl refl (put_revision r s below k))
]

updated_result-store : (client_id : String) (s : ClientStore) → (updated_result client_id s).0 ≡ s
unfolding updated_result
updated_result-store client_id s = ground arith

pub save_revision_locked-IsKeyed :
    (snapshot : Option OidcClientRecord) (client_id : String) (r : OidcClientRevisionRecord)
    (id v : Option ℕ) (l : List OidcClientAuditRecord) (s : ClientStore)
    → IsOf client_id snapshot
    → IsKeyed s
    → IsKeyed (save_revision_locked snapshot client_id r id v l s).0
unfolding save_revision_locked add_revision edit_revision
save_revision_locked-IsKeyed none client_id r id v l s h k = k
save_revision_locked-IsKeyed (some c) client_id r none v l s h k =
    elim (Bool-cases (is_disabled c.lifecycle_status)) [
      | inl gone ↦ rw gone k
      | inr live ↦
          let (r', t) = assign_revision_id r s in
          rw (live, updated_result-store)
            (store_revision-IsKeyed c client_id r' l t h (assign_revision_id_lem r s).0
              (assign-IsKeyed r s k))
    ]
save_revision_locked-IsKeyed (some c) client_id r (some id) v l s h k =
    elim (Bool-cases (is_disabled c.lifecycle_status)) [
      | inl gone ↦ rw gone k
      | inr live ↦ elim (Option-cases (Dict.get id s.revisions)) [
        | inl missing ↦ rw (live, missing, edit_revision) k
        | inr (current, found) ↦ elim (Bool-cases (editable client_id v current)) [
          | inr refused ↦ rw (live, found, edit_revision, refused) k
          | inl admitted ↦
              let (key, below) =
                get-All (λ e. (e.1.revision_id ≡ e.0) × (e.0 < s.next_revision_id)) id current
                  s.revisions k.revision_keys found in
              rw (live, found, edit_revision, admitted, updated_result-store)
                (store_revision-IsKeyed c client_id _ l s h (rw key below) k)
        ]
      ]
    ]
