-- ===== src/Clients/Keyed/Writes.antt =====
-- Every write of the client store keeps every record under its own key.
use cqut_auth.Base.{
  ℕ, String, Option, none, some, List, ◌≡◌, refl, arith, string_eq, nat_eq, Bool-cases,
  Option-cases, inl, inr, ◌==◌, find,
}
use cqut_auth.Dict
use cqut_auth.Dict.{Dict, IsMap, values, Lacks}
use cqut_auth.Dict.Laws.{get-All, set-All}
use cqut_auth.Clients.Records.{
  OidcClientRecord, OidcClientSecretRecord, OidcClientAuditRecord, ClientStore,
}
use cqut_auth.Clients.Queries.{is_current, usable_memory_secrets}
use cqut_auth.Clients.Registration.{update_metadata_locked}
use cqut_auth.Clients.Secrets.{
  rotate_locked, rotate, revoke_locked, revoke_known, retire_active, prune_terminal, revoke,
  retired,
}
use cqut_auth.Clients.Lifecycle.{disable_locked, disable, revoke_authorizations_locked}
use cqut_auth.Clients.Calls.{
  Write, update_metadata, save_revision, rotate_secret, revoke_secret, revoke_authorizations,
  perform,
}
use cqut_auth.Clients.Keyed.{
  IsKeyed, delete_all-IsMap, delete_all-All, cancel_all-IsMap, cancel_all-RevisionKeys,
  RevisionKeys-filter, revoke_all-IsMap, revoke_all-SecretKeys,
}
use cqut_auth.Clients.Keyed.Preservation.{
  IsOf, put_client, put_secret_record, same_records, save_revision_locked-IsKeyed,
}

retire_active-IsKeyed :
    (grace now : ℕ) (a : OidcClientAuditRecord) (x : Option OidcClientSecretRecord)
    (s : ClientStore)
    → IsKeyed s
    → IsKeyed (retire_active grace now a x s)
unfolding retire_active
retire_active-IsKeyed grace now a none s k = k
retire_active-IsKeyed grace now a (some x) s k =
    same_records _ _ refl refl refl refl
      (put_secret_record (retired grace now x) x.secret_id s refl k)

prune_terminal-IsKeyed :
    (client_id : String) (now : ℕ) (s : ClientStore)
    → IsKeyed s
    → IsKeyed (record s { secrets = prune_terminal client_id now s.secrets })
unfolding prune_terminal
prune_terminal-IsKeyed client_id now s k = record {
  client_keys = k.client_keys;
  revisions_map = k.revisions_map;
  revision_keys = k.revision_keys;
  secrets_map = delete_all-IsMap _ s.secrets k.secrets_map;
  secret_keys = delete_all-All _ _ s.secrets k.secret_keys;
}

rotate-IsKeyed :
    (c : OidcClientRecord) (client_id : String) (x : OidcClientSecretRecord) (grace : ℕ)
    (a : OidcClientAuditRecord) (s : ClientStore)
    → c.client_id ≡ client_id
    → IsKeyed s
    → IsKeyed (rotate c client_id x grace a s)
unfolding rotate
rotate-IsKeyed c client_id x grace a s e k =
    let s' =
      retire_active grace x.created_at a
        (find (λ y. is_current y.status) (usable_memory_secrets client_id x.created_at s)) s in
    let first =
      put_secret_record x x.secret_id s' refl (retire_active-IsKeyed grace x.created_at a _ s k) in
    let second = prune_terminal-IsKeyed client_id x.created_at _ first in
    same_records _ _ refl refl refl refl (put_client _ client_id _ e second)

rotate_locked-IsKeyed :
    (snapshot : Option OidcClientRecord) (client_id : String) (x : OidcClientSecretRecord)
    (v grace interval : ℕ) (a : OidcClientAuditRecord) (s : ClientStore)
    → IsOf client_id snapshot
    → IsKeyed s
    → IsKeyed (rotate_locked snapshot client_id x v grace interval a s).0
unfolding rotate_locked
rotate_locked-IsKeyed none client_id x v grace interval a s h k = k
rotate_locked-IsKeyed (some c) client_id x v grace interval a s h k =
    ground (arith, k, rotate-IsKeyed c client_id x grace a s h k)

revoke_known-IsKeyed :
    (c : OidcClientRecord) (client_id id : String) (x : OidcClientSecretRecord) (at : ℕ)
    (a : OidcClientAuditRecord) (s : ClientStore)
    → c.client_id ≡ client_id
    → x.secret_id ≡ id
    → IsKeyed s
    → IsKeyed (revoke_known c client_id id x at a s)
unfolding revoke_known
revoke_known-IsKeyed c client_id id x at a s e f k =
    same_records _ _ refl refl refl refl
      (put_client _ client_id _ e (put_secret_record (revoke at x) id s f k))

revoke_locked-IsKeyed :
    (snapshot : Option OidcClientRecord) (client_id id : String) (v w at : ℕ)
    (a : OidcClientAuditRecord) (s : ClientStore)
    → IsOf client_id snapshot
    → IsKeyed s
    → IsKeyed (revoke_locked snapshot client_id id v w at a s).0
unfolding revoke_locked
revoke_locked-IsKeyed none client_id id v w at a s h k = k
revoke_locked-IsKeyed (some c) client_id id v w at a s h k =
    elim (Option-cases (Dict.get id s.secrets)) [
      | inl e ↦ rw (e, revoke_locked) (ground (arith, k))
      | inr (x, e) ↦
          rw (e, revoke_locked)
            (ground (
              arith,
              k,
              revoke_known-IsKeyed c client_id id x at a s h
                  (get-All (λ e. e.1.secret_id ≡ e.0) id x s.secrets k.secret_keys e) k,
            ))
    ]

disable-IsKeyed :
    (c : OidcClientRecord) (client_id : String) (at : ℕ) (a : OidcClientAuditRecord)
    (l : List OidcClientAuditRecord) (s : ClientStore)
    → c.client_id ≡ client_id
    → IsKeyed s
    → IsKeyed (disable c client_id at a l s)
unfolding disable
disable-IsKeyed c client_id at a l s e k = record {
  client_keys = set-All (λ e. e.1.client_id ≡ e.0) client_id _ s.clients e k.client_keys;
  revisions_map = cancel_all-IsMap at _ s.revisions k.revisions_map;
  revision_keys =
      cancel_all-RevisionKeys at s.next_revision_id _ s.revisions
        (RevisionKeys-filter s.next_revision_id _ s.revisions k.revision_keys) k.revision_keys;
  secrets_map = revoke_all-IsMap client_id at s.secrets k.secrets_map;
  secret_keys = revoke_all-SecretKeys client_id at s.secrets k.secret_keys;
}

-- Every write of an existing client, whatever it read before it had the lock, keeps every
-- record under its own key, no key standing twice, and the revision identifiers below the next.
pub perform-IsKeyed :
    (snapshot : Option OidcClientRecord) (client_id : String) (w : Write) (s : ClientStore)
    → IsOf client_id snapshot
    → IsKeyed s
    → IsKeyed (perform snapshot client_id w s)
unfolding perform update_metadata_locked revoke_authorizations_locked disable_locked
perform-IsKeyed none client_id (update_metadata patch v a) s h k = k
perform-IsKeyed (some c) client_id (update_metadata patch v a) s h k =
    elim (Bool-cases (c.version == v)) [
      | inl fresh ↦
          rw (fresh, perform) (same_records _ _ refl refl refl refl (put_client _ client_id s h k))
      | inr stale ↦ rw (stale, perform) k
    ]
perform-IsKeyed snapshot client_id (save_revision r id v l) s h k =
    save_revision_locked-IsKeyed snapshot client_id r id v l s h k
perform-IsKeyed snapshot client_id (rotate_secret x v grace interval a) s h k =
    rotate_locked-IsKeyed snapshot client_id x v grace interval a s h k
perform-IsKeyed snapshot client_id (revoke_secret id v w at a) s h k =
    revoke_locked-IsKeyed snapshot client_id id v w at a s h k
perform-IsKeyed none client_id (Write.disable v at a l) s h k = k
perform-IsKeyed (some c) client_id (Write.disable v at a l) s h k =
    ground (arith, k, disable-IsKeyed c client_id at a l s h k)
perform-IsKeyed none client_id (revoke_authorizations v at a) s h k = k
perform-IsKeyed (some c) client_id (revoke_authorizations v at a) s h k =
    elim (Bool-cases (c.version == v)) [
      | inl fresh ↦
          rw (fresh, perform) (same_records _ _ refl refl refl refl (put_client _ client_id s h k))
      | inr stale ↦ rw (stale, perform) k
    ]
