-- ===== src/Clients/Standing/Conflicts.antt =====
-- Of two writes of a client that expect the same version of it, the second is refused, if it
-- reads the client after the first.
use cqut_auth.Base.{
  false, ℕ, String, Option, none, some, ◌≡◌, ◌≢◌, arith, inl, inr, ◌==◌, nat_eq, nat_beq_iff,
  string_eq, ap, ◌∙◌,
}
use cqut_auth.Dict
use cqut_auth.Clients.Records.{OidcClientRecord, ClientStore}
use cqut_auth.Clients.Registration.{update_metadata_locked}
use cqut_auth.Clients.Revisions.{save_revision_locked}
use cqut_auth.Clients.Secrets.{rotate_locked, revoke_locked}
use cqut_auth.Clients.Lifecycle.{disable_locked, revoke_authorizations_locked}
use cqut_auth.Clients.Calls.{
  Write, update_metadata, save_revision, rotate_secret, revoke_secret, revoke_authorizations,
  perform, perform_alone,
}
use cqut_auth.Clients.Standing.{perform_alone-Succeeds}

-- The version of the client that a write expects; a revision is saved at its own version.
abbrev pub expected : Write → Option ℕ
expected (update_metadata patch v a) = some v
expected (save_revision r id v l) = none
expected (rotate_secret x v grace interval a) = some v
expected (revoke_secret id v w at a) = some v
expected (Write.disable v at a l) = some v
expected (revoke_authorizations v at a) = some v

perform_stale :
    (c : OidcClientRecord) (client_id : String) (w : Write) (v : ℕ) (s : ClientStore)
    → expected w ≡ some v
    → (c.version == v) ≡ false
    → perform (some c) client_id w s ≡ s
unfolding perform update_metadata_locked save_revision_locked rotate_locked revoke_locked
    disable_locked revoke_authorizations_locked
perform_stale c client_id (update_metadata patch w a) v s e stale = ground (arith, e, stale)
perform_stale c client_id (save_revision r id w l) v s e stale = absurd (ground (arith, e))
perform_stale c client_id (rotate_secret x w grace interval a) v s e stale =
    ground (arith, e, stale)
perform_stale c client_id (revoke_secret id w u at a) v s e stale = ground (arith, e, stale)
perform_stale c client_id (Write.disable w at a l) v s e stale = ground (arith, e, stale)
perform_stale c client_id (revoke_authorizations w at a) v s e stale = ground (arith, e, stale)

-- A client was changed by some write. A metadata update, a rotation or revocation of a secret, a
-- disabling or a revocation of authorizations that expects the version from before the change
-- then leaves the store as it is, if it reads the client after the change.
pub perform_alone_conflict :
    (client_id : String) (w w' : Write) (s : ClientStore) (c d : OidcClientRecord)
    → Dict.get client_id s.clients ≡ some c
    → Dict.get client_id (perform_alone client_id w s).clients ≡ some d
    → d ≢ c
    → expected w' ≡ some c.version
    → let t = perform_alone client_id w s in perform_alone client_id w' t ≡ t
unfolding perform_alone
perform_alone_conflict client_id w w' s c d found changed differ expects =
    let ((d', there, outcome), others) = perform_alone-Succeeds client_id w s c found in
    let same : d ≡ d' = ground (arith, changed, there) in
    let t = perform_alone client_id w s in
    elim outcome [
      | inl kept ↦ absurd (differ (same ∙ kept))
      | inr next ↦
          let stale : (d.version == c.version) ≡ false =
            ground
              (arith, next.version, ap (λ x. x.version) same, nat_beq_iff d.version c.version) in
          ap (λ o. perform o client_id w' t) changed
          ∙ perform_stale d client_id w' c.version t expects stale
    ]
