-- ===== src/Clients/Calls.antt =====
-- The writes of the client store as one type. `perform` runs a write under the project's lock,
-- after the access check: with the client that the call read before it waited for the lock.
use cqut_auth.Base.{string_eq, ℕ, String, Option, List}
use cqut_auth.Dict
use cqut_auth.Clients.Records.{
  OidcClientRecord, OidcClientSecretRecord, OidcClientRevisionRecord, OidcClientAuditRecord,
  ClientStore,
}
use cqut_auth.Clients.Registration.{MetadataPatch, update_metadata_locked}
use cqut_auth.Clients.Revisions.{save_revision_locked}
use cqut_auth.Clients.Secrets.{rotate_locked, revoke_locked}
use cqut_auth.Clients.Lifecycle.{disable_locked, revoke_authorizations_locked}

-- A write of an existing client.
pub data Write : Type 0 where
  update_metadata : MetadataPatch → ℕ → OidcClientAuditRecord → Write
  save_revision :
      OidcClientRevisionRecord → Option ℕ → Option ℕ → List OidcClientAuditRecord → Write
  rotate_secret : OidcClientSecretRecord → ℕ → ℕ → ℕ → OidcClientAuditRecord → Write
  revoke_secret : String → ℕ → ℕ → ℕ → OidcClientAuditRecord → Write
  disable : ℕ → ℕ → OidcClientAuditRecord → List OidcClientAuditRecord → Write
  revoke_authorizations : ℕ → ℕ → OidcClientAuditRecord → Write

unfoldable pub perform : Option OidcClientRecord → String → Write → ClientStore → ClientStore
perform snapshot client_id (update_metadata patch v a) s =
    (update_metadata_locked snapshot client_id patch v a s).0
perform snapshot client_id (save_revision r id v l) s =
    (save_revision_locked snapshot client_id r id v l s).0
perform snapshot client_id (rotate_secret x v grace interval a) s =
    (rotate_locked snapshot client_id x v grace interval a s).0
perform snapshot client_id (revoke_secret id v w at a) s =
    (revoke_locked snapshot client_id id v w at a s).0
perform snapshot client_id (disable v at a l) s = (disable_locked snapshot client_id v at a l s).0
perform snapshot client_id (revoke_authorizations v at a) s =
    (revoke_authorizations_locked snapshot client_id v at a s).0

-- A write that no other write overtakes: its snapshot is the client in the store.
unfoldable pub perform_alone : String → Write → ClientStore → ClientStore
perform_alone client_id w s = perform (Dict.get client_id s.clients) client_id w s
