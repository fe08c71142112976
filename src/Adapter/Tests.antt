-- ===== src/Adapter/Tests.antt =====
-- A code that is exchanged while the client's authorizations are revoked.
use cqut_auth.Base.{
  ◌==◌, String, true, false, Option, none, some, [], ◌∷◌, ◌≡◌, ◌≢◌, refl, arith, eq_iff, string_eq,
  nat_eq,
}
use cqut_auth.Contracts.{Result, ok, err, ClientLifecycleStatus, ClientRevisionStatus}
use cqut_auth.Dict
use cqut_auth.Artifacts
use cqut_auth.Artifacts.{
  found, ArtifactRecord, Payload, ArtifactStore, ClientAuthorizationState,
  OpportunisticCleanupOptions, Found, upsert_artifact, find_artifact, find_artifact_by_uid,
  find_artifact_by_user_code, maybe_cleanup, read_artifact_by_id, read_artifact_by_column,
  drop_expired, map_artifact_payload, is_revocable,
}
use cqut_auth.Artifacts.Logins.{blank}
use cqut_auth.Artifacts.Current.{authorization_state}
use cqut_auth.Clients.Records
use cqut_auth.Clients.Records.{ClientStore, ClientType, OidcClientRecord, OidcClientRevisionRecord}
use cqut_auth.Clients.Queries.{
  find_oidc_client, memory_managed, revision_of, proposed_for, to_active,
}
use cqut_auth.Clients.Lifecycle.{next_generation}
use cqut_auth.Artifacts.Answers.{by_uid, Selects, look}
use cqut_auth.Adapter.{
  Context, Model, capture_authorization_generation, current_authorization_generation,
  capture_artifact_context, artifact_id, upsert, find, find_by_uid, find_by_user_code,
}
use cqut_auth.Adapter.Requests.{find-upsert_late}

adapters : Unit {0}
unfolding upsert_artifact find_artifact find_artifact_by_uid find_artifact_by_user_code
    maybe_cleanup read_artifact_by_id read_artifact_by_column drop_expired map_artifact_payload
    is_revocable authorization_state find_oidc_client memory_managed revision_of proposed_for
    to_active capture_authorization_generation current_authorization_generation
    capture_artifact_context upsert find find_by_uid find_by_user_code Dict.get Dict.set Dict.delete
adapters = tt

abbrev till : OidcClientRecord
till = record {
  client_id = "till";
  project_id = "shop";
  display_name = "Till";
  description = "";
  created_by_subject_id = none;
  client_type = ClientType.web;
  auto_consent = false;
  require_pkce = true;
  lifecycle_status = ClientLifecycleStatus.active;
  active_revision_id = some 1;
  authorization_generation = 4;
  created_at = 0;
  updated_at = 0;
  version = 1;
}

abbrev approved : OidcClientRevisionRecord
approved = record {
  revision_id = 1;
  client_id = "till";
  revision_number = 1;
  status = ClientRevisionStatus.approved;
  redirect_uris = [];
  post_logout_redirect_uris = [];
  scope_whitelist = "openid" ∷ [];
  rejection_reason = none;
  created_at = 0;
  updated_at = 0;
  version = 1;
}

abbrev clients : ClientStore
clients = record Records.empty { clients = ("till", till) ∷ []; revisions = (1, approved) ∷ [] }

-- After the authorizations were revoked.
abbrev moved : ClientStore
moved = record clients { clients = ("till", next_generation 9 till) ∷ [] }

abbrev options : OpportunisticCleanupOptions
options = record { enabled = false; min_interval_seconds = 0 }

abbrev plain : String → String
plain x = x

abbrev code : Payload
code = record blank { client_id = some "till"; kind = some "AuthorizationCode"; uid = some "u" }

abbrev put : Result ArtifactStore → ArtifactStore
put (ok s) = s
put (err e) = Artifacts.empty

abbrev stock : ArtifactStore
stock =
    put (upsert plain options "AuthorizationCode" clients none "c1" code 60 false 0 Artifacts.empty)

abbrev read : Context × ArtifactStore × Option Model
read = find plain options "AuthorizationCode" clients (some []) "c1" false 5 stock

abbrev late : ArtifactStore
late = put (upsert plain options "AccessToken" moved read.0 "t1" code 60 false 7 stock)

-- The request keeps the generation that it has read; a client captures its own; a lookup by uid
-- asks for the model.
find_tests :
    (current_authorization_generation "till" read.0 ≡ some 4)
    × (current_authorization_generation "till"
          (find plain options "Client" clients (some []) "till" false 5 stock).0
        ≡ some 4)
    × ((find plain options "AccessToken" moved (some []) "t1" false 8 late).2 ≡ none)
    × ((find_by_uid plain options "AuthorizationCode" clients (some []) "u" false 5 stock).2
        ≡ some (record { payload = code; authorization = none; consumed = none }))
    × ((find_by_user_code plain options clients (some []) "AB" false 5 stock).2 ≡ none)
unfolding adapters
find_tests = (refl, refl, refl, refl, refl)

other : (a b : String) → (a == b) ≡ false → a ≢ b
other a b differ same = ground (arith, eq_iff a b, differ, same)

abbrev session : Payload
session = record blank { uid = some "v" }

-- A session comes in between, and a token is stored late.
abbrev both : ArtifactStore
both = put (upsert plain options "Session" moved none "s1" session 60 false 6 stock)

abbrev after : ArtifactStore
after = put (upsert plain options "AccessToken" moved read.0 "t1" code 60 false 7 both)

-- The session is still answered.
find-upsert_late_example :
    (j : String) × (x : ArtifactRecord) × (Dict.get j after.artifacts ≡ some x)
    × Selects plain (by_uid "v" none) j x
    × (record { payload = session; authorization = none; consumed = none } ≡ found x)
    × (j ≢ artifact_id "AccessToken" "t1")
unfolding adapters look
find-upsert_late_example =
    find-upsert_late plain options clients moved moved [] "AuthorizationCode" "c1" "AccessToken"
      "t1" "till" 4 60 5 7 8 false false false code stock both after
      (record { payload = code; authorization = some ("till", 4); consumed = none })
      (record { lifecycle_status = ClientLifecycleStatus.active; authorization_generation = 5 })
      (by_uid "v" none) (record { payload = session; authorization = none; consumed = none })
      (other "AuthorizationCode" "Client" refl) refl refl refl (other "till" "" refl) refl
      (
        record {
          own = refl;
          client = refl;
          grant = refl;
          uid = refl;
          user_code = refl;
          dated = λ c of undated. ground (arith, undated);
        },
        (
          record {
            own = refl;
            client = refl;
            grant = refl;
            uid = refl;
            user_code = refl;
            dated = λ c of undated. cc;
          },
          tt,
        ),
      )
      ((other "Session:s1" "AuthorizationCode:c1" refl, tt), (tt, tt)) refl refl refl
      (λ d is same. ground (arith, is, same)) refl
