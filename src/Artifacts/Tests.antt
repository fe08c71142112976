-- ===== src/Artifacts/Tests.antt =====
-- Runs of the artifact store, and the theorems at them.
use Prim.Native.String.{◌++◌ as str_append}
use cqut_auth.Base.{
  given, ◌==◌, ◌⊎◌, count, ◌≤◌, String, true, false, none, some, List, [], ◌∷◌, ◌≡◌, ◌≢◌, refl,
  arith, eq_iff, string_eq, nat_eq, inr, All,
}
use cqut_auth.Contracts.{ClientLifecycleStatus}
use cqut_auth.Dict
use cqut_auth.Sessions.{AuthenticatedPrincipal, StudentStatus}
use cqut_auth.Artifacts.{
  is_some, EmailVerification, PendingInteractionLogin, Payload, ArtifactRecord, ArtifactStore,
  OpportunisticCleanupOptions, Found, found, empty, upsert_artifact, find_artifact,
  find_artifact_by_uid, find_artifact_by_user_code, revoke_artifacts_by_grant_id,
  revoke_artifacts_by_client_id, consume_artifact, maybe_cleanup, read_artifact_by_id,
  read_artifact_by_column, drop_expired, map_artifact_payload, is_revocable,
}
use cqut_auth.Artifacts.Logins.{
  blank, try_acquire_login_gate, verify_interaction_email_code, apply_email_verification_attempt,
  attempt, save_interaction_login, get_interaction_login, incorrect, verified, cleared,
}
use cqut_auth.Artifacts.Attempts
use cqut_auth.Artifacts.Attempts.{Guess, is_decided, is_verified, run_fresh}
use cqut_auth.Artifacts.Gate.{
  Call, upserted, looked_up, uid_looked_up, user_code_looked_up, destroyed, client_revoked,
  code_submitted, gate_tried, step, run,
}
use cqut_auth.Artifacts.Exclusion.{run-exclusive}
use cqut_auth.Artifacts.Replay.{consume-once}
use cqut_auth.Artifacts.Shape.{Shape, run-Shape}
use cqut_auth.Artifacts.Revocation.{revoke_artifacts_by_client_id-All}
use cqut_auth.Artifacts.Answers.{by_id, by_uid, Selects, look}
use cqut_auth.Dict.{IsMap}
use cqut_auth.Artifacts.Current.{
  look-disable_locked, authorization_state, look-revoke_authorizations_locked,
}
use cqut_auth.Artifacts.Lookup.{
  find_artifact-upsert_artifact, get_interaction_login-save_interaction_login,
}
use cqut_auth.Clients.Records
use cqut_auth.Clients.Records.{
  ClientStore, ClientType, OidcClientRecord, OidcClientAuditRecord, OidcClientAuditAction,
  ManagedOidcClientRecord,
}
use cqut_auth.Clients.Queries.{memory_managed, revision_of, proposed_for}
use cqut_auth.Clients.Lifecycle.{
  disable_locked, disable, revoke_authorizations_locked, cancel_all, revoke_all, revoke_audits,
  disabled_client, next_generation,
}

stores : Unit {0}
unfolding upsert_artifact find_artifact find_artifact_by_uid find_artifact_by_user_code
    revoke_artifacts_by_grant_id revoke_artifacts_by_client_id consume_artifact maybe_cleanup
    read_artifact_by_id read_artifact_by_column drop_expired map_artifact_payload is_revocable
    try_acquire_login_gate verify_interaction_email_code apply_email_verification_attempt attempt
    save_interaction_login get_interaction_login Attempts.run step run authorization_state
    disable_locked disable revoke_authorizations_locked cancel_all revoke_all revoke_audits
    memory_managed revision_of proposed_for Dict.get Dict.set Dict.delete
stores = tt

other : (a b : String) → (a == b) ≡ false → a ≢ b
other a b differ same = ground (arith, eq_iff a b, differ, same)

abbrev keyed : String → String
keyed text = str_append "#" text

abbrev till : OidcClientRecord
till = record {
  client_id = "till";
  project_id = "shop";
  display_name = "Till";
  description = "";
  created_by_subject_id = none;
  client_type = ClientType.web;
  auto_consent = false;
  require_pkce = true;
  lifecycle_status = ClientLifecycleStatus.active;
  active_revision_id = none;
  authorization_generation = 4;
  created_at = 0;
  updated_at = 0;
  version = 1;
}

abbrev clients : ClientStore
clients = record Records.empty { clients = ("till", till) ∷ [] }

abbrev options : OpportunisticCleanupOptions
options = record { enabled = true; min_interval_seconds = 60 }

abbrev code : Payload
code = record blank {
  client_id = some "till";
  grant_id = some "g";
  uid = some "u";
  user_code = some "AB";
  content = "code";
}

-- A code of the client, a session of its own, and a gate.
abbrev calls : List Call
calls =
    upserted "c1" "AuthorizationCode" code 60 none true 1000
    ∷ upserted "s1" "Session" blank 600 none true 2000
    ∷ gate_tried "u" 10 3000
    ∷ []

abbrev stock : ArtifactStore
stock = run keyed (authorization_state clients) options calls empty

-- A code is answered with its client and generation, and not after a minute.
find_artifact_tests :
    ((find_artifact keyed (authorization_state clients) options "c1" false 60999 stock).1
      ≡ some (record { payload = code; authorization = some ("till", 4); consumed = none }))
    × ((find_artifact keyed (authorization_state clients) options "c1" false 61000 stock).1 ≡ none)
    × ((find_artifact_by_uid keyed
          (authorization_state clients)
          options
          "u"
          none
          false
          5000
          stock).1
        ≡ some (record { payload = code; authorization = some ("till", 4); consumed = none }))
    × ((find_artifact_by_uid keyed
          (authorization_state clients)
          options
          "u"
          (some "Session")
          false
          5000
          stock).1
        ≡ none)
    × ((find_artifact_by_user_code keyed
          (authorization_state clients)
          options
          "AB"
          false
          5000
          stock).1
        ≡ some (record { payload = code; authorization = some ("till", 4); consumed = none }))
unfolding stores
find_artifact_tests = (refl, refl, refl, refl, refl)

-- An unknown client's code is not stored; a consumed one tells the second of its consumption.
upsert_artifact_tests :
    (upsert_artifact keyed
        (authorization_state clients)
        options
        "c2"
        "AuthorizationCode"
        (record blank { client_id = some "pos" })
        60
        none
        false
        0
        empty
      ≡ empty)
    × ((consume_artifact "c1" 5000 stock).1 ≡ true)
    × ((find_artifact keyed
          (authorization_state clients)
          options
          "c1"
          false
          6000
          (consume_artifact "c1" 5000 stock).0).1
        ≡ some (record { payload = code; authorization = some ("till", 4); consumed = some 5 }))
unfolding stores
upsert_artifact_tests = (refl, refl, refl)

abbrev ann : AuthenticatedPrincipal
ann = record {
  subject_id = "ann";
  school_uid = "1";
  school = "cqut";
  student_status = StudentStatus.active;
  identity_source = "test";
  identity_key = "1";
  email = none;
  email_verified = false;
  display_name = none;
  preferred_username = "ann";
}

abbrev sent : EmailVerification
sent = record {
  email = "a@b.c";
  code_hash = "h";
  expires_at = 9000;
  attempts = 0;
  next_resend_at = 60;
}

abbrev waiting : PendingInteractionLogin
waiting = record { principal = ann; auth_time = 1; email_verification = some sent }

abbrev saved : ArtifactStore
saved =
    save_interaction_login keyed (authorization_state clients) options 3600 "u" waiting true 1000
      empty

-- A wrong code and then the right one.
verify_interaction_email_code_tests :
    let r = verify_interaction_email_code "u" "h" "x" 2000 3 2000 saved in
    (r.1 ≡ incorrect "a@b.c" 60 2)
    × ((verify_interaction_email_code "u" "h" "h" 2000 3 2000 r.0).1
        ≡ verified "a@b.c" (cleared waiting))
unfolding stores
verify_interaction_email_code_tests = (refl, refl)

get_interaction_login-save_interaction_login_example :
    (get_interaction_login keyed
      (authorization_state clients)
      options
      3600
      "u"
      true
      3600999
      saved).1
    ≡ some waiting
get_interaction_login-save_interaction_login_example =
    get_interaction_login-save_interaction_login keyed (authorization_state clients) options 3600
      "u" waiting true true 1000 3600999 empty (omega arith)

find_artifact-upsert_artifact_example :
    let u =
      upsert_artifact keyed
        (authorization_state clients)
        options
        "c2"
        "AuthorizationCode"
        code
        60
        (some 4)
        true
        5000
        stock in
    (f : Found) × ((find_artifact keyed (authorization_state clients) options "c2" true 64999 u).1
      ≡ some f)
    × (f.payload ≡ code)
unfolding stores
find_artifact-upsert_artifact_example =
    find_artifact-upsert_artifact keyed (authorization_state clients) options "c2"
      "AuthorizationCode" code 60 (some 4) true true 5000 64999 stock
      (inr (
        "till",
        record { lifecycle_status = ClientLifecycleStatus.active; authorization_generation = 4 },
        refl,
        refl,
        refl,
        inr refl,
      ))
      (omega arith)

stock-IsMap : IsMap stock.artifacts
unfolding stores
stock-IsMap = (
  (other "s1" "c1" refl, (other "interaction_login_gate:u" "c1" refl, tt)),
  ((other "interaction_login_gate:u" "s1" refl, tt), (tt, tt)),
)

abbrev guesses : List Guess
guesses =
    record { expected = "h"; input = "x"; now = 1 }
    ∷ record { expected = "h"; input = "h"; now = 2 }
    ∷ []

run_fresh_example :
    (count is_decided (Attempts.run 2 guesses waiting) ≤ 2)
    × (count is_verified (Attempts.run 2 guesses waiting) ≤ 1)
run_fresh_example = run_fresh 2 guesses waiting sent (omega arith) refl refl

abbrev between : List Call
between =
    looked_up "c1" true 4000
    ∷ destroyed "s1"
    ∷ client_revoked "till"
    ∷ code_submitted "u" "h" "h" 5000 3 5000
    ∷ uid_looked_up "u" none true 6000
    ∷ user_code_looked_up "w" false 6000
    ∷ []

-- The gate of the same interaction, tried again before its ten seconds are over.
run-exclusive_example :
    let u =
      run keyed
        (authorization_state clients)
        options
        between
        (try_acquire_login_gate "v" 10 3000 stock).0 in
    try_acquire_login_gate "v" 10 12999 u ≡ (u, false)
unfolding stores
run-exclusive_example =
    run-exclusive keyed (authorization_state clients) options "v" 10 10 3000 12999 between stock
      (try_acquire_login_gate "v" 10 3000 stock).0 (refl, (refl, (refl, tt))) stock-IsMap refl
      (
        omega arith,
        (
          other "s1" "interaction_login_gate:v" refl,
          (tt, (omega arith, (omega arith, (omega arith, tt)))),
        ),
      )
      (omega arith)

consume-once_example :
    let u =
      run keyed
        (authorization_state clients)
        options
        between
        (consume_artifact "s1" 5000 stock).0 in
    consume_artifact "s1" 7000 u ≡ (u, false)
unfolding stores
consume-once_example =
    consume-once keyed (authorization_state clients) options "s1" 5000 7000 between stock
      (consume_artifact "s1" 5000 stock).0 (refl, (refl, (refl, tt))) stock-IsMap refl
      (tt, (tt, (tt, (tt, (tt, (tt, tt))))))

run-Shape_example : All (Shape keyed) stock.artifacts
run-Shape_example = run-Shape keyed (authorization_state clients) options calls

revoke_artifacts_by_client_id-All_example :
    let t =
      revoke_artifacts_by_client_id keyed (authorization_state clients) options "till" stock in
    All (λ e. e.1.payload.client_id ≡ some "till" → is_revocable e.1.kind ≡ false) t.artifacts
    × ((id : String) (x : ArtifactRecord)
        → Dict.get id stock.artifacts ≡ some x
        → (is_revocable x.kind ≡ false) ⊎ (is_some x.client_id_hash (keyed "till") ≡ false)
        → Dict.get id t.artifacts ≡ some x)
revoke_artifacts_by_client_id-All_example =
    revoke_artifacts_by_client_id-All keyed (authorization_state clients) options "till" stock
      (other "till" "" refl) (run-Shape keyed (authorization_state clients) options calls)

abbrev audit : OidcClientAuditRecord
audit = record {
  id = none;
  project_id = none;
  client_id = "till";
  revision_id = none;
  revision_number = none;
  secret_id = none;
  actor_subject_id = none;
  action = OidcClientAuditAction.client_disabled;
  changed_fields = [];
  previous_client_status = none;
  new_client_status = none;
  previous_revision_status = none;
  new_revision_status = none;
  reason = none;
  source_ip = none;
  created_at = 0;
}

abbrev managed : OidcClientRecord → ManagedOidcClientRecord
managed c = record { client = c; secrets = []; active_revision = none; proposed_revision = none }

abbrev disabled : ClientStore
disabled = (disable_locked (some till) "till" 1 9 audit [] clients).0

abbrev revoked : ClientStore
revoked = (revoke_authorizations_locked (some till) "till" 1 9 audit clients).0

-- The client's code is gone with the client; its session is still answered.
look-disable_locked_example :
    (id : String) × (x : ArtifactRecord) × (Dict.get id stock.artifacts ≡ some x)
    × Selects keyed (by_id "s1") id x
    × (record { payload = blank; authorization = none; consumed = none } ≡ found x)
    × (given x.payload.client_id ≡ some "till" → is_revocable x.kind ≡ false)
unfolding stores look
look-disable_locked_example =
    look-disable_locked keyed options till "till" 1 9 audit [] clients disabled
      (managed (disabled_client 9 till)) (by_id "s1") false 5000 stock
      (record { payload = blank; authorization = none; consumed = none }) refl
      (run-Shape keyed (authorization_state clients) options calls) stock-IsMap refl

-- A code that was stored after the revocation.
abbrev restocked : List Call
restocked = upserted "c2" "AuthorizationCode" code 60 none true 1000 ∷ []

abbrev restock : ArtifactStore
restock = run keyed (authorization_state revoked) options restocked empty

look-revoke_authorizations_locked_example :
    (id : String) × (x : ArtifactRecord) × (Dict.get id restock.artifacts ≡ some x)
    × Selects keyed (by_uid "u" none) id x
    × (record { payload = code; authorization = some ("till", 5); consumed = none } ≡ found x)
    × (given x.payload.client_id ≡ some "till"
        → is_revocable x.kind ≡ true
        → x.authorization_generation ≡ some 5)
unfolding stores look
look-revoke_authorizations_locked_example =
    look-revoke_authorizations_locked keyed options till "till" 1 9 audit clients revoked
      (managed (next_generation 9 till)) (by_uid "u" none) false 5000 restock
      (record { payload = code; authorization = some ("till", 5); consumed = none }) refl
      (run-Shape keyed (authorization_state revoked) options restocked) (tt, tt) refl
