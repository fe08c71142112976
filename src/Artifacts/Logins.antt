-- ===== src/Artifacts/Logins.antt =====
-- The pending login of an interaction: its e-mail verification, and the gate that admits one
-- login of an interaction at a time.
use Prim.Native.String.{◌++◌ as str_append}
use cqut_auth.Base.{
  ℕ, ◌+◌, ◌-◌, ◌*◌, String, Bool, true, false, not, Option, none, some, leb, ◌==◌, string_eq,
  nat_eq, if◌then◌else◌,
}
use cqut_auth.Dict
use cqut_auth.Artifacts.{
  EmailVerification, PendingInteractionLogin, Payload, ArtifactRecord, ArtifactStore,
  ClientAuthorizationState, OpportunisticCleanupOptions, has_expired, with_artifacts,
  upsert_artifact, find_artifact, destroy_artifact,
}

abbrev pub login_id : String → String
login_id uid = str_append "interaction_login:" uid

abbrev pub gate_id : String → String
gate_id uid = str_append "interaction_login_gate:" uid

-- A payload with nothing in it.
abbrev pub blank : Payload
blank = record {
  kind = none;
  client_id = none;
  grant_id = none;
  uid = none;
  user_code = none;
  pending = none;
  content = "";
}

pub data InteractionEmailVerificationResult : Type 0 where
  missing stale : InteractionEmailVerificationResult
  expired locked : String → InteractionEmailVerificationResult
  incorrect : String → ℕ → ℕ → InteractionEmailVerificationResult
  verified : String → PendingInteractionLogin → InteractionEmailVerificationResult

-- What an attempt leaves of the pending login: the record is changed in place.
abbrev pub cleared : PendingInteractionLogin → PendingInteractionLogin
cleared p = record p { email_verification = none }

-- `applyEmailVerificationAttempt` once there is a verification. The attempts left are a
-- subtraction that does not go below 0: attempts that are not below the limit are refused before.
unfoldable pub attempt :
    String
    → String
    → ℕ
    → ℕ
    → PendingInteractionLogin
    → EmailVerification
    → PendingInteractionLogin × InteractionEmailVerificationResult
attempt expected_code_hash input_code_hash now max_attempts pending v =
    if not (v.code_hash == expected_code_hash)
    then (pending, stale)
    else if leb v.expires_at now
    then (cleared pending, expired v.email)
    else if leb max_attempts v.attempts
    then (cleared pending, locked v.email)
    else if v.code_hash == input_code_hash
    then (cleared pending, verified v.email (cleared pending))
    else if max_attempts - (v.attempts + 1) == 0
    then (cleared pending, locked v.email)
    else (
      record pending { email_verification = some (record v { attempts = v.attempts + 1 }) },
      incorrect v.email v.next_resend_at (max_attempts - (v.attempts + 1)),
    )

unfoldable pub apply_email_verification_attempt :
    String
    → String
    → ℕ
    → ℕ
    → PendingInteractionLogin
    → PendingInteractionLogin × InteractionEmailVerificationResult
apply_email_verification_attempt expected input now max_attempts pending =
    elim pending.email_verification [
      | none ↦ (pending, missing)
      | some v ↦ attempt expected input now max_attempts pending v
    ]

abbrev pub put_pending : ArtifactRecord → PendingInteractionLogin → ArtifactStore → ArtifactStore
put_pending x pending s =
    with_artifacts
      (Dict.set x.id (record x { payload = record x.payload { pending = some pending } })
        s.artifacts)
      s

-- An expired login is deleted; `clock` is the time of that test (`Date.now()`), `now` the one that
-- the caller gives. A record without a pending login is none of an interaction.
unfoldable pub verify_interaction_email_code :
    String
    → String
    → String
    → ℕ
    → ℕ
    → ℕ
    → ArtifactStore
    → ArtifactStore × InteractionEmailVerificationResult
verify_interaction_email_code uid expected input now max_attempts clock s =
    elim (Dict.get (login_id uid) s.artifacts) [
      | none ↦ (s, missing)
      | some x ↦
          if has_expired clock x
          then (destroy_artifact x.id s, missing)
          else elim x.payload.pending [
            | none ↦ (s, missing)
            | some pending ↦
                let r = apply_email_verification_attempt expected input now max_attempts pending in
                (put_pending x r.0 s, r.1)
          ]
    ]

module _ (hash : String → String) (state_of : String → Option ClientAuthorizationState)
    (options : OpportunisticCleanupOptions) (interaction_ttl_seconds : ℕ) where
  unfoldable pub save_interaction_login :
      String → PendingInteractionLogin → Bool → ℕ → ArtifactStore → ArtifactStore
  save_interaction_login uid value sampled now =
      upsert_artifact hash state_of options (login_id uid) "InteractionLogin"
        (record blank { pending = some value }) interaction_ttl_seconds none sampled now

  unfoldable pub get_interaction_login :
      String → Bool → ℕ → ArtifactStore → ArtifactStore × Option PendingInteractionLogin
  get_interaction_login uid sampled now s =
      let r = find_artifact hash state_of options (login_id uid) sampled now s in
      (r.0, elim r.1 [ none ↦ none | some f ↦ f.payload.pending ])

abbrev pub delete_interaction_login : String → ArtifactStore → ArtifactStore
delete_interaction_login uid = destroy_artifact (login_id uid)

abbrev pub gate : String → ℕ → ℕ → ArtifactRecord
gate uid ttl_seconds now = record {
  id = gate_id uid;
  kind = "InteractionLoginGate";
  payload = blank;
  expires_at = some (now + ttl_seconds * 1000);
  consumed_at = none;
  grant_id_hash = none;
  client_id_hash = none;
  authorization_generation = none;
  uid_hash = none;
  user_code_hash = none;
  created_at = now;
}

-- An expired gate is deleted, and then put in anew.
unfoldable pub try_acquire_login_gate : String → ℕ → ℕ → ArtifactStore → ArtifactStore × Bool
try_acquire_login_gate uid ttl_seconds now s = elim (Dict.get (gate_id uid) s.artifacts) [
  | none ↦ (with_artifacts (Dict.set (gate_id uid) (gate uid ttl_seconds now) s.artifacts) s, true)
  | some x ↦
      if has_expired now x
      then (
        with_artifacts
            (Dict.set (gate_id uid) (gate uid ttl_seconds now) (Dict.delete x.id s.artifacts)) s,
        true,
      )
      else (s, false)
]

abbrev pub release_login_gate : String → ArtifactStore → ArtifactStore
release_login_gate uid = destroy_artifact (gate_id uid)
