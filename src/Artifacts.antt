-- ===== src/Artifacts.antt =====
-- persistence/oidc-artifact.repository.ts without a database: what the OIDC provider stores,
-- codes, tokens, grants, sessions and interactions, and the pending logins of interactions.
-- The keyed hash of a lookup value (`hashLookupValue` of the cipher service, from node:crypto)
-- and the state of a client are arguments; so are the time of a call and whether it is sampled
-- for a cleanup.
pub mod Logins
pub mod Attempts
pub mod Cleanup
pub mod Gate
pub mod Exclusion
pub mod Lasting
pub mod Replay
pub mod Shape
pub mod Revocation
pub mod Answers
pub mod Current
pub mod Lookup
mod Tests
use Prim.Native.String.{◌++◌ as str_append}
use cqut_auth.Base.{
  given, ℕ, ◌+◌, ◌*◌, ◌/◌, String, Bool, true, false, not, ◌&&◌, ◌||◌, Option, none, some, List, [],
  ◌∷◌, filter, find, leb, ltb, ◌==◌, string_eq, nat_eq, if◌then◌else◌,
}
use cqut_auth.Contracts.{ClientLifecycleStatus}
use cqut_auth.Dict
use cqut_auth.Dict.{Dict, values}
use cqut_auth.Sessions.{AuthenticatedPrincipal}

-- `PendingInteractionLogin["emailVerification"]`
pub record EmailVerification : Type 0 where
  pub email : String
  pub code_hash : String
  pub expires_at : ℕ
  pub attempts : ℕ
  pub next_resend_at : ℕ

pub record PendingInteractionLogin : Type 0 where
  pub principal : AuthenticatedPrincipal
  pub auth_time : ℕ
  pub email_verification : Option EmailVerification

-- A payload: the fields that the store reads where they are strings, the pending login that the
-- payload of a kind "InteractionLogin" is, and everything else as one text.
pub record Payload : Type 0 where
  pub kind : Option String
  pub client_id : Option String
  pub grant_id : Option String
  pub uid : Option String
  pub user_code : Option String
  pub pending : Option PendingInteractionLogin
  pub content : String

pub record ArtifactRecord : Type 0 where
  pub id : String
  pub kind : String
  pub payload : Payload
  pub expires_at : Option ℕ
  pub consumed_at : Option ℕ
  pub grant_id_hash : Option String
  pub client_id_hash : Option String
  pub authorization_generation : Option ℕ
  pub uid_hash : Option String
  pub user_code_hash : Option String
  pub created_at : ℕ

pub record ClientAuthorizationState : Type 0 where
  pub lifecycle_status : ClientLifecycleStatus
  pub authorization_generation : ℕ

pub record OpportunisticCleanupOptions : Type 0 where
  pub enabled : Bool
  pub min_interval_seconds : ℕ

pub record ArtifactStore : Type 0 where
  pub artifacts : Dict String ArtifactRecord
  pub last_cleanup_at : ℕ

abbrev pub empty : ArtifactStore
empty = record { artifacts = []; last_cleanup_at = 0 }

abbrev pub revocable_client_artifact_kinds : List String
revocable_client_artifact_kinds =
    "AuthorizationCode" ∷ "AccessToken" ∷ "RefreshToken" ∷ "Grant" ∷ []

abbrev pub one_of : String → List String → Bool
one_of x [] = false
one_of x (y ∷ ys) = y == x || one_of x ys

unfoldable pub is_revocable : String → Bool
is_revocable kind = one_of kind revocable_client_artifact_kinds

abbrev pub is_disabled : ClientLifecycleStatus → Bool
is_disabled ClientLifecycleStatus.disabled = true
is_disabled _ = false

abbrev pub mapped {ℓ κ} : {A : Type ℓ} {B : Type κ} → (A → B) → Option A → Option B
mapped f none = none
mapped f (some a) = some (f a)

-- `a === b` where `a` may be undefined
abbrev pub is_some : Option String → String → Bool
is_some none b = false
is_some (some a) b = a == b

-- `record.expiresAt && record.expiresAt <= now`
abbrev pub has_expired : ℕ → ArtifactRecord → Bool
has_expired now x = elim x.expires_at [ none ↦ false | some at ↦ leb at now ]

module _ (options : OpportunisticCleanupOptions) where
  -- `maybeCleanupExpiredArtifacts`; `sampled` says that `Math.random()` is not above the rate.
  unfoldable pub maybe_cleanup : Bool → ℕ → ArtifactStore → ArtifactStore
  maybe_cleanup sampled now s =
      if not options.enabled
        || not sampled
        || ltb now (s.last_cleanup_at + options.min_interval_seconds * 1000)
      then s
      else record {
        artifacts = filter (λ e. not (has_expired now e.1)) s.artifacts;
        last_cleanup_at = now;
      }

abbrev pub with_artifacts : Dict String ArtifactRecord → ArtifactStore → ArtifactStore
with_artifacts artifacts s = record s { artifacts = artifacts }

-- `isExpired` for a record that was found: an expired one is deleted.
unfoldable pub drop_expired :
    ℕ → ArtifactRecord → ArtifactStore → ArtifactStore × Option ArtifactRecord
drop_expired now x s =
    if has_expired now x
    then (with_artifacts (Dict.delete x.id s.artifacts) s, none)
    else (s, some x)

unfoldable pub read_artifact_by_id :
    String → ℕ → ArtifactStore → ArtifactStore × Option ArtifactRecord
read_artifact_by_id id now s = elim (Dict.get id s.artifacts) [
  | none ↦ (s, none)
  | some x ↦ drop_expired now x s
]

-- The record has the value in the column, and the kind if one is asked for.
abbrev pub matches :
    (ArtifactRecord → Option String) → String → Option String → ArtifactRecord → Bool
matches column value kind x =
    is_some (column x) value && (elim kind [ none ↦ true | some k ↦ x.kind == k ])

-- `readArtifactByColumn`; `column` is the column of a record.
unfoldable pub read_artifact_by_column :
    (ArtifactRecord → Option String)
    → String
    → Option String
    → ℕ
    → ArtifactStore
    → ArtifactStore × Option ArtifactRecord
read_artifact_by_column column value kind now s =
    elim (find (matches column value kind) (values s.artifacts)) [
      | none ↦ (s, none)
      | some x ↦ drop_expired now x s
    ]

-- The payload that a lookup answers, with the client and generation that it adds under internal
-- keys, and the time of the consumption in seconds.
pub record Found : Type 0 where
  pub payload : Payload
  pub authorization : Option (String × ℕ)
  pub consumed : Option ℕ

abbrev pub found : ArtifactRecord → Found
found x = record {
  payload = x.payload;
  authorization = elim (given x.payload.client_id) [
    | none ↦ none
    | some c ↦ mapped (λ g. (c, g)) x.authorization_generation
  ];
  consumed = mapped (λ at. at / 1000) x.consumed_at;
}

-- The client still stands behind an artifact of the generation `g`.
abbrev pub stands : Option ClientAuthorizationState → ℕ → Bool
stands none g = false
stands (some state) g =
    not (is_disabled state.lifecycle_status) && state.authorization_generation == g

module _ (hash : String → String) where
  abbrev pub stored_record :
      String → String → Payload → ℕ → Option ℕ → ℕ → ArtifactStore → ArtifactRecord
  stored_record id kind payload expires_in generation now s = record {
    id = id;
    kind = kind;
    payload = payload;
    expires_at = some (now + expires_in * 1000);
    consumed_at = elim (Dict.get id s.artifacts) [ none ↦ none | some x ↦ x.consumed_at ];
    grant_id_hash = mapped hash payload.grant_id;
    client_id_hash = mapped hash (given payload.client_id);
    authorization_generation = generation;
    uid_hash = mapped hash payload.uid;
    user_code_hash = mapped hash payload.user_code;
    created_at = now;
  }

  abbrev stored : String → String → Payload → ℕ → Option ℕ → ℕ → ArtifactStore → ArtifactStore
  stored id kind payload expires_in generation now s =
      with_artifacts
        (Dict.set id (stored_record id kind payload expires_in generation now s) s.artifacts) s

module _ (hash : String → String) (state_of : String → Option ClientAuthorizationState)
    (options : OpportunisticCleanupOptions) where
  unfoldable pub map_artifact_payload : ArtifactRecord → Option Found
  unfolding is_revocable
  map_artifact_payload x = elim (given x.payload.client_id) [
    | none ↦ some (found x)
    | some c ↦ elim x.authorization_generation [
      | none ↦ some (found x)
      | some g ↦ if is_revocable x.kind && not (stands (state_of c) g) then none else some (found x)
    ]
  ]

  abbrev pub answer : ArtifactStore × Option ArtifactRecord → ArtifactStore × Option Found
  answer (s, none) = (s, none)
  answer (s, some x) = (s, map_artifact_payload x)

  -- A payload of a client that is unknown or disabled is not stored, and no error says so.
  unfoldable pub upsert_artifact :
      String → String → Payload → ℕ → Option ℕ → Bool → ℕ → ArtifactStore → ArtifactStore
  upsert_artifact id kind payload expires_in generation sampled now s =
      let s' = maybe_cleanup options sampled now s in
      elim (given payload.client_id) [
        | none ↦ stored hash id kind payload expires_in generation now s'
        | some c ↦ elim (state_of c) [
          | none ↦ s'
          | some state ↦
              if is_disabled state.lifecycle_status
              then s'
              else stored hash id kind payload expires_in
                  (elim generation [ none ↦ some state.authorization_generation | some g ↦ some g ])
                  now s'
        ]
      ]

  unfoldable pub find_artifact : String → Bool → ℕ → ArtifactStore → ArtifactStore × Option Found
  find_artifact id sampled now s =
      answer (read_artifact_by_id id now (maybe_cleanup options sampled now s))

  unfoldable pub find_artifact_by_uid :
      String → Option String → Bool → ℕ → ArtifactStore → ArtifactStore × Option Found
  find_artifact_by_uid uid kind sampled now s = answer (
      read_artifact_by_column (λ x. x.uid_hash) (hash uid) kind now
        (maybe_cleanup options sampled now s))

  unfoldable pub find_artifact_by_user_code :
      String → Bool → ℕ → ArtifactStore → ArtifactStore × Option Found
  find_artifact_by_user_code user_code sampled now s = answer (
      read_artifact_by_column (λ x. x.user_code_hash) (hash user_code) none now
        (maybe_cleanup options sampled now s))

  unfoldable pub revoke_artifacts_by_grant_id : String → ArtifactStore → ArtifactStore
  revoke_artifacts_by_grant_id grant_id s =
      with_artifacts (filter (λ e. not (is_some e.1.grant_id_hash (hash grant_id))) s.artifacts) s

  unfoldable pub revoke_artifacts_by_client_id : String → ArtifactStore → ArtifactStore
  unfolding is_revocable
  revoke_artifacts_by_client_id client_id s =
      with_artifacts
        (filter (λ e. not (is_some e.1.client_id_hash (hash client_id) && is_revocable e.1.kind))
          s.artifacts)
        s

abbrev pub destroy_artifact : String → ArtifactStore → ArtifactStore
destroy_artifact id s = with_artifacts (Dict.delete id s.artifacts) s

-- `consumeArtifact`: whether it goes through, or throws an ArtifactAlreadyConsumedError.
unfoldable pub consume_artifact : String → ℕ → ArtifactStore → ArtifactStore × Bool
consume_artifact id now s = elim (Dict.get id s.artifacts) [
  | none ↦ (s, false)
  | some x ↦ elim x.consumed_at [
    | some at ↦ (s, false)
    | none ↦
        (with_artifacts (Dict.set id (record x { consumed_at = some now }) s.artifacts) s, true)
  ]
]
