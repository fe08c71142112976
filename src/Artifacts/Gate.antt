-- ===== src/Artifacts/Gate.antt =====
-- The calls of persistence/oidc-artifact.repository.ts as a type, and a record that runs on while
-- they come, as the gate of a login does.
pub mod Calls
use cqut_auth.Base.{
  ◌||◌, ltb, ℕ, ◌+◌, ◌*◌, ◌<◌, String, Bool, true, not, Option, none, some, List, [], ◌∷◌, ◌≡◌, ◌≢◌,
  All, All-filter, arith, eq_iff, string_eq, nat_eq, ◌==◌, filter, Bool-cases, inl, inr, ◌∙◌,
}
use cqut_auth.Dict
use cqut_auth.Dict.{Dict, IsMap}
use cqut_auth.Dict.Laws.{
  get-filter, get-set_self, get-set_ne, get-delete, set-All, delete-All, get-All, set-IsMap,
  delete-IsMap, filter-IsMap,
}
use cqut_auth.Artifacts.Cleanup.{maybe_cleanup_elim}
use cqut_auth.Artifacts.{
  Payload, ArtifactRecord, ArtifactStore, ClientAuthorizationState, OpportunisticCleanupOptions,
  has_expired, with_artifacts, maybe_cleanup, upsert_artifact, find_artifact, find_artifact_by_uid,
  find_artifact_by_user_code, revoke_artifacts_by_grant_id, revoke_artifacts_by_client_id,
  destroy_artifact, consume_artifact,
}
use cqut_auth.Artifacts.Logins.{try_acquire_login_gate, verify_interaction_email_code}

-- A call of the store, at its time.
pub data Call : Type 0 where
  upserted : String → String → Payload → ℕ → Option ℕ → Bool → ℕ → Call
  looked_up : String → Bool → ℕ → Call
  uid_looked_up : String → Option String → Bool → ℕ → Call
  user_code_looked_up : String → Bool → ℕ → Call
  destroyed : String → Call
  consumed : String → ℕ → Call
  grant_revoked : String → Call
  client_revoked : String → Call
  code_submitted : String → String → String → ℕ → ℕ → ℕ → Call
  gate_tried : String → ℕ → ℕ → Call

-- Every record stands under its own identifier.
abbrev pub IsKeyed : ArtifactStore → Type 0
IsKeyed s = All (λ e. e.1.id ≡ e.0) s.artifacts

-- The record under `id` runs until `end` and belongs to no client and no grant; no identifier
-- stands twice.
pub record Holds (id : String) (end : ℕ) (s : ArtifactStore) : Type 0 where
  pub value : ArtifactRecord
  pub stored : Dict.get id s.artifacts ≡ some value
  pub until : value.expires_at ≡ some end
  pub no_grant : value.grant_id_hash ≡ none
  pub no_client : value.client_id_hash ≡ none
  pub unique : IsMap s.artifacts

-- The call is made before `end`, and does not remove or overwrite what is under `id`.
abbrev pub Spares : String → ℕ → Call → Type 0
Spares id end (upserted j kind p ttl g sampled now) = (now < end) × (j ≢ id)
Spares id end (looked_up j sampled now) = now < end
Spares id end (uid_looked_up uid kind sampled now) = now < end
Spares id end (user_code_looked_up user_code sampled now) = now < end
Spares id end (destroyed j) = j ≢ id
Spares id end (code_submitted uid expected input now most clock) = clock < end
Spares id end (gate_tried uid ttl now) = now < end
Spares id end _ = Unit

module _ (hash : String → String) (state_of : String → Option ClientAuthorizationState)
    (options : OpportunisticCleanupOptions) where
  unfoldable pub step : Call → ArtifactStore → ArtifactStore
  step (upserted id kind p ttl g sampled now) s =
      upsert_artifact hash state_of options id kind p ttl g sampled now s
  step (looked_up id sampled now) s = (find_artifact hash state_of options id sampled now s).0
  step (uid_looked_up uid kind sampled now) s =
      (find_artifact_by_uid hash state_of options uid kind sampled now s).0
  step (user_code_looked_up user_code sampled now) s =
      (find_artifact_by_user_code hash state_of options user_code sampled now s).0
  step (destroyed id) s = destroy_artifact id s
  step (consumed id now) s = (consume_artifact id now s).0
  step (grant_revoked g) s = revoke_artifacts_by_grant_id hash state_of options g s
  step (client_revoked c) s = revoke_artifacts_by_client_id hash state_of options c s
  step (code_submitted uid expected input now most clock) s =
      (verify_interaction_email_code uid expected input now most clock s).0
  step (gate_tried uid ttl now) s = (try_acquire_login_gate uid ttl now s).0

  unfoldable pub run : List Call → ArtifactStore → ArtifactStore
  run [] s = s
  run (c ∷ calls) s = run calls (step c s)

abbrev pub Good : String → ℕ → ArtifactStore → Type 0
Good id end s = IsKeyed s × Holds id end s

module _ (id : String) (end : ℕ) where
  -- A record that is put in elsewhere, or that is such a one itself.
  pub put_other :
      (j : String) (x : ArtifactRecord) (s : ArtifactStore)
      → x.id ≡ j
      → j ≢ id
      → Good id end s
      → Good id end (with_artifacts (Dict.set j x s.artifacts) s)
  put_other j x s own ne (k, h) = (
    set-All (λ e. e.1.id ≡ e.0) j x s.artifacts own k,
    record {
      value = h.value;
      stored = get-set_ne j id x s.artifacts ne ∙ h.stored;
      until = h.until;
      no_grant = h.no_grant;
      no_client = h.no_client;
      unique = set-IsMap j x s.artifacts h.unique;
    },
  )

  pub put_again :
      (j : String) (old x : ArtifactRecord) (s : ArtifactStore)
      → Dict.get j s.artifacts ≡ some old
      → x.id ≡ old.id
      → x.expires_at ≡ old.expires_at
      → x.grant_id_hash ≡ old.grant_id_hash
      → x.client_id_hash ≡ old.client_id_hash
      → Good id end s
      → Good id end (with_artifacts (Dict.set j x s.artifacts) s)
  put_again j old x s found own e g c (k, h) =
      let mine : x.id ≡ j = own ∙ get-All (λ e. e.1.id ≡ e.0) j old s.artifacts k found in
      elim (Bool-cases (j == id)) [
        | inr other ↦ put_other j x s mine (λ q. ground (arith, other, q, eq_iff j id)) (k, h)
        | inl same ↦
            let at : j ≡ id = (eq_iff j id).0 same in
            let was : old ≡ h.value = ground (arith, found, at, h.stored) in
            (
              set-All (λ e. e.1.id ≡ e.0) j x s.artifacts mine k,
              record {
                value = x;
                stored = rw at (get-set_self id x s.artifacts);
                until = cc (e, was, h.until);
                no_grant = cc (g, was, h.no_grant);
                no_client = cc (c, was, h.no_client);
                unique = set-IsMap j x s.artifacts h.unique;
              },
            )
      ]

  pub delete_other :
      (j : String) (s : ArtifactStore)
      → j ≢ id
      → Good id end s
      → Good id end (with_artifacts (Dict.delete j s.artifacts) s)
  delete_other j s ne (k, h) = (
    delete-All (λ e. e.1.id ≡ e.0) j s.artifacts k,
    record {
      value = h.value;
      stored = ground (arith, ne, eq_iff j id, h.stored, get-delete j id s.artifacts);
      until = h.until;
      no_grant = h.no_grant;
      no_client = h.no_client;
      unique = delete-IsMap j s.artifacts h.unique;
    },
  )

  pub filter_other :
      (p : String × ArtifactRecord → Bool) (t : ℕ) (s : ArtifactStore)
      → ((x : ArtifactRecord)
          → x.expires_at ≡ some end
          → x.grant_id_hash ≡ none
          → x.client_id_hash ≡ none
          → p (id, x) ≡ true)
      → Good id end s
      → Good id end (record { artifacts = filter p s.artifacts; last_cleanup_at = t })
  filter_other p t s keeps (k, h) = (
    All-filter (λ e. e.1.id ≡ e.0) p s.artifacts k,
    record {
      value = h.value;
      stored =
          get-filter p id h.value s.artifacts h.stored
            (keeps h.value h.until h.no_grant h.no_client);
      until = h.until;
      no_grant = h.no_grant;
      no_client = h.no_client;
      unique = filter-IsMap p s.artifacts h.unique;
    },
  )

  pub maybe_cleanup-Good :
      (options : OpportunisticCleanupOptions) (sampled : Bool) (now : ℕ) (s : ArtifactStore)
      → now < end
      → Good id end s
      → Good id end (maybe_cleanup options sampled now s)
  maybe_cleanup-Good options sampled now s early good =
      maybe_cleanup_elim (Good id end) options sampled now s good (
        filter_other (λ e. not (has_expired now e.1)) now s (λ x e g c. ground (arith, e, early))
          good)

  pub delete_expired-Good :
      (j : String) (x : ArtifactRecord) (now : ℕ) (s : ArtifactStore)
      → now < end
      → Dict.get j s.artifacts ≡ some x
      → has_expired now x ≡ true
      → Good id end s
      → Good id end (with_artifacts (Dict.delete x.id s.artifacts) s)
  delete_expired-Good j x now s early found old (k, h) =
      let mine : x.id ≡ j = get-All (λ e. e.1.id ≡ e.0) j x s.artifacts k found in
      delete_other x.id s
        (λ q. absurd (ground (arith, q, mine, found, h.stored, h.until, old, early))) (k, h)
