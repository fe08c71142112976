-- ===== src/Artifacts/Gate/Calls.antt =====
-- What the calls of the store do to a record that runs on: they keep it, if they spare it.
use cqut_auth.Base.{
  given, subst, ℕ, ◌<◌, String, Bool, Option, none, some, List, [], ◌∷◌, ◌≡◌, refl, ◌≢◌, All, arith,
  string_eq, nat_eq, Bool-cases, Option-cases, inl, inr, sym, ◌∙◌, ap,
}
use cqut_auth.Dict
use cqut_auth.Dict.{Dict, IsMap, values}
use cqut_auth.Dict.Laws.{find-values, get-All}
use cqut_auth.Artifacts.{
  find, Payload, ArtifactRecord, ArtifactStore, ClientAuthorizationState,
  OpportunisticCleanupOptions, has_expired, answer, maybe_cleanup, drop_expired,
  read_artifact_by_id, read_artifact_by_column, matches, find_artifact_by_uid,
  find_artifact_by_user_code, upsert_artifact, find_artifact, revoke_artifacts_by_grant_id,
  revoke_artifacts_by_client_id, consume_artifact, is_disabled, is_revocable,
}
use cqut_auth.Artifacts.Logins.{
  gate_id, login_id, try_acquire_login_gate, verify_interaction_email_code,
  apply_email_verification_attempt,
}
use cqut_auth.Artifacts.Gate.{
  Call, upserted, looked_up, uid_looked_up, user_code_looked_up, destroyed, consumed, grant_revoked,
  client_revoked, code_submitted, gate_tried, Spares, Good, put_other, put_again, delete_other,
  filter_other, maybe_cleanup-Good, delete_expired-Good, step, run,
}

module _ (id : String) (end : ℕ) where
  consume-Good :
      (j : String) (now : ℕ) (s : ArtifactStore)
      → Good id end s
      → Good id end (consume_artifact j now s).0
  unfolding consume_artifact
  consume-Good j now s good = elim (Option-cases (Dict.get j s.artifacts)) [
    | inl missing ↦ rw (missing, consume_artifact) good
    | inr (x, found) ↦ elim (Option-cases x.consumed_at) [
      | inr (at, before) ↦ rw (found, before, consume_artifact) good
      | inl first ↦
          rw (found, first, consume_artifact)
            (put_again id end j x (record x { consumed_at = some now }) s found refl refl refl refl
              good)
    ]
  ]

  verify-Good :
      (uid expected input : String) (now most clock : ℕ) (s : ArtifactStore)
      → clock < end
      → Good id end s
      → Good id end (verify_interaction_email_code uid expected input now most clock s).0
  unfolding verify_interaction_email_code
  verify-Good uid expected input now most clock s early good =
      elim (Option-cases (Dict.get (login_id uid) s.artifacts)) [
        | inl missing ↦ rw (missing, verify_interaction_email_code) good
        | inr (x, found) ↦ elim (Bool-cases (has_expired clock x)) [
          | inl old ↦
              rw (found, old, verify_interaction_email_code)
                (delete_expired-Good id end (login_id uid) x clock s early found old good)
          | inr live ↦ elim (Option-cases x.payload.pending) [
            | inl nothing ↦ rw (found, live, nothing, verify_interaction_email_code) good
            | inr (pending, is) ↦
                let own = get-All (λ e. e.1.id ≡ e.0) (login_id uid) x s.artifacts good.0 found in
                let r = apply_email_verification_attempt expected input now most pending in
                rw (found, live, is, verify_interaction_email_code)
                  (put_again id end x.id x
                    (record x { payload = record x.payload { pending = some r.0 } }) s
                    (ap (λ k. Dict.get k s.artifacts) own ∙ found) refl refl refl refl good)
          ]
        ]
      ]

  acquire-Good :
      (uid : String) (ttl now : ℕ) (s : ArtifactStore)
      → now < end
      → Good id end s
      → Good id end (try_acquire_login_gate uid ttl now s).0
  unfolding try_acquire_login_gate
  acquire-Good uid ttl now s early good = elim (Option-cases (Dict.get (gate_id uid) s.artifacts)) [
    | inl missing ↦
        rw (missing, try_acquire_login_gate)
          (put_other id end (gate_id uid) _ s refl
            (λ q. absurd (ground (arith, q, missing, good.1.stored))) good)
    | inr (x, found) ↦ elim (Bool-cases (has_expired now x)) [
      | inr live ↦ rw (found, live, try_acquire_login_gate) good
      | inl old ↦
          let own = get-All (λ e. e.1.id ≡ e.0) (gate_id uid) x s.artifacts good.0 found in
          rw (found, old, try_acquire_login_gate)
            (put_other id end (gate_id uid) _ _ refl
              (λ q. absurd (ground (arith, q, found, good.1.stored, good.1.until, old, early)))
              (delete_expired-Good id end (gate_id uid) x now s early found old good))
    ]
  ]

  read-Good :
      (j : String) (now : ℕ) (s : ArtifactStore)
      → now < end
      → Good id end s
      → Good id end (read_artifact_by_id j now s).0
  unfolding read_artifact_by_id drop_expired
  read-Good j now s early good = elim (Option-cases (Dict.get j s.artifacts)) [
    | inl missing ↦ rw (missing, read_artifact_by_id) good
    | inr (x, found) ↦ elim (Bool-cases (has_expired now x)) [
      | inr live ↦ rw (found, live, read_artifact_by_id, drop_expired) good
      | inl old ↦
          rw (found, old, read_artifact_by_id, drop_expired)
            (delete_expired-Good id end j x now s early found old good)
    ]
  ]

  read_by_column-Good :
      (column : ArtifactRecord → Option String) (v : String) (kind : Option String) (now : ℕ)
      (s : ArtifactStore)
      → now < end
      → Good id end s
      → Good id end (read_artifact_by_column column v kind now s).0
  unfolding read_artifact_by_column drop_expired
  read_by_column-Good column v kind now s early good =
      elim (Option-cases (find (matches column v kind) (values s.artifacts))) [
        | inl missing ↦ rw (missing, read_artifact_by_column) good
        | inr (x, found) ↦ elim (Bool-cases (has_expired now x)) [
          | inr live ↦ rw (found, live, read_artifact_by_column, drop_expired) good
          | inl old ↦
              let (j, is, fits) =
                find-values (matches column v kind) s.artifacts x good.1.unique found in
              rw (found, old, read_artifact_by_column, drop_expired)
                (delete_expired-Good id end j x now s early is old good)
        ]
      ]

  module _ (hash : String → String) (state_of : String → Option ClientAuthorizationState)
      (options : OpportunisticCleanupOptions) where
    pub answer-store :
        (r : ArtifactStore × Option ArtifactRecord) → (answer hash state_of options r).0 ≡ r.0
    answer-store (s, none) = refl
    answer-store (s, some x) = refl

    find-Good :
        (j : String) (sampled : Bool) (now : ℕ) (s : ArtifactStore)
        → now < end
        → Good id end s
        → Good id end (find_artifact hash state_of options j sampled now s).0
    unfolding find_artifact
    find-Good j sampled now s early good =
        let t = maybe_cleanup options sampled now s in
        let later =
          read-Good j now t early (maybe_cleanup-Good id end options sampled now s early good) in
        subst (Good id end) (sym (answer-store (read_artifact_by_id j now t))) later

    find_by_uid-Good :
        (uid : String) (kind : Option String) (sampled : Bool) (now : ℕ) (s : ArtifactStore)
        → now < end
        → Good id end s
        → Good id end (find_artifact_by_uid hash state_of options uid kind sampled now s).0
    unfolding find_artifact_by_uid
    find_by_uid-Good uid kind sampled now s early good =
        let t = maybe_cleanup options sampled now s in
        subst (Good id end)
          (sym (answer-store (read_artifact_by_column (λ x. x.uid_hash) (hash uid) kind now t)))
          (read_by_column-Good (λ x. x.uid_hash) (hash uid) kind now t early
            (maybe_cleanup-Good id end options sampled now s early good))

    find_by_user_code-Good :
        (user_code : String) (sampled : Bool) (now : ℕ) (s : ArtifactStore)
        → now < end
        → Good id end s
        → Good id end (find_artifact_by_user_code hash state_of options user_code sampled now s).0
    unfolding find_artifact_by_user_code
    find_by_user_code-Good user_code sampled now s early good =
        let t = maybe_cleanup options sampled now s in
        subst (Good id end)
          (sym (
            answer-store
              (read_artifact_by_column (λ x. x.user_code_hash) (hash user_code) none now t)))
          (read_by_column-Good (λ x. x.user_code_hash) (hash user_code) none now t early
            (maybe_cleanup-Good id end options sampled now s early good))

    upsert-Good :
        (j kind : String) (p : Payload) (ttl : ℕ) (g : Option ℕ) (sampled : Bool) (now : ℕ)
        (s : ArtifactStore)
        → now < end
        → j ≢ id
        → Good id end s
        → Good id end (upsert_artifact hash state_of options j kind p ttl g sampled now s)
    unfolding upsert_artifact
    upsert-Good j kind p ttl g sampled now s early ne good =
        let t = maybe_cleanup options sampled now s in
        let later = maybe_cleanup-Good id end options sampled now s early good in
        elim (Option-cases (given p.client_id)) [
          | inl free ↦ rw (free, upsert_artifact) (put_other id end j _ t refl ne later)
          | inr (c, of) ↦ elim (Option-cases (state_of c)) [
            | inl unknown ↦ rw (of, unknown, upsert_artifact) later
            | inr (state, known) ↦ elim (Bool-cases (is_disabled state.lifecycle_status)) [
              | inl gone ↦ rw (of, known, gone, upsert_artifact) later
              | inr live ↦
                  rw (of, known, live, upsert_artifact) (put_other id end j _ t refl ne later)
            ]
          ]
        ]

    step-Good :
        (c : Call) (s : ArtifactStore)
        → Spares id end c
        → Good id end s
        → Good id end (step hash state_of options c s)
    unfolding step revoke_artifacts_by_grant_id revoke_artifacts_by_client_id is_revocable
    step-Good (upserted j kind p ttl g sampled now) s (early, ne) good =
        upsert-Good j kind p ttl g sampled now s early ne good
    step-Good (looked_up j sampled now) s early good = find-Good j sampled now s early good
    step-Good (uid_looked_up uid kind sampled now) s early good =
        find_by_uid-Good uid kind sampled now s early good
    step-Good (user_code_looked_up user_code sampled now) s early good =
        find_by_user_code-Good user_code sampled now s early good
    step-Good (destroyed j) s ne good = delete_other id end j s ne good
    step-Good (consumed j now) s w good = consume-Good j now s good
    step-Good (grant_revoked g) s w good =
        filter_other id end _ s.last_cleanup_at s (λ x e n c. ground (arith, n)) good
    step-Good (client_revoked q) s w good =
        filter_other id end _ s.last_cleanup_at s (λ x e n c. ground (arith, c)) good
    step-Good (code_submitted uid expected input now most clock) s early good =
        verify-Good uid expected input now most clock s early good
    step-Good (gate_tried uid ttl now) s early good = acquire-Good uid ttl now s early good

    pub run-Good :
        (calls : List Call) (s : ArtifactStore)
        → All (Spares id end) calls
        → Good id end s
        → Good id end (run hash state_of options calls s)
    unfolding run
    run-Good [] s w good = good
    run-Good (c ∷ calls) s (w, ws) good =
        run-Good calls (step hash state_of options c s) ws (step-Good c s w good)
