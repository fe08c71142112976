-- ===== src/Artifacts/Lasting.antt =====
-- What every record of the store has, whatever is called: the records as `upsertArtifact`,
-- `consumeArtifact` and the logins put them in.
use cqut_auth.Base.{
  given, subst, ℕ, String, Bool, Option, none, some, List, [], ◌∷◌, ◌≡◌, refl, ◌⊎◌, inl, inr, All,
  All-filter, Bool-cases, Option-cases, sym, string_eq, not,
}
use cqut_auth.Dict
use cqut_auth.Dict.{Dict, values}
use cqut_auth.Dict.Laws.{set-All, delete-All, get-All}
use cqut_auth.Artifacts.Cleanup.{maybe_cleanup_elim}
use cqut_auth.Artifacts.{
  find, Payload, ArtifactRecord, ArtifactStore, ClientAuthorizationState,
  OpportunisticCleanupOptions, has_expired, maybe_cleanup, drop_expired, read_artifact_by_id,
  read_artifact_by_column, matches, find_artifact_by_uid, find_artifact_by_user_code,
  upsert_artifact, find_artifact, revoke_artifacts_by_grant_id, revoke_artifacts_by_client_id,
  consume_artifact, is_disabled, stored_record,
}
use cqut_auth.Artifacts.Logins.{
  gate, gate_id, login_id, try_acquire_login_gate, verify_interaction_email_code,
  apply_email_verification_attempt,
}
use cqut_auth.Artifacts.Gate.{
  Call, upserted, looked_up, uid_looked_up, user_code_looked_up, destroyed, consumed, grant_revoked,
  client_revoked, code_submitted, gate_tried, step, run,
}
use cqut_auth.Artifacts.Gate.Calls.{answer-store}

abbrev pub Entry : Type 0
Entry = String × ArtifactRecord

-- The identifiers under which a call may put in a new record.
abbrev pub Admits : (String → Type 0) → Call → Type 0
Admits F (upserted j kind p ttl g sampled now) = F j
Admits F (gate_tried uid ttl now) = F (gate_id uid)
Admits F _ = Unit

-- A predicate on the entries that every call keeps, if the new identifiers are in `F`.
pub record Lasting (hash : String → String) (F : String → Type 0) (P : Entry → Type 0)
    : Type 0 where
  pub keyed : (e : Entry) → P e → e.1.id ≡ e.0
  pub consuming :
      (j : String) (x : ArtifactRecord) (now : ℕ)
      → P (j, x)
      → P (j, record x { consumed_at = some now })
  pub trying :
      (j : String) (x : ArtifactRecord) (payload : Payload)
      → payload.client_id ≡ x.payload.client_id
      → payload.grant_id ≡ x.payload.grant_id
      → payload.uid ≡ x.payload.uid
      → payload.user_code ≡ x.payload.user_code
      → P (j, x)
      → P (j, record x { payload = payload })
  pub storing :
      (j kind : String) (p : Payload) (ttl : ℕ) (g : Option ℕ) (now : ℕ) (s : ArtifactStore)
      → F j
      → (given p.client_id ≡ none) ⊎ ((n : ℕ) × (g ≡ some n))
      → P (j, stored_record hash j kind p ttl g now s)
  pub gating : (uid : String) (ttl now : ℕ) → F (gate_id uid) → P (gate_id uid, gate uid ttl now)

module _ (P : Entry → Type 0) where
  pub maybe_cleanup-All :
      (options : OpportunisticCleanupOptions) (sampled : Bool) (now : ℕ) (s : ArtifactStore)
      → All P s.artifacts
      → All P (maybe_cleanup options sampled now s).artifacts
  maybe_cleanup-All options sampled now s h =
      maybe_cleanup_elim (λ t. All P t.artifacts) options sampled now s h
        (All-filter P (λ e. not (has_expired now e.1)) s.artifacts h)

module _ (hash : String → String) (F : String → Type 0) (P : Entry → Type 0)
    (lasting : Lasting hash F P) where
  read-All :
      (j : String) (now : ℕ) (s : ArtifactStore)
      → All P s.artifacts
      → All P (read_artifact_by_id j now s).0.artifacts
  unfolding read_artifact_by_id drop_expired
  read-All j now s h = elim (Option-cases (Dict.get j s.artifacts)) [
    | inl missing ↦ rw (missing, read_artifact_by_id) h
    | inr (x, found) ↦ elim (Bool-cases (has_expired now x)) [
      | inr live ↦ rw (found, live, read_artifact_by_id, drop_expired) h
      | inl old ↦
          rw (found, old, read_artifact_by_id, drop_expired) (delete-All P x.id s.artifacts h)
    ]
  ]

  read_by_column-All :
      (column : ArtifactRecord → Option String) (v : String) (kind : Option String) (now : ℕ)
      (s : ArtifactStore)
      → All P s.artifacts
      → All P (read_artifact_by_column column v kind now s).0.artifacts
  unfolding read_artifact_by_column drop_expired
  read_by_column-All column v kind now s h =
      elim (Option-cases (find (matches column v kind) (values s.artifacts))) [
        | inl missing ↦ rw (missing, read_artifact_by_column) h
        | inr (x, found) ↦ elim (Bool-cases (has_expired now x)) [
          | inr live ↦ rw (found, live, read_artifact_by_column, drop_expired) h
          | inl old ↦
              rw (found, old, read_artifact_by_column, drop_expired)
                (delete-All P x.id s.artifacts h)
        ]
      ]

  consume-All :
      (j : String) (now : ℕ) (s : ArtifactStore)
      → All P s.artifacts
      → All P (consume_artifact j now s).0.artifacts
  unfolding consume_artifact
  consume-All j now s h = elim (Option-cases (Dict.get j s.artifacts)) [
    | inl missing ↦ rw (missing, consume_artifact) h
    | inr (x, found) ↦ elim (Option-cases x.consumed_at) [
      | inr (at, before) ↦ rw (found, before, consume_artifact) h
      | inl first ↦
          rw (found, first, consume_artifact)
            (set-All P j (record x { consumed_at = some now }) s.artifacts
              (lasting.consuming j x now (get-All P j x s.artifacts h found)) h)
    ]
  ]

  verify-All :
      (uid expected input : String) (now most clock : ℕ) (s : ArtifactStore)
      → All P s.artifacts
      → All P (verify_interaction_email_code uid expected input now most clock s).0.artifacts
  unfolding verify_interaction_email_code
  verify-All uid expected input now most clock s h =
      elim (Option-cases (Dict.get (login_id uid) s.artifacts)) [
        | inl missing ↦ rw (missing, verify_interaction_email_code) h
        | inr (x, found) ↦ elim (Bool-cases (has_expired clock x)) [
          | inl old ↦
              rw (found, old, verify_interaction_email_code) (delete-All P x.id s.artifacts h)
          | inr live ↦ elim (Option-cases x.payload.pending) [
            | inl nothing ↦ rw (found, live, nothing, verify_interaction_email_code) h
            | inr (pending, is) ↦
                let r = apply_email_verification_attempt expected input now most pending in
                let payload = record x.payload { pending = some r.0 } in
                let had = get-All P (login_id uid) x s.artifacts h found in
                let own = lasting.keyed (login_id uid, x) had in
                let has = lasting.trying (login_id uid) x payload refl refl refl refl had in
                rw (found, live, is, verify_interaction_email_code)
                  (set-All P x.id (record x { payload = payload }) s.artifacts
                    (subst (λ k. P (k, record x { payload = payload })) (sym own) has) h)
          ]
        ]
      ]

  acquire-All :
      (uid : String) (ttl now : ℕ) (s : ArtifactStore)
      → F (gate_id uid)
      → All P s.artifacts
      → All P (try_acquire_login_gate uid ttl now s).0.artifacts
  unfolding try_acquire_login_gate
  acquire-All uid ttl now s f h = elim (Option-cases (Dict.get (gate_id uid) s.artifacts)) [
    | inl missing ↦
        rw (missing, try_acquire_login_gate)
          (set-All P (gate_id uid) (gate uid ttl now) s.artifacts (lasting.gating uid ttl now f) h)
    | inr (x, found) ↦ elim (Bool-cases (has_expired now x)) [
      | inr live ↦ rw (found, live, try_acquire_login_gate) h
      | inl old ↦
          rw (found, old, try_acquire_login_gate)
            (set-All P (gate_id uid) (gate uid ttl now) (Dict.delete x.id s.artifacts)
              (lasting.gating uid ttl now f) (delete-All P x.id s.artifacts h))
    ]
  ]

  module _ (state_of : String → Option ClientAuthorizationState)
      (options : OpportunisticCleanupOptions) where
    find-All :
        (j : String) (sampled : Bool) (now : ℕ) (s : ArtifactStore)
        → All P s.artifacts
        → All P (find_artifact hash state_of options j sampled now s).0.artifacts
    unfolding find_artifact
    find-All j sampled now s h =
        let t = maybe_cleanup options sampled now s in
        subst (λ u. All P u.artifacts)
          (sym (answer-store "" 0 hash state_of options (read_artifact_by_id j now t)))
          (read-All j now t (maybe_cleanup-All P options sampled now s h))

    find_by_uid-All :
        (uid : String) (kind : Option String) (sampled : Bool) (now : ℕ) (s : ArtifactStore)
        → All P s.artifacts
        → All P (find_artifact_by_uid hash state_of options uid kind sampled now s).0.artifacts
    unfolding find_artifact_by_uid
    find_by_uid-All uid kind sampled now s h =
        let t = maybe_cleanup options sampled now s in
        let r = read_artifact_by_column (λ x. x.uid_hash) (hash uid) kind now t in
        subst (λ u. All P u.artifacts) (sym (answer-store "" 0 hash state_of options r))
          (read_by_column-All (λ x. x.uid_hash) (hash uid) kind now t
            (maybe_cleanup-All P options sampled now s h))

    find_by_user_code-All :
        (user_code : String) (sampled : Bool) (now : ℕ) (s : ArtifactStore)
        → All P s.artifacts
        → All P
            (find_artifact_by_user_code hash state_of options user_code sampled now s).0.artifacts
    unfolding find_artifact_by_user_code
    find_by_user_code-All user_code sampled now s h =
        let t = maybe_cleanup options sampled now s in
        let r = read_artifact_by_column (λ x. x.user_code_hash) (hash user_code) none now t in
        subst (λ u. All P u.artifacts) (sym (answer-store "" 0 hash state_of options r))
          (read_by_column-All (λ x. x.user_code_hash) (hash user_code) none now t
            (maybe_cleanup-All P options sampled now s h))

    upsert-All :
        (j kind : String) (p : Payload) (ttl : ℕ) (g : Option ℕ) (sampled : Bool) (now : ℕ)
        (s : ArtifactStore)
        → F j
        → All P s.artifacts
        → All P (upsert_artifact hash state_of options j kind p ttl g sampled now s).artifacts
    unfolding upsert_artifact
    upsert-All j kind p ttl g sampled now s f h =
        let t = maybe_cleanup options sampled now s in
        let later = maybe_cleanup-All P options sampled now s h in
        elim (Option-cases (given p.client_id)) [
          | inl free ↦
              rw (free, upsert_artifact)
                (set-All P j _ t.artifacts (lasting.storing j kind p ttl g now t f (inl free))
                  later)
          | inr (c, of) ↦ elim (Option-cases (state_of c)) [
            | inl unknown ↦ rw (of, unknown, upsert_artifact) later
            | inr (state, known) ↦ elim (Bool-cases (is_disabled state.lifecycle_status)) [
              | inl gone ↦ rw (of, known, gone, upsert_artifact) later
              | inr live ↦ elim (Option-cases g) [
                | inr (n, recorded) ↦
                    rw (of, known, live, recorded, upsert_artifact)
                      (set-All P j _ t.artifacts
                        (lasting.storing j kind p ttl (some n) now t f (inr (n, refl))) later)
                | inl unrecorded ↦
                    rw (of, known, live, unrecorded, upsert_artifact)
                      (set-All P j _ t.artifacts
                        (lasting.storing j kind p ttl (some state.authorization_generation) now t f
                          (inr (state.authorization_generation, refl)))
                        later)
              ]
            ]
          ]
        ]

    pub step-All :
        (c : Call) (s : ArtifactStore)
        → Admits F c
        → All P s.artifacts
        → All P (step hash state_of options c s).artifacts
    unfolding step revoke_artifacts_by_grant_id revoke_artifacts_by_client_id
    step-All (upserted j kind p ttl g sampled now) s f h =
        upsert-All j kind p ttl g sampled now s f h
    step-All (looked_up j sampled now) s f h = find-All j sampled now s h
    step-All (uid_looked_up uid kind sampled now) s f h = find_by_uid-All uid kind sampled now s h
    step-All (user_code_looked_up user_code sampled now) s f h =
        find_by_user_code-All user_code sampled now s h
    step-All (destroyed j) s f h = delete-All P j s.artifacts h
    step-All (consumed j now) s f h = consume-All j now s h
    step-All (grant_revoked g) s f h = All-filter P _ s.artifacts h
    step-All (client_revoked q) s f h = All-filter P _ s.artifacts h
    step-All (code_submitted uid expected input now most clock) s f h =
        verify-All uid expected input now most clock s h
    step-All (gate_tried uid ttl now) s f h = acquire-All uid ttl now s f h

    pub run-All :
        (calls : List Call) (s : ArtifactStore)
        → All (Admits F) calls
        → All P s.artifacts
        → All P (run hash state_of options calls s).artifacts
    unfolding run
    run-All [] s f h = h
    run-All (c ∷ calls) s (f, fs) h =
        run-All calls (step hash state_of options c s) fs (step-All c s f h)
