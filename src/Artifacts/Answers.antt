-- ===== src/Artifacts/Answers.antt =====
-- What the three lookups answer: a record of the store that they select, unless its client is
-- gone or has moved on.
use cqut_auth.Base.{
  sym, given, nat_beq_iff, ◌∙◌, ℕ, String, Bool, true, false, Option, none, some, ◌≡◌, All,
  Option-cases, Bool-cases, inl, inr, arith, string_eq, nat_eq, ap, find, subst, refl, not, sym,
}
use cqut_auth.Dict
use cqut_auth.Dict.{Dict, IsMap, values}
use cqut_auth.Dict.Laws.{get-All, find-values, filter-get, filter-IsMap}
use cqut_auth.Artifacts.Cleanup.{maybe_cleanup_elim}
use cqut_auth.Artifacts.{
  not, ArtifactRecord, ArtifactStore, ClientAuthorizationState, OpportunisticCleanupOptions, Found,
  found, find_artifact, find_artifact_by_uid, find_artifact_by_user_code, read_artifact_by_id,
  read_artifact_by_column, drop_expired, answer, matches, map_artifact_payload, has_expired,
  is_revocable, is_disabled, maybe_cleanup,
}
use cqut_auth.Artifacts.Shape.{Shape}

pub data Lookup : Type 0 where
  by_id by_user_code : String → Lookup
  by_uid : String → Option String → Lookup

pub maybe_cleanup-IsMap :
    (options : OpportunisticCleanupOptions) (sampled : Bool) (now : ℕ) (s : ArtifactStore)
    → IsMap s.artifacts
    → IsMap (maybe_cleanup options sampled now s).artifacts
maybe_cleanup-IsMap options sampled now s u =
    maybe_cleanup_elim (λ t. IsMap t.artifacts) options sampled now s u
      (filter-IsMap (λ e. not (has_expired now e.1)) s.artifacts u)

maybe_cleanup-get :
    (options : OpportunisticCleanupOptions) (sampled : Bool) (now : ℕ) (s : ArtifactStore)
    (id : String) (x : ArtifactRecord)
    → IsMap s.artifacts
    → Dict.get id (maybe_cleanup options sampled now s).artifacts ≡ some x
    → Dict.get id s.artifacts ≡ some x
maybe_cleanup-get options sampled now s id x u =
    maybe_cleanup_elim (λ t. Dict.get id t.artifacts ≡ some x → Dict.get id s.artifacts ≡ some x)
      options sampled now s (λ is. is)
      (filter-get (λ e. not (has_expired now e.1)) id x s.artifacts u)

module _ (hash : String → String) where
  -- The record under the identifier is one that the lookup asks for.
  abbrev pub Selects : Lookup → String → ArtifactRecord → Type 0
  Selects (by_id j) id x = id ≡ j
  Selects (by_uid uid kind) id x = matches (λ y. y.uid_hash) (hash uid) kind x ≡ true
  Selects (by_user_code user_code) id x =
      matches (λ y. y.user_code_hash) (hash user_code) none x ≡ true

  abbrev read : Lookup → ℕ → ArtifactStore → ArtifactStore × Option ArtifactRecord
  read (by_id id) now t = read_artifact_by_id id now t
  read (by_uid uid kind) now t = read_artifact_by_column (λ y. y.uid_hash) (hash uid) kind now t
  read (by_user_code user_code) now t =
      read_artifact_by_column (λ y. y.user_code_hash) (hash user_code) none now t

  column-matches :
      (column : ArtifactRecord → Option String) (v : String) (kind : Option String) (now : ℕ)
      (t : ArtifactStore) (x : ArtifactRecord)
      → IsMap t.artifacts
      → (read_artifact_by_column column v kind now t).1 ≡ some x
      → (id : String) × (Dict.get id t.artifacts ≡ some x)
        × (matches column v kind x ≡ true)
        × (has_expired now x ≡ false)
  unfolding read_artifact_by_column drop_expired
  column-matches column v kind now t x u e =
      elim (Option-cases (find (matches column v kind) (values t.artifacts))) [
        | inl missing ↦ absurd (ground (arith, rw (missing, read_artifact_by_column) at e))
        | inr (y, found) ↦ elim (Bool-cases (has_expired now y)) [
          | inl old ↦
              absurd (ground (arith, rw (found, old, read_artifact_by_column, drop_expired) at e))
          | inr live ↦
              let same : y ≡ x =
                ground (arith, rw (found, live, read_artifact_by_column, drop_expired) at e) in
              let (id, is, fits) = find-values (matches column v kind) t.artifacts y u found in
              (
                id,
                is ∙ ap some same,
                subst (λ z. matches column v kind z ≡ true) same fits,
                subst (λ z. has_expired now z ≡ false) same live,
              )
        ]
      ]

  read-Selects :
      (l : Lookup) (now : ℕ) (t : ArtifactStore) (x : ArtifactRecord)
      → IsMap t.artifacts
      → (read l now t).1 ≡ some x
      → (id : String) × (Dict.get id t.artifacts ≡ some x)
        × Selects l id x
        × (has_expired now x ≡ false)
  unfolding read_artifact_by_id drop_expired
  read-Selects (by_id id) now t x u e = elim (Option-cases (Dict.get id t.artifacts)) [
    | inl missing ↦ absurd (ground (arith, rw (missing, read_artifact_by_id) at e))
    | inr (y, is) ↦ elim (Bool-cases (has_expired now y)) [
      | inl old ↦ absurd (ground (arith, rw (is, old, read_artifact_by_id, drop_expired) at e))
      | inr live ↦
          let same : y ≡ x =
            ground (arith, rw (is, live, read_artifact_by_id, drop_expired) at e) in
          (id, is ∙ ap some same, refl, subst (λ z. has_expired now z ≡ false) same live)
    ]
  ]
  read-Selects (by_uid uid kind) now t x u e =
      column-matches (λ y. y.uid_hash) (hash uid) kind now t x u e
  read-Selects (by_user_code user_code) now t x u e =
      column-matches (λ y. y.user_code_hash) (hash user_code) none now t x u e

module _ (hash : String → String) (state_of : String → Option ClientAuthorizationState) where
  -- The record belongs to no client or is of a kind that outlives a revocation, or its client
  -- exists, is not disabled and has the record's generation.
  abbrev pub Current : ArtifactRecord → Type 0
  Current x =
      (client_id : String)
      → given x.payload.client_id ≡ some client_id
      → is_revocable x.kind ≡ true
      → (state : ClientAuthorizationState) × (state_of client_id ≡ some state)
        × (is_disabled state.lifecycle_status ≡ false)
        × (x.authorization_generation ≡ some state.authorization_generation)

  map_artifact_payload-Current :
      (options : OpportunisticCleanupOptions) (id : String) (x : ArtifactRecord) (f : Found)
      → Shape hash (id, x)
      → map_artifact_payload hash state_of options x ≡ some f
      → (f ≡ found x) × Current x
  unfolding map_artifact_payload
  map_artifact_payload-Current options id x f k e =
      elim (Option-cases (given x.payload.client_id)) [
        | inl free ↦ (ground (arith, e, free), λ c of r. absurd (ground (arith, free, of)))
        | inr (c, of) ↦ elim (Option-cases x.authorization_generation) [
          | inl undated ↦ absurd (k.dated c of undated)
          | inr (g, dated) ↦ elim (Option-cases (state_of c)) [
            | inl unknown ↦ (
              ground (arith, e, of, dated, unknown),
              λ q own r. absurd (ground (arith, e, of, dated, unknown, r)),
            )
            | inr (state, known) ↦ (
              ground (arith, e, of, dated, known),
              λ q own r. (
                state,
                ap state_of (ground (arith, of, own)) ∙ known,
                ground (arith, e, of, dated, known, r),
                ground
                    (arith, e, of, dated, known, r, nat_beq_iff state.authorization_generation g),
              ),
            )
          ]
        ]
      ]

  module _ (options : OpportunisticCleanupOptions) where
    unfoldable pub look : Lookup → Bool → ℕ → ArtifactStore → ArtifactStore × Option Found
    look (by_id id) sampled now s = find_artifact hash state_of options id sampled now s
    look (by_uid uid kind) sampled now s =
        find_artifact_by_uid hash state_of options uid kind sampled now s
    look (by_user_code user_code) sampled now s =
        find_artifact_by_user_code hash state_of options user_code sampled now s

    look-answer :
        (l : Lookup) (sampled : Bool) (now : ℕ) (s : ArtifactStore)
        → look l sampled now s
          ≡ answer hash state_of options (read hash l now (maybe_cleanup options sampled now s))
    unfolding look find_artifact find_artifact_by_uid find_artifact_by_user_code
    look-answer (by_id id) sampled now s = refl
    look-answer (by_uid uid kind) sampled now s = refl
    look-answer (by_user_code user_code) sampled now s = refl

    answered :
        (r : ArtifactStore × Option ArtifactRecord) (f : Found)
        → (answer hash state_of options r).1 ≡ some f
        → (x : ArtifactRecord) × (r.1 ≡ some x)
          × (map_artifact_payload hash state_of options x ≡ some f)
    answered (t, none) f e = absurd (ground (arith, e))
    answered (t, some x) f e = (x, refl, e)

    -- A lookup answers a record of the store that it selects and that has not expired; if that is
    -- a code, a token or a grant of a client, the client exists, is not disabled, and its
    -- generation is the record's.
    pub look-Current :
        (l : Lookup) (sampled : Bool) (now : ℕ) (s : ArtifactStore) (f : Found)
        → All (Shape hash) s.artifacts
        → IsMap s.artifacts
        → (look l sampled now s).1 ≡ some f
        → (id : String) × (x : ArtifactRecord) × (Dict.get id s.artifacts ≡ some x)
          × Selects hash l id x
          × (has_expired now x ≡ false)
          × (f ≡ found x)
          × Current x
    look-Current l sampled now s f h u e =
        let t = maybe_cleanup options sampled now s in
        let (x, got, said) =
          answered (read hash l now t) f (ap (λ r. r.1) (sym (look-answer l sampled now s)) ∙ e) in
        let (id, is, chosen, live) =
          read-Selects hash l now t x (maybe_cleanup-IsMap options sampled now s u) got in
        let there = maybe_cleanup-get options sampled now s id x u is in
        let (same, current) =
          map_artifact_payload-Current options id x f
            (get-All (Shape hash) id x s.artifacts h there) said in
        (id, x, there, chosen, live, same, current)
