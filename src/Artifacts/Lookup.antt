-- ===== src/Artifacts/Lookup.antt =====
-- What was stored is found until it expires, and so is a pending login.
use cqut_auth.Base.{
  given, ◌∙◌, ℕ, ◌+◌, ◌*◌, ◌<◌, String, Bool, false, not, Option, none, some, ◌≡◌, refl, ◌⊎◌, inl,
  inr, ap, subst, sym, arith, string_eq, nat_beq_iff,
}
use cqut_auth.Dict
use cqut_auth.Dict.Laws.{get-set_self, get-filter}
use cqut_auth.Artifacts.Cleanup.{maybe_cleanup_elim}
use cqut_auth.Artifacts.{
  PendingInteractionLogin, Payload, ArtifactRecord, ArtifactStore, ClientAuthorizationState,
  OpportunisticCleanupOptions, Found, found, stored_record, stored, find_artifact, upsert_artifact,
  read_artifact_by_id, drop_expired, map_artifact_payload, has_expired, is_disabled, maybe_cleanup,
}
use cqut_auth.Artifacts.Logins.{save_interaction_login, get_interaction_login, login_id, blank}

get-maybe_cleanup :
    (options : OpportunisticCleanupOptions) (sampled : Bool) (now : ℕ) (s : ArtifactStore)
    (id : String) (x : ArtifactRecord)
    → Dict.get id s.artifacts ≡ some x
    → has_expired now x ≡ false
    → Dict.get id (maybe_cleanup options sampled now s).artifacts ≡ some x
get-maybe_cleanup options sampled now s id x is live =
    maybe_cleanup_elim (λ t. Dict.get id t.artifacts ≡ some x) options sampled now s is
      (get-filter (λ e. not (has_expired now e.1)) id x s.artifacts is (ground (arith, live)))

module _ (hash : String → String) (state_of : String → Option ClientAuthorizationState)
    (options : OpportunisticCleanupOptions) where
  -- A payload that the store accepts and answers: of no client, or of one that is not disabled,
  -- with its generation or none given.
  abbrev pub Served : Payload → Option ℕ → Type 0
  Served p g =
      (given p.client_id ≡ none)
      ⊎ ((c : String) × (state : ClientAuthorizationState) × (given p.client_id ≡ some c)
          × (state_of c ≡ some state)
          × (is_disabled state.lifecycle_status ≡ false)
          × ((g ≡ none) ⊎ (g ≡ some state.authorization_generation)))

  upsert_artifact-stored :
      (id kind : String) (p : Payload) (ttl : ℕ) (g : Option ℕ) (sampled : Bool) (now : ℕ)
      (s : ArtifactStore)
      → Served p g
      → (n : Option ℕ) × (upsert_artifact hash state_of options id kind p ttl g sampled now s
          ≡ stored hash id kind p ttl n now (maybe_cleanup options sampled now s))
        × ((x : ArtifactRecord)
            → x.payload ≡ p
            → x.authorization_generation ≡ n
            → map_artifact_payload hash state_of options x ≡ some (found x))
  unfolding upsert_artifact map_artifact_payload
  upsert_artifact-stored id kind p ttl g sampled now s (inl free) =
      (g, ground (arith, free), λ x same dated. ground (arith, same, free))
  upsert_artifact-stored id kind p ttl g sampled now s
        (inr (c, state, of, known, live, inl unset)) =
      (
        some state.authorization_generation,
        ground (arith, of, known, live, unset),
        λ x same dated. ground (
          arith,
          same,
          of,
          known,
          live,
          dated,
          nat_beq_iff state.authorization_generation state.authorization_generation,
        ),
      )
  upsert_artifact-stored id kind p ttl g sampled now s (inr (c, state, of, known, live, inr set)) =
      (
        some state.authorization_generation,
        ground (arith, of, known, live, set),
        λ x same dated. ground (
          arith,
          same,
          of,
          known,
          live,
          dated,
          nat_beq_iff state.authorization_generation state.authorization_generation,
        ),
      )

  find_artifact-kept :
      (id : String) (sampled : Bool) (now : ℕ) (s : ArtifactStore) (x : ArtifactRecord) (f : Found)
      → Dict.get id s.artifacts ≡ some x
      → has_expired now x ≡ false
      → map_artifact_payload hash state_of options x ≡ some f
      → (find_artifact hash state_of options id sampled now s).1 ≡ some f
  unfolding find_artifact read_artifact_by_id drop_expired
  find_artifact-kept id sampled now s x f is live answers =
      rw
        (
          find_artifact,
          read_artifact_by_id,
          get-maybe_cleanup options sampled now s id x is live,
          drop_expired,
          live,
          answers,
        )
        refl

  -- What was stored, and not refused for its client, is found again under its identifier with
  -- the same payload until its time to live is over, if nothing else was called in between.
  pub find_artifact-upsert_artifact :
      (id kind : String) (p : Payload) (ttl : ℕ) (g : Option ℕ) (sampled sampled' : Bool)
      (now later : ℕ) (s : ArtifactStore)
      → Served p g
      → later < now + ttl * 1000
      → let u = upsert_artifact hash state_of options id kind p ttl g sampled now s in
        (f : Found) × ((find_artifact hash state_of options id sampled' later u).1 ≡ some f)
        × (f.payload ≡ p)
  find_artifact-upsert_artifact id kind p ttl g sampled sampled' now later s served soon =
      let (n, put, answers) = upsert_artifact-stored id kind p ttl g sampled now s served in
      let t = maybe_cleanup options sampled now s in
      let x = stored_record hash id kind p ttl n now t in
      let live : has_expired later x ≡ false = ground arith in
      (
        found x,
        subst (λ u. (find_artifact hash state_of options id sampled' later u).1 ≡ some (found x))
            (sym put)
            (find_artifact-kept id sampled' later (stored hash id kind p ttl n now t) x (found x)
              (get-set_self id x t.artifacts) live (answers x refl refl)),
        refl,
      )

  -- A pending login that was saved is read again, until the time of its interaction is over, if
  -- nothing else was called in between.
  pub get_interaction_login-save_interaction_login :
      (interaction_ttl_seconds : ℕ) (uid : String) (value : PendingInteractionLogin)
      (sampled sampled' : Bool) (now later : ℕ) (s : ArtifactStore)
      → later < now + interaction_ttl_seconds * 1000
      → let u =
          save_interaction_login hash state_of options interaction_ttl_seconds uid value sampled now
            s in
        (get_interaction_login hash state_of options interaction_ttl_seconds uid sampled' later u).1
        ≡ some value
  unfolding save_interaction_login get_interaction_login
  get_interaction_login-save_interaction_login ttl uid value sampled sampled' now later s soon =
      let (f, is, same) =
        find_artifact-upsert_artifact (login_id uid) "InteractionLogin"
          (record blank { pending = some value }) ttl none sampled sampled' now later s (inl refl)
          soon in
      ap (λ o. elim o [ none ↦ none | some f ↦ f.payload.pending ]) is ∙ ap (λ p. p.pending) same
