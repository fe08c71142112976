-- ===== src/Adapter/Requests.antt =====
-- A request that has read a client's artifact keeps to the generation it read: what it stores
-- after the client's authorizations were revoked is of no use.
use cqut_auth.Base.{
  given, ℕ, String, Bool, true, false, Option, none, some, [], ◌∷◌, ◌≡◌, refl, ◌≢◌, subst, All,
  Option-cases, Bool-cases, inl, inr, arith, string_eq, eq_iff, ◌==◌,
}
use cqut_auth.Contracts.{ok}
use cqut_auth.Dict
use cqut_auth.Dict.{Dict, IsMap}
use cqut_auth.Dict.Laws.{get-set_self, get-All, set-All_new, set-IsMap}
use cqut_auth.Artifacts.{
  Payload, ArtifactRecord, ArtifactStore, ClientAuthorizationState, OpportunisticCleanupOptions,
  Found, found, is_disabled, is_revocable, stored_record, upsert_artifact, find_artifact,
  maybe_cleanup,
}
use cqut_auth.Artifacts.Gate.{upserted, step}
use cqut_auth.Artifacts.Lasting.{Entry, step-All}
use cqut_auth.Artifacts.Shape.{Shape, Shape-Lasting}
use cqut_auth.Artifacts.Answers.{Lookup, look, Selects, look-Current, maybe_cleanup-IsMap}
use cqut_auth.Artifacts.Current.{authorization_state}
use cqut_auth.Clients.Records.{ClientStore, OidcClientRecord}
use cqut_auth.Adapter.{
  Context, artifact_id, capture_authorization_generation, current_authorization_generation,
  capture_artifact_context, upsert, find,
}

capture-current :
    (m : Dict String ℕ) (r : ArtifactStore × Option Found) (f : Found) (c : String) (g : ℕ)
    → r.1 ≡ some f
    → f.authorization ≡ some (c, g)
    → current_authorization_generation c (capture_artifact_context (some m) r).0 ≡ some g
unfolding capture_artifact_context capture_authorization_generation current_authorization_generation
capture-current m (s, none) f c g e a = absurd (ground (arith, e))
capture-current m (s, some f') f c g e a =
    let same : f'.authorization ≡ some (c, g) = ground (arith, e, a) in
    rw (capture_artifact_context, same) (get-set_self c g m)

-- The record under `id` is a code, a token or a grant of the client, of the generation.
abbrev Late : String → String → ℕ → Entry → Type 0
Late id c g e =
    e.0 ≡ id
    → (given e.1.payload.client_id ≡ some c)
      × (is_revocable e.1.kind ≡ true)
      × (e.1.authorization_generation ≡ some g)

others :
    (id c : String) (g : ℕ) (m : Dict String ArtifactRecord)
    → All (λ e. (e.0 ≡ id → ⊥) → Late id c g e) m
others id c g [] = tt
others id c g (e ∷ m) = ((λ ne same. absurd (ne same)), others id c g m)

module _ (hash : String → String) (options : OpportunisticCleanupOptions) where
  look-Late :
      (state_of : String → Option ClientAuthorizationState) (id c : String) (g : ℕ)
      (lookup : Lookup) (sampled : Bool) (later : ℕ) (t : ArtifactStore) (f : Found)
      → All (Shape hash) t.artifacts
      → IsMap t.artifacts
      → All (Late id c g) t.artifacts
      → ((state : ClientAuthorizationState)
          → state_of c ≡ some state
          → state.authorization_generation ≢ g)
      → (look hash state_of options lookup sampled later t).1 ≡ some f
      → (j : String) × (x : ArtifactRecord) × (Dict.get j t.artifacts ≡ some x)
        × Selects hash lookup j x
        × (f ≡ found x)
        × (j ≢ id)
  look-Late state_of id c g lookup sampled later t f shapes keys lates moved e =
      let (j, x, is, chosen, live, same, current) =
        look-Current hash state_of options lookup sampled later t f shapes keys e in
      (
        j,
        x,
        is,
        chosen,
        same,
        λ mine.
            let (of, kind, old) = get-All (Late id c g) j x t.artifacts lates is mine in
            let (state, known, alive, new) = current c of kind in
            absurd (moved state known (ground (arith, new, old))),
      )

  upsert-Late :
      (state_of : String → Option ClientAuthorizationState) (id kind c : String) (p : Payload)
      (ttl g : ℕ) (sampled : Bool) (now : ℕ) (s : ArtifactStore) (state : ClientAuthorizationState)
      → IsMap s.artifacts
      → given p.client_id ≡ some c
      → is_revocable kind ≡ true
      → state_of c ≡ some state
      → is_disabled state.lifecycle_status ≡ false
      → All
          (Late id c g)
          (upsert_artifact hash state_of options id kind p ttl (some g) sampled now s).artifacts
  unfolding upsert_artifact
  upsert-Late state_of id kind c p ttl g sampled now s state u of r known live =
      let t = maybe_cleanup options sampled now s in
      rw (upsert_artifact, of, known, live)
        (set-All_new (Late id c g) id (stored_record hash id kind p ttl (some g) now t) t.artifacts
          (maybe_cleanup-IsMap options sampled now s u) (λ same. (of, r, refl))
          (others id c g t.artifacts))

  upsert-Shape :
      (state_of : String → Option ClientAuthorizationState) (id kind : String) (p : Payload)
      (ttl : ℕ) (g : Option ℕ) (sampled : Bool) (now : ℕ) (s : ArtifactStore)
      → All (Shape hash) s.artifacts
      → All
          (Shape hash)
          (upsert_artifact hash state_of options id kind p ttl g sampled now s).artifacts
  unfolding step
  upsert-Shape state_of id kind p ttl g sampled now s h =
      step-All hash (λ j. Unit) (Shape hash) (Shape-Lasting hash) state_of options
        (upserted id kind p ttl g sampled now) s tt h

  upsert-IsMap :
      (state_of : String → Option ClientAuthorizationState) (id kind : String) (p : Payload)
      (ttl : ℕ) (g : Option ℕ) (sampled : Bool) (now : ℕ) (s : ArtifactStore)
      → IsMap s.artifacts
      → IsMap (upsert_artifact hash state_of options id kind p ttl g sampled now s).artifacts
  unfolding upsert_artifact
  upsert-IsMap state_of id kind p ttl g sampled now s u =
      let t = maybe_cleanup options sampled now s in
      let later = maybe_cleanup-IsMap options sampled now s u in
      elim (Option-cases (given p.client_id)) [
        | inl free ↦ rw (free, upsert_artifact) (set-IsMap id _ t.artifacts later)
        | inr (c, of) ↦ elim (Option-cases (state_of c)) [
          | inl unknown ↦ rw (of, unknown, upsert_artifact) later
          | inr (state, known) ↦ elim (Bool-cases (is_disabled state.lifecycle_status)) [
            | inl gone ↦ rw (of, known, gone, upsert_artifact) later
            | inr live ↦ rw (of, known, live, upsert_artifact) (set-IsMap id _ t.artifacts later)
          ]
        ]
      ]

  find-current :
      (read code c : String) (g : ℕ) (clients : ClientStore) (m : Dict String ℕ) (sampled : Bool)
      (now : ℕ) (s : ArtifactStore) (f : Found)
      → read ≢ "Client"
      → (find_artifact hash
          (authorization_state clients)
          options
          (artifact_id read code)
          sampled
          now
          s).1
        ≡ some f
      → f.authorization ≡ some (c, g)
      → current_authorization_generation c
          (find hash options read clients (some m) code sampled now s).0
        ≡ some g
  unfolding find
  find-current read code c g clients m sampled now s f model e a =
      let plain : (read == "Client") ≡ false = ground (arith, model, eq_iff read "Client") in
      rw (find, plain)
        (capture-current m
          (find_artifact hash (authorization_state clients) options (artifact_id read code) sampled
            now s)
          f c g e a)

  upsert-stored :
      (model id c : String) (g : ℕ) (clients : ClientStore) (ctx : Context) (p : Payload) (ttl : ℕ)
      (sampled : Bool) (now : ℕ) (s t : ArtifactStore)
      → p.client_id ≡ some c
      → current_authorization_generation c ctx ≡ some g
      → upsert hash options model clients ctx id p ttl sampled now s ≡ ok t
      → upsert_artifact hash
          (authorization_state clients)
          options
          (artifact_id model id)
          model
          p
          ttl
          (some g)
          sampled
          now
          s
        ≡ t
  unfolding upsert
  upsert-stored model id c g clients ctx p ttl sampled now s t own captured e =
      elim (Bool-cases (model == "Client")) [
        | inl is ↦ absurd (ground (arith, rw (upsert, is) at e))
        | inr other ↦ ground (arith, rw (upsert, other, own, captured) at e)
      ]

  moved_state :
      (clients : ClientStore) (c : String) (g : ℕ)
      → ((d : OidcClientRecord)
          → Dict.get c clients.clients ≡ some d
          → d.authorization_generation ≢ g)
      → (state : ClientAuthorizationState) → authorization_state clients c ≡ some state
      → state.authorization_generation ≢ g
  unfolding authorization_state
  moved_state clients c g moved state known = elim (Option-cases (Dict.get c clients.clients)) [
    | inl missing ↦ absurd (ground (arith, missing, known))
    | inr (d, is) ↦ λ same. moved d is (ground (arith, is, known, same))
  ]

-- A request reads an artifact of a client, a code say, and then stores a code, token or grant for
-- the same client, at a time when the client may have moved on. Once the client's generation is
-- not the one of the artifact that the request read, no lookup, by identifier, uid or user code,
-- answers what it has stored: a record that a lookup answers then stands under another identifier.
pub find-upsert_late :
    (hash : String → String) (options : OpportunisticCleanupOptions)
    (clients clients' clients'' : ClientStore) (m : Dict String ℕ) (read code model id c : String)
    (g ttl now now' later : ℕ) (sampled sampled' sampled'' : Bool) (p : Payload)
    (s s' t : ArtifactStore) (f : Found) (state : ClientAuthorizationState) (lookup : Lookup)
    (f' : Found)
    → read ≢ "Client"
    → (find_artifact hash
        (authorization_state clients)
        options
        (artifact_id read code)
        sampled
        now
        s).1
      ≡ some f
    → f.authorization ≡ some (c, g)
    → p.client_id ≡ some c
    → c ≢ ""
    → is_revocable model ≡ true
    → All (Shape hash) s'.artifacts
    → IsMap s'.artifacts
    → authorization_state clients' c ≡ some state
    → is_disabled state.lifecycle_status ≡ false
    → upsert hash options model clients'
        (find hash options read clients (some m) code sampled now s).0
        id
        p
        ttl
        sampled'
        now'
        s'
      ≡ ok t
    → ((d : OidcClientRecord)
        → Dict.get c clients''.clients ≡ some d
        → d.authorization_generation ≢ g)
    → (look hash (authorization_state clients'') options lookup sampled'' later t).1 ≡ some f'
    → (j : String) × (x : ArtifactRecord) × (Dict.get j t.artifacts ≡ some x)
      × Selects hash lookup j x
      × (f' ≡ found x)
      × (j ≢ artifact_id model id)
find-upsert_late hash options clients clients' clients'' m read code model id c g ttl now now' later
      sampled sampled' sampled'' p s s' t f state lookup f' other found seen own named kind shapes
      keys known live put moved answered =
    let captured =
      find-current hash options read code c g clients m sampled now s f other found seen in
    let same =
      upsert-stored hash options model id c g clients'
        (find hash options read clients (some m) code sampled now s).0 p ttl sampled' now' s' t own
        captured put in
    let of : given p.client_id ≡ some c = ground (arith, own, named, eq_iff c "") in
    look-Late hash options (authorization_state clients'') (artifact_id model id) c g lookup
      sampled'' later t f'
      (subst (λ u. All (Shape hash) u.artifacts) same
        (upsert-Shape hash options (authorization_state clients') (artifact_id model id) model p ttl
          (some g) sampled' now' s' shapes))
      (subst (λ u. IsMap u.artifacts) same
        (upsert-IsMap hash options (authorization_state clients') (artifact_id model id) model p ttl
          (some g) sampled' now' s' keys))
      (subst (λ u. All (Late (artifact_id model id) c g) u.artifacts) same
        (upsert-Late hash options (authorization_state clients') (artifact_id model id) model c p
          ttl g sampled' now' s' state keys of kind known live))
      (moved_state hash options clients'' c g moved) answered
