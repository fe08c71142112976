-- ===== src/Artifacts/Exclusion.antt =====
-- While one login of an interaction holds the gate, no other gets in.
use cqut_auth.Base.{
  subst, ℕ, ◌+◌, ◌*◌, ◌<◌, String, true, false, Option, List, ◌≡◌, refl, All, arith, string_eq,
  nat_eq, Bool-cases, Option-cases, inl, inr, ap,
}
use cqut_auth.Dict
use cqut_auth.Dict.{Dict, IsMap}
use cqut_auth.Dict.Laws.{set-IsMap, delete-IsMap, get-set_self, set-All, delete-All}
use cqut_auth.Artifacts.{
  ArtifactRecord, ArtifactStore, ClientAuthorizationState, OpportunisticCleanupOptions, has_expired,
  with_artifacts,
}
use cqut_auth.Artifacts.Logins.{gate, gate_id, try_acquire_login_gate}
use cqut_auth.Artifacts.Gate.{Call, IsKeyed, Spares, Good, run}
use cqut_auth.Artifacts.Gate.Calls.{run-Good}

placed-Good :
    (uid : String) (ttl now : ℕ) (m : Dict String ArtifactRecord) (s : ArtifactStore)
    → All (λ e. e.1.id ≡ e.0) m
    → IsMap m
    → Good
        (gate_id uid)
        (now + ttl * 1000)
        (with_artifacts (Dict.set (gate_id uid) (gate uid ttl now) m) s)
placed-Good uid ttl now m s k u = (
  set-All (λ e. e.1.id ≡ e.0) (gate_id uid) (gate uid ttl now) m refl k,
  record {
    value = gate uid ttl now;
    stored = get-set_self (gate_id uid) (gate uid ttl now) m;
    until = refl;
    no_grant = refl;
    no_client = refl;
    unique = set-IsMap (gate_id uid) (gate uid ttl now) m u;
  },
)

-- A try that gets the gate leaves a record of it that runs for the whole time to live.
acquired-Good :
    (uid : String) (ttl now : ℕ) (s t : ArtifactStore)
    → IsKeyed s
    → IsMap s.artifacts
    → try_acquire_login_gate uid ttl now s ≡ (t, true)
    → Good (gate_id uid) (now + ttl * 1000) t
unfolding try_acquire_login_gate
acquired-Good uid ttl now s t k u got = elim (Option-cases (Dict.get (gate_id uid) s.artifacts)) [
  | inl missing ↦
      subst (Good (gate_id uid) (now + ttl * 1000))
        (ap (λ r. r.0) (rw (missing, try_acquire_login_gate) at got))
        (placed-Good uid ttl now s.artifacts s k u)
  | inr (x, found) ↦ elim (Bool-cases (has_expired now x)) [
    | inr live ↦ absurd (ground (arith, got, found, live))
    | inl old ↦
        subst (Good (gate_id uid) (now + ttl * 1000))
          (ap (λ r. r.0) (rw (found, old, try_acquire_login_gate) at got))
          (placed-Good uid ttl now (Dict.delete x.id s.artifacts) s
            (delete-All (λ e. e.1.id ≡ e.0) x.id s.artifacts k) (delete-IsMap x.id s.artifacts u))
  ]
]

held-refused :
    (uid : String) (end ttl later : ℕ) (u : ArtifactStore)
    → Good (gate_id uid) end u
    → later < end
    → try_acquire_login_gate uid ttl later u ≡ (u, false)
unfolding try_acquire_login_gate
held-refused uid end ttl later u (k, h) soon = ground (arith, h.stored, h.until, soon)

-- In a store whose records stand under their own identifiers, each once: once a login has the gate
-- of an interaction, every further try until the gate's time is up is refused and changes nothing,
-- whatever calls come between before that time, if none of them releases the gate or stores an
-- artifact under its identifier.
pub run-exclusive :
    (hash : String → String) (state_of : String → Option ClientAuthorizationState)
    (options : OpportunisticCleanupOptions) (uid : String) (ttl ttl' now later : ℕ)
    (calls : List Call) (s t : ArtifactStore)
    → IsKeyed s
    → IsMap s.artifacts
    → try_acquire_login_gate uid ttl now s ≡ (t, true)
    → All (Spares (gate_id uid) (now + ttl * 1000)) calls
    → later < now + ttl * 1000
    → let u = run hash state_of options calls t in
      try_acquire_login_gate uid ttl' later u ≡ (u, false)
run-exclusive hash state_of options uid ttl ttl' now later calls s t k u got w soon =
    held-refused uid (now + ttl * 1000) ttl' later (run hash state_of options calls t)
      (run-Good (gate_id uid) (now + ttl * 1000) hash state_of options calls t w
        (acquired-Good uid ttl now s t k u got))
      soon
