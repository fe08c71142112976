-- ===== src/Sessions/Expiry.antt =====
-- Who is admitted, what a refusal leaves, and the deletion of expired sessions in portions.
use cqut_auth.Base.{
  ℕ, ◌+◌, ◌*◌, ◌≤◌, ◌<◌, String, not, Option, none, some, [], ◌∷◌, ◌≡◌, refl, ◌≢◌, ◌↔◌, ◌⊎◌, arith,
  eq_iff, string_eq, ◌==◌, leb, count, length, Bool-cases, Option-cases, inl, inr, ◌∙◌, ap,
}
use cqut_auth.Dict
use cqut_auth.Dict.{Dict, values}
use cqut_auth.Dict.Laws.{get-delete}
use cqut_auth.Sessions.{
  ManagementSessionRecord, Sessions, SessionTtl, AuthenticatedPrincipal, admit, authenticate,
  delete_expired, delete_expired_management_sessions,
}

module _ (sha256 : String → String) (ttl : SessionTtl)
    (find_principal : String → Option AuthenticatedPrincipal) where
  -- The token's session is stored, has neither run out nor been idle for too long, and belongs
  -- to the principal.
  pub record IsLive (token : String) (now : ℕ) (m : Sessions) (p : AuthenticatedPrincipal)
      : Type 0 where
    pub session : ManagementSessionRecord
    pub stored : Dict.get (sha256 token) m ≡ some session
    pub unexpired : now < session.expires_at
    pub used : now < session.last_seen_at + ttl.idle_ttl_seconds * 1000
    pub known : find_principal session.subject_id ≡ some p

  pub authenticate-IsLive :
      (token : String) (now : ℕ) (m : Sessions) (p : AuthenticatedPrincipal)
      → (authenticate sha256 ttl find_principal (some token) now m).1 ≡ some p
      → IsLive token now m p
  unfolding authenticate admit
  authenticate-IsLive token now m p e = elim (Bool-cases (token == "")) [
    | inl empty ↦ absurd (ground (arith, e, empty))
    | inr given ↦ elim (Option-cases (Dict.get (sha256 token) m)) [
      | inl missing ↦ absurd (ground (arith, e, given, missing))
      | inr (session, found) ↦ record {
        session = session;
        stored = found;
        unexpired = ground (arith, e, given, found);
        used = ground (arith, e, given, found);
        known = ground (arith, e, given, found);
      }
    ]
  ]

  IsLive-authenticate :
      (token : String) (now : ℕ) (m : Sessions) (p : AuthenticatedPrincipal)
      → token ≢ ""
      → IsLive token now m p
      → (authenticate sha256 ttl find_principal (some token) now m).1 ≡ some p
  unfolding authenticate admit
  IsLive-authenticate token now m p given l =
      ground (arith, eq_iff token "", l.stored, l.unexpired, l.used, l.known)

  -- A call without a token, or with an empty one, admits nobody; with another token exactly the
  -- principal of its live session.
  pub authenticate_iff :
      (token : String) (now : ℕ) (m : Sessions) (p : AuthenticatedPrincipal)
      → token ≢ ""
      → ((authenticate sha256 ttl find_principal (some token) now m).1 ≡ some p)
        ↔ IsLive token now m p
  authenticate_iff token now m p given =
      (authenticate-IsLive token now m p, IsLive-authenticate token now m p given)

  admit_refused :
      (token_hash : String) (now : ℕ) (session : ManagementSessionRecord) (m : Sessions)
      → (admit sha256 ttl find_principal token_hash now session m).1 ≡ none
      → (admit sha256 ttl find_principal token_hash now session m).0 ≡ Dict.delete token_hash m
  unfolding admit
  admit_refused token_hash now session m e = ground (arith, e)

  authenticate_missing :
      (token : String) (now : ℕ) (m : Sessions)
      → (token ≡ "") ⊎ (Dict.get (sha256 token) m ≡ none)
      → authenticate sha256 ttl find_principal (some token) now m ≡ (m, none)
  unfolding authenticate
  authenticate_missing token now m (inl empty) = ground (arith, eq_iff token "", empty)
  authenticate_missing token now m (inr missing) = elim (Bool-cases (token == "")) [
    | inl empty ↦ rw (empty, authenticate) refl
    | inr given ↦ rw (given, missing, authenticate) refl
  ]

  refused-missing :
      (token : String) (now : ℕ) (m : Sessions)
      → (authenticate sha256 ttl find_principal (some token) now m).1 ≡ none
      → (token ≡ "")
        ⊎ (Dict.get (sha256 token) (authenticate sha256 ttl find_principal (some token) now m).0
            ≡ none)
  unfolding authenticate
  refused-missing token now m e = elim (Bool-cases (token == "")) [
    | inl empty ↦ inl ((eq_iff token "").0 empty)
    | inr given ↦ elim (Option-cases (Dict.get (sha256 token) m)) [
      | inl missing ↦ inr (rw (given, missing, authenticate) missing)
      | inr (session, found) ↦
          let gone = admit_refused (sha256 token) now session m (ground (arith, e, given, found)) in
          inr (
            rw (given, found, authenticate)
              (ap (Dict.get (sha256 token)) gone
                ∙ ground (
                  arith,
                  get-delete (sha256 token) (sha256 token) m,
                  eq_iff (sha256 token) (sha256 token),
                )))
    ]
  ]

-- Where a token is refused, its session is gone, so that it stays refused at every later call,
-- whatever the time and whoever is known then.
pub authenticate_refused :
    (sha256 : String → String) (ttl : SessionTtl)
    (find_principal find_later : String → Option AuthenticatedPrincipal) (token : String)
    (now later : ℕ) (m : Sessions)
    → (authenticate sha256 ttl find_principal (some token) now m).1 ≡ none
    → let left = (authenticate sha256 ttl find_principal (some token) now m).0 in
      authenticate sha256 ttl find_later (some token) later left ≡ (left, none)
authenticate_refused sha256 ttl find_principal find_later token now later m e =
    authenticate_missing sha256 ttl find_later token later _
      (refused-missing sha256 ttl find_principal token now m e)

-- What a portion deleted: `kept` is what is left of `s` and `total` the number of deletions.
pub record Portion (now limit : ℕ) (s kept : Sessions) (total : ℕ) : Type 0 where
  pub partition : length kept + total ≡ length s
  pub unexpired_stay :
      count (λ x. not (leb x.expires_at now)) (values kept)
      ≡ count (λ x. not (leb x.expires_at now)) (values s)
  pub bounded : total ≤ limit
  pub exhaustive : total < limit → count (λ x. leb x.expires_at now) (values kept) ≡ 0

delete_expired_lem :
    (now limit deleted : ℕ) (m : Sessions)
    → deleted < limit
    → let r = delete_expired now limit deleted m in
      (length r.0 + r.1 ≡ length m + deleted)
      × (count (λ x. not (leb x.expires_at now)) (values r.0)
          ≡ count (λ x. not (leb x.expires_at now)) (values m))
      × (r.1 ≤ limit)
      × (r.1 < limit → count (λ x. leb x.expires_at now) (values r.0) ≡ 0)
unfolding delete_expired
delete_expired_lem now limit deleted [] h = omega (arith, h)
delete_expired_lem now limit deleted ((k, x) ∷ m) h = elim (Bool-cases (leb x.expires_at now)) [
  | inr live ↦ ground (arith, live, delete_expired_lem now limit deleted m h)
  | inl old ↦ elim (Bool-cases (leb limit (deleted + 1))) [
    | inl full ↦ ground (arith, h, old, full)
    | inr more ↦
        ground
          (arith, old, more, delete_expired_lem now limit (deleted + 1) m (ground (arith, more)))
  ]
]

-- A portion with a positive limit deletes expired sessions alone, no more than the limit, and,
-- where it stays below the limit, all of them.
pub delete_expired_management_sessions-Portion :
    (now limit : ℕ) (m : Sessions)
    → 1 ≤ limit
    → let r = delete_expired_management_sessions now limit m in Portion now limit m r.0 r.1
unfolding delete_expired_management_sessions
delete_expired_management_sessions-Portion now limit m h =
    let (p, u, b, x) = delete_expired_lem now limit 0 m h in
    record { partition = omega (arith, p); unexpired_stay = u; bounded = b; exhaustive = x }
