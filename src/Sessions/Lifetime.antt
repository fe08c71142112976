-- ===== src/Sessions/Lifetime.antt =====
-- How long a token lives, whatever is called in between.
use cqut_auth.Base.{
  ℕ, ◌+◌, ◌-◌, ◌*◌, ◌≤◌, String, Option, none, some, List, [], ◌∷◌, ◌≡◌, refl, ◌≢◌, All, arith,
  eq_iff, string_eq, ◌==◌, leb, Bool-cases, Option-cases, inl, inr,
}
use cqut_auth.Dict
use cqut_auth.Dict.{Dict, Lacks}
use cqut_auth.Dict.Laws.{set-All, get-All, delete-All}
use cqut_auth.Sessions.Expiry.{authenticate-IsLive}
use cqut_auth.Sessions.{
  ManagementSessionRecord, Sessions, SessionTtl, AuthenticatedPrincipal, is_expired, admit,
  authenticate, revoke, create, create_management_session, delete_management_sessions_by_subject_id,
  delete_expired, delete_expired_management_sessions, touch_management_session,
}

-- A call of the sessions at its time, with what the identity store answers at that time.
pub data Call : Type 0 where
  authenticated : (String → Option AuthenticatedPrincipal) → Option String → ℕ → Call
  revoked : Option String → Call
  created : String → ℕ → String → Call
  cleaned : ℕ → ℕ → Call

module _ (sha256 : String → String) (ttl : SessionTtl) where
  unfoldable pub step : Call → Sessions → Sessions
  step (authenticated find_principal token now) m =
      (authenticate sha256 ttl find_principal token now m).0
  step (revoked token) m = revoke sha256 ttl token m
  step (created token now subject_id) m = create sha256 ttl token now subject_id m
  step (cleaned now limit) m = (delete_expired_management_sessions now limit m).0

  unfoldable pub run : List Call → Sessions → Sessions
  run [] m = m
  run (c ∷ calls) m = run calls (step c m)

  -- The call draws no token with the hash `token_hash`.
  abbrev pub Spares : String → Call → Type 0
  Spares token_hash (created token now subject_id) = sha256 token ≢ token_hash
  Spares token_hash _ = Unit

  -- A session that stands under the key runs out by `end`.
  abbrev EndsBy : String → ℕ → Sessions → Type 0
  EndsBy token_hash end = All (λ e. e.0 ≡ token_hash → e.1.expires_at ≤ end)

  Lacks-EndsBy : (h : String) (end : ℕ) (m : Sessions) → Lacks h m → EndsBy h end m
  Lacks-EndsBy h end [] l = tt
  Lacks-EndsBy h end (e ∷ m) (n, l) = (λ q. absurd (n q), Lacks-EndsBy h end m l)

  delete_by_subject-EndsBy :
      (h subject_id : String) (end : ℕ) (m : Sessions)
      → EndsBy h end m
      → EndsBy h end (delete_management_sessions_by_subject_id subject_id m)
  unfolding delete_management_sessions_by_subject_id
  delete_by_subject-EndsBy h subject_id end [] k = tt
  delete_by_subject-EndsBy h subject_id end (e ∷ m) (b, k) =
      elim (Bool-cases (e.1.subject_id == subject_id)) [
        | inl gone ↦ rw gone (delete_by_subject-EndsBy h subject_id end m k)
        | inr kept ↦ rw kept (b, delete_by_subject-EndsBy h subject_id end m k)
      ]

  delete_expired-EndsBy :
      (h : String) (end now limit deleted : ℕ) (m : Sessions)
      → EndsBy h end m
      → EndsBy h end (delete_expired now limit deleted m).0
  unfolding delete_expired
  delete_expired-EndsBy h end now limit deleted [] k = tt
  delete_expired-EndsBy h end now limit deleted ((j, x) ∷ m) (b, k) =
      elim (Bool-cases (leb x.expires_at now)) [
        | inr live ↦
            rw (live, delete_expired) (b, delete_expired-EndsBy h end now limit deleted m k)
        | inl old ↦ elim (Bool-cases (leb limit (deleted + 1))) [
          | inl full ↦ rw (old, full, delete_expired) k
          | inr more ↦
              rw (old, more, delete_expired)
                (delete_expired-EndsBy h end now limit (deleted + 1) m k)
        ]
      ]

  touch-EndsBy :
      (h token_hash : String) (end now : ℕ) (m : Sessions)
      → EndsBy h end m
      → EndsBy h end (touch_management_session token_hash now m)
  unfolding touch_management_session
  touch-EndsBy h token_hash end now m k = elim (Option-cases (Dict.get token_hash m)) [
    | inl missing ↦ rw (missing, touch_management_session) k
    | inr (x, found) ↦
        rw (found, touch_management_session)
          (set-All (λ e. e.0 ≡ h → e.1.expires_at ≤ end) token_hash _ m
            (get-All (λ e. e.0 ≡ h → e.1.expires_at ≤ end) token_hash x m k found) k)
  ]

  admit-EndsBy :
      (find_principal : String → Option AuthenticatedPrincipal) (h token_hash : String)
      (end now : ℕ) (x : ManagementSessionRecord) (m : Sessions)
      → EndsBy h end m
      → EndsBy h end (admit sha256 ttl find_principal token_hash now x m).0
  unfolding admit
  admit-EndsBy find_principal h token_hash end now x m k =
      let gone = delete-All (λ e. e.0 ≡ h → e.1.expires_at ≤ end) token_hash m k in
      elim (Bool-cases (is_expired ttl now x)) [
        | inl old ↦ rw (old, admit) gone
        | inr live ↦ elim (Option-cases (find_principal x.subject_id)) [
          | inl nobody ↦ rw (live, nobody, admit) gone
          | inr (p, known) ↦ elim (Bool-cases (leb (5 * 60 * 1000) (now - x.last_seen_at))) [
            | inl due ↦ rw (live, known, due, admit) (touch-EndsBy h token_hash end now m k)
            | inr recent ↦ rw (live, known, recent, admit) k
          ]
        ]
      ]

  step-EndsBy :
      (h : String) (end : ℕ) (c : Call) (m : Sessions)
      → Spares h c
      → EndsBy h end m
      → EndsBy h end (step c m)
  unfolding step authenticate revoke create create_management_session
      delete_expired_management_sessions
  step-EndsBy h end (authenticated find_principal none now) m w k = k
  step-EndsBy h end (authenticated find_principal (some token) now) m w k =
      elim (Bool-cases (token == "")) [
        | inl empty ↦ rw (empty, step, authenticate) k
        | inr given ↦ elim (Option-cases (Dict.get (sha256 token) m)) [
          | inl missing ↦ rw (given, missing, step, authenticate) k
          | inr (x, found) ↦
              rw (given, found, step, authenticate)
                (admit-EndsBy find_principal h (sha256 token) end now x m k)
        ]
      ]
  step-EndsBy h end (revoked none) m w k = k
  step-EndsBy h end (revoked (some token)) m w k = elim (Bool-cases (token == "")) [
    | inl empty ↦ rw (empty, step, revoke) k
    | inr given ↦
        rw (given, step, revoke)
          (delete-All (λ e. e.0 ≡ h → e.1.expires_at ≤ end) (sha256 token) m k)
  ]
  step-EndsBy h end (created token now subject_id) m w k =
      set-All (λ e. e.0 ≡ h → e.1.expires_at ≤ end) (sha256 token) _ _ (λ q. absurd (w q))
        (delete_by_subject-EndsBy h subject_id end m k)
  step-EndsBy h end (cleaned now limit) m w k = delete_expired-EndsBy h end now limit 0 m k

  run-EndsBy :
      (h : String) (end : ℕ) (calls : List Call) (m : Sessions)
      → All (Spares h) calls
      → EndsBy h end m
      → EndsBy h end (run calls m)
  unfolding run
  run-EndsBy h end [] m w k = k
  run-EndsBy h end (c ∷ calls) m (w, ws) k =
      run-EndsBy h end calls (step c m) ws (step-EndsBy h end c m w k)

  refused_after :
      (find_principal : String → Option AuthenticatedPrincipal) (token : String) (end late : ℕ)
      (m : Sessions)
      → EndsBy (sha256 token) end m
      → end ≤ late
      → (authenticate sha256 ttl find_principal (some token) late m).1 ≡ none
  refused_after find_principal token end late m k over =
      elim (Option-cases (authenticate sha256 ttl find_principal (some token) late m).1) [
        | inl refused ↦ refused
        | inr (p, admitted) ↦
            let l = authenticate-IsLive sha256 ttl find_principal token late m p admitted in
            let bound =
              get-All (λ e. e.0 ≡ sha256 token → e.1.expires_at ≤ end) (sha256 token) l.session m k
                l.stored refl in
            absurd (omega (arith, bound, over, l.unexpired))
      ]

  delete-EndsBy : (h : String) (end : ℕ) (m : Sessions) → EndsBy h end (Dict.delete h m)
  unfolding Dict.delete
  delete-EndsBy h end [] = tt
  delete-EndsBy h end ((j, x) ∷ m) = elim (Bool-cases (j == h)) [
    | inl same ↦ rw same (delete-EndsBy h end m)
    | inr other ↦
        rw other (λ q. absurd (ground (arith, other, eq_iff j h, q)), delete-EndsBy h end m)
  ]

  -- A token drawn anew is refused from the end of its absolute time on, however often it was
  -- used and whatever else was called, unless a token with the same hash is drawn.
  pub run-authenticate_late :
      (find_principal : String → Option AuthenticatedPrincipal) (token subject_id : String)
      (now late : ℕ) (calls : List Call) (m : Sessions)
      → Lacks (sha256 token) m
      → All (Spares (sha256 token)) calls
      → now + ttl.absolute_ttl_seconds * 1000 ≤ late
      → (authenticate sha256 ttl find_principal
          (some token)
          late
          (run calls (create sha256 ttl token now subject_id m))).1
        ≡ none
  unfolding create create_management_session
  run-authenticate_late find_principal token subject_id now late calls m new w over =
      let end = now + ttl.absolute_ttl_seconds * 1000 in
      refused_after find_principal token end late _
        (run-EndsBy (sha256 token) end calls (create sha256 ttl token now subject_id m) w (
          set-All (λ e. e.0 ≡ sha256 token → e.1.expires_at ≤ end) (sha256 token) _ _
            (λ q. omega arith)
            (delete_by_subject-EndsBy (sha256 token) subject_id end m
              (Lacks-EndsBy (sha256 token) end m new))))
        over

  -- A token that was revoked is refused ever after, whatever is called, unless a token with the
  -- same hash is drawn.
  pub run-authenticate_revoked :
      (find_principal : String → Option AuthenticatedPrincipal) (token : String) (late : ℕ)
      (calls : List Call) (m : Sessions)
      → token ≢ ""
      → All (Spares (sha256 token)) calls
      → (authenticate sha256 ttl find_principal
          (some token)
          late
          (run calls (revoke sha256 ttl (some token) m))).1
        ≡ none
  unfolding revoke
  run-authenticate_revoked find_principal token late calls m given w =
      let left = revoke sha256 ttl (some token) m in
      let same : left ≡ Dict.delete (sha256 token) m = ground (arith, given, eq_iff token "") in
      refused_after find_principal token 0 late _
        (run-EndsBy (sha256 token) 0 calls left w (rw same (delete-EndsBy (sha256 token) 0 m)))
        (omega arith)
