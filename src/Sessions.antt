-- ===== src/Sessions.antt =====
-- persistence/management-session.repository.ts without a database, and
-- management/management-session.service.ts: the sessions of the management interface.
-- The hash of a token (`sha256` of utils.ts, from node:crypto) and the identity store's lookup
-- of a principal are arguments; so are the token that a creation draws and the time of a call.
-- `create` awaits the deletion of the subject's sessions and then the new session's storing, neither
-- of which waits for anything without a database: it is one step here.
pub mod Create
pub mod Expiry
pub mod Lifetime
mod Tests
use cqut_auth.Base.{
  ℕ, ◌+◌, ◌-◌, ◌*◌, String, Bool, true, false, not, ◌||◌, Option, none, some, List, [], ◌∷◌, filter,
  leb, ◌==◌, string_eq, if◌then◌else◌,
}
use cqut_auth.Dict
use cqut_auth.Dict.{Dict}

pub record ManagementSessionRecord : Type 0 where
  pub token_hash : String
  pub subject_id : String
  pub created_at : ℕ
  pub last_seen_at : ℕ
  pub expires_at : ℕ

abbrev pub Sessions : Type 0
Sessions = Dict String ManagementSessionRecord

unfoldable pub create_management_session : ManagementSessionRecord → Sessions → Sessions
create_management_session session = Dict.set session.token_hash session

abbrev pub find_management_session : String → Sessions → Option ManagementSessionRecord
find_management_session token_hash = Dict.get token_hash

unfoldable pub touch_management_session : String → ℕ → Sessions → Sessions
touch_management_session token_hash last_seen_at m = elim (Dict.get token_hash m) [
  | none ↦ m
  | some current ↦ Dict.set token_hash (record current { last_seen_at = last_seen_at }) m
]

abbrev pub delete_management_session : String → Sessions → Sessions
delete_management_session token_hash = Dict.delete token_hash

unfoldable pub delete_management_sessions_by_subject_id : String → Sessions → Sessions
delete_management_sessions_by_subject_id subject_id =
    filter (λ e. not (e.1.subject_id == subject_id))

-- The loop of `deleteExpiredManagementSessions`, with the count of what it has deleted so far.
unfoldable pub delete_expired : ℕ → ℕ → ℕ → Sessions → Sessions × ℕ
delete_expired now limit deleted [] = ([], deleted)
delete_expired now limit deleted (e ∷ m) =
    let (kept, total) = delete_expired now limit deleted m in
    let next = delete_expired now limit (deleted + 1) m in
    if leb e.1.expires_at now
    then (if leb limit (deleted + 1) then (m, deleted + 1) else next)
    else (e ∷ kept, total)

pub delete_expired_management_sessions : ℕ → ℕ → Sessions → Sessions × ℕ
delete_expired_management_sessions now limit = delete_expired now limit 0

pub data StudentStatus : Type 0 where
  active not_student unknown : StudentStatus

pub record AuthenticatedPrincipal : Type 0 where
  pub subject_id : String
  pub school_uid : String
  pub school : String
  pub student_status : StudentStatus
  pub identity_source : String
  pub identity_key : String
  pub email : Option String
  pub email_verified : Bool
  pub display_name : Option String
  pub preferred_username : String

-- `!token`: no token, or an empty one.
abbrev pub no_token : Option String → Bool
no_token none = true
no_token (some token) = token == ""

pub record SessionTtl : Type 0 where
  pub absolute_ttl_seconds : ℕ
  pub idle_ttl_seconds : ℕ

abbrev pub new_session : SessionTtl → String → String → ℕ → ManagementSessionRecord
new_session ttl token_hash subject_id now = record {
  token_hash = token_hash;
  subject_id = subject_id;
  created_at = now;
  last_seen_at = now;
  expires_at = now + ttl.absolute_ttl_seconds * 1000;
}

abbrev pub is_expired : SessionTtl → ℕ → ManagementSessionRecord → Bool
is_expired ttl now session =
    leb session.expires_at now || leb (session.last_seen_at + ttl.idle_ttl_seconds * 1000) now

module _ (sha256 : String → String) (ttl : SessionTtl) where
  -- `token` is the one that was drawn; the call answers it, and the new session's `expires_at`.
  unfoldable pub create : String → ℕ → String → Sessions → Sessions
  create token now subject_id m =
      create_management_session (new_session ttl (sha256 token) subject_id now)
        (delete_management_sessions_by_subject_id subject_id m)

  -- `authenticate` for a session that was found.
  unfoldable pub admit :
      (String → Option AuthenticatedPrincipal)
      → String
      → ℕ
      → ManagementSessionRecord
      → Sessions
      → Sessions × Option AuthenticatedPrincipal
  admit find_principal token_hash now session m =
      if is_expired ttl now session
      then (delete_management_session token_hash m, none)
      else elim (find_principal session.subject_id) [
        | none ↦ (delete_management_session token_hash m, none)
        | some principal ↦ (
          if leb (5 * 60 * 1000) (now - session.last_seen_at)
              then touch_management_session token_hash now m
              else m,
          some principal,
        )
      ]

  unfoldable pub authenticate :
      (String → Option AuthenticatedPrincipal)
      → Option String
      → ℕ
      → Sessions
      → Sessions × Option AuthenticatedPrincipal
  authenticate find_principal none now m = (m, none)
  authenticate find_principal (some token) now m =
      if no_token (some token) then (m, none) else elim (find_management_session (sha256 token) m) [
        | none ↦ (m, none)
        | some session ↦ admit find_principal (sha256 token) now session m
      ]

  unfoldable pub revoke : Option String → Sessions → Sessions
  revoke none m = m
  revoke (some token) m =
      if no_token (some token) then m else delete_management_session (sha256 token) m
