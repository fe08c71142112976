-- ===== src/Sessions/Create.antt =====
-- A creation leaves the subject one session.
use cqut_auth.Base.{
  String, Bool, some, [], ◌∷◌, ◌≡◌, ◌≢◌, string_eq, ◌==◌, count, Bool-cases, inl, inr,
}
use cqut_auth.Dict
use cqut_auth.Dict.{Dict, values, Lacks, IsMap}
use cqut_auth.Sessions.{ManagementSessionRecord, Sessions, delete_management_sessions_by_subject_id}

abbrev pub of_subject : String → ManagementSessionRecord → Bool
of_subject subject_id session = session.subject_id == subject_id

-- What is left after a session was created for a subject.
pub record Created (subject_id : String) (session : ManagementSessionRecord) (s t : Sessions)
    : Type 0 where
  pub stored : Dict.get session.token_hash t ≡ some session
  pub only : count (of_subject subject_id) (values t) ≡ 1
  pub others :
      (k : String) (other : ManagementSessionRecord)
      → session.token_hash ≢ k
      → other.subject_id ≢ subject_id
      → Dict.get k s ≡ some other
      → Dict.get k t ≡ some other

delete-Lacks :
    (subject_id k : String) (m : Sessions)
    → Lacks k m
    → Lacks k (delete_management_sessions_by_subject_id subject_id m)
unfolding delete_management_sessions_by_subject_id
delete-Lacks subject_id k [] h = tt
delete-Lacks subject_id k (e ∷ m) (n, h) = elim (Bool-cases (e.1.subject_id == subject_id)) [
  | inl gone ↦ rw gone (delete-Lacks subject_id k m h)
  | inr kept ↦ rw kept (n, delete-Lacks subject_id k m h)
]
