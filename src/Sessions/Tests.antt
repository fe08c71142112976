-- ===== src/Sessions/Tests.antt =====
-- Runs of the sessions, with tokens that are their own hash, and the theorems at them.
use cqut_auth.Base.{
  String, false, Option, none, some, List, [], ◌∷◌, ◌≡◌, ◌≢◌, ◌↔◌, refl, arith, string_eq, eq_iff,
}
use cqut_auth.Dict
use cqut_auth.Sessions.{
  Sessions, SessionTtl, StudentStatus, AuthenticatedPrincipal, create, authenticate, admit, revoke,
  new_session, create_management_session, delete_management_sessions_by_subject_id, delete_expired,
  delete_expired_management_sessions, touch_management_session,
}
use cqut_auth.Sessions.Expiry.{
  IsLive, authenticate_iff, authenticate_refused, Portion,
  delete_expired_management_sessions-Portion,
}
use cqut_auth.Sessions.Lifetime.{
  Call, authenticated, created, cleaned, run, step, run-authenticate_late, run-authenticate_revoked,
}

sessions : Unit {0}
unfolding create authenticate admit revoke create_management_session
    delete_management_sessions_by_subject_id delete_expired delete_expired_management_sessions
    touch_management_session run step Dict.get Dict.set Dict.delete
sessions = tt

abbrev plain : String → String
plain token = token

abbrev ttl : SessionTtl
ttl = record { absolute_ttl_seconds = 3600; idle_ttl_seconds = 600 }

abbrev ann : AuthenticatedPrincipal
ann = record {
  subject_id = "ann";
  school_uid = "1";
  school = "cqut";
  student_status = StudentStatus.active;
  identity_source = "test";
  identity_key = "1";
  email = none;
  email_verified = false;
  display_name = none;
  preferred_username = "ann";
}

abbrev everyone : String → Option AuthenticatedPrincipal
everyone _ = some ann

abbrev nobody : String → Option AuthenticatedPrincipal
nobody _ = none

abbrev opened : Sessions
opened = create plain ttl "t1" 0 "ann" []

not_empty : ◌≢◌ {A = String} "t1" ""
not_empty e = ground (arith, eq_iff "t1" "", e)

-- In use, touched after five minutes, idle for too long, and at the end of the absolute time.
authenticate_tests :
    ((authenticate plain ttl everyone (some "t1") 299999 opened) ≡ (opened, some ann))
    × (Dict.get "t1" (authenticate plain ttl everyone (some "t1") 300000 opened).0
        ≡ some (record (new_session ttl "t1" "ann" 0) { last_seen_at = 300000 }))
    × (authenticate plain ttl everyone (some "t1") 600000 opened ≡ ([], none))
    × (authenticate plain ttl nobody (some "t1") 5 opened ≡ ([], none))
unfolding sessions
authenticate_tests = (refl, refl, refl, refl)

authenticate_iff_example :
    ((authenticate plain ttl everyone (some "t1") 299999 opened).1 ≡ some ann)
    ↔ IsLive plain ttl everyone "t1" 299999 opened ann
authenticate_iff_example = authenticate_iff plain ttl everyone "t1" 299999 opened ann not_empty

refused_again : authenticate plain ttl everyone (some "t1") 5 [] ≡ ([], none)
unfolding sessions
refused_again = authenticate_refused plain ttl nobody everyone "t1" 4 5 opened refl

delete_expired_management_sessions-Portion_example : Portion 3600000 1 opened [] 1
unfolding sessions
delete_expired_management_sessions-Portion_example =
    delete_expired_management_sessions-Portion 3600000 1 opened (omega arith)

abbrev used : List Call
used = authenticated everyone (some "t1") 400000 ∷ cleaned 500000 9 ∷ created "t2" 500000 "bob" ∷ []

other_token : ◌≢◌ {A = String} "t2" "t1"
other_token e = ground (arith, eq_iff "t2" "t1", e)

run-authenticate_late_example :
    (authenticate plain ttl everyone
      (some "t1")
      3600000
      (run plain ttl used (create plain ttl "t1" 0 "ann" []))).1
    ≡ none
run-authenticate_late_example =
    run-authenticate_late plain ttl everyone "t1" "ann" 0 3600000 used [] tt
      (tt, (tt, (other_token, tt))) (omega arith)

run-authenticate_revoked_example :
    (authenticate plain ttl everyone
      (some "t1")
      6
      (run plain ttl used (revoke plain ttl (some "t1") opened))).1
    ≡ none
run-authenticate_revoked_example =
    run-authenticate_revoked plain ttl everyone "t1" 6 used opened not_empty
      (tt, (tt, (other_token, tt)))
