-- ===== src/Artifacts/Attempts.antt =====
-- How often a code can be tried.
use cqut_auth.Base.{
  ℕ, ◌+◌, ◌-◌, ◌≤◌, String, Bool, true, false, none, some, List, [], ◌∷◌, ◌≡◌, arith, string_eq,
  nat_eq, count, leb, Option-cases, inl, inr, weight, if◌then◌else◌,
}
use cqut_auth.Artifacts.{EmailVerification, PendingInteractionLogin}
use cqut_auth.Artifacts.Logins.{
  InteractionEmailVerificationResult, missing, stale, verified, attempt,
  apply_email_verification_attempt,
}

-- One submission of a code: the hash that the caller expects, the hash of the code, and the time.
pub record Guess : Type 0 where
  pub expected : String
  pub input : String
  pub now : ℕ

-- The answer was about the code: it compared it, or found that its time or its attempts were up.
abbrev pub is_decided : InteractionEmailVerificationResult → Bool
is_decided missing = false
is_decided stale = false
is_decided _ = true

abbrev pub is_verified : InteractionEmailVerificationResult → Bool
is_verified (verified email pending) = true
is_verified _ = false

-- How many more submissions can be decided.
abbrev pub remaining : ℕ → PendingInteractionLogin → ℕ
remaining most p = elim p.email_verification [
  | none ↦ 0
  | some v ↦ if leb most v.attempts then 1 else most - v.attempts
]

abbrev pub has_code : PendingInteractionLogin → ℕ
has_code p = elim p.email_verification [ none ↦ 0 | some v ↦ 1 ]

module _ (most : ℕ) where
  -- Submissions in turn, and their answers.
  unfoldable pub run :
      List Guess → PendingInteractionLogin → List InteractionEmailVerificationResult
  run [] p = []
  run (g ∷ guesses) p =
      let r = apply_email_verification_attempt g.expected g.input g.now most p in
      r.1 ∷ run guesses r.0

  attempt-remaining :
      (g : Guess) (p : PendingInteractionLogin)
      → let r = apply_email_verification_attempt g.expected g.input g.now most p in
        weight (is_decided r.1) + remaining most r.0 ≤ remaining most p
  unfolding apply_email_verification_attempt attempt
  attempt-remaining g p = elim (Option-cases p.email_verification) [
    | inl e ↦ rw (e, apply_email_verification_attempt) (ground (arith, e))
    | inr (v, e) ↦ rw (e, apply_email_verification_attempt) (ground arith)
  ]

  run-remaining :
      (guesses : List Guess) (p : PendingInteractionLogin)
      → count is_decided (run guesses p) ≤ remaining most p
  unfolding run
  run-remaining [] p = omega arith
  run-remaining (g ∷ guesses) p =
      let r = apply_email_verification_attempt g.expected g.input g.now most p in
      omega (arith, attempt-remaining g p, run-remaining guesses r.0)

  attempt-has_code :
      (g : Guess) (p : PendingInteractionLogin)
      → let r = apply_email_verification_attempt g.expected g.input g.now most p in
        weight (is_verified r.1) + has_code r.0 ≤ has_code p
  unfolding apply_email_verification_attempt attempt
  attempt-has_code g p = elim (Option-cases p.email_verification) [
    | inl e ↦ rw (e, apply_email_verification_attempt) (ground (arith, e))
    | inr (v, e) ↦ rw (e, apply_email_verification_attempt) (ground arith)
  ]

  run-has_code :
      (guesses : List Guess) (p : PendingInteractionLogin)
      → count is_verified (run guesses p) ≤ has_code p
  unfolding run
  run-has_code [] p = omega arith
  run-has_code (g ∷ guesses) p =
      let r = apply_email_verification_attempt g.expected g.input g.now most p in
      omega (arith, attempt-has_code g p, run-has_code guesses r.0)

-- A code that was sent, with no attempt made, is tried no more often than the limit allows,
-- whatever is submitted and when, and is verified once at most.
pub run_fresh :
    (most : ℕ) (guesses : List Guess) (p : PendingInteractionLogin) (v : EmailVerification)
    → 1 ≤ most
    → p.email_verification ≡ some v
    → v.attempts ≡ 0
    → (count is_decided (run most guesses p) ≤ most) × (count is_verified (run most guesses p) ≤ 1)
run_fresh most guesses p v some_try sent fresh =
    ground (arith, sent, fresh, run-remaining most guesses p, run-has_code most guesses p)
