-- ===== src/RateLimit/Checks.antt =====
-- `consumeRateLimitChecks`: several limits in turn, undone when one refuses. The replies of Redis
-- and the times of the calls are arguments, one for each check, and Redis acknowledges resets.
use cqut_auth.Base.{
  Option, subst, ◌⊎◌, ℕ, String, true, false, none, some, List, [], ◌∷◌, ◌++◌, ◌≡◌, refl, arith,
  if◌then◌else◌, All, Bool-cases, inl, inr, string_eq, eq_iff, ap, sym,
}
use cqut_auth.Dict
use cqut_auth.Dict.{Dict}
use cqut_auth.Dict.Laws.{get-delete}
use cqut_auth.RateLimit.{
  consume_local, RateLimitConfig, RateLimitService, RateLimitMode, RateLimitDecision, RedisReply,
  consume, consume_memory, reset,
}

-- `{ key, max, windowSeconds }`, with what its call of Redis answers and when it is made.
pub record Check : Type 0 where
  pub key : String
  pub max : ℕ
  pub window_seconds : ℕ
  pub reply : RedisReply
  pub now : ℕ

-- The result: the decision that refused, if any, and the keys that stay consumed; or the error.
pub data ChecksResult : Type 0 where
  passed : List String → ChecksResult
  refused : RateLimitDecision → ChecksResult
  unavailable : ChecksResult

-- `resetRateLimitKeys`; a reset that the service refuses as unavailable is passed over.
unfoldable pub reset_keys : List String → RateLimitService → RateLimitService
reset_keys [] s = s
reset_keys (key ∷ keys) s = reset_keys keys (reset true key s).0

module _ (config : RateLimitConfig) where
  -- The loop; `consumed` holds the keys consumed so far, oldest first.
  unfoldable pub consume_from :
      List String → List Check → RateLimitService → RateLimitService × ChecksResult
  consume_from consumed [] s = (s, passed consumed)
  consume_from consumed (c ∷ checks) s =
      let (s', outcome) = consume config c.reply c.key c.max c.window_seconds c.now s in
      let later = consume_from (consumed ++ c.key ∷ []) checks s' in
      elim outcome [
        | none ↦ (reset_keys consumed s', unavailable)
        | some d ↦ if d.allowed then later else (reset_keys consumed s', refused d)
      ]

  unfoldable pub consume_checks : List Check → RateLimitService → RateLimitService × ChecksResult
  consume_checks checks s = consume_from [] checks s

abbrev pub keys_of : List Check → List String
keys_of [] = []
keys_of (c ∷ cs) = c.key ∷ keys_of cs

-- The service counts in memory and does not know the key.
abbrev IsForgotten : RateLimitService → String → Type 0
IsForgotten s key = Dict.get key s.memory ≡ none

reset_memory :
    (key : String) (s : RateLimitService)
    → s.mode ≡ RateLimitMode.memory
    → (reset true key s).0 ≡ record s { memory = Dict.delete key s.memory }
unfolding reset
reset_memory key s h = ground (arith, h)

reset_keys_memory :
    (key : String) (keys : List String) (s : RateLimitService)
    → s.mode ≡ RateLimitMode.memory
    → reset_keys (key ∷ keys) s ≡ reset_keys keys (record s { memory = Dict.delete key s.memory })
unfolding reset_keys reset
reset_keys_memory key keys s h = ap (reset_keys keys) (reset_memory key s h)

reset_keys-IsForgotten :
    (j : String) (keys : List String) (s : RateLimitService)
    → s.mode ≡ RateLimitMode.memory
    → IsForgotten s j
    → IsForgotten (reset_keys keys s) j
unfolding reset_keys
reset_keys-IsForgotten j [] s h f = f
reset_keys-IsForgotten j (key ∷ keys) s h f = rw (reset_keys_memory key keys s h) (
    reset_keys-IsForgotten j keys (record s { memory = Dict.delete key s.memory }) h
      (ground (arith, f, get-delete key j s.memory)))

reset_keys-All :
    (keys : List String) (s : RateLimitService)
    → s.mode ≡ RateLimitMode.memory
    → All (IsForgotten (reset_keys keys s)) keys
unfolding reset_keys
reset_keys-All [] s h = tt
reset_keys-All (key ∷ keys) s h =
    let s' : RateLimitService = record s { memory = Dict.delete key s.memory } in
    subst (λ r. All (IsForgotten r) (key ∷ keys)) (sym (reset_keys_memory key keys s h))
      (
        reset_keys-IsForgotten key keys s' h
            (ground (arith, eq_iff key key, get-delete key key s.memory)),
        reset_keys-All keys s' h,
      )

module _ (config : RateLimitConfig) where
  -- What the check answers, called on this store.
  abbrev answer_of : Check → RateLimitService → Option RateLimitDecision
  answer_of c s = (consume config c.reply c.key c.max c.window_seconds c.now s).1

  abbrev after : Check → RateLimitService → RateLimitService
  after c s = (consume config c.reply c.key c.max c.window_seconds c.now s).0

  abbrev IsAllowed : Check → RateLimitService → Type 0
  IsAllowed c s = (d : RateLimitDecision) × (answer_of c s ≡ some d) × (d.allowed ≡ true)

  -- What a run from the store `s` came to, when `consumed` are the keys consumed before it. Where
  -- it passed, each check in turn was allowed on the store that the ones before it left, and the
  -- keys that stay consumed are all of theirs. Where it refused, the checks before some check were
  -- allowed, that check answered the decision, which does not allow it, and the keys consumed up
  -- to it, in this run and before it, are all forgotten.
  pub IsSettled :
      RateLimitService → List String → List Check → RateLimitService → ChecksResult → Type 0
  IsSettled s consumed [] t (passed keys) = (keys ≡ consumed) × (t ≡ s)
  IsSettled s consumed [] t (refused d) = ⊥
  IsSettled s consumed [] t unavailable = ⊥
  IsSettled s consumed (c ∷ checks) t (passed keys) =
      IsAllowed c s × IsSettled (after c s) (consumed ++ c.key ∷ []) checks t (passed keys)
  IsSettled s consumed (c ∷ checks) t (refused d) =
      ((answer_of c s ≡ some d) × (d.allowed ≡ false) × All (IsForgotten t) consumed)
      ⊎ (IsAllowed c s × IsSettled (after c s) (consumed ++ c.key ∷ []) checks t (refused d))
  IsSettled s consumed (c ∷ checks) t unavailable = ⊥

  IsSettled-later :
      (s : RateLimitService) (consumed : List String) (c : Check) (checks : List Check)
      (t : RateLimitService) (r : ChecksResult)
      → IsAllowed c s
      → IsSettled (after c s) (consumed ++ c.key ∷ []) checks t r
      → IsSettled s consumed (c ∷ checks) t r
  unfolding IsSettled
  IsSettled-later s consumed c checks t (passed keys) a h = (a, h)
  IsSettled-later s consumed c checks t (refused d) a h = inr (a, h)
  IsSettled-later s consumed c [] t unavailable a h = h
  IsSettled-later s consumed c (c' ∷ checks) t unavailable a h = h

  consume_in_memory :
      (reply : RedisReply) (key : String) (max w now : ℕ) (s : RateLimitService)
      → s.mode ≡ RateLimitMode.memory
      → let m = consume_memory config key max w now s.memory in
        consume config reply key max w now s ≡ (record s { memory = m.0 }, some m.1)
  unfolding consume consume_local
  consume_in_memory reply key max w now s h = ground (arith, h)

  consume_from_memory :
      (consumed : List String) (c : Check) (checks : List Check) (s : RateLimitService)
      → s.mode ≡ RateLimitMode.memory
      → let m = consume_memory config c.key c.max c.window_seconds c.now s.memory in
        let s' : RateLimitService = record s { memory = m.0 } in
        consume_from config consumed (c ∷ checks) s ≡ (
          if m.1.allowed
          then consume_from config (consumed ++ c.key ∷ []) checks s'
          else (reset_keys consumed s', refused m.1))
  unfolding consume_from
  consume_from_memory consumed c checks s h =
      ap
        (λ p. elim p.1 [
          | none ↦ (reset_keys consumed p.0, unavailable)
          | some d ↦
              if d.allowed
              then consume_from config (consumed ++ c.key ∷ []) checks p.0
              else (reset_keys consumed p.0, refused d)
        ])
        (consume_in_memory c.reply c.key c.max c.window_seconds c.now s h)

  consume_from-IsSettled :
      (consumed : List String) (checks : List Check) (s : RateLimitService)
      → s.mode ≡ RateLimitMode.memory
      → let r = consume_from config consumed checks s in IsSettled s consumed checks r.0 r.1
  unfolding consume_from IsSettled
  consume_from-IsSettled consumed [] s h = (refl, refl)
  consume_from-IsSettled consumed (c ∷ checks) s h =
      let m = consume_memory config c.key c.max c.window_seconds c.now s.memory in
      let s' : RateLimitService = record s { memory = m.0 } in
      let called = consume_in_memory c.reply c.key c.max c.window_seconds c.now s h in
      elim (Bool-cases m.1.allowed) [
        | inl ok ↦
            let r = consume_from config (consumed ++ c.key ∷ []) checks s' in
            rw (consume_from_memory consumed c checks s h, ok)
              (IsSettled-later s consumed c checks r.0 r.1 (m.1, ap (λ p. p.1) called, ok)
                (subst (λ u. IsSettled u (consumed ++ c.key ∷ []) checks r.0 r.1)
                  (sym (ap (λ p. p.0) called))
                  (consume_from-IsSettled (consumed ++ c.key ∷ []) checks s' h)))
        | inr ko ↦
            rw (consume_from_memory consumed c checks s h, ko)
              (inl (ap (λ p. p.1) called, ko, reset_keys-All consumed s' h))
      ]

  -- Where the service counts in memory, a run of checks from the start either passes, and then
  -- each check in turn was allowed on the store that the ones before it left, and the keys that
  -- stay consumed are all of theirs; or it answers the decision of the first check that does not
  -- allow, and the keys that the checks before it consumed are forgotten again.
  pub consume_checks-IsSettled :
      (checks : List Check) (s : RateLimitService)
      → s.mode ≡ RateLimitMode.memory
      → let r = consume_checks config checks s in IsSettled s [] checks r.0 r.1
  unfolding consume_checks
  consume_checks-IsSettled checks s h = consume_from-IsSettled [] checks s h
