-- ===== src/RateLimit.antt =====
-- persistence/rate-limit.service.ts: attempts per key and time window, counted by Redis, or in
-- memory where there is no Redis, or refused where the configuration says to fail closed.
-- Redis is not modelled: each call of it is an argument, the reply that it gave or its failure.
pub mod Eviction
pub mod Windows
pub mod Checks
mod Tests
use cqut_auth.Base.{
  given, ℕ, zero, suc, ◌+◌, ◌-◌, ◌*◌, ◌/◌, String, Bool, true, false, not, ◌&&◌, ◌||◌, Option, none,
  some, List, [], ◌∷◌, ◌++◌, length, filter, drop, leb, ltb, ◌==◌, nat_eq, string_eq, if◌then◌else◌,
}
use cqut_auth.Dict
use cqut_auth.Dict.{Dict}

pub record MemoryCounter : Type 0 where
  pub count : ℕ
  pub expires_at : ℕ

pub record RateLimitDecision : Type 0 where
  pub allowed : Bool
  pub retry_after_seconds : ℕ

pub data RateLimitMode : Type 0 where
  redis memory fail_closed : RateLimitMode

pub record RateLimitConfig : Type 0 where
  pub redis_url : Option String
  pub rate_limit_fail_closed : Bool
  pub rate_limit_memory_max_keys : ℕ

-- `connected`: the service holds a Redis connection. `cleaning`: the cleanup timer is running.
pub record RateLimitService : Type 0 where
  pub mode : RateLimitMode
  pub connected : Bool
  pub cleaning : Bool
  pub memory : Dict String MemoryCounter

abbrev pub start : RateLimitService
start = record { mode = RateLimitMode.memory; connected = false; cleaning = false; memory = [] }

-- The reply of the Redis script, count and time to live, or none for a failure.
abbrev pub RedisReply : Type 0
RedisReply = Option (ℕ × ℕ)

-- A decision, or none for a `RateLimitUnavailableError`.
abbrev pub Consumed : Type 0
Consumed = Option RateLimitDecision

abbrev pub closed : RateLimitService → RateLimitService
closed s = record s { mode = RateLimitMode.fail_closed; memory = [] }

abbrev pub in_memory : RateLimitService → RateLimitService
in_memory s = record s { mode = RateLimitMode.memory; cleaning = true }

-- `init`; `reachable` tells whether connecting to Redis succeeds.
unfoldable pub init : RateLimitConfig → Bool → RateLimitService → RateLimitService
init config reachable s = elim (given config.redis_url) [
  | none ↦ if config.rate_limit_fail_closed then closed s else in_memory s
  | some url ↦
      if reachable
      then record s { mode = RateLimitMode.redis; connected = true }
      else (let s' = record s { connected = false } in
          if config.rate_limit_fail_closed then closed s' else in_memory s')
]

unfoldable pub delete_expired : ℕ → Dict String MemoryCounter → Dict String MemoryCounter
delete_expired now = filter (λ e. ltb now e.1.expires_at)

-- The loop that deletes keys counted once, until `remaining` is 0, and what remains then.
unfoldable pub evict_single : ℕ → Dict String MemoryCounter → Dict String MemoryCounter × ℕ
evict_single remaining [] = ([], remaining)
evict_single zero (e ∷ m) = (e ∷ m, zero)
evict_single (suc remaining) ((k, c) ∷ m) =
    let (kept, rest) = evict_single (suc remaining) m in
    let fewer = evict_single remaining m in if leb c.count 1 then fewer else ((k, c) ∷ kept, rest)

-- `evictIfOverCapacity`: first expired keys, then keys counted once, then the oldest.
unfoldable pub evict_if_over_capacity :
    ℕ → ℕ → Dict String MemoryCounter → Dict String MemoryCounter
evict_if_over_capacity max_keys now m =
    if leb (length m) max_keys
    then m
    else (let live = delete_expired now m in
        if leb (length live) max_keys
        then live
        else (let (kept, rest) = evict_single (length live - max_keys) live in drop rest kept))

-- The answer for a key that was counted `n` times in its window.
abbrev pub decide : ℕ → ℕ → ℕ → ℕ → RateLimitDecision
decide n max expires_at now = record {
  allowed = leb n max;
  retry_after_seconds =
      if leb 1 ((expires_at - now + 999) / 1000) then (expires_at - now + 999) / 1000 else 1;
}

-- A first count in a window that opens now.
abbrev pub opened : ℕ → ℕ → MemoryCounter
opened window_seconds now = record { count = 1; expires_at = now + window_seconds * 1000 }

unfoldable pub consume_new :
    RateLimitConfig
    → String
    → ℕ
    → ℕ
    → Dict String MemoryCounter
    → Dict String MemoryCounter × RateLimitDecision
consume_new config key window_seconds now m = (
  evict_if_over_capacity config.rate_limit_memory_max_keys now
      (Dict.set key (opened window_seconds now) m),
  record { allowed = true; retry_after_seconds = window_seconds },
)

unfoldable pub consume_known :
    RateLimitConfig
    → String
    → ℕ
    → ℕ
    → MemoryCounter
    → Dict String MemoryCounter
    → Dict String MemoryCounter × RateLimitDecision
consume_known config key max now c m = (
  evict_if_over_capacity config.rate_limit_memory_max_keys now
      (Dict.set key (record c { count = c.count + 1 }) m),
  decide (c.count + 1) max c.expires_at now,
)

unfoldable pub consume_memory :
    RateLimitConfig
    → String
    → ℕ
    → ℕ
    → ℕ
    → Dict String MemoryCounter
    → Dict String MemoryCounter × RateLimitDecision
consume_memory config key max window_seconds now m = elim (Dict.get key m) [
  | none ↦ consume_new config key window_seconds now m
  | some c ↦
      if leb c.expires_at now
      then consume_new config key window_seconds now (Dict.delete key m)
      else consume_known config key max now c m
]

abbrev pub with_memory :
    RateLimitService → Dict String MemoryCounter × RateLimitDecision → RateLimitService × Consumed
with_memory s (m, d) = (record s { memory = m }, some d)

-- `consume` once it is settled that Redis does not answer.
unfoldable pub consume_local :
    RateLimitConfig → String → ℕ → ℕ → ℕ → RateLimitService → RateLimitService × Consumed
consume_local config key max window_seconds now s = elim s.mode [
  | RateLimitMode.fail_closed ↦ (s, none)
  | _ ↦ with_memory s (consume_memory config key max window_seconds now s.memory)
]

abbrev pub is_redis : RateLimitMode → Bool
is_redis RateLimitMode.redis = true
is_redis _ = false

abbrev pub redis_decision : ℕ → ℕ × ℕ → RateLimitDecision
redis_decision max (count, ttl) = record {
  allowed = leb count max;
  retry_after_seconds = if leb 1 ttl then ttl else 1;
}

unfoldable pub consume :
    RateLimitConfig
    → RedisReply
    → String
    → ℕ
    → ℕ
    → ℕ
    → RateLimitService
    → RateLimitService × Consumed
consume config reply key max window_seconds now s =
    if is_redis s.mode && s.connected
    then elim reply [
      | some r ↦ (s, some (redis_decision max r))
      | none ↦
          if config.rate_limit_fail_closed
          then (closed s, none)
          else consume_local config key max window_seconds now (in_memory s)
    ]
    else consume_local config key max window_seconds now s

pub data ResetResult : Type 0 where
  done unavailable redis_failed : ResetResult

-- `reset`; `acknowledged` tells whether the call of Redis succeeds.
unfoldable pub reset : Bool → String → RateLimitService → RateLimitService × ResetResult
reset acknowledged key s =
    if is_redis s.mode && s.connected
    then (s, (if acknowledged then ResetResult.done else ResetResult.redis_failed))
    else elim s.mode [
      | RateLimitMode.fail_closed ↦ (s, ResetResult.unavailable)
      | _ ↦ (record s { memory = Dict.delete key s.memory }, ResetResult.done)
    ]

-- `checkReadiness`; `pong` tells whether Redis answers a ping.
unfoldable pub check_readiness : Bool → RateLimitService → Bool
check_readiness pong s = elim s.mode [
  | RateLimitMode.fail_closed ↦ false
  | RateLimitMode.memory ↦ true
  | RateLimitMode.redis ↦ if s.connected then pong else true
]

pub close : RateLimitService → RateLimitService
close s = record s { cleaning = false; connected = false }

-- One run of the cleanup timer.
unfoldable pub cleanup : RateLimitConfig → ℕ → RateLimitService → RateLimitService
cleanup config now s = record s {
  memory =
      evict_if_over_capacity config.rate_limit_memory_max_keys now (delete_expired now s.memory);
}
