-- ===== src/RateLimit/Eviction.antt =====
-- The memory stays within its bound, and nothing is evicted below it.
use cqut_auth.Base.{
  ℕ, zero, suc, ◌+◌, ◌-◌, ◌≤◌, String, true, none, List, [], ◌∷◌, ◌≡◌, arith, Bool-cases,
  Option-cases, inl, inr, length, drop, leb, string_eq,
}
use cqut_auth.Dict
use cqut_auth.Dict.{Dict}
use cqut_auth.RateLimit.{
  MemoryCounter, RateLimitConfig, RateLimitService, RateLimitMode, RedisReply, closed, in_memory,
  delete_expired, evict_single, evict_if_over_capacity, consume_new, consume_known, consume_memory,
  consume_local, consume,
}

length-drop {ℓ} : {A : Type ℓ} (n : ℕ) (l : List A) → length (drop n l) ≡ length l - n
length-drop zero l = omega arith
length-drop (suc n) [] = omega arith
length-drop (suc n) (x ∷ l) = omega (arith, length-drop n l)

-- What the loop deletes is what it takes off the remaining count.
length-evict_single :
    (n : ℕ) (m : Dict String MemoryCounter)
    → (length (evict_single n m).0 + n ≡ length m + (evict_single n m).1)
      × ((evict_single n m).1 ≤ n)
unfolding evict_single
length-evict_single n [] = omega arith
length-evict_single zero (e ∷ m) = omega arith
length-evict_single (suc n) ((k, c) ∷ m) =
    ground (arith, length-evict_single n m, length-evict_single (suc n) m)

-- After an eviction the memory holds no more keys than it may.
pub length-evict_if_over_capacity :
    (most now : ℕ) (m : Dict String MemoryCounter)
    → length (evict_if_over_capacity most now m) ≤ most
unfolding evict_if_over_capacity
length-evict_if_over_capacity most now m = elim (Bool-cases (leb (length m) most)) [
  | inl small ↦ rw small (ground arith)
  | inr large ↦ elim (Bool-cases (leb (length (delete_expired now m)) most)) [
    | inl enough ↦ rw (large, enough) (ground arith)
    | inr over ↦
        let n = length (delete_expired now m) - most in
        rw (large, over)
          (ground (
            arith,
            length-evict_single n (delete_expired now m),
            length-drop (evict_single n (delete_expired now m)).1
                (evict_single n (delete_expired now m)).0,
          ))
  ]
]

pub evict_if_over_capacity_small :
    (most now : ℕ) (m : Dict String MemoryCounter)
    → length m ≤ most
    → evict_if_over_capacity most now m ≡ m
unfolding evict_if_over_capacity
evict_if_over_capacity_small most now m h = ground arith

consume_memory-length :
    (config : RateLimitConfig) (key : String) (max w now : ℕ) (m : Dict String MemoryCounter)
    → length (consume_memory config key max w now m).0 ≤ config.rate_limit_memory_max_keys
unfolding consume_memory consume_new consume_known
consume_memory-length config key max w now m = elim (Option-cases (Dict.get key m)) [
  | inl e ↦
      rw (e, consume_memory) (length-evict_if_over_capacity config.rate_limit_memory_max_keys now _)
  | inr (c, e) ↦ elim (Bool-cases (leb c.expires_at now)) [
    | inl old ↦
        rw (e, old, consume_memory)
          (length-evict_if_over_capacity config.rate_limit_memory_max_keys now _)
    | inr live ↦
        rw (e, live, consume_memory)
          (length-evict_if_over_capacity config.rate_limit_memory_max_keys now _)
  ]
]

consume_local-length :
    (config : RateLimitConfig) (key : String) (max w now : ℕ) (s : RateLimitService)
    → length s.memory ≤ config.rate_limit_memory_max_keys
    → length (consume_local config key max w now s).0.memory ≤ config.rate_limit_memory_max_keys
unfolding consume_local
consume_local-length config key max w now s h =
    ground (arith, consume_memory-length config key max w now s.memory)

-- However it counts, a call leaves the memory within the configured number of keys if it found
-- it so.
pub consume-length :
    (config : RateLimitConfig) (reply : RedisReply) (key : String) (max w now : ℕ)
    (s : RateLimitService)
    → length s.memory ≤ config.rate_limit_memory_max_keys
    → length (consume config reply key max w now s).0.memory ≤ config.rate_limit_memory_max_keys
unfolding consume
consume-length config reply key max w now s h = ground (
  arith,
  consume_local-length config key max w now s,
  consume_local-length config key max w now (in_memory s),
)

-- Once it fails closed, the service decides on no call any more and stays that way.
pub consume_fail_closed :
    (config : RateLimitConfig) (reply : RedisReply) (key : String) (max w now : ℕ)
    (s : RateLimitService)
    → s.mode ≡ RateLimitMode.fail_closed
    → consume config reply key max w now s ≡ (s, none)
unfolding consume consume_local
consume_fail_closed config reply key max w now s h = ground (arith, h)

-- With a configuration that fails closed, and Redis failing, no call is allowed and the service
-- is closed from then on.
pub consume_redis_down :
    (config : RateLimitConfig) (key : String) (max w now : ℕ) (s : RateLimitService)
    → config.rate_limit_fail_closed ≡ true
    → s.mode ≡ RateLimitMode.redis
    → s.connected ≡ true
    → consume config none key max w now s ≡ (closed s, none)
unfolding consume
consume_redis_down config key max w now s h r c = ground (arith, h, r, c)
