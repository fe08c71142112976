-- ===== src/RateLimit/Tests.antt =====
-- Runs of the rate limiter, and the theorems at them.
use cqut_auth.Base.{
  ℕ, ◌≤◌, String, true, false, none, List, [], ◌∷◌, ◌≡◌, refl, arith, length, string_eq,
}
use cqut_auth.Dict
use cqut_auth.Dict.{Dict}
use cqut_auth.RateLimit.{
  MemoryCounter, RateLimitConfig, start, consume, consume_local, consume_memory, consume_new,
  consume_known, evict_if_over_capacity, close, evict_single, delete_expired, reset, opened,
}
use cqut_auth.RateLimit.Eviction.{consume-length}
use cqut_auth.RateLimit.Windows.{run, allowed_for, run-allowed_for}
use cqut_auth.RateLimit.Checks.{
  Check, consume_from, consume_checks, refused, reset_keys, IsSettled, consume_checks-IsSettled,
}

limiter : Unit {0}
unfolding consume consume_local consume_memory consume_new consume_known evict_if_over_capacity
    evict_single delete_expired reset reset_keys consume_from Dict.get Dict.set Dict.delete
limiter = tt

abbrev config : RateLimitConfig
config = record { redis_url = none; rate_limit_fail_closed = false; rate_limit_memory_max_keys = 9 }

abbrev calls : List (String × ℕ)
calls = ("ip:1", 10) ∷ ("ip:2", 20) ∷ ("ip:1", 30) ∷ ("ip:1", 40) ∷ []

abbrev counted : Dict String MemoryCounter
counted = ("ip:1", opened 60 5) ∷ []

run_tests :
    run config 3 60 calls counted
    ≡ ("ip:1", true) ∷ ("ip:2", true) ∷ ("ip:1", true) ∷ ("ip:1", false) ∷ []
unfolding limiter run
run_tests = refl

run-allowed_for_example : allowed_for "ip:1" (run config 3 60 calls counted) ≡ 2
unfolding limiter
run-allowed_for_example =
    run-allowed_for config 3 60 "ip:1" calls (opened 60 5) counted refl
      (omega arith, (omega arith, (omega arith, (omega arith, tt)))) (omega arith)

consume-length_example :
    length
      (consume (record config { rate_limit_memory_max_keys = 0 }) none "ip:1" 3 60 5 start).0.memory
    ≤ 0
consume-length_example =
    consume-length (record config { rate_limit_memory_max_keys = 0 }) none "ip:1" 3 60 5 start
      (omega arith)

abbrev check : String → ℕ → Check
check key max = record { key = key; max = max; window_seconds = 60; reply = none; now = 5 }

abbrev checks : List Check
checks = check "mail:1" 3 ∷ check "ip:1" 1 ∷ check "ip:1" 1 ∷ []

-- The third check refuses after two have been allowed.
consume_checks-IsSettled_example :
    IsSettled config start [] checks
      (consume_checks config checks start).0
      (consume_checks config checks start).1
consume_checks-IsSettled_example = consume_checks-IsSettled config checks start refl

-- The third check refuses, and the key of the mail is forgotten with the first use of the address.
consume_checks_test :
    (consume_checks config checks start).1
    ≡ refused (record { allowed = false; retry_after_seconds = 60 })
unfolding limiter consume_checks
consume_checks_test = refl

close_test : (close (start)).cleaning ≡ false
unfolding close
close_test = refl
