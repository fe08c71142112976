-- ===== src/RateLimit/Windows.antt =====
-- How many calls of one key are allowed while its window is open, among calls of other keys.
use Prim.Native.Nat.{min}
use cqut_auth.Base.{
  ℕ, ◌+◌, ◌-◌, ◌*◌, ◌≤◌, ◌<◌, String, Bool, false, none, some, List, [], ◌∷◌, ◌≡◌, refl, ◌≢◌, arith,
  eq_iff, Bool-cases, Option-cases, inl, inr, length, count, leb, string_eq, All, ◌==◌, ◌&&◌, ◌∙◌,
  ap, sym,
}
use cqut_auth.Dict
use cqut_auth.Dict.{Dict}
use cqut_auth.Dict.Laws.{
  get-set, get-set_self, get-set_ne, get-delete, length-set-le, length-delete-le,
}
use cqut_auth.RateLimit.{
  MemoryCounter, RateLimitConfig, opened, consume_new, consume_known, consume_memory,
}
use cqut_auth.RateLimit.Eviction.{evict_if_over_capacity_small}

abbrev pub allowed_for : String → List (String × Bool) → ℕ
allowed_for key = count (λ e. e.0 == key && e.1)

abbrev pub attempts : String → List (String × ℕ) → ℕ
attempts key = count (λ e. e.0 == key)

module _ (config : RateLimitConfig) (max w : ℕ) where
  -- Calls in turn, each a key and a time, and which of them were allowed.
  unfoldable pub run : List (String × ℕ) → Dict String MemoryCounter → List (String × Bool)
  run [] m = []
  run ((key, now) ∷ calls) m =
      let (m', d) = consume_memory config key max w now m in (key, d.allowed) ∷ run calls m'

  -- A call of another key, where there is room for one key more.
  consume_memory_other :
      (k key : String) (now : ℕ) (m : Dict String MemoryCounter)
      → k ≢ key
      → length m + 1 ≤ config.rate_limit_memory_max_keys
      → (Dict.get key (consume_memory config k max w now m).0 ≡ Dict.get key m)
        × (length (consume_memory config k max w now m).0 ≤ length m + 1)
  unfolding consume_memory consume_new consume_known
  consume_memory_other k key now m ne room = elim (Option-cases (Dict.get k m)) [
    | inl e ↦
        rw (e, consume_memory)
          (rw
            (evict_if_over_capacity_small config.rate_limit_memory_max_keys now
              (Dict.set k (opened w now) m) (omega (arith, length-set-le k (opened w now) m)))
            (get-set_ne k key (opened w now) m ne, length-set-le k (opened w now) m))
    | inr (c, e) ↦ elim (Bool-cases (leb c.expires_at now)) [
      | inl old ↦
          let m' = Dict.delete k m in
          let short : length (Dict.set k (opened w now) m') ≤ length m + 1 =
            omega (arith, length-set-le k (opened w now) m', length-delete-le k m) in
          rw (e, old, consume_memory)
            (rw
              (evict_if_over_capacity_small config.rate_limit_memory_max_keys now
                (Dict.set k (opened w now) m') (omega arith))
              (
                ground
                    (arith, ne, eq_iff k key, get-set k key (opened w now) m', get-delete k key m),
                short,
              ))
      | inr live ↦
          let c' : MemoryCounter = record c { count = c.count + 1 } in
          rw (e, live, consume_memory)
            (rw
              (evict_if_over_capacity_small config.rate_limit_memory_max_keys now (Dict.set k c' m)
                (omega (arith, length-set-le k c' m)))
              (get-set_ne k key c' m ne, length-set-le k c' m))
    ]
  ]

  -- A call of a key whose window is open.
  consume_memory_open :
      (key : String) (now : ℕ) (c : MemoryCounter) (m : Dict String MemoryCounter)
      → Dict.get key m ≡ some c
      → now < c.expires_at
      → length m + 1 ≤ config.rate_limit_memory_max_keys
      → let r = consume_memory config key max w now m in
        (Dict.get key r.0 ≡ some (record c { count = c.count + 1 }))
        × (r.1.allowed ≡ leb (c.count + 1) max)
        × (length r.0 ≤ length m + 1)
  unfolding consume_memory consume_known
  consume_memory_open key now c m e live room =
      let c' : MemoryCounter = record c { count = c.count + 1 } in
      let late : leb c.expires_at now ≡ false = ground arith in
      rw (e, late, consume_memory)
        (rw
          (evict_if_over_capacity_small config.rate_limit_memory_max_keys now (Dict.set key c' m)
            (omega (arith, length-set-le key c' m)))
          (get-set_self key c' m, refl, length-set-le key c' m))

  -- In a window that is open until after the last call, where the memory has room for every call,
  -- exactly the attempts up to the limit are allowed, whatever other keys are called in between.
  pub run-allowed_for :
      (key : String) (calls : List (String × ℕ)) (c : MemoryCounter) (m : Dict String MemoryCounter)
      → Dict.get key m ≡ some c
      → All (λ e. e.1 < c.expires_at) calls
      → length m + length calls ≤ config.rate_limit_memory_max_keys
      → allowed_for key (run calls m) ≡ min (max - c.count) (attempts key calls)
  unfolding run
  run-allowed_for key [] c m e times room = omega arith
  run-allowed_for key ((k, now) ∷ calls) c m e (live, times) room = elim (Bool-cases (k == key)) [
    | inl same ↦
        let at : k ≡ key = (eq_iff k key).0 same in
        let r = consume_memory config k max w now m in
        let (e', a, l) = consume_memory_open k now c m (rw at e) live (omega arith) in
        let ih =
          run-allowed_for key calls (record c { count = c.count + 1 }) r.0
            (ap (λ j. Dict.get j r.0) (sym at) ∙ e') times (omega (arith, l)) in
        rw same (ground (arith, a, ih))
    | inr other ↦
        let ne : k ≢ key = λ q. ground (arith, q, eq_iff k key) in
        let (e', l) = consume_memory_other k key now m ne (omega arith) in
        let ih =
          run-allowed_for key calls c (consume_memory config k max w now m).0 (e' ∙ e) times
            (omega (arith, l)) in
        rw other (omega (arith, ih))
  ]

-- So a key that opens a window at `now` is allowed the first `max` of its calls in the window and
-- no other, if one call at least is allowed and the memory has room for a key per call.
pub run-allowed_for_new :
    (config : RateLimitConfig) (max w now : ℕ) (key : String) (calls : List (String × ℕ))
    (m : Dict String MemoryCounter)
    → 1 ≤ max
    → Dict.get key m ≡ none
    → All (λ e. e.1 < now + w * 1000) calls
    → length m + length calls + 1 ≤ config.rate_limit_memory_max_keys
    → allowed_for key (run config max w ((key, now) ∷ calls) m) ≡ min max (1 + attempts key calls)
unfolding run consume_memory consume_new
run-allowed_for_new config max w now key calls m one e times room =
    let m' = Dict.set key (opened w now) m in
    let grown = length-set-le key (opened w now) m in
    let ih =
      run-allowed_for config max w key calls (opened w now) m' (get-set_self key (opened w now) m)
        times (omega (arith, grown)) in
    rw (e, consume_memory)
      (rw
        (evict_if_over_capacity_small config.rate_limit_memory_max_keys now m'
          (omega (arith, grown)))
        (ground (arith, ih, eq_iff key key)))
