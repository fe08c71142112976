-- ===== src/Policy/History.antt =====
-- Sequences of updates and tests of the runtime policy.
use cqut_auth.Base.{
  subst, ℕ, ◌+◌, String, true, some, List, [], ◌∷◌, ◌++◌, ◌≡◌, refl, sym, ap, ◌∙◌, Bool-cases, inl,
  inr, arith, ◌==◌, string_eq, nat_eq, nat_beq_iff,
}
use cqut_auth.Contracts.{Result, ok, err, ◌>>>◌, Ensures}
use cqut_auth.Dict
use cqut_auth.Dict.Laws.{get-set_self}
use cqut_auth.Body.{Json, Platform}
use cqut_auth.Settings
use cqut_auth.Settings.{
  AppSettingRecord, AppSettingMutationResult, SaveAppSettingInput, SettingsStore, empty,
  saved_record, audit_record, save_app_setting,
}
use cqut_auth.Policy.{EmailSettings, RuntimePolicy}
use cqut_auth.Policy.Email.{Addresses}
use cqut_auth.Policy.Views.{AuditValues}
use cqut_auth.Policy.Service.{
  runtime_policy_key, Actor, RuntimePolicyModule, RuntimePolicyView, Store, Plan, shown, saved,
  to_view, settings_of, version_of, updated_at_of, answer, carry_out, initialize, get_view,
  update_plan, test_plan,
}
use cqut_auth.Policy.Availability.{
  IsValid, IsReadable, Saves, Stores, Stores-Saves, update_plan-Stores, test_plan-Saves, saved-load,
  readable-load, carry_out-Readable,
}

-- A call with what it has read, the nonce of its encryption and the time.
pub data Call (C : Type 0) : Type 0 where
  update : String → Json → Actor → ℕ → Store C → Call C
  send_test :
      (EmailSettings → String → Result (Unit {0})) → String → Json → Actor → ℕ → Store C → Call C

module _ {C : Type 0} (platform : Platform) (addresses : Addresses)
    (encrypt : String → RuntimePolicy → C) (decrypt : C → Result RuntimePolicy)
    (defaults : RuntimePolicy) (loaded_version : ℕ) where
  unfoldable pub plan_of : Call C → Result (Plan C)
  plan_of (update nonce raw actor now seen) =
      update_plan platform addresses encrypt decrypt defaults nonce raw actor now seen
  plan_of (send_test send nonce raw actor now seen) =
      test_plan platform addresses encrypt decrypt defaults send nonce raw actor now loaded_version
        seen

  unfoldable pub run : List (Call C) → Store C → Store C
  run [] s = s
  run (c ∷ more) s = run more (carry_out loaded_version (plan_of c) s).0

  module _ (sound : IsValid platform addresses encrypt decrypt defaults defaults)
      (inverse : (nonce : String) (p : RuntimePolicy) → decrypt (encrypt nonce p) ≡ ok p) where
    weaken :
        (r : Result (Plan C))
        → Ensures (Stores platform addresses encrypt decrypt defaults) r
        → Ensures (Saves platform addresses encrypt decrypt defaults) r
    weaken (ok plan) h = Stores-Saves platform addresses encrypt decrypt defaults plan h
    weaken (err thrown) h = tt

    plan_of-Saves :
        (c : Call C) → Ensures (Saves platform addresses encrypt decrypt defaults) (plan_of c)
    unfolding plan_of
    plan_of-Saves (update nonce raw actor now seen) =
        weaken (update_plan platform addresses encrypt decrypt defaults nonce raw actor now seen)
          (update_plan-Stores platform addresses encrypt decrypt defaults nonce raw actor now seen)
    plan_of-Saves (send_test send nonce raw actor now seen) =
        test_plan-Saves platform addresses encrypt decrypt defaults send nonce raw actor now
          loaded_version seen sound

    run-Readable :
        (calls : List (Call C)) (s : Store C)
        → IsReadable platform addresses encrypt decrypt defaults s
        → IsReadable platform addresses encrypt decrypt defaults (run calls s)
    unfolding run
    run-Readable [] s h = h
    run-Readable (c ∷ calls) s h = run-Readable calls (carry_out loaded_version (plan_of c) s).0 (
        carry_out-Readable platform addresses encrypt decrypt defaults inverse loaded_version
          (plan_of c) s (plan_of-Saves c) h)

-- Whatever is asked of the runtime policy, the service can be started again from what is stored
-- and shows it: neither the start nor the view throws. The defaults are valid, and a text that
-- was encrypted is decrypted to what it was.
pub run-initialize :
    {C : Type 0} (platform : Platform) (addresses : Addresses)
    (encrypt : String → RuntimePolicy → C) (decrypt : C → Result RuntimePolicy)
    (defaults : RuntimePolicy) (loaded_version : ℕ) (calls : List (Call C))
    → IsValid platform addresses encrypt decrypt defaults defaults
    → ((nonce : String) (p : RuntimePolicy) → decrypt (encrypt nonce p) ≡ ok p)
    → let s = run platform addresses encrypt decrypt defaults loaded_version calls empty in
      ((m : RuntimePolicyModule) × (initialize platform addresses encrypt decrypt defaults s
          ≡ ok m))
      × ((v : RuntimePolicyView) × (get_view platform addresses encrypt decrypt defaults
              loaded_version s
            ≡ ok v))
unfolding initialize get_view ◌>>>◌ Dict.get
run-initialize platform addresses encrypt decrypt defaults loaded_version calls sound inverse =
    let s = run platform addresses encrypt decrypt defaults loaded_version calls empty in
    let (stored, loads, valid) =
      readable-load platform addresses encrypt decrypt defaults inverse s (
        run-Readable platform addresses encrypt decrypt defaults loaded_version sound inverse calls
          empty (λ r found. cc)) in
    let (policy, email) = valid sound in
    (
      (
        record { active = settings_of defaults stored; loaded_version = version_of stored },
        rw (initialize, loads, policy, email) refl,
      ),
      (
        to_view loaded_version (settings_of defaults stored) (version_of stored)
            (updated_at_of stored),
        rw (get_view, loads) refl,
      ),
    )

module _ {C : Type 0} (platform : Platform) (addresses : Addresses)
    (encrypt : String → RuntimePolicy → C) (decrypt : C → Result RuntimePolicy)
    (defaults : RuntimePolicy) (loaded_version : ℕ)
    (inverse : (nonce : String) (p : RuntimePolicy) → decrypt (encrypt nonce p) ≡ ok p) where
  -- The view of what was saved, and the version that it got.
  abbrev Shown : Store C → Store C → RuntimePolicyView → Type 0
  Shown s t view =
      (get_view platform addresses encrypt decrypt defaults loaded_version t ≡ ok view)
      × (view.version ≡ Settings.version_of (Dict.get runtime_policy_key s.settings) + 1)

  abbrev stored_in : SaveAppSettingInput C AuditValues → Store C → Store C
  stored_in input s = record {
    settings = Dict.set input.key (saved_record input (Dict.get input.key s.settings)) s.settings;
    audits = s.audits ++ audit_record input s.next_audit_id ∷ [];
    next_audit_id = s.next_audit_id + 1;
  }

  save_app_setting-stored_in :
      (input : SaveAppSettingInput C AuditValues) (s : Store C)
      → (Settings.version_of (Dict.get input.key s.settings) == input.expected_version) ≡ true
      → save_app_setting input s ≡ (
        stored_in input s,
        AppSettingMutationResult.updated (saved_record input (Dict.get input.key s.settings)),
      )
  unfolding save_app_setting
  save_app_setting-stored_in input s fresh = rw (save_app_setting, fresh) refl

  stored_view :
      (input : SaveAppSettingInput C AuditValues) (next : RuntimePolicy) (s : Store C)
      → Saves platform addresses encrypt decrypt defaults (saved input next)
      → Settings.version_of (Dict.get input.key s.settings) ≡ input.expected_version
      → Shown s
          (stored_in input s)
          (to_view loaded_version next (input.expected_version + 1) (some input.updated_at))
  unfolding get_view ◌>>>◌ to_view
  stored_view input next s (key, (nonce, text), valid) fresh =
      let new = saved_record input (Dict.get input.key s.settings) in
      let loads =
        saved-load platform addresses encrypt decrypt defaults inverse (stored_in input s) new next
          (ap (λ k. Dict.get k (Dict.set input.key new s.settings)) (sym key)
            ∙ get-set_self input.key new s.settings)
          (ap decrypt text ∙ inverse nonce next) valid in
      (
        rw (get_view, loads) refl,
        ap (λ n. n + 1) (sym fresh ∙ ap (λ k. Settings.version_of (Dict.get k s.settings)) key),
      )

  ok_injective :
      {a b : RuntimePolicyView} → ◌≡◌ {A = Result RuntimePolicyView} (ok a) (ok b) → a ≡ b
  ok_injective e = cc e

  saved_view :
      (input : SaveAppSettingInput C AuditValues) (next : RuntimePolicy) (s t : Store C)
      (view : RuntimePolicyView)
      → Saves platform addresses encrypt decrypt defaults (saved input next)
      → answer loaded_version next (save_app_setting input s) ≡ (t, ok view)
      → Shown s t view
  unfolding answer save_app_setting
  saved_view input next s t view saves e =
      elim (Bool-cases
        (Settings.version_of (Dict.get input.key s.settings) == input.expected_version)) [
          | inr stale ↦ absurd (ground (arith, rw (answer, save_app_setting, stale) at e))
          | inl fresh ↦
              let view' =
                to_view loaded_version next (input.expected_version + 1) (some input.updated_at) in
              let done : ◌≡◌ {A = Store C × Result RuntimePolicyView} (stored_in input s, ok view')
                  (t, ok view) =
                ap (answer loaded_version next) (sym (save_app_setting-stored_in input s fresh))
                ∙ e in
              let shows = stored_view input next s saves (
                (nat_beq_iff (Settings.version_of (Dict.get input.key s.settings))
                    input.expected_version).0
                  fresh) in
              subst (λ u. Shown s u view) (ap (λ r. r.0) done)
                (subst (Shown s (stored_in input s)) (ok_injective (ap (λ r. r.1) done)) shows)
        ]

  carried_view :
      (plan : Result (Plan C)) (s t : Store C) (view : RuntimePolicyView)
      → Ensures (Stores platform addresses encrypt decrypt defaults) plan
      → carry_out loaded_version plan s ≡ (t, ok view)
      → Shown s t view
  unfolding carry_out
  carried_view (err thrown) s t view h e = absurd (ground (arith, e))
  carried_view (ok (shown v)) s t view h e = absurd h
  carried_view (ok (saved input next)) s t view h e = saved_view input next s t view h e

-- An update that is answered with a view has stored what the view shows: reading it afterwards
-- answers the same, and the version is the one after that which the store had. A text that was
-- encrypted is decrypted to what it was.
pub get_view-update :
    {C : Type 0} (platform : Platform) (addresses : Addresses)
    (encrypt : String → RuntimePolicy → C) (decrypt : C → Result RuntimePolicy)
    (defaults : RuntimePolicy) (loaded_version : ℕ) (nonce : String) (raw : Json) (actor : Actor)
    (now : ℕ) (seen s t : Store C) (view : RuntimePolicyView)
    → ((nonce : String) (p : RuntimePolicy) → decrypt (encrypt nonce p) ≡ ok p)
    → carry_out loaded_version
        (update_plan platform addresses encrypt decrypt defaults nonce raw actor now seen)
        s
      ≡ (t, ok view)
    → (get_view platform addresses encrypt decrypt defaults loaded_version t ≡ ok view)
      × (view.version ≡ Settings.version_of (Dict.get runtime_policy_key s.settings) + 1)
get_view-update platform addresses encrypt decrypt defaults loaded_version nonce raw actor now seen
      s t view inverse e =
    carried_view platform addresses encrypt decrypt defaults loaded_version inverse
      (update_plan platform addresses encrypt decrypt defaults nonce raw actor now seen) s t view
      (update_plan-Stores platform addresses encrypt decrypt defaults nonce raw actor now seen) e
