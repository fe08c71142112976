-- ===== src/Policy/Availability.antt =====
-- The stored policy can always be read again, and is what the last save was answered with.
use cqut_auth.Base.{
  ℕ, String, Option, none, some, ◌≡◌, refl, sym, ap, subst, ◌∙◌, Bool-cases, Option-cases, inl, inr,
  arith, ◌==◌, string_eq, nat_eq,
}
use cqut_auth.Contracts.{Result, ok, err, ◌>>>◌, Ensures, bind-Ensures, ok-Ensures}
use cqut_auth.Dict
use cqut_auth.Dict.Laws.{get-set_self}
use cqut_auth.Body.{Json, Platform}
use cqut_auth.Settings.{
  AppSettingRecord, AppSettingMutationResult, SaveAppSettingInput, SettingsStore, empty,
  saved_record, get_app_setting, save_app_setting,
}
use cqut_auth.Settings
use cqut_auth.Policy.{EmailSettings, RuntimePolicy, validate_policy}
use cqut_auth.Policy.Email.{Addresses, same_email_config, validate_email}
use cqut_auth.Policy.Views.{AuditValues}
use cqut_auth.Policy.Service.{
  runtime_policy_key, Actor, Stored, Store, Plan, shown, saved, settings_of, answer, carry_out,
  load_stored, update_plan, test_plan, tested,
}

module _ {C : Type 0} (platform : Platform) (addresses : Addresses)
    (encrypt : String → RuntimePolicy → C) (decrypt : C → Result RuntimePolicy)
    (defaults : RuntimePolicy) where
  -- The settings pass the validation.
  abbrev pub IsValid : RuntimePolicy → Type 0
  IsValid p =
      (validate_policy platform p.policy ≡ ok tt)
      × (validate_email platform addresses p.email ≡ ok tt)

  -- What is stored under the key can be decrypted and is valid.
  abbrev pub IsReadable : Store C → Type 0
  IsReadable s =
      (r : AppSettingRecord C)
      → Dict.get runtime_policy_key s.settings ≡ some r
      → (p : RuntimePolicy) × (decrypt r.value_ciphertext ≡ ok p) × IsValid p

  -- A plan saves valid settings, encrypted, under the key.
  abbrev pub Saves : Plan C → Type 0
  Saves (shown view) = Unit
  Saves (saved input next) =
      (input.key ≡ runtime_policy_key)
      × ((nonce : String) × (input.value_ciphertext ≡ encrypt nonce next))
      × IsValid next

  -- A plan that saves, and does so.
  abbrev pub Stores : Plan C → Type 0
  Stores (shown view) = ⊥
  Stores (saved input next) = Saves (saved input next)

  pub Stores-Saves : (plan : Plan C) → Stores plan → Saves plan
  Stores-Saves (shown view) h = tt
  Stores-Saves (saved input next) h = h

  unit-ok : (r : Result (Unit {0})) (u : Unit {0}) → r ≡ ok u → r ≡ ok tt
  unit-ok r tt e = e

  pub load_stored-Valid :
      (s : Store C)
      → IsValid defaults
      → Ensures
          (λ stored. IsValid (settings_of defaults stored))
          (load_stored platform addresses encrypt decrypt defaults s)
  unfolding load_stored
  load_stored-Valid s sound = elim (Option-cases (get_app_setting runtime_policy_key s)) [
    | inl missing ↦ rw (missing, load_stored) sound
    | inr (r, found) ↦
        let P : Option Stored → Type 0 = λ stored. IsValid (settings_of defaults stored) in
        rw (found, load_stored)
          (bind-Ensures P _ _ (λ settings d.
            bind-Ensures P _ _
              (λ u v. bind-Ensures P _ _ (λ u' v'. (unit-ok _ u v, unit-ok _ u' v')))))
  ]

  pub update_plan-Stores :
      (nonce : String) (raw : Json) (actor : Actor) (now : ℕ) (seen : Store C)
      → Ensures Stores
          (update_plan platform addresses encrypt decrypt defaults nonce raw actor now seen)
  unfolding update_plan
  update_plan-Stores nonce raw actor now seen = bind-Ensures Stores _ _ (λ input i.
      bind-Ensures Stores _ _ (λ stored l. bind-Ensures Stores _ _ (λ expected e.
        bind-Ensures Stores _ _ (λ u fresh. bind-Ensures Stores _ _ (λ policy p.
          bind-Ensures Stores _ _ (λ email m. bind-Ensures Stores _ _ (λ v valid.
            bind-Ensures Stores _ _ (λ w valid'.
              bind-Ensures Stores _ _ (λ secrets c.
                (refl, (nonce, refl), (unit-ok _ v valid, unit-ok _ w valid')))))))))))

  tested-Saves :
      (nonce : String) (actor : Actor) (now loaded_version : ℕ) (stored : Option Stored)
      (expected : ℕ) (email : EmailSettings)
      → IsValid (settings_of defaults stored)
      → Saves (
          tested platform addresses encrypt decrypt defaults nonce actor now loaded_version stored
            expected email)
  unfolding validate_email
  tested-Saves nonce actor now loaded_version stored expected email valid =
      elim (Bool-cases (same_email_config email (settings_of defaults stored).email)) [
        | inr differs ↦ rw differs tt
        | inl same ↦ rw same (refl, (nonce, refl), valid)
      ]

  pub test_plan-Saves :
      (send : EmailSettings → String → Result (Unit {0})) (nonce : String) (raw : Json)
      (actor : Actor) (now loaded_version : ℕ) (seen : Store C)
      → IsValid defaults
      → Ensures Saves (
          test_plan platform addresses encrypt decrypt defaults send nonce raw actor now
            loaded_version seen)
  unfolding test_plan
  test_plan-Saves send nonce raw actor now loaded_version seen sound =
      bind-Ensures Saves _ _ (λ input i. bind-Ensures Saves _ _ (λ stored l.
        bind-Ensures Saves _ _ (λ expected e. bind-Ensures Saves _ _ (λ u fresh.
          bind-Ensures Saves _ _ (λ email m. bind-Ensures Saves _ _ (λ v valid.
            bind-Ensures Saves _ _ (λ w enabled. bind-Ensures Saves _ _ (λ x known.
              bind-Ensures Saves _ _ (λ y sent.
                tested-Saves nonce actor now loaded_version stored expected email (
                  ok-Ensures (λ o. IsValid (settings_of defaults o)) _ stored
                    (load_stored-Valid seen sound) l))))))))))

  module _ (inverse : (nonce : String) (p : RuntimePolicy) → decrypt (encrypt nonce p) ≡ ok p) where
    pub saved-load :
        (s : Store C) (r : AppSettingRecord C) (p : RuntimePolicy)
        → Dict.get runtime_policy_key s.settings ≡ some r
        → decrypt r.value_ciphertext ≡ ok p
        → IsValid p
        → load_stored platform addresses encrypt decrypt defaults s
          ≡ ok (some (record { settings = p; version = r.version; updated_at = r.updated_at }))
    unfolding load_stored get_app_setting ◌>>>◌
    saved-load s r p found clear (policy, email) =
        rw (load_stored, get_app_setting, found, clear, policy, email) refl

    pub readable-load :
        (s : Store C)
        → IsReadable s
        → (stored : Option Stored) × (load_stored platform addresses encrypt decrypt defaults s
            ≡ ok stored)
          × (IsValid defaults → IsValid (settings_of defaults stored))
    unfolding load_stored get_app_setting
    readable-load s readable = elim (Option-cases (Dict.get runtime_policy_key s.settings)) [
      | inl missing ↦ (none, rw (load_stored, get_app_setting, missing) refl, λ h. h)
      | inr (r, found) ↦
          let (p, clear, valid) = readable r found in
          (
            some (record { settings = p; version = r.version; updated_at = r.updated_at }),
            saved-load s r p found clear valid,
            λ h. valid,
          )
    ]

    save-Readable :
        (input : SaveAppSettingInput C AuditValues) (next : RuntimePolicy) (s : Store C)
        → Saves (saved input next)
        → IsReadable s
        → IsReadable (save_app_setting input s).0
    unfolding save_app_setting
    save-Readable input next s (key, (nonce, text), valid) readable =
        elim (Bool-cases
          (Settings.version_of (Dict.get input.key s.settings) == input.expected_version)) [
            | inr stale ↦ rw (save_app_setting, stale) readable
            | inl fresh ↦
                rw (save_app_setting, fresh)
                  (λ r found.
                    let new = saved_record input (Dict.get input.key s.settings) in
                    let put = get-set_self input.key new s.settings in
                    let same : new ≡ r = ground (arith, key, put, found) in
                    (
                      next,
                      ap (λ x. decrypt x.value_ciphertext) (sym same)
                          ∙ ap decrypt text
                          ∙ inverse nonce next,
                      valid,
                    ))
          ]

    answer-store :
        (loaded_version : ℕ) (next : RuntimePolicy) (o : Store C × AppSettingMutationResult C)
        → (answer loaded_version next o).0 ≡ o.0
    unfolding answer
    answer-store loaded_version next (s, AppSettingMutationResult.version_conflict) = refl
    answer-store loaded_version next (s, AppSettingMutationResult.updated r) = refl

    pub carry_out-Readable :
        (loaded_version : ℕ) (plan : Result (Plan C)) (s : Store C)
        → Ensures Saves plan
        → IsReadable s
        → IsReadable (carry_out loaded_version plan s).0
    unfolding carry_out
    carry_out-Readable loaded_version (err thrown) s h readable = readable
    carry_out-Readable loaded_version (ok (shown view)) s h readable = readable
    carry_out-Readable loaded_version (ok (saved input next)) s h readable =
        subst IsReadable (sym (answer-store loaded_version next (save_app_setting input s)))
          (save-Readable input next s h readable)
