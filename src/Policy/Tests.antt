-- ===== src/Policy/Tests.antt =====
-- Updates and a test of the runtime policy, and the theorems at them. The encrypted text is the
-- nonce with the policy itself.
use cqut_auth.Base.{
  ◌==◌, ℕ, ◌+◌, String, true, false, Option, none, some, List, [], ◌∷◌, ◌≡◌, ◌≢◌, refl, map, arith,
  eq_iff, string_eq, nat_eq, if◌then◌else◌,
}
use cqut_auth.Contracts.{◌>>>◌, Result, ok, err}
use cqut_auth.Dict
use cqut_auth.Body.{Json, Members, Platform, text, number, boolean, object, entry, end, field}
use cqut_auth.Settings
use cqut_auth.Settings.{
  SettingsStore, empty, get_app_setting, save_app_setting, list_app_setting_audit_logs,
}
use cqut_auth.Policy.{
  EmailProviderKind, PolicyValues, RuntimePolicy, amount, flag, empty_email_settings, policy_keys,
  is_exemption, require_object, non_negative_integer, boolean_value, parse_values, parse_policy,
  validate_values, validate_policy,
}
use cqut_auth.Policy.Email.{
  Addresses, same_email_config, merge_email, is_dangerous, validate_email, secret_changes,
}
use cqut_auth.Policy.Views.{
  email_view, audit_values, changed_fields, with_secrets, views-with_secrets,
}
use cqut_auth.Policy.Service.{
  runtime_policy_key, Actor, RuntimePolicyModule, RuntimePolicyView, Store, to_view, answer,
  carry_out, list_audit_logs, load_stored, initialize, get_view, update_plan, test_plan,
}
use cqut_auth.Policy.History.{
  Call, update, send_test, plan_of, run, run-initialize, get_view-update,
}

policies : Unit {0}
unfolding ◌>>>◌ field get_app_setting save_app_setting list_app_setting_audit_logs require_object
    non_negative_integer boolean_value parse_values parse_policy validate_values validate_policy
    same_email_config merge_email is_dangerous validate_email secret_changes email_view audit_values
    changed_fields to_view answer carry_out list_audit_logs load_stored initialize get_view
    update_plan test_plan plan_of run Dict.get Dict.set
policies = tt

not_empty : (x : String) → (x == "") ≡ false → x ≢ ""
not_empty x differ same = ground (arith, eq_iff x "", differ, same)

abbrev platform : Platform
platform = record {
  trim = λ x. x;
  to_lower_case = λ x. x;
  units = λ x. 5;
  includes = λ x y. false;
  decimal = λ n. "n";
}

abbrev addresses : Addresses
addresses = record {
  is_valid_email = λ x. true;
  normalize_email_from_address = λ x. x;
  is_valid_email_from_address = λ x. true;
  has_space = λ x. false;
}

abbrev Sealed : Type 0
Sealed = String × RuntimePolicy

abbrev seal : String → RuntimePolicy → Sealed
seal nonce p = (nonce, p)

abbrev unseal : Sealed → Result RuntimePolicy
unseal x = ok x.1

abbrev tens : List String → PolicyValues
tens [] = []
tens (k ∷ ks) = (k, if is_exemption k then flag true else amount 10) ∷ tens ks

abbrev defaults : RuntimePolicy
defaults = record { policy = tens policy_keys; email = empty_email_settings }

abbrev twenties : List String → Members
twenties [] = end
twenties (k ∷ ks) = entry k (if is_exemption k then boolean false else number 20) (twenties ks)

abbrev mail : Json
mail = object (
    entry "provider" (text "resend")
      (entry "resend" (object (entry "apiKey" (text "key") (entry "from" (text "a@b.c") end))) end))

abbrev request : ℕ → Json
request version = object (
    entry "expectedVersion" (number version)
      (entry "policy" (object (twenties policy_keys)) (entry "email" mail end)))

abbrev trial : Json
trial = object (entry "expectedVersion" (number 1) (entry "recipient" (text "x@y.z") end))

abbrev admin : Actor
admin = record { subject_id = "root"; source_ip = none }

abbrev unset : Store Sealed
unset = empty

abbrev first : Store Sealed × Result RuntimePolicyView
first =
    carry_out 0 (update_plan platform addresses seal unseal defaults "n" (request 0) admin 5 unset)
      unset

abbrev version : Result RuntimePolicyView → Option ℕ
version (ok view) = some view.version
version (err thrown) = none

abbrev calls : List (Call Sealed)
calls =
    update "n" (request 0) admin 5 unset
    ∷ update "m" (request 0) admin 6 unset
    ∷ send_test (λ settings to. ok tt) "k" trial admin 7 first.0
    ∷ []

-- The second update is overtaken by the first; the test is saved at the first one's version.
update_tests :
    (version first.1 ≡ some 1)
    × (version
          (carry_out 0
            (update_plan platform addresses seal unseal defaults "m" (request 0) admin 6 unset)
            first.0).1
        ≡ none)
    × (version (
          get_view platform addresses seal unseal defaults 0
            (run platform addresses seal unseal defaults 0 calls unset))
        ≡ some 2)
    × (map
          (λ a. a.audit.changed_fields)
          (list_audit_logs 50 (run platform addresses seal unseal defaults 0 calls unset))
        ≡ ("email.verification" ∷ []) ∷ ("policy" ∷ "email" ∷ []) ∷ [])
unfolding policies
update_tests = (refl, refl, refl, refl)

run-initialize_example :
    let s = run platform addresses seal unseal defaults 0 calls empty in
    ((m : RuntimePolicyModule) × (initialize platform addresses seal unseal defaults s ≡ ok m))
    × ((v : RuntimePolicyView) × (get_view platform addresses seal unseal defaults 0 s ≡ ok v))
unfolding policies
run-initialize_example =
    run-initialize platform addresses seal unseal defaults 0 calls (refl, refl) (λ nonce p. refl)

abbrev twenties_of : List String → PolicyValues
twenties_of [] = []
twenties_of (k ∷ ks) = (k, if is_exemption k then flag false else amount 20) ∷ twenties_of ks

abbrev shown_first : RuntimePolicyView
shown_first =
    to_view 0
      (record {
        policy = twenties_of policy_keys;
        email = record {
          provider = EmailProviderKind.resend;
          resend = record { api_key = some "key"; from = some "a@b.c" };
          smtp = record {
            host = none;
            port = none;
            secure = none;
            user = none;
            password = none;
            from = none;
          };
          last_verified_at = none;
        };
      })
      1 (some 5)

get_view-update_example :
    (get_view platform addresses seal unseal defaults 0 first.0 ≡ ok shown_first)
    × (shown_first.version ≡ Settings.version_of (Dict.get runtime_policy_key unset.settings) + 1)
unfolding policies
get_view-update_example =
    get_view-update platform addresses seal unseal defaults 0 "n" (request 0) admin 5 unset unset
      first.0 shown_first (λ nonce p. refl) refl

views-with_secrets_example :
    let one = record defaults { email = with_secrets (some "k") (some "p") defaults.email } in
    let other = record defaults { email = with_secrets (some "l") (some "q") defaults.email } in
    (email_view one.email 1 none ≡ email_view other.email 1 none)
    × (audit_values one ≡ audit_values other)
views-with_secrets_example =
    views-with_secrets defaults 1 none "k" "l" "p" "q" (not_empty "k" refl) (not_empty "l" refl)
      (not_empty "p" refl) (not_empty "q" refl)
