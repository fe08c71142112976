-- ===== src/Policy/Service.antt =====
-- RuntimePolicyModule of runtime-policy.ts: the policy that is in force since the start, and the
-- stored one that an administrator reads, changes and tests. The encryption of the stored text,
-- the sending of a test message and the time are arguments; an encryption draws its nonce. A call
-- reads the store at one state, `seen`, and saves at another.
use cqut_auth.Base.{
  given, ℕ, String, Bool, false, not, Option, none, some, List, [], ◌∷◌, ◌==◌, string_eq, nat_eq,
  if◌then◌else◌,
}
use cqut_auth.Contracts.{Result, ok, err, Failure, ◌>>>◌, refuse, client_management_error}
use cqut_auth.Dict.{Dict}
use cqut_auth.Body.{Json, Platform, undefined, text, field, invalid_request}
use cqut_auth.Settings.{
  AppSettingAuditAction, AppSettingAuditRecord, AppSettingMutationResult, SaveAppSettingInput,
  SettingsStore, get_app_setting, save_app_setting, list_app_setting_audit_logs,
}
use cqut_auth.Policy.{
  EmailSettings, PolicyValues, RuntimePolicy, require_object, non_negative_integer, parse_policy,
  validate_policy,
}
use cqut_auth.Policy.Email.{
  Addresses, is_disabled, same_email_config, merge_email, validate_email, secret_changes,
}
use cqut_auth.Policy.Views.{
  EmailSettingsView, AuditValues, email_view, audit_values, changed_fields,
}

abbrev pub runtime_policy_key : String
runtime_policy_key = "runtime-policy"

pub record Actor : Type 0 where
  pub subject_id : String
  pub source_ip : Option String

pub record Stored : Type 0 where
  pub settings : RuntimePolicy
  pub version : ℕ
  pub updated_at : ℕ

-- The module's own state.
pub record RuntimePolicyModule : Type 0 where
  pub active : RuntimePolicy
  pub loaded_version : ℕ

pub record RuntimePolicyView : Type 0 where
  pub policy : PolicyValues
  pub email : EmailSettingsView
  pub version : ℕ
  pub loaded_version : ℕ
  pub restart_required : Bool
  pub updated_at : Option ℕ

abbrev pub conflict : Failure
conflict =
    client_management_error 409 "version_conflict"
      "runtime policy changed concurrently; reload and retry"

abbrev pub Store : Type 0 → Type 0
Store C = SettingsStore C AuditValues

-- What a call has come to: a view to answer, or settings to save.
pub data Plan (C : Type 0) : Type 0 where
  shown : RuntimePolicyView → Plan C
  saved : SaveAppSettingInput C AuditValues → RuntimePolicy → Plan C

abbrev pub is_email_configured : RuntimePolicyModule → Bool
is_email_configured m = not (is_disabled m.active.email.provider)

unfoldable pub to_view : ℕ → RuntimePolicy → ℕ → Option ℕ → RuntimePolicyView
to_view loaded_version settings version updated_at = record {
  policy = settings.policy;
  email = email_view settings.email version updated_at;
  version = version;
  loaded_version = loaded_version;
  restart_required = not (version == loaded_version);
  updated_at = updated_at;
}

-- `stored?.settings ?? defaults` and so on
abbrev pub settings_of : RuntimePolicy → Option Stored → RuntimePolicy
settings_of defaults none = defaults
settings_of defaults (some stored) = stored.settings

abbrev pub version_of : Option Stored → ℕ
version_of none = 0
version_of (some stored) = stored.version

abbrev pub updated_at_of : Option Stored → Option ℕ
updated_at_of none = none
updated_at_of (some stored) = some stored.updated_at

-- The answer of a save: what was saved, or a conflict.
unfoldable pub answer :
    {C : Type 0}
    → ℕ
    → RuntimePolicy
    → Store C × AppSettingMutationResult C
    → Store C × Result RuntimePolicyView
answer loaded_version next (s, AppSettingMutationResult.version_conflict) = (s, err conflict)
answer loaded_version next (s, AppSettingMutationResult.updated r) =
    (s, ok (to_view loaded_version next r.version (some r.updated_at)))

-- A call on the store that it finds when it saves.
unfoldable pub carry_out :
    {C : Type 0} → ℕ → Result (Plan C) → Store C → Store C × Result RuntimePolicyView
carry_out loaded_version (err thrown) s = (s, err thrown)
carry_out loaded_version (ok (shown view)) s = (s, ok view)
carry_out loaded_version (ok (saved input next)) s =
    answer loaded_version next (save_app_setting input s)

unfoldable pub list_audit_logs :
    {C : Type 0} → ℕ → Store C → List (AppSettingAuditRecord AuditValues)
list_audit_logs = list_app_setting_audit_logs runtime_policy_key

module _ {C : Type 0} (platform : Platform) (addresses : Addresses)
    (encrypt : String → RuntimePolicy → C) (decrypt : C → Result RuntimePolicy)
    (defaults : RuntimePolicy) where
  unfoldable pub load_stored : Store C → Result (Option Stored)
  load_stored s = elim (get_app_setting runtime_policy_key s) [
    | none ↦ ok none
    | some r ↦ decrypt r.value_ciphertext >>> λ settings.
        validate_policy platform settings.policy >>> λ _.
        validate_email platform addresses settings.email >>> λ _.
        ok (some (record { settings = settings; version = r.version; updated_at = r.updated_at }))
  ]

  unfoldable pub initialize : Store C → Result RuntimePolicyModule
  initialize s = load_stored s >>> λ stored.
      let active = settings_of defaults stored in
      validate_policy platform active.policy >>> λ _.
      validate_email platform addresses active.email >>> λ _.
      ok (record { active = active; loaded_version = version_of stored })

  unfoldable pub get_view : ℕ → Store C → Result RuntimePolicyView
  get_view loaded_version s = load_stored s >>> λ stored. ok (
      to_view loaded_version (settings_of defaults stored) (version_of stored)
        (updated_at_of stored))

  abbrev save_input :
      String
      → Actor
      → ℕ
      → AppSettingAuditAction
      → List String
      → Dict String Bool
      → RuntimePolicy
      → RuntimePolicy
      → ℕ
      → SaveAppSettingInput C AuditValues
  save_input nonce actor now action changed secrets current next expected = record {
    key = runtime_policy_key;
    value_ciphertext = encrypt nonce next;
    expected_version = expected;
    updated_at = now;
    audit = record {
      actor_subject_id = some actor.subject_id;
      action = action;
      changed_fields = changed;
      previous_values = audit_values current;
      new_values = audit_values next;
      secrets_replaced = secrets;
      source_ip = given actor.source_ip;
      created_at = now;
    };
  }

  unfoldable pub update_plan : String → Json → Actor → ℕ → Store C → Result (Plan C)
  update_plan nonce raw actor now seen = require_object raw "request body" >>> λ input.
      load_stored seen >>> λ stored.
      non_negative_integer (field "expectedVersion" input) "expectedVersion" >>> λ expected.
      refuse (not (expected == version_of stored)) conflict >>> λ _.
      parse_policy (field "policy" input) >>> λ policy.
      merge_email platform addresses (settings_of defaults stored).email (field "email" input)
      >>> λ email. validate_policy platform policy >>> λ _.
          validate_email platform addresses email >>> λ _.
          secret_changes platform addresses (field "email" input) >>> λ secrets.
          let next : RuntimePolicy = record { policy = policy; email = email } in
          ok (
            saved
              (save_input nonce actor now AppSettingAuditAction.runtime_policy_updated
                (changed_fields (settings_of defaults stored) next) secrets
                (settings_of defaults stored) next expected)
              next)

  -- `input["email"] === undefined ? current.email : mergeEmail(current.email, input["email"])`
  abbrev draft : EmailSettings → Json → Result EmailSettings
  draft current undefined = ok current
  draft current raw = merge_email platform addresses current raw

  abbrev recipient : Json → String
  recipient (text value) = platform.to_lower_case (platform.trim value)
  recipient _ = ""

  -- A message that went out proves the settings that are stored, unless the draft differs.
  abbrev pub tested : String → Actor → ℕ → ℕ → Option Stored → ℕ → EmailSettings → Plan C
  tested nonce actor now loaded_version stored expected email =
      let current = settings_of defaults stored in
      let next : RuntimePolicy = record current {
        email = record current.email { last_verified_at = some now };
      } in
      if not (same_email_config email current.email)
      then shown (to_view loaded_version current (version_of stored) (updated_at_of stored))
      else saved
          (save_input nonce actor now AppSettingAuditAction.runtime_policy_verified
            ("email.verification" ∷ []) (("resendApiKey", false) ∷ ("smtpPassword", false) ∷ [])
            current next expected)
          next

  -- `send` is the call of the sender with the settings and the recipient.
  unfoldable pub test_plan :
      (EmailSettings → String → Result (Unit {0}))
      → String
      → Json
      → Actor
      → ℕ
      → ℕ
      → Store C
      → Result (Plan C)
  test_plan send nonce raw actor now loaded_version seen =
      require_object raw "request body" >>> λ input. load_stored seen >>> λ stored.
      non_negative_integer (field "expectedVersion" input) "expectedVersion" >>> λ expected.
      refuse (not (expected == version_of stored)) conflict >>> λ _.
      draft (settings_of defaults stored).email (field "email" input) >>> λ email.
      validate_email platform addresses email >>> λ _.
      refuse (is_disabled email.provider)
        (invalid_request "email provider must be enabled" (some "email.provider"))
      >>> λ _.
          refuse (not (addresses.is_valid_email (recipient (field "recipient" input))))
            (invalid_request "recipient must be a valid email address" (some "recipient"))
          >>> λ _. send email (recipient (field "recipient" input)) >>> λ _.
              ok (tested nonce actor now loaded_version stored expected email)
