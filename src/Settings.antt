-- ===== src/Settings.antt =====
-- persistence/app-settings.repository.ts without a database: settings with a version, and the
-- log of their changes. `C` is the type of the encrypted texts, which the store does not look into,
-- and `V` what the log keeps of a value.
pub mod Log
mod Tests
use cqut_auth.Base.{
  reverse, ℕ, ◌+◌, ◌-◌, String, Bool, not, Option, none, some, List, [], ◌∷◌, ◌++◌, filter, drop,
  length, ◌==◌, string_eq, nat_eq, if◌then◌else◌,
}
use cqut_auth.Dict
use cqut_auth.Dict.{Dict}

pub record AppSettingRecord (C : Type 0) : Type 0 where
  pub key : String
  pub value_ciphertext : C
  pub version : ℕ
  pub created_at : ℕ
  pub updated_at : ℕ

pub data AppSettingAuditAction : Type 0 where
  runtime_policy_updated runtime_policy_verified : AppSettingAuditAction

-- What a caller says of its change.
pub record AppSettingAudit (V : Type 0) : Type 0 where
  pub actor_subject_id : Option String
  pub action : AppSettingAuditAction
  pub changed_fields : List String
  pub previous_values : V
  pub new_values : V
  pub secrets_replaced : Dict String Bool
  pub source_ip : Option String
  pub created_at : ℕ

pub record AppSettingAuditRecord (V : Type 0) : Type 0 where
  pub id : ℕ
  pub setting_key : String
  pub audit : AppSettingAudit V
  pub previous_version : ℕ
  pub new_version : ℕ

pub data AppSettingMutationResult (C : Type 0) : Type 0 where
  updated : AppSettingRecord C → AppSettingMutationResult C
  version_conflict : AppSettingMutationResult C

pub record SaveAppSettingInput (C V : Type 0) : Type 0 where
  pub key : String
  pub value_ciphertext : C
  pub expected_version : ℕ
  pub updated_at : ℕ
  pub audit : AppSettingAudit V

pub record SettingsStore (C V : Type 0) : Type 0 where
  pub settings : Dict String (AppSettingRecord C)
  pub audits : List (AppSettingAuditRecord V)
  pub next_audit_id : ℕ

-- `existing?.version ?? 0`
abbrev pub version_of : {C : Type 0} → Option (AppSettingRecord C) → ℕ
version_of none = 0
version_of (some r) = r.version

-- `existing?.createdAt ?? at`
abbrev created_at_or : {C : Type 0} → Option (AppSettingRecord C) → ℕ → ℕ
created_at_or none at = at
created_at_or (some r) at = r.created_at

module _ {C V : Type 0} where
  abbrev pub empty : SettingsStore C V
  empty = record { settings = []; audits = []; next_audit_id = 1 }

  unfoldable pub get_app_setting : String → SettingsStore C V → Option (AppSettingRecord C)
  get_app_setting key s = Dict.get key s.settings

  abbrev pub saved_record :
      SaveAppSettingInput C V → Option (AppSettingRecord C) → AppSettingRecord C
  saved_record input existing = record {
    key = input.key;
    value_ciphertext = input.value_ciphertext;
    version = input.expected_version + 1;
    created_at = created_at_or existing input.updated_at;
    updated_at = input.updated_at;
  }

  abbrev pub audit_record : SaveAppSettingInput C V → ℕ → AppSettingAuditRecord V
  audit_record input id = record {
    id = id;
    setting_key = input.key;
    audit = input.audit;
    previous_version = input.expected_version;
    new_version = input.expected_version + 1;
  }

  unfoldable pub save_app_setting :
      SaveAppSettingInput C V → SettingsStore C V → SettingsStore C V × AppSettingMutationResult C
  save_app_setting input s =
      let existing = Dict.get input.key s.settings in
      if not (version_of existing == input.expected_version) then (s, version_conflict) else (
        record {
          settings = Dict.set input.key (saved_record input existing) s.settings;
          audits = s.audits ++ audit_record input s.next_audit_id ∷ [];
          next_audit_id = s.next_audit_id + 1;
        },
        updated (saved_record input existing),
      )

  -- The last `limit`, the latest first; `slice(-0)` is the whole array.
  unfoldable pub list_app_setting_audit_logs :
      String → ℕ → SettingsStore C V → List (AppSettingAuditRecord V)
  list_app_setting_audit_logs key limit s =
      let own = filter (λ a. a.setting_key == key) s.audits in
      reverse (if limit == 0 then own else drop (length own - limit) own)
