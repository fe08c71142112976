-- ===== src/Settings/Tests.antt =====
-- Saves of two settings, and the theorem at them.
use cqut_auth.Base.{ℕ, String, none, List, [], ◌∷◌, ◌≡◌, refl, map, string_eq, nat_eq}
use cqut_auth.Dict
use cqut_auth.Settings.{
  AppSettingAuditAction, SaveAppSettingInput, version_conflict, empty, get_app_setting,
  save_app_setting, list_app_setting_audit_logs,
}
use cqut_auth.Settings.Log.{run, IsLogged, run-IsLogged}

settings : Unit {0}
unfolding get_app_setting save_app_setting list_app_setting_audit_logs run Dict.get Dict.set
settings = tt

abbrev save : String → ℕ → SaveAppSettingInput String String
save key expected = record {
  key = key;
  value_ciphertext = "text";
  expected_version = expected;
  updated_at = 5;
  audit = record {
    actor_subject_id = none;
    action = AppSettingAuditAction.runtime_policy_updated;
    changed_fields = [];
    previous_values = "";
    new_values = "";
    secrets_replaced = [];
    source_ip = none;
    created_at = 5;
  };
}

-- The third save expects a version that is gone.
abbrev saves : List (SaveAppSettingInput String String)
saves = save "a" 0 ∷ save "b" 0 ∷ save "a" 0 ∷ save "a" 1 ∷ []

save_tests :
    ((save_app_setting (save "a" 0) (run saves empty)).1 ≡ version_conflict)
    × (map (λ a. a.id) (list_app_setting_audit_logs "a" 50 (run saves empty)) ≡ 3 ∷ 1 ∷ [])
    × (map (λ a. a.id) (list_app_setting_audit_logs "a" 1 (run saves empty)) ≡ 3 ∷ [])
unfolding settings
save_tests = (refl, refl, refl)

run-IsLogged_example : IsLogged (run saves empty)
run-IsLogged_example = run-IsLogged saves
