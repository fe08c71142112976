-- ===== src/Settings/Log.antt =====
-- The log of the settings is complete: a setting's version counts its records.
use cqut_auth.Base.{
  ◌+◌, String, List, [], ◌∷◌, ◌≡◌, refl, count, count-append, length, length-append, Bool-cases,
  inl, inr, arith, string_eq, nat_eq, nat_beq_iff, eq_iff, ◌==◌,
}
use cqut_auth.Dict
use cqut_auth.Dict.Laws.{get-set}
use cqut_auth.Settings.{
  SaveAppSettingInput, SettingsStore, version_of, saved_record, audit_record, save_app_setting,
  empty,
}

module _ {C V : Type 0} where
  unfoldable pub run : List (SaveAppSettingInput C V) → SettingsStore C V → SettingsStore C V
  run [] s = s
  run (i ∷ more) s = run more (save_app_setting i s).0

  -- The versions count the records of their settings, and the numbers go on from the length.
  pub record IsLogged (s : SettingsStore C V) : Type 0 where
    pub versions :
        (key : String)
        → version_of (Dict.get key s.settings) ≡ count (λ a. a.setting_key == key) s.audits
    pub numbers : s.next_audit_id ≡ length s.audits + 1

  save-IsLogged :
      (i : SaveAppSettingInput C V) (s : SettingsStore C V)
      → IsLogged s
      → IsLogged (save_app_setting i s).0
  unfolding save_app_setting
  save-IsLogged i s h =
      elim (Bool-cases (version_of (Dict.get i.key s.settings) == i.expected_version)) [
        | inr stale ↦ rw (save_app_setting, stale) h
        | inl fresh ↦
            rw (save_app_setting, fresh)
              (record {
                versions = λ key. ground (
                  arith,
                  nat_beq_iff (version_of (Dict.get i.key s.settings)) i.expected_version,
                  fresh,
                  eq_iff i.key key,
                  h.versions key,
                  h.versions i.key,
                  get-set i.key key (saved_record i (Dict.get i.key s.settings)) s.settings,
                  count-append (λ a. a.setting_key == key) s.audits
                      (audit_record i s.next_audit_id ∷ []),
                );
                numbers = ground (
                  arith,
                  h.numbers,
                  length-append s.audits (audit_record i s.next_audit_id ∷ []),
                );
              })
      ]

  run-IsLogged_from :
      (l : List (SaveAppSettingInput C V)) (s : SettingsStore C V) → IsLogged s → IsLogged (run l s)
  unfolding run
  run-IsLogged_from [] s h = h
  run-IsLogged_from (i ∷ l) s h = run-IsLogged_from l (save_app_setting i s).0 (save-IsLogged i s h)

-- After any saves, admitted or refused, the version of every setting is the number of its
-- records in the log, 0 for one that was never saved, and the next record's number is one more
-- than the length of the log.
pub run-IsLogged : {C V : Type 0} (l : List (SaveAppSettingInput C V)) → IsLogged (run l empty)
unfolding Dict.get
run-IsLogged l = run-IsLogged_from l empty (record { versions = λ key. refl; numbers = refl })
