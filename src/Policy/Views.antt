-- ===== src/Policy/Views.antt =====
-- What runtime-policy.ts shows of the e-mail settings and writes to the log: no secret, only
-- whether there is one.
use cqut_auth.Base.{
  ℕ, String, Bool, true, false, ◌&&◌, Option, none, some, List, [], ◌∷◌, ◌++◌, ◌≡◌, refl, ◌≢◌, ◌==◌,
  string_eq, nat_eq, if◌then◌else◌, arith, eq_iff,
}
use cqut_auth.Policy.{
  EmailProviderKind, EmailSettings, PolicyValue, PolicyValues, RuntimePolicy, amount, flag,
}
use cqut_auth.Policy.Email.{is_disabled, same_email_config, truthy, same_bool, same_number}

pub data Source : Type 0 where
  database default : Source

pub data Verification : Type 0 where
  verified unverified not_applicable : Verification

pub record EmailSettingsView : Type 0 where
  pub provider : EmailProviderKind
  pub resend_from : String
  pub api_key_configured : Bool
  pub host : String
  pub port : Option ℕ
  pub secure : Bool
  pub user : String
  pub smtp_from : String
  pub password_configured : Bool
  pub version : ℕ
  pub source : Source
  pub status : Verification
  pub verified_at : Option ℕ
  pub updated_at : Option ℕ

-- `text ?? ""`, `secure ?? false`
abbrev or_blank : Option String → String
or_blank none = ""
or_blank (some x) = x

abbrev or_false : Option Bool → Bool
or_false none = false
or_false (some b) = b

abbrev verification : EmailSettings → Verification
verification settings =
    if is_disabled settings.provider
    then not_applicable
    else elim settings.last_verified_at [ none ↦ unverified | some _ ↦ verified ]

unfoldable pub email_view : EmailSettings → ℕ → Option ℕ → EmailSettingsView
email_view settings version updated_at = record {
  provider = settings.provider;
  resend_from = or_blank settings.resend.from;
  api_key_configured = truthy settings.resend.api_key;
  host = or_blank settings.smtp.host;
  port = settings.smtp.port;
  secure = or_false settings.smtp.secure;
  user = or_blank settings.smtp.user;
  smtp_from = or_blank settings.smtp.from;
  password_configured = truthy settings.smtp.password;
  version = version;
  source = if version == 0 then default else database;
  status = verification settings;
  verified_at = settings.last_verified_at;
  updated_at = updated_at;
}

pub record AuditValues : Type 0 where
  pub policy : PolicyValues
  pub provider : EmailProviderKind
  pub resend_from : Option String
  pub host : Option String
  pub port : Option ℕ
  pub secure : Option Bool
  pub user : Option String
  pub smtp_from : Option String
  pub verified_at : Option ℕ

unfoldable pub audit_values : RuntimePolicy → AuditValues
audit_values settings = record {
  policy = settings.policy;
  provider = settings.email.provider;
  resend_from = settings.email.resend.from;
  host = settings.email.smtp.host;
  port = settings.email.smtp.port;
  secure = settings.email.smtp.secure;
  user = settings.email.smtp.user;
  smtp_from = settings.email.smtp.from;
  verified_at = settings.email.last_verified_at;
}

abbrev same_value : PolicyValue → PolicyValue → Bool
same_value (amount a) (amount b) = a == b
same_value (flag a) (flag b) = same_bool a b
same_value _ _ = false

-- The texts of the JSON are the same; both list the keys in one order.
abbrev same_policy : PolicyValues → PolicyValues → Bool
same_policy [] [] = true
same_policy ((k, v) ∷ a) ((j, w) ∷ b) = k == j && same_value v w && same_policy a b
same_policy _ _ = false

abbrev same_email : EmailSettings → EmailSettings → Bool
same_email a b = same_email_config a b && same_number a.last_verified_at b.last_verified_at

abbrev unless : Bool → String → List String
unless true name = []
unless false name = name ∷ []

unfoldable pub changed_fields : RuntimePolicy → RuntimePolicy → List String
unfolding same_email_config
changed_fields before after =
    unless (same_policy before.policy after.policy) "policy"
    ++ unless (same_email before.email after.email) "email"

-- The settings with other secrets.
abbrev pub with_secrets : Option String → Option String → EmailSettings → EmailSettings
with_secrets api_key password settings = record settings {
  resend = record settings.resend { api_key = api_key };
  smtp = record settings.smtp { password = password };
}

-- What is shown and what is logged is the same for any two API keys and any two passwords that
-- are given, that is not empty: neither tells more of a secret than that there is one.
pub views-with_secrets :
    (settings : RuntimePolicy) (version : ℕ) (updated_at : Option ℕ)
    (key key' password password' : String)
    → key ≢ ""
    → key' ≢ ""
    → password ≢ ""
    → password' ≢ ""
    → let one = record settings {
      email = with_secrets (some key) (some password) settings.email;
    } in
      let other = record settings {
        email = with_secrets (some key') (some password') settings.email;
      } in
      (email_view one.email version updated_at ≡ email_view other.email version updated_at)
      × (audit_values one ≡ audit_values other)
unfolding email_view audit_values
views-with_secrets settings version updated_at key key' password password' k k' p p' = (
  ground
      (arith, k, k', p, p', eq_iff key "", eq_iff key' "", eq_iff password "", eq_iff password' ""),
  refl,
)
