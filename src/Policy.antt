-- ===== src/Policy.antt =====
-- runtime-policy.ts with email/email-settings.ts: the policy and the e-mail settings that an
-- administrator edits, their parsing and validation, and what of them is shown and logged.
pub mod Email
pub mod Service
pub mod Views
pub mod Availability
pub mod History
mod Tests
use Prim.Native.String.{◌++◌ as str_append}
use cqut_auth.Base.{
  given, ℕ, String, Bool, true, false, not, ◌&&◌, ◌||◌, Option, none, some, List, [], ◌∷◌, ltb,
  ◌==◌, string_eq, nat_eq, if◌then◌else◌,
}
use cqut_auth.Contracts.{Result, ok, err, ◌>>>◌, refuse, client_management_error}
use cqut_auth.Dict
use cqut_auth.Dict.{Dict}
use cqut_auth.Body.{
  Json, Members, Platform, undefined, null, array, boolean, number, text, object, field, one_of,
  invalid_request,
}

pub data EmailProviderKind : Type 0 where
  resend smtp disabled : EmailProviderKind

pub record ResendEmailSettings : Type 0 where
  pub api_key : Option String
  pub from : Option String

pub record SmtpEmailSettings : Type 0 where
  pub host : Option String
  pub port : Option ℕ
  pub secure : Option Bool
  pub user : Option String
  pub password : Option String
  pub from : Option String

pub record EmailSettings : Type 0 where
  pub provider : EmailProviderKind
  pub resend : ResendEmailSettings
  pub smtp : SmtpEmailSettings
  pub last_verified_at : Option ℕ

abbrev pub empty_email_settings : EmailSettings
empty_email_settings = record {
  provider = EmailProviderKind.disabled;
  resend = record { api_key = none; from = none };
  smtp = record {
    host = none;
    port = none;
    secure = none;
    user = none;
    password = none;
    from = none;
  };
  last_verified_at = none;
}

pub data PolicyValue : Type 0 where
  amount : ℕ → PolicyValue
  flag : Bool → PolicyValue

abbrev pub PolicyValues : Type 0
PolicyValues = Dict String PolicyValue

pub record RuntimePolicy : Type 0 where
  pub policy : PolicyValues
  pub email : EmailSettings

abbrev pub policy_keys : List String
policy_keys =
    "csrfTokenTtlSeconds" ∷ "sessionTtlSeconds" ∷ "sessionIdleTtlSeconds" ∷ "interactionTtlSeconds"
    ∷ "authorizationCodeTtlSeconds" ∷ "accessTokenTtlSeconds" ∷ "idTokenTtlSeconds"
    ∷ "refreshTokenTtlSeconds" ∷ "grantTtlSeconds" ∷ "emailVerifyCodeTtlSeconds"
    ∷ "emailVerifyResendCooldownSeconds" ∷ "emailVerifyMaxAttempts"
    ∷ "emailVerifyRateLimitSubjectMax" ∷ "emailVerifyRateLimitSubjectWindowSeconds"
    ∷ "emailVerifyRateLimitEmailMax" ∷ "emailVerifyRateLimitEmailWindowSeconds"
    ∷ "emailVerifyRateLimitDomainMax" ∷ "emailVerifyRateLimitDomainWindowSeconds"
    ∷ "emailVerifyRateLimitIpMax" ∷ "emailVerifyRateLimitIpWindowSeconds" ∷ "loginRateLimitMax"
    ∷ "loginRateLimitWindowSeconds" ∷ "loginFailureLimit" ∷ "loginFailureWindowSeconds"
    ∷ "tokenRateLimitMax" ∷ "tokenRateLimitWindowSeconds" ∷ "managementProjectMaxActivePerSubject"
    ∷ "managementProjectCreateRateLimitSubjectMax" ∷ "managementProjectCreateRateLimitIpMax"
    ∷ "managementProjectCreateRateLimitWindowSeconds" ∷ "managementProjectQuotaAdminExempt"
    ∷ "managementClientMaxPerProject" ∷ "managementClientMaxPerSubject"
    ∷ "managementClientCreateRateLimitSubjectMax" ∷ "managementClientCreateRateLimitIpMax"
    ∷ "managementClientCreateRateLimitWindowSeconds" ∷ "managementClientQuotaAdminExempt"
    ∷ "clientSecretDefaultGraceSeconds" ∷ "clientSecretMaxGraceSeconds"
    ∷ "clientSecretRotateRateLimitSubjectMax" ∷ "clientSecretRotateRateLimitClientMax"
    ∷ "clientSecretRotateRateLimitIpMax" ∷ "clientSecretRotateRateLimitWindowSeconds"
    ∷ "clientSecretRotateMinimumIntervalSeconds" ∷ []

-- `key.endsWith("AdminExempt")`, for the keys above.
abbrev is_exemption : String → Bool
is_exemption key =
    one_of key ("managementProjectQuotaAdminExempt" ∷ "managementClientQuotaAdminExempt" ∷ [])

-- `object`: null and arrays are none.
unfoldable pub require_object : Json → String → Result Members
require_object (object body) name = ok body
require_object _ name = err (invalid_request (str_append name " must be an object") (some name))

unfoldable pub non_negative_integer : Json → String → Result ℕ
non_negative_integer (number n) name = ok n
non_negative_integer _ name =
    err (invalid_request (str_append name " must be a non-negative integer") (some name))

unfoldable pub boolean_value : Json → String → Result Bool
boolean_value (boolean b) name = ok b
boolean_value _ name = err (invalid_request (str_append name " must be a boolean") (some name))

abbrev map_result {ℓ κ} : {A : Type ℓ} {B : Type κ} → (A → B) → Result A → Result B
map_result f (ok a) = ok (f a)
map_result f (err e) = err e

abbrev parse_value : String → Json → Result PolicyValue
parse_value key value =
    if is_exemption key
    then map_result flag (boolean_value value key)
    else map_result amount (non_negative_integer value key)

-- The loop over the keys, which fills the answer in their order.
unfoldable pub parse_values : List String → Members → Result PolicyValues
parse_values [] input = ok []
parse_values (key ∷ more) input = parse_value key (field key input) >>> λ v.
    parse_values more input >>> λ rest. ok ((key, v) ∷ rest)

pub parse_policy : Json → Result PolicyValues
parse_policy value = require_object value "policy" >>> λ input. parse_values policy_keys input

-- The keys for which 0 is admitted.
abbrev may_be_zero : String → Bool
may_be_zero key =
    key == "clientSecretDefaultGraceSeconds" || key == "clientSecretRotateMinimumIntervalSeconds"

-- `typeof value === "number"` and out of its range: a number below 0 is none of the model.
abbrev out_of_range : String → Option PolicyValue → Bool
out_of_range key (some (amount n)) = not (may_be_zero key) && n == 0
out_of_range key _ = false

-- `a > b`, false where one of them is missing or no number
abbrev exceeds : Option PolicyValue → Option PolicyValue → Bool
exceeds (some (amount a)) (some (amount b)) = ltb b a
exceeds _ _ = false

module _ (platform : Platform) where
  abbrev wanted : String → String
  wanted key =
      if platform.includes key "Grace" || platform.includes key "Minimum"
      then "non-negative"
      else "positive"

  unfoldable pub validate_values : List String → PolicyValues → Result (Unit {0})
  validate_values [] policy = ok tt
  validate_values (key ∷ more) policy =
      refuse (out_of_range key (Dict.get key policy)) (
        invalid_request
          (str_append key (str_append " must be a " (str_append (wanted key) " integer")))
          (some key))
      >>> λ _. validate_values more policy

  unfoldable pub validate_policy : PolicyValues → Result (Unit {0})
  validate_policy policy = validate_values policy_keys policy >>> λ _.
      refuse
        (exceeds (Dict.get "sessionIdleTtlSeconds" policy) (Dict.get "sessionTtlSeconds" policy))
        (invalid_request "session idle TTL must not exceed session TTL"
          (some "sessionIdleTtlSeconds"))
      >>> λ _.
          refuse
            (exceeds (Dict.get "csrfTokenTtlSeconds" policy)
              (Dict.get "interactionTtlSeconds" policy))
            (invalid_request "CSRF token TTL must not exceed interaction TTL"
              (some "csrfTokenTtlSeconds"))
          >>> λ _.
              refuse
                (exceeds (Dict.get "refreshTokenTtlSeconds" policy)
                  (Dict.get "grantTtlSeconds" policy))
                (invalid_request "grant TTL must not be shorter than refresh token TTL"
                  (some "grantTtlSeconds"))
              >>> λ _.
                  refuse
                    (exceeds (Dict.get "clientSecretDefaultGraceSeconds" policy)
                      (Dict.get "clientSecretMaxGraceSeconds" policy))
                    (invalid_request "default secret grace must not exceed maximum"
                      (some "clientSecretDefaultGraceSeconds"))
