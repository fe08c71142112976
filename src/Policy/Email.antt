-- ===== src/Policy/Email.antt =====
-- The e-mail settings of runtime-policy.ts: a request merged into the settings that are there,
-- their validation, and what of them is shown and logged. The checks of addresses (utils.ts) are
-- regular expressions and come as arguments, with the test for white space.
use cqut_auth.Base.{
  given, ℕ, String, Bool, true, false, not, ◌&&◌, ◌||◌, Option, none, some, List, [], ◌∷◌, ltb,
  ◌==◌, string_eq, nat_eq, if◌then◌else◌,
}
use cqut_auth.Contracts.{Result, ok, err, ◌>>>◌, refuse}
use cqut_auth.Dict.{Dict}
use cqut_auth.Body.{Json, Platform, undefined, text, object, field, one_of, invalid_request, end}
use cqut_auth.Policy.{EmailProviderKind, EmailSettings, require_object}

-- The address checks of utils.ts, and `/\s/.test`.
pub record Addresses : Type 0 where
  pub is_valid_email : String → Bool
  pub normalize_email_from_address : String → String
  pub is_valid_email_from_address : String → Bool
  pub has_space : String → Bool

abbrev pub is_disabled : EmailProviderKind → Bool
is_disabled EmailProviderKind.disabled = true
is_disabled _ = false

abbrev pub same_provider : EmailProviderKind → EmailProviderKind → Bool
same_provider EmailProviderKind.resend EmailProviderKind.resend = true
same_provider EmailProviderKind.smtp EmailProviderKind.smtp = true
same_provider EmailProviderKind.disabled EmailProviderKind.disabled = true
same_provider _ _ = false

abbrev same_string : Option String → Option String → Bool
same_string none none = true
same_string (some a) (some b) = a == b
same_string _ _ = false

abbrev pub same_number : Option ℕ → Option ℕ → Bool
same_number none none = true
same_number (some a) (some b) = a == b
same_number _ _ = false

abbrev pub same_bool : Bool → Bool → Bool
same_bool true b = b
same_bool false b = not b

abbrev same_secure : Option Bool → Option Bool → Bool
same_secure none none = true
same_secure (some a) (some b) = same_bool a b
same_secure _ _ = false

-- `sameEmailConfig`: the texts of the JSON are the same where every field but the last is, since
-- both objects list their fields in one order and leave the missing ones out.
unfoldable pub same_email_config : EmailSettings → EmailSettings → Bool
same_email_config a b =
    same_provider a.provider b.provider
    && same_string a.resend.api_key b.resend.api_key
    && same_string a.resend.from b.resend.from
    && same_string a.smtp.host b.smtp.host
    && same_number a.smtp.port b.smtp.port
    && same_secure a.smtp.secure b.smtp.secure
    && same_string a.smtp.user b.smtp.user
    && same_string a.smtp.password b.smtp.password
    && same_string a.smtp.from b.smtp.from

-- `value ?? {}`
abbrev or_empty : Json → Json
or_empty undefined = object end
or_empty Json.null = object end
or_empty value = value

abbrev provider_of : Json → Result EmailProviderKind
provider_of (text value) =
    if value == "resend"
    then ok EmailProviderKind.resend
    else if value == "smtp"
    then ok EmailProviderKind.smtp
    else if value == "disabled"
    then ok EmailProviderKind.disabled
    else err (invalid_request "invalid email provider" (some "email.provider"))
provider_of _ = err (invalid_request "invalid email provider" (some "email.provider"))

-- `smtp.port`: null and the empty string take it away.
abbrev port_of : Json → Option ℕ → Result (Option ℕ)
port_of undefined current = ok current
port_of Json.null current = ok none
port_of (Json.number n) current = ok (some n)
port_of (text value) current =
    if value == ""
    then ok none
    else err
        (invalid_request "email.smtp.port must be a non-negative integer" (some "email.smtp.port"))
port_of _ current =
    err (invalid_request "email.smtp.port must be a non-negative integer" (some "email.smtp.port"))

abbrev secure_of : Json → Option Bool → Result (Option Bool)
secure_of undefined current = ok current
secure_of (Json.boolean b) current = ok (some b)
secure_of _ current =
    err (invalid_request "email.smtp.secure must be a boolean" (some "email.smtp.secure"))

-- `settings.host && ...`
abbrev pub truthy : Option String → Bool
truthy (some x) = not (x == "")
truthy none = false

-- `port && port > 65535`, and `!port`
abbrev too_large : Option ℕ → Bool
too_large (some n) = ltb 65535 n
too_large none = false

abbrev has_port : Option ℕ → Bool
has_port (some n) = not (n == 0)
has_port none = false

module _ (platform : Platform) (addresses : Addresses) where
  abbrev optional_text : Json → Option String → Result (Option String)
  optional_text undefined current = ok current
  optional_text Json.null current = ok none
  optional_text (text value) current = ok (given (some (platform.trim value)))
  optional_text _ current = err (invalid_request "value must be a string" none)

  abbrev sender : Option String → String → Result (Option String)
  sender none at = ok none
  sender (some value) at =
      let normalized = addresses.normalize_email_from_address value in
      if addresses.is_valid_email_from_address normalized
      then ok (some normalized)
      else err (
          invalid_request "sender must be 'email@example.com' or 'Name <email@example.com>'"
            (some at))

  abbrev from_address : Json → Option String → String → Result (Option String)
  from_address value current at = optional_text value current >>> λ from. sender from at

  -- A secret that is not given anew stays as it is.
  abbrev secret : Json → Option String → Option String
  secret (text value) current = elim (given (some (platform.trim value))) [
    | none ↦ current
    | some new ↦ some new
  ]
  secret _ current = current

  unfoldable pub merge_email : EmailSettings → Json → Result EmailSettings
  unfolding same_email_config
  merge_email current raw = require_object raw "email" >>> λ input.
      provider_of (field "provider" input) >>> λ provider.
      require_object (or_empty (field "resend" input)) "email.resend" >>> λ resend.
      require_object (or_empty (field "smtp" input)) "email.smtp" >>> λ smtp.
      from_address (field "from" resend) current.resend.from "email.resend.from" >>> λ resend_from.
      optional_text (field "host" smtp) current.smtp.host >>> λ host.
      port_of (field "port" smtp) current.smtp.port >>> λ port.
      secure_of (field "secure" smtp) current.smtp.secure >>> λ secure.
      optional_text (field "user" smtp) current.smtp.user >>> λ user.
      from_address (field "from" smtp) current.smtp.from "email.smtp.from" >>> λ smtp_from.
      let next : EmailSettings = record {
        provider = provider;
        resend = record {
          api_key = secret (field "apiKey" resend) current.resend.api_key;
          from = resend_from;
        };
        smtp = record {
          host = host;
          port = port;
          secure = secure;
          user = user;
          password = secret (field "password" smtp) current.smtp.password;
          from = smtp_from;
        };
        last_verified_at = none;
      } in
      ok (
        if same_email_config current next
        then record next { last_verified_at = current.last_verified_at }
        else next)

  -- `isDangerousMetadataOrInvalidSmtpHost`
  abbrev forbidden_hosts : List String
  forbidden_hosts =
      "169.254.169.254" ∷ "0.0.0.0" ∷ "255.255.255.255" ∷ "metadata.google.internal"
      ∷ "instance-data" ∷ "::" ∷ "[::]" ∷ "fd00:ec2::254" ∷ "[fd00:ec2::254]" ∷ []

  abbrev includes_any : String → List String → Bool
  includes_any host [] = false
  includes_any host (x ∷ xs) = platform.includes host x || includes_any host xs

  unfoldable pub is_dangerous : String → Bool
  is_dangerous host =
      let trimmed = platform.to_lower_case (platform.trim host) in
      one_of trimmed forbidden_hosts
      || includes_any trimmed ("://" ∷ "/" ∷ "\\" ∷ "@" ∷ "?" ∷ "#" ∷ [])
      || addresses.has_space trimmed

  abbrev forbidden : Option String → Bool
  forbidden (some host) = not (host == "") && is_dangerous host
  forbidden none = false

  unfoldable pub validate_email : EmailSettings → Result (Unit {0})
  validate_email email =
      refuse
        (same_provider email.provider EmailProviderKind.resend
          && (not (truthy email.resend.api_key) || not (truthy email.resend.from)))
        (invalid_request "Resend API key and sender are required" (some "email.resend"))
      >>> λ _.
          refuse
            (same_provider email.provider EmailProviderKind.smtp
              && (not (truthy email.smtp.host)
                  || not (has_port email.smtp.port)
                  || not (truthy email.smtp.from)))
            (invalid_request "SMTP host, port and sender are required" (some "email.smtp"))
          >>> λ _.
              refuse (too_large email.smtp.port)
                (invalid_request "SMTP port must not exceed 65535" (some "email.smtp.port"))
              >>> λ _.
                  refuse (forbidden email.smtp.host) (
                    invalid_request "SMTP host is invalid or not permitted"
                      (some "email.smtp.host"))

  abbrev replaces : Json → Bool
  replaces (text value) = not (platform.trim value == "")
  replaces _ = false

  unfoldable pub secret_changes : Json → Result (Dict String Bool)
  secret_changes raw = require_object raw "email" >>> λ email.
      require_object (or_empty (field "resend" email)) "email.resend" >>> λ resend.
      require_object (or_empty (field "smtp" email)) "email.smtp" >>> λ smtp. ok (
        ("resendApiKey", replaces (field "apiKey" resend))
        ∷ ("smtpPassword", replaces (field "password" smtp))
        ∷ [])
