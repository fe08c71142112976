-- ===== src/Body.antt =====
-- management/request-body.ts: the parsed JSON of a request, and the checks of its fields.
use Prim.Native.String.{◌++◌ as str_append}
use cqut_auth.Base.{
  ◌≡◌, Option-cases, Bool-cases, inl, inr, arith, nat_eq, ℕ, String, Bool, false, ◌||◌, Option,
  none, some, List, [], ◌∷◌, ◌==◌, string_eq, ltb, if◌then◌else◌,
}
use cqut_auth.Contracts.{Result, ok, err, Failure, management, ◌>>=◌}

-- A value of a body. The numbers that are told apart are the integers from 0 on; the items of an
-- array are not read.
mutual
  pub data Json : Type 0 where
    undefined null array other_number : Json
    boolean : Bool → Json
    number : ℕ → Json
    text : String → Json
    object : Members → Json

  pub data Members : Type 0 where
    end : Members
    entry : String → Json → Members → Members

-- The string functions of JavaScript that the services call.
pub record Platform : Type 0 where
  pub trim : String → String
  pub to_lower_case : String → String
  -- The length in UTF-16 code units.
  pub units : String → ℕ
  pub includes : String → String → Bool
  pub decimal : ℕ → String

-- `body[key]`
unfoldable pub field : String → Members → Json
field key end = undefined
field key (entry k v more) = let rest = field key more in if k == key then v else rest

abbrev pub keys : Members → List String
keys end = []
keys (entry k v more) = k ∷ keys more

abbrev pub invalid_request : String → Option String → Failure
invalid_request message at = management (record {
  status = 400;
  code = "invalid_request";
  message = message;
  field = at;
  retry_after_seconds = none;
})

unfoldable pub require_object : Json → Result Members
require_object (object body) = ok body
require_object _ = err (invalid_request "request body must be an object" none)

abbrev pub one_of : String → List String → Bool
one_of x [] = false
one_of x (y ∷ ys) = y == x || one_of x ys

-- `Object.keys(body).find((key) => !allowedKeys.has(key))`
abbrev pub unexpected : List String → List String → Option String
unexpected allowed [] = none
unexpected allowed (k ∷ ks) =
    let later = unexpected allowed ks in if one_of k allowed then later else some k

-- The key that is found counts where it is truthy: the empty key is let pass, and hides the rest.
unfoldable pub assert_allowed_keys : Json → List String → Result Members
unfolding require_object
assert_allowed_keys raw allowed = require_object raw >>= λ body.
    elim (unexpected allowed (keys body)) [
      | none ↦ ok body
      | some key ↦
          if key == ""
          then ok body
          else err (invalid_request (str_append "unsupported request field: " key) (some key))
    ]

unfoldable pub parse_positive_version : Json → String → Result ℕ
parse_positive_version (number n) name =
    if ltb 0 n
    then ok n
    else err (invalid_request (str_append name " must be a positive integer") (some name))
parse_positive_version _ name =
    err (invalid_request (str_append name " must be a positive integer") (some name))

module _ (platform : Platform) where
  abbrev wrong_length : String → ℕ → ℕ → Failure
  wrong_length name min max =
      invalid_request
        (str_append name (
          str_append " must contain " (
            str_append (platform.decimal min)
              (str_append "-" (str_append (platform.decimal max) " characters")))))
        (some name)

  unfoldable pub parse_text : Json → String → ℕ → ℕ → Result String
  parse_text (text value) name min max =
      let normalized = platform.trim value in
      if ltb (platform.units normalized) min || ltb max (platform.units normalized)
      then err (wrong_length name min max)
      else ok normalized
  parse_text _ name min max =
      err (invalid_request (str_append name " must be a string") (some name))

-- A body that is let pass is an object.
pub assert_allowed_keys-object :
    (raw : Json) (allowed : List String) (body : Members)
    → assert_allowed_keys raw allowed ≡ ok body
    → raw ≡ object body
unfolding assert_allowed_keys require_object
assert_allowed_keys-object (object more) allowed body e =
    elim (Option-cases (unexpected allowed (keys more))) [
      | inl fine ↦ ground (arith, e, fine)
      | inr (key, odd) ↦ ground (arith, e, odd)
    ]
assert_allowed_keys-object undefined allowed body e = absurd (ground (arith, e))
assert_allowed_keys-object null allowed body e = absurd (ground (arith, e))
assert_allowed_keys-object array allowed body e = absurd (ground (arith, e))
assert_allowed_keys-object other_number allowed body e = absurd (ground (arith, e))
assert_allowed_keys-object (boolean b) allowed body e = absurd (ground (arith, e))
assert_allowed_keys-object (number n) allowed body e = absurd (ground (arith, e))
assert_allowed_keys-object (text t) allowed body e = absurd (ground (arith, e))

-- A version that is let pass is a number of the body, not another one.
pub parse_positive_version-number :
    (value : Json) (name : String) (n : ℕ)
    → parse_positive_version value name ≡ ok n
    → value ≡ number n
unfolding parse_positive_version
parse_positive_version-number (number m) name n e = elim (Bool-cases (ltb 0 m)) [
  | inl fine ↦ ground (arith, e, fine)
  | inr bad ↦ absurd (ground (arith, e, bad))
]
parse_positive_version-number undefined name n e = absurd (ground (arith, e))
parse_positive_version-number null name n e = absurd (ground (arith, e))
parse_positive_version-number array name n e = absurd (ground (arith, e))
parse_positive_version-number other_number name n e = absurd (ground (arith, e))
parse_positive_version-number (boolean b) name n e = absurd (ground (arith, e))
parse_positive_version-number (text t) name n e = absurd (ground (arith, e))
parse_positive_version-number (object m) name n e = absurd (ground (arith, e))
