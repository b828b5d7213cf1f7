-- ===== src/Client/Errors.antt =====
-- client/python/py_auth_client/auth_client.py: `AuthorizationError`, which `require_authorization`
-- raises with the result of the check.
use py_auth.Prelude.{
  ◌≡◌, String, Bool, false, not, ◌&&◌, ◌||◌, Option, none, some, List, [], ◌∷◌, arith, Bool-cases,
  ◌is◌, if◌then◌else◌,
}
use py_auth.Text.{append, join, has_part}
use py_auth.Json.{str}
use py_auth.Client.Check.{CheckResult, require_authorization}

pub record AuthorizationError : Type 0 where
  pub message : String
  pub result : Option CheckResult
  pub device_id : String
  pub server_url : String

-- `is_unauthorized`
unfoldable pub is_unauthorized : AuthorizationError → Bool
unfolding has_part
is_unauthorized e = elim e.result [
  | some r ↦ not r.authorized && r.success
  | none ↦ has_part e.message "未授权" || has_part e.message "禁用"
]

-- `is_validation_error`
unfoldable pub is_validation_error : AuthorizationError → Bool
unfolding has_part
is_validation_error e = elim e.result [
  | some r ↦ not r.success
  | none ↦ has_part e.message "无法验证授权" || has_part e.message "验证失败"
]

-- the texts of which one marks an error of the network
abbrev network_keywords : List String
network_keywords = "连接失败" ∷ "连接" ∷ "network" ∷ "timeout" ∷ "connection" ∷ []

abbrev any_keyword : String → String → List String → Bool
any_keyword checked message [] = false
any_keyword checked message (keyword ∷ keywords) =
    has_part checked keyword || has_part message keyword || any_keyword checked message keywords

-- the message of the result in lower case; a message that is no text raises, here `none`
abbrev lower_message : (String → String) → Option CheckResult → Option String
lower_message lower none = some ""
lower_message lower (some r) = elim r.message [ str text ↦ some (lower text) | _ ↦ none ]

-- `is_network_error`; `lower` is Python's `str.lower`
unfoldable pub is_network_error : (String → String) → AuthorizationError → Option Bool
unfolding has_part
is_network_error lower e = elim (lower_message lower e.result) [
  | none ↦ none
  | some checked ↦ some (any_keyword checked (lower e.message) network_keywords)
]

-- `__repr__`
unfoldable pub repr : AuthorizationError → String
unfolding join
repr e =
    let named : String → String → List String → List String = λ key value rest.
      if value is ""
      then rest
      else append (append (append ", " key) (append "='" value)) "'" ∷ rest in
    join ", " (
      append (append "AuthorizationError('" e.message) "'"
      ∷ named "device_id" e.device_id (named "server_url" e.server_url (")" ∷ [])))

-- An error that `require_authorization` raises is exactly one of the two: the check succeeded and the
-- device is not authorized, or the check failed.
pub require_authorization_kind :
    (raise_exception : Bool) (r result : CheckResult) (e : AuthorizationError)
    → (require_authorization raise_exception r).0 ≡ some result
    → e.result ≡ some result
    → is_unauthorized e ≡ not (is_validation_error e)
unfolding require_authorization is_unauthorized is_validation_error
require_authorization_kind raise_exception r result e raised kept =
    ground (arith, Bool-cases r.success, Bool-cases r.authorized, Bool-cases raise_exception)
