-- ===== src/App/Services.antt =====
-- The libraries that the server calls: the cipher of `cryptography`, `json`, the password hashes
-- of passlib, the tokens of jose and the request models of pydantic. `none` is an exception.
use py_auth.Prelude.{ℕ, String, Bool, Option}
use py_auth.Json.{Json, Fields}

-- `DeviceAuthRequest`
pub record DeviceAuthRequest : Type 0 where
  pub device_id : String
  pub software_name : Option String
  pub device_info : Option Fields

pub record Services : Type 0 where
  -- `Fernet(urlsafe_b64encode(sha256(secret)))`
  pub fernet : String → Option String
  pub encrypt : String → String → Option String
  pub decrypt : String → String → Option String
  pub dumps : Json → Option String
  pub loads : String → Option Json
  -- `pwd_context.hash` with the salt that it draws, and `pwd_context.verify`
  pub hash : ℕ → String → String
  pub verify : String → String → Bool
  -- `jwt.encode`, and `jwt.decode` at a time: it refuses a bad signature, an expired token, and a
  -- payload whose `sub` is no text
  pub jwt_encode : Fields → String
  pub jwt_decode : ℕ → String → Option Fields
  -- `DeviceAuthRequest(**data)`
  pub device_auth_request : Json → Option DeviceAuthRequest
