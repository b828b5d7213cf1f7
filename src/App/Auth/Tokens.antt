-- ===== src/App/Auth/Tokens.antt =====
-- Tokens and the current user.
use py_auth.Prelude.{
  ℕ, String, ◌≡◌, ◌↔◌, true, Option, none, some, arith, is_iff, ◌is◌, find-holds, ap, ◌∙◌,
  Option-cases, inl, inr, pos,
}
use py_auth.Json.{Fields, str, int, end, field, get, put}
use py_auth.App.Models.{User, Db, done, find_user}
use py_auth.App.Services.{Services}
use py_auth.App.Auth.{
  get_current_user, get_current_user_optional, user_of_payload, verify_token, subject, expiry,
  create_access_token,
}

-- `get_current_user_optional` returns a user exactly when `get_current_user` does, and the same one.
pub optional_iff_current :
    (sv : Services) (now : ℕ) (db : Db) (credentials : Option String) (u : User)
    → (get_current_user_optional sv now db credentials ≡ some u)
      ↔ (get_current_user sv now db credentials ≡ done u)
unfolding get_current_user get_current_user_optional
optional_iff_current sv now db none u = ground arith
optional_iff_current sv now db (some token) u = ground arith

pub find_user-name :
    (name : String) (db : Db) (u : User)
    → find_user name db ≡ some u
    → find_user u.username db ≡ some u
find_user-name name db u h =
    let e : u.username ≡ name =
      (is_iff u.username name).0
        (unfold find_user in find-holds (λ (v : User). v.username is name) db.users u h) in
    ap (λ n. find_user n db) e ∙ h

current-active_payload :
    (db : Db) (payload : Option Fields) (u : User)
    → user_of_payload db payload ≡ done u
    → (u.is_active ≡ true) × (find_user u.username db ≡ some u)
unfolding user_of_payload
current-active_payload db none u h = ground arith
current-active_payload db (some payload) u h = elim (Option-cases (subject payload)) [
  | inl e ↦ absurd (ground arith)
  | inr (name, e) ↦ elim (Option-cases (find_user name db)) [
    | inl f ↦ absurd (ground arith)
    | inr (v, f) ↦ ground (arith, find_user-name name db v f)
  ]
]

-- A current user is an active row of the table whose name the token carries.
pub current-active :
    (sv : Services) (now : ℕ) (db : Db) (credentials : Option String) (u : User)
    → get_current_user sv now db credentials ≡ done u
    → (u.is_active ≡ true) × (find_user u.username db ≡ some u)
unfolding get_current_user
current-active sv now db none u h = ground arith
current-active sv now db (some token) u h =
    current-active_payload db (verify_token sv now token) u h

-- the payload of the token that `login` makes
abbrev pub login_payload : ℕ → ℕ → Option ℕ → String → Fields
login_payload minutes now delta username =
    field "sub" (str username) (field "exp" (int (pos (expiry minutes now delta))) end)

-- A token that `create_access_token` made for an active user leads back to that user, at every
-- time at which the token library still returns the payload that was signed.
pub token_roundtrip :
    (sv : Services) (minutes now later : ℕ) (delta : Option ℕ) (db : Db) (u : User)
    → find_user u.username db ≡ some u
    → u.is_active ≡ true
    → sv.jwt_decode later (sv.jwt_encode (login_payload minutes now delta u.username))
      ≡ some (login_payload minutes now delta u.username)
    → get_current_user sv later db
        (some (create_access_token sv minutes now (field "sub" (str u.username) end) delta))
      ≡ done u
unfolding get_current_user create_access_token put subject get ◌is◌
token_roundtrip sv minutes now later delta db u found active decodes = ground arith
