-- ===== src/App/Deps.antt =====
-- app/deps.py and the way that FastAPI runs the dependencies of a route: the current user is found
-- first, and where that fails the handler is not called and the tables stay as they are.
use py_auth.Prelude.{ℕ, String, ◌≡◌, refl, arith, Option, if◌then◌else◌}
use py_auth.App.Models.{User, Db, Response, done, fail}
use py_auth.App.Services.{Services}
use py_auth.App.Auth.{get_current_user}

unfoldable pub require_admin : Response User → Response User
require_admin (fail status detail) = fail status detail
require_admin (done user) = if user.is_admin then done user else fail 403 "没有权限"

unfoldable pub run_with {ℓ} :
    {A : Type ℓ} → Response User → Db → (User → Response A × Db) → Response A × Db
run_with (fail status detail) db handler = (fail status detail, db)
run_with (done user) db handler = handler user

-- `Depends(get_current_user)`
unfoldable pub as_user {ℓ} :
    {A : Type ℓ} → Services → ℕ → Option String → Db → (User → Response A × Db) → Response A × Db
unfolding run_with
as_user sv now credentials db = run_with (get_current_user sv now db credentials) db

-- `Depends(require_admin)`
unfoldable pub as_admin {ℓ} :
    {A : Type ℓ} → Services → ℕ → Option String → Db → (User → Response A × Db) → Response A × Db
unfolding run_with
as_admin sv now credentials db =
    run_with (require_admin (get_current_user sv now db credentials)) db

-- A handler that returned was called with a user whom the dependency found.
pub run_with_done {ℓ} :
    {A : Type ℓ} (r : Response User) (db : Db) (handler : User → Response A × Db) (a : A)
    → (run_with r db handler).0 ≡ done a
    → (user : User) × (r ≡ done user)
unfolding run_with
run_with_done (fail status detail) db handler a h = ground arith
run_with_done (done user) db handler a h = (user, refl)
