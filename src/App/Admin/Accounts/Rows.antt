-- ===== src/App/Admin/Accounts/Rows.antt =====
-- The rows of the user table under the administrators' operations.
use py_auth.Prelude.{
  Bool, Option, ◌⊎◌, ℕ, ◌+◌, String, ◌≡◌, ◌≢◌, refl, true, false, not, none, some, [], ◌∷◌, ◌++◌,
  length, find-holds, find-update, find-append_none, find-select_hit, find-select-none, ◌==◌,
  ==_iff, pos, sym, ap, ◌∙◌, select, map, ◌||◌, ◌is◌, is_refl, Option-cases, Bool-cases, inl, inr,
  arith,
}
use py_auth.Json.{int, end, field}
use py_auth.App.Models.{User, Db, Env, done, find_user, add_operation_log}
use py_auth.App.Services.{Services}
use py_auth.App.Auth.{new_user}
use py_auth.App.Audit
use py_auth.App.Invariant.{
  IsValid, IsFresh, IsValid-same, commit-IsValid, add_user-IsValid, update_users-IsValid,
  select_users-IsValid, user_key,
}
use py_auth.App.Admin.Accounts.{
  UserCreate, UserUpdate, create_user_by, update_user_by, delete_user_by, updated_user,
  find_user_by_id, password_hash_after, is_null, assign, bool_or, json_bool,
}

-- A user is created only under a name that nobody has. The new row is then found under that name
-- and has the password's hash and the rights that were asked for, by default an active user who is
-- no administrator, and one entry is added to the audit log.
pub create_user_done :
    (sv : Services) (env : Env) (new : UserCreate) (db : Db) (current user : User)
    → (create_user_by sv env new db current).0 ≡ done user
    → (find_user new.username db ≡ none)
      × (find_user new.username (create_user_by sv env new db current).1 ≡ some user)
      × (user.password_hash ≡ sv.hash env.salt new.password)
      × (user.is_admin ≡ bool_or false new.is_admin)
      × (user.is_active ≡ bool_or true new.is_active)
      × (length (create_user_by sv env new db current).1.logs ≡ length db.logs + 1)
unfolding create_user_by new_user find_user add_operation_log
create_user_done sv env new db current user h = elim (Option-cases (find_user new.username db)) [
  | inr (old, e) ↦ absurd (ground arith)
  | inl e ↦
      let row =
        new_user sv env new.username new.password (bool_or true new.is_active)
          (bool_or false new.is_admin) db in
      (
        e,
        ground (
          arith,
          is_refl new.username,
          find-append_none (λ (u : User). u.username is new.username) db.users row e,
        ),
        ground arith,
        ground arith,
        ground arith,
        ground (
          arith,
          Audit.length-add env current.username "create_user" "user" (some new.username)
              (some (
                field "is_admin" (json_bool new.is_admin)
                  (field "is_active" (json_bool new.is_active) end)))
              (record db { users = db.users ++ row ∷ [] }),
        ),
      )
]

-- A user who is deleted is gone and was there before, the deleting administrator is another one, every
-- other user is found as before, and the audit log has one more entry.
pub delete_user_done :
    (env : Env) (user_id other : ℕ) (db : Db) (current : User) (message : String)
    → (delete_user_by env user_id db current).0 ≡ done message
    → other ≢ user_id
    → (current.id ≢ user_id)
      × (find_user_by_id user_id db ≢ none)
      × (find_user_by_id user_id (delete_user_by env user_id db current).1 ≡ none)
      × (find_user_by_id other (delete_user_by env user_id db current).1 ≡ find_user_by_id other db)
      × (length (delete_user_by env user_id db current).1.logs ≡ length db.logs + 1)
unfolding delete_user_by find_user_by_id add_operation_log
delete_user_done env user_id other db current message h apart =
    elim (Option-cases (find_user_by_id user_id db)) [
      | inl e ↦ absurd (ground arith)
      | inr (user, e) ↦
          let same : user.id ≡ user_id =
            (==_iff user.id user_id).0
              (find-holds (λ (u : User). u.id == user_id) db.users user e) in
          (
            ground arith,
            ground arith,
            ground (
              arith,
              find-select-none (λ (u : User). u.id == user_id) (λ (u : User). not (u.id == user.id))
                  db.users (λ u hit. ground arith),
            ),
            ground (
              arith,
              find-select_hit (λ (u : User). u.id == other) (λ (u : User). not (u.id == user.id))
                  db.users (λ u hit. ground arith),
            ),
            ground (
              arith,
              Audit.length-add env current.username "delete_user" "user" (some user.username)
                  (some (field "user_id" (int (pos user_id)) end))
                  (record db { users = select (λ (u : User). not (u.id == user.id)) db.users }),
            ),
          )
    ]

-- whether a password is sent; an empty one is none
abbrev pub is_password : Option (Option String) → Bool
is_password (some (some p)) = not (p is "")
is_password _ = false

hash_after :
    (sv : Services) (env : Env) (sent : Option (Option String)) (old : String)
    → ((p : String) × (sent ≡ some (some p))
        × ((p is "") ≡ false)
        × (password_hash_after sv env sent old ≡ sv.hash env.salt p))
      ⊎ ((is_password sent ≡ false) × (password_hash_after sv env sent old ≡ old))
unfolding password_hash_after
hash_after sv env none old = inr (refl, refl)
hash_after sv env (some none) old = inr (refl, refl)
hash_after sv env (some (some p)) old = elim (Bool-cases (p is "")) [
  | inl e ↦ inr (rw e refl, rw e refl)
  | inr e ↦ inl (p, refl, e, rw e refl)
]

module _ (sv : Services) (env : Env) (change : UserUpdate) where
  password_after :
      (user : User)
      → ((p : String) × (change.password ≡ some (some p))
          × ((p is "") ≡ false)
          × ((updated_user sv env change user).password_hash ≡ sv.hash env.salt p))
        ⊎ ((is_password change.password ≡ false)
            × ((updated_user sv env change user).password_hash ≡ user.password_hash))
  unfolding updated_user
  password_after user = hash_after sv env change.password user.password_hash

  updated_id : (u : User) → (updated_user sv env change u).id ≡ u.id
  unfolding updated_user
  updated_id u = refl

  updated_name : (u : User) → (updated_user sv env change u).username ≡ u.username
  unfolding updated_user
  updated_name u = refl

  -- An update answers with the row that is then stored under the key. Name and key stay, each right
  -- is the one that was sent or the old one. The hash is that of the password if one that is not empty
  -- was sent, and stays otherwise.
  -- A null for one of the rights never succeeds.
  pub update_user_done :
      (user_id : ℕ) (db : Db) (current user : User)
      → (update_user_by sv env user_id change db current).0 ≡ done user
      → (old : User) × (find_user_by_id user_id db ≡ some old)
        × (find_user_by_id user_id (update_user_by sv env user_id change db current).1 ≡ some user)
        × (user.id ≡ old.id)
        × (user.username ≡ old.username)
        × (user.is_admin ≡ assign change.is_admin old.is_admin)
        × (user.is_active ≡ assign change.is_active old.is_active)
        × (((p : String) × (change.password ≡ some (some p))
              × ((p is "") ≡ false)
              × (user.password_hash ≡ sv.hash env.salt p))
            ⊎ ((is_password change.password ≡ false) × (user.password_hash ≡ old.password_hash)))
        × (is_null change.is_admin ≡ false)
        × (is_null change.is_active ≡ false)
  unfolding update_user_by find_user_by_id add_operation_log
  update_user_done user_id db current user h = elim (Option-cases (find_user_by_id user_id db)) [
    | inl e ↦ absurd (ground arith)
    | inr (old, e) ↦
        let row : updated_user sv env change old ≡ user = ground arith in
        (
          old,
          e,
          ground (
            arith,
            find-update (λ (u : User). u.id == user_id) (λ (u : User). u.id == old.id)
                (updated_user sv env change) db.users old (λ u. unfold updated_user in refl) e
                ((==_iff old.id old.id).1 refl),
          ),
          ap (λ (u : User). u.id) (sym row) ∙ updated_id old,
          ap (λ (u : User). u.username) (sym row) ∙ updated_name old,
          ap (λ (u : User). u.is_admin) (sym row) ∙ (unfold updated_user in refl),
          ap (λ (u : User). u.is_active) (sym row) ∙ (unfold updated_user in refl),
          (let hash = ap (λ (u : User). u.password_hash) (sym row) in
              elim (password_after old) [
                | inl (p, sent, full, e) ↦ inl (p, sent, full, hash ∙ e)
                | inr (missing, e) ↦ inr (missing, hash ∙ e)
              ]),
          ground arith,
          ground arith,
        )
  ]

module _ (sv : Services) (env : Env) (db : Db) (current : User) (v : IsValid db) where
  pub create_user-IsValid :
      (new : UserCreate) → IsFresh env → IsValid (create_user_by sv env new db current).1
  unfolding create_user_by
  create_user-IsValid new fresh = elim (Option-cases (find_user new.username db)) [
    | inr (old, e) ↦ rw (e, create_user_by) v
    | inl e ↦
        let row =
          new_user sv env new.username new.password (bool_or true new.is_active)
            (bool_or false new.is_admin) db in
        rw (e, create_user_by)
          (commit-IsValid env _ v (
            IsValid-same _
              (add_user-IsValid v row (unfold new_user in e)
                (unfold new_user in fresh (map user_key db.users)))
              (unfold add_operation_log in refl) (unfold add_operation_log in refl)))
  ]

  pub update_user-IsValid :
      (change : UserUpdate) (user_id : ℕ)
      → IsValid (update_user_by sv env user_id change db current).1
  unfolding update_user_by
  update_user-IsValid change user_id = elim (Option-cases (find_user_by_id user_id db)) [
    | inl e ↦ rw (e, update_user_by) v
    | inr (old, e) ↦ elim (Bool-cases (is_null change.is_admin || is_null change.is_active)) [
      | inl f ↦ rw (e, f, update_user_by) v
      | inr f ↦
          rw (e, f, update_user_by)
            (commit-IsValid env _ v (
              IsValid-same _
                (update_users-IsValid v (λ (u : User). u.id == old.id) (updated_user sv env change)
                  (updated_id sv env change) (updated_name sv env change))
                (unfold add_operation_log in refl) (unfold add_operation_log in refl)))
    ]
  ]

  pub delete_user-IsValid : (user_id : ℕ) → IsValid (delete_user_by env user_id db current).1
  unfolding delete_user_by
  delete_user-IsValid user_id = elim (Option-cases (find_user_by_id user_id db)) [
    | inl e ↦ elim (Bool-cases (current.id == user_id)) [
      | inl f ↦ rw (f, delete_user_by) v
      | inr f ↦ rw (f, e, delete_user_by) v
    ]
    | inr (old, e) ↦ elim (Bool-cases (current.id == user_id)) [
      | inl f ↦ rw (f, delete_user_by) v
      | inr f ↦
          rw (f, e, delete_user_by)
            (commit-IsValid env _ v (
              IsValid-same _ (select_users-IsValid v (λ (u : User). not (u.id == old.id)))
                (unfold add_operation_log in refl) (unfold add_operation_log in refl)))
    ]
  ]

-- The operations of the administrators on users keep every key and every name unique, whatever
-- their outcome.
pub accounts-IsValid :
    (sv : Services) (env : Env) (new : UserCreate) (change : UserUpdate) (user_id : ℕ) (db : Db)
    (current : User)
    → IsFresh env
    → IsValid db
    → IsValid (create_user_by sv env new db current).1
      × IsValid (update_user_by sv env user_id change db current).1
      × IsValid (delete_user_by env user_id db current).1
accounts-IsValid sv env new change user_id db current fresh v = (
  create_user-IsValid sv env db current v new fresh,
  update_user-IsValid sv env db current v change user_id,
  delete_user-IsValid sv env db current v user_id,
)
