-- ===== src/App/Invariant.antt =====
-- The constraints of app/models.py on devices and users: primary keys and unique columns. Those of the
-- tables of settings and of the audit log, `config.key` and `operation_logs.id`, are not among them.
use py_auth.Prelude.{
  ℕ, String, ◌≡◌, ◌≢◌, Bool, false, none, List, [], ◌∷◌, ◌++◌, map, find, select, update, ◌is◌,
  is_iff, All, arith, Bool-cases, inl, inr,
}
use py_auth.Prelude.Distinct.{
  Distinct, Distinct-append, Distinct-select, Distinct-update, All-find, All-mono, All-unmap,
}
use py_auth.App.Models.{Device, User, Db, Env, commit, find_user, find_device}

abbrev pub device_key : Device → ℕ
device_key d = d.id

abbrev pub device_name : Device → String
device_name d = d.device_id

abbrev pub user_key : User → ℕ
user_key u = u.id

abbrev pub user_name : User → String
user_name u = u.username

pub record IsValid (db : Db) : Type 0 where
  pub device_keys : Distinct device_key db.devices
  pub device_names : Distinct device_name db.devices
  pub user_keys : Distinct user_key db.users
  pub user_names : Distinct user_name db.users

-- a primary key that the database gives is new
abbrev pub IsFresh : Env → Type 0
IsFresh env = (ids : List ℕ) → All (λ i. i ≢ env.next_id ids) ids

All-named {ℓ} :
    {A : Type ℓ} (name : A → String) (s : String) (xs : List A)
    → find (λ x. name x is s) xs ≡ none
    → All (λ x. name x ≢ s) xs
All-named name s xs h =
    All-mono (λ x. (name x is s) ≡ false) (λ x. name x ≢ s) xs
      (λ x e same. ground (arith, is_iff (name x) s)) (All-find (λ x. name x is s) xs h)

module _ {db : Db} (v : IsValid db) where
  pub add_user-IsValid :
      (u : User)
      → find_user u.username db ≡ none
      → All (λ i. i ≢ u.id) (map user_key db.users)
      → IsValid (record db { users = db.users ++ u ∷ [] })
  unfolding find_user
  add_user-IsValid u missing fresh = record {
    device_keys = v.device_keys;
    device_names = v.device_names;
    user_keys =
        Distinct-append user_key u db.users v.user_keys
          (All-unmap (λ i. i ≢ u.id) user_key db.users fresh);
    user_names =
        Distinct-append user_name u db.users v.user_names
          (All-named user_name u.username db.users missing);
  }

  pub add_device-IsValid :
      (d : Device)
      → find_device d.device_id db ≡ none
      → All (λ i. i ≢ d.id) (map device_key db.devices)
      → IsValid (record db { devices = db.devices ++ d ∷ [] })
  unfolding find_device
  add_device-IsValid d missing fresh = record {
    device_keys =
        Distinct-append device_key d db.devices v.device_keys
          (All-unmap (λ i. i ≢ d.id) device_key db.devices fresh);
    device_names =
        Distinct-append device_name d db.devices v.device_names
          (All-named device_name d.device_id db.devices missing);
    user_keys = v.user_keys;
    user_names = v.user_names;
  }

  pub update_devices-IsValid :
      (p : Device → Bool) (f : Device → Device)
      → ((d : Device) → (f d).id ≡ d.id)
      → ((d : Device) → (f d).device_id ≡ d.device_id)
      → IsValid (record db { devices = update p f db.devices })
  update_devices-IsValid p f same_id same_name = record {
    device_keys = Distinct-update device_key p f same_id db.devices v.device_keys;
    device_names = Distinct-update device_name p f same_name db.devices v.device_names;
    user_keys = v.user_keys;
    user_names = v.user_names;
  }

  pub update_users-IsValid :
      (p : User → Bool) (f : User → User)
      → ((u : User) → (f u).id ≡ u.id)
      → ((u : User) → (f u).username ≡ u.username)
      → IsValid (record db { users = update p f db.users })
  update_users-IsValid p f same_id same_name = record {
    device_keys = v.device_keys;
    device_names = v.device_names;
    user_keys = Distinct-update user_key p f same_id db.users v.user_keys;
    user_names = Distinct-update user_name p f same_name db.users v.user_names;
  }

  pub select_devices-IsValid :
      (p : Device → Bool) → IsValid (record db { devices = select p db.devices })
  select_devices-IsValid p = record {
    device_keys = Distinct-select device_key p db.devices v.device_keys;
    device_names = Distinct-select device_name p db.devices v.device_names;
    user_keys = v.user_keys;
    user_names = v.user_names;
  }

  pub select_users-IsValid : (p : User → Bool) → IsValid (record db { users = select p db.users })
  select_users-IsValid p = record {
    device_keys = v.device_keys;
    device_names = v.device_names;
    user_keys = Distinct-select user_key p db.users v.user_keys;
    user_names = Distinct-select user_name p db.users v.user_names;
  }

-- the tables of settings and of the audit log may change
pub IsValid-same :
    {db : Db} (db' : Db)
    → IsValid db
    → db'.devices ≡ db.devices
    → db'.users ≡ db.users
    → IsValid db'
IsValid-same db' v same_devices same_users = record {
  device_keys = rw same_devices v.device_keys;
  device_names = rw same_devices v.device_names;
  user_keys = rw same_users v.user_keys;
  user_names = rw same_users v.user_names;
}

pub commit-IsValid {ℓ} :
    {A : Type ℓ} (env : Env) {old new : Db} (a : A)
    → IsValid old
    → IsValid new
    → IsValid (commit env old new a).1
commit-IsValid env a v w = elim (Bool-cases env.commit_ok) [ inl e ↦ rw e w | inr e ↦ rw e v ]
