-- ===== src/App/Ws/Keeps.antt =====
-- app/routers/ws.py and the constraints on the tables: a rule for each way to build a step of a
-- handler, and with them the handlers.
use py_auth.Prelude.{
  ℕ, String, refl, Bool, true, false, not, Option, none, some, List, [], ◌∷◌, if◌then◌else◌, ◌is◌,
  Bool-cases, Option-cases, inl, inr, ◌==◌,
}
use py_auth.Json.{Json, Fields, obj, get}
use py_auth.App.Models.{Device, Db, Env, add_operation_log}
use py_auth.App.Services.{Services}
use py_auth.App.Heartbeat.{World, Network, send_all}
use py_auth.App.Invariant.{IsValid, IsValid-same, update_devices-IsValid, select_devices-IsValid}
use py_auth.App.Ws.Act.{
  Act, Attempt, ok, raise, continue, ◌>>=◌, ensure, require, read_db, commit_db, send, announce,
}
use py_auth.App.Ws.Values.{Python}
use py_auth.App.Ws.Devices.{
  SortField, get_devices, update_device, delete_device, store_update, store_delete, updated_device,
}
use py_auth.App.Ws.Batch.{delete_devices, store_deletions, log_deletions}
use py_auth.App.Ws.Session.{
  finish, report, reporting, error_message, kind_of, dispatch, received, receive, session,
}

-- `act` keeps the constraints on the tables, whether it returns or raises
pub record Keeps {A : Type 0} (act : Act A) : Type 0 where
  pub at : (w : World) → IsValid w.db → IsValid (act w).1.db

module _ {A B : Type 0} where
  Keeps-continue :
      (r : Attempt A) (f : A → Act B) (w : World)
      → ((a : A) → Keeps (f a))
      → IsValid w.db
      → IsValid (continue r f w).1.db
  Keeps-continue (ok a) f w kf v = (kf a).at w v
  Keeps-continue (raise message) f w kf v = v

  pub Keeps-bind : (m : Act A) (f : A → Act B) → Keeps m → ((a : A) → Keeps (f a)) → Keeps (m >>= f)
  Keeps-bind m f km kf = record {
    at = λ w v. let (r, w') = m w in Keeps-continue r f w' kf (km.at w v);
  }

Keeps-ensure : (b : Bool) (message : String) → Keeps (ensure b message)
Keeps-ensure true message = record { at = λ w v. v }
Keeps-ensure false message = record { at = λ w v. v }

Keeps-require : {A : Type 0} (o : Option A) (message : String) → Keeps (require o message)
Keeps-require none message = record { at = λ w v. v }
Keeps-require (some a) message = record { at = λ w v. v }

-- what is read are tables that meet the constraints
Keeps-read :
    {B : Type 0} (f : Db → Act B) → ((db : Db) → IsValid db → Keeps (f db)) → Keeps (read_db >>= f)
Keeps-read f kf = record { at = λ w v. (kf w.db v).at w v }

Keeps-commit_db : (env : Env) (db : Db) → IsValid db → Keeps (commit_db env db)
unfolding commit_db
Keeps-commit_db env db valid = record {
  at = λ w v. elim (Bool-cases env.commit_ok) [ inl e ↦ rw e valid | inr e ↦ rw e v ];
}

Keeps-send : (net : Network) (me : ℕ) (message : Fields) → Keeps (send net me message)
unfolding send
Keeps-send net me message = record {
  at = λ w v. elim (Bool-cases (net.alive me)) [ inl e ↦ rw e v | inr e ↦ rw e v ];
}

Keeps-announce : (net : Network) (message : Fields) → Keeps (announce net message)
unfolding announce
Keeps-announce net message = record {
  at = λ w v. elim (Bool-cases (send_all net message w).0) [
    | inl e ↦ rw e (unfold send_all in v)
    | inr e ↦ rw e (unfold send_all in v)
  ];
}

store_update-IsValid :
    (env : Env) (actor : String) (allowed : Fields) (remark : Option String) (device : Device)
    (db : Db)
    → IsValid db
    → IsValid (store_update env actor allowed remark device db)
unfolding store_update updated_device add_operation_log
store_update-IsValid env actor allowed remark device db v =
    IsValid-same _
      (update_devices-IsValid v (λ (d : Device). d.id == device.id)
        (updated_device env allowed remark) (λ d. refl) (λ d. refl))
      refl refl

store_delete-IsValid :
    (env : Env) (actor target : String) (db : Db)
    → IsValid db
    → IsValid (store_delete env actor target db)
unfolding store_delete add_operation_log
store_delete-IsValid env actor target db v =
    IsValid-same _ (select_devices-IsValid v (λ (d : Device). not (d.device_id is target))) refl
      refl

log_deletions-IsValid :
    (env : Env) (actor : String) (ids : List String) (db : Db)
    → IsValid db
    → IsValid (log_deletions env actor ids db)
unfolding log_deletions add_operation_log
log_deletions-IsValid env actor [] db v = v
log_deletions-IsValid env actor (did ∷ ids) db v =
    log_deletions-IsValid env actor ids _ (IsValid-same _ v refl refl)

store_deletions-IsValid :
    (env : Env) (actor : String) (ids : List String) (db : Db)
    → IsValid db
    → IsValid (store_deletions env actor ids db)
unfolding store_deletions
store_deletions-IsValid env actor ids db v =
    log_deletions-IsValid env actor ids _ (select_devices-IsValid v _)

ruleset keeps_rules = (
  Keeps-bind, Keeps-read, Keeps-ensure, Keeps-require, Keeps-commit_db, Keeps-send, Keeps-announce,
  store_update-IsValid, store_delete-IsValid, store_deletions-IsValid,
)

module _ (py : Python) (env : Env) (net : Network) (actor : String) (me : ℕ)
    (message : Fields) where
  update_device-Keeps : Keeps (update_device py env net actor me message)
  unfolding update_device
  update_device-Keeps = search keeps_rules depth 12

  delete_device-Keeps : Keeps (delete_device py env net actor me message)
  unfolding delete_device
  delete_device-Keeps = search keeps_rules depth 12

  delete_devices-Keeps : Keeps (delete_devices py env net actor me message)
  unfolding delete_devices
  delete_devices-Keeps = search keeps_rules depth 12

  get_devices-Keeps :
      (order : SortField → Bool → List Device → List Device)
      → Keeps (get_devices py order net me message)
  unfolding get_devices
  get_devices-Keeps order = search keeps_rules depth 12

reporting_after :
    (net : Network) (me : ℕ) (request_id : Json) (fallback : String) (r : Attempt Unit × World)
    → IsValid r.1.db
    → IsValid (report net me request_id fallback r).1.db
unfolding report
reporting_after net me request_id fallback (ok a, w) v = v
reporting_after net me request_id fallback (raise text, w) v =
    (Keeps-send net me (error_message request_id text fallback)).at w v

reporting-Keeps :
    (net : Network) (me : ℕ) (request_id : Json) (fallback : String) (act : Act Unit)
    → Keeps act
    → Keeps (reporting net me request_id fallback act)
unfolding reporting
reporting-Keeps net me request_id fallback act k = record {
  at = λ w v. reporting_after net me request_id fallback (act w) (k.at w v);
}

finish-IsValid : (me : ℕ) (r : Attempt Unit × World) → IsValid r.1.db → IsValid (finish me r).1.db
unfolding finish
finish-IsValid me (ok a, w) v = v
finish-IsValid me (raise text, w) v = v

if-Keeps : (b : Bool) (m n : Act Unit) → Keeps m → Keeps n → Keeps (λ w. if b then m w else n w)
if-Keeps true m n km kn = km
if-Keeps false m n km kn = kn

module _ (py : Python) (order : SortField → Bool → List Device → List Device) where
  dispatch-Keeps :
      (env : Env) (net : Network) (actor : String) (me : ℕ) (message : Fields) (kind : String)
      → Keeps (dispatch py order env net actor me message kind)
  unfolding dispatch
  dispatch-Keeps env net actor me message kind =
      if-Keeps (kind is "get_devices") _ _ (get_devices-Keeps py env net actor me message order) (
        if-Keeps (kind is "update_device") _ _
          (reporting-Keeps net me _ _ _ (update_device-Keeps py env net actor me message))
          (if-Keeps (kind is "delete_device") _ _
            (reporting-Keeps net me _ _ _ (delete_device-Keeps py env net actor me message))
            (if-Keeps (kind is "delete_devices") _ _
              (reporting-Keeps net me _ _ _ (delete_devices-Keeps py env net actor me message))
              (record { at = λ w v. v }))))

  received-IsValid :
      (env : Env) (net : Network) (actor : String) (me : ℕ) (w : World) (message : Json)
      → IsValid w.db
      → IsValid (received py order env net actor me w message).1.db
  unfolding received
  received-IsValid env net actor me w (obj d) v =
      finish-IsValid me (dispatch py order env net actor me d (kind_of (get "type" d)) w)
        ((dispatch-Keeps env net actor me d (kind_of (get "type" d))).at w v)
  received-IsValid env net actor me w _ v = v

  pub receive-IsValid :
      (sv : Services) (env : Env) (net : Network) (actor : String) (me : ℕ) (text : String)
      (w : World)
      → IsValid w.db
      → IsValid (receive py order sv env net actor me text w).1.db
  unfolding receive
  receive-IsValid sv env net actor me text w v = elim (Option-cases (sv.loads text)) [
    | inl e ↦ rw (e, receive) v
    | inr (message, e) ↦ rw (e, receive) (received-IsValid env net actor me w message v)
  ]

  -- Whatever a console sends, in whatever order and with whatever failures of the network, the
  -- database and other tasks, every key and every name stays unique.
  pub session-IsValid :
      (sv : Services) (actor : String) (me : ℕ) (texts : List (Env × Network × String)) (w : World)
      → IsValid w.db
      → IsValid (session py order sv actor me texts w).1.db
  unfolding session
  session-IsValid sv actor me [] w v = v
  session-IsValid sv actor me ((env, net, text) ∷ rest) w v =
      let (open_still, w') = receive py order sv env net actor me text w in
      let v' = receive-IsValid sv env net actor me text w v in
      elim (Bool-cases (receive py order sv env net actor me text w).0) [
        | inl e ↦ rw (e, session) (session-IsValid sv actor me rest w' v')
        | inr e ↦ rw (e, session) v'
      ]
