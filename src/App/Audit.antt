-- ===== src/App/Audit.antt =====
-- app/audit.py: the log after an entry.
use py_auth.Prelude.{◌+◌, String, ◌≡◌, refl, Option, [], ◌∷◌, ◌++◌, map, length, length-append}
use py_auth.Json.{Fields}
use py_auth.App.Models.{Db, Env, OperationLog, add_operation_log}

module _ (env : Env) (username action target_type : String) (target_id : Option String)
    (detail : Option Fields) (db : Db) where
  abbrev pub entry : OperationLog
  entry = record {
    id = env.next_id (map (λ (l : OperationLog). l.id) db.logs);
    username = username;
    action = action;
    target_type = target_type;
    target_id = target_id;
    detail = detail;
    created_at = env.now;
  }

  pub logs-add :
      (add_operation_log env username action target_type target_id detail db).logs
      ≡ db.logs ++ entry ∷ []
  unfolding add_operation_log
  logs-add = refl

  pub length-add :
      length (add_operation_log env username action target_type target_id detail db).logs
      ≡ length db.logs + 1
  unfolding add_operation_log
  length-add = length-append db.logs (entry ∷ [])
