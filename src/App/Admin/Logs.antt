-- ===== src/App/Admin/Logs.antt =====
-- app/routers/admin.py: `GET` and `DELETE /api/admin/logs`.
-- `newest_first` is the order that the database gives to `ORDER BY created_at DESC` in this one
-- request: entries of the same time have no fixed order, and another request may get another one.
pub mod Cleanup
use py_auth.Prelude.{
  ℕ, ◌-◌, ◌*◌, String, Bool, true, false, not, Option, none, some, List, length, take, drop, select,
  min, ltb, ◌==◌, if◌then◌else◌, ℤ, pos, at_least_one,
}
use py_auth.Json.{Fields, int, str, end, field}
use py_auth.App.Models.{
  User, Db, Env, OperationLog, Response, done, fail, internal_error, commit, add_operation_log,
}
use py_auth.App.Services.{Services}
use py_auth.App.Deps.{as_admin}
use py_auth.App.Paging.{page_of, clamp_size}

pub record LogPage : Type 0 where
  pub total : ℕ
  pub logs : List OperationLog

module _ (newest_first : List OperationLog → List OperationLog) where
  unfoldable pub log_page : ℤ → ℤ → Db → LogPage
  unfolding page_of clamp_size
  log_page page page_size db = record {
    total = length db.logs;
    logs = page_of (at_least_one page) (clamp_size page_size) (newest_first db.logs);
  }

  unfoldable pub get_operation_logs :
      Services → Env → Option String → ℤ → ℤ → Db → Response LogPage × Db
  unfolding as_admin log_page
  get_operation_logs sv env credentials page page_size db =
      as_admin sv env.now credentials db λ _. (done (log_page page page_size db), db)

-- "已清空全部审计日志", and the text "已清理 {days} 天前日志" with its number
pub data CleanupMessage : Type 0 where
  all_cleared : CleanupMessage
  cleared_before : ℕ → CleanupMessage

pub record CleanupReply : Type 0 where
  pub message : CleanupMessage
  pub deleted_count : ℕ
  pub days : ℕ

-- the entries that a cleanup keeps
unfoldable pub kept_logs : ℕ → ℕ → List OperationLog → List OperationLog
kept_logs now days logs =
    select
      (λ (l : OperationLog).
        if days == 0 then false else not (ltb l.created_at (now - days * 86400)))
      logs

-- `cleanup_operation_logs` behind its guard
unfoldable pub cleanup_by : Env → ℕ → Db → User → Response CleanupReply × Db
unfolding kept_logs add_operation_log
cleanup_by env days db current =
    let kept = kept_logs env.now days db.logs in
    let deleted_count = length db.logs - length kept in
    let detail =
      field "mode" (str (if days == 0 then "all" else "older_than_days"))
        (field "days" (int (pos days)) (field "deleted_count" (int (pos deleted_count)) end)) in
    -- `datetime.now() - timedelta(days=days)` raises before the first day of the calendar
    if ltb env.now (days * 86400)
    then (internal_error, db)
    else commit env db
        (add_operation_log env current.username "cleanup_logs" "operation_log" none (some detail)
          (record db { logs = kept }))
        (record {
          message = if days == 0 then all_cleared else cleared_before days;
          deleted_count = deleted_count;
          days = days;
        })

unfoldable pub cleanup_operation_logs :
    Services → Env → Option String → ℕ → Db → Response CleanupReply × Db
unfolding as_admin cleanup_by
cleanup_operation_logs sv env credentials days db =
    as_admin sv env.now credentials db (cleanup_by env days db)
