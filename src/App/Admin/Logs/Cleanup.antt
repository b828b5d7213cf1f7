-- ===== src/App/Admin/Logs/Cleanup.antt =====
-- What a cleanup of the audit log keeps.
use mathlib.Core.List.{Mem}
use py_auth.Prelude.{
  ℕ, ◌+◌, ◌-◌, ◌*◌, ◌≤◌, ◌<◌, ◌≡◌, ◌↔◌, refl, false, not, none, some, pos, List, [], ◌∷◌, ◌++◌,
  length, length-select-le, ltb, ◌==◌, if◌then◌else◌, arith,
}
use py_auth.Prelude.Members.{mem-select}
use py_auth.Json.{int, str, end, field}
use py_auth.App.Models.{User, Db, Env, OperationLog, done, add_operation_log}
use py_auth.App.Audit
use py_auth.App.Admin.Logs.{CleanupReply, kept_logs, cleanup_by}

-- A cleanup keeps the entries that are at most `days` days old, and none for zero days.
pub mem-kept_logs :
    (now days : ℕ) (logs : List OperationLog) (l : OperationLog)
    → Mem l (kept_logs now days logs)
      ↔ (Mem l logs × ((0 < days) × (now ≤ l.created_at + days * 86400)))
unfolding kept_logs
mem-kept_logs now days logs l =
    let keep = λ (l : OperationLog).
      if days == 0 then false else not (ltb l.created_at (now - days * 86400)) in
    (
      λ m. let (n, h) = (mem-select keep l logs).0 m in (n, ground arith),
      λ (n, h). (mem-select keep l logs).1 (n, ground arith),
    )

length-kept_logs-le :
    (now days : ℕ) (logs : List OperationLog) → length (kept_logs now days logs) ≤ length logs
unfolding kept_logs
length-kept_logs-le now days logs = length-select-le _ logs

-- After a cleanup that succeeded the log consists of the entries that are kept and, behind them,
-- the entry about the cleanup itself; the reply counts the entries that are gone.
pub cleanup_done :
    (env : Env) (days : ℕ) (db : Db) (current : User) (reply : CleanupReply)
    → (cleanup_by env days db current).0 ≡ done reply
    → (e : OperationLog) × (e.username ≡ current.username)
      × (e.created_at ≡ env.now)
      × ((cleanup_by env days db current).1.logs ≡ kept_logs env.now days db.logs ++ e ∷ [])
      × (reply.deleted_count + length (kept_logs env.now days db.logs) ≡ length db.logs)
unfolding cleanup_by add_operation_log
cleanup_done env days db current reply h =
    let detail = field "mode" (str (if days == 0 then "all" else "older_than_days")) (
      field "days" (int (pos days)) (
        field "deleted_count" (int (pos (length db.logs - length (kept_logs env.now days db.logs))))
          end)) in
    (
      Audit.entry env current.username "cleanup_logs" "operation_log" none (some detail)
          (record db { logs = kept_logs env.now days db.logs }),
      refl,
      refl,
      ground arith,
      ground (arith, length-kept_logs-le env.now days db.logs),
    )
