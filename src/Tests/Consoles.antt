-- ===== src/Tests/Consoles.antt =====
-- Runs of the socket of the console.
use py_auth.Prelude.{
  pos, ◌+◌, ◌≡◌, String, true, none, List, [], ◌∷◌, length, contains, if◌then◌else◌,
}
use py_auth.Json.{Fields, int, bool, str, obj, end, field}
use py_auth.App.Models.{Env, find_device}
use py_auth.App.Heartbeat.{Network}
use py_auth.App.Ws.Batch.{existing_ids, store_deletions}
use py_auth.App.Ws.Deletion.{find_device-store_deletions}
use py_auth.Tests.Data.{env, db, net}

abbrev change : Fields
change = field "is_authorized" (bool true) (field "remark" (int (pos 5)) end)

abbrev message : Fields
message =
    field "type" (str "update_device")
      (field "device_id" (str "d1") (field "data" (obj change) end))

abbrev texts : List (Env × Network × String)
texts = (env, net, "m1") ∷ (env, net, "m2") ∷ []

find_device-store_deletions_example :
    (find_device "d2" (store_deletions env "root" (existing_ids ("d2" ∷ "d7" ∷ []) db) db)
      ≡ (if contains ("d2" ∷ "d7" ∷ []) "d2" then none else find_device "d2" db))
    × (length (store_deletions env "root" (existing_ids ("d2" ∷ "d7" ∷ []) db) db).logs
        ≡ length db.logs + length (existing_ids ("d2" ∷ "d7" ∷ []) db))
find_device-store_deletions_example =
    find_device-store_deletions env "root" ("d2" ∷ "d7" ∷ []) "d2" db
