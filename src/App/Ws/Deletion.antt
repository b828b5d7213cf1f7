-- ===== src/App/Ws/Deletion.antt =====
-- What `delete_devices` deletes.
use py_auth.Prelude.{
  ◌+◌, String, ◌≡◌, ◌≢◌, refl, true, false, not, ◌&&◌, none, some, List, [], ◌∷◌, ◌++◌, map, length,
  arith, ◌is◌, is_iff, contains, select, find, find-select_hit, find-select-none, if◌then◌else◌,
  Bool-cases, inl, inr, All, ap, ◌∙◌,
}
use py_auth.Prelude.Distinct.{Distinct, Distinct-append}
use py_auth.Json.{Items, nil, cons}
use py_auth.Text.{strip}
use py_auth.Text.Laws.{strip-strip}
use py_auth.App.Models.{Device, Db, Env, find_device, add_operation_log}
use py_auth.App.Audit
use py_auth.App.Ws.Values.{Python, py_str}
use py_auth.App.Ws.Batch.{collect_ids, existing_ids, log_deletions, store_deletions}

abbrev IsCollected : List String → Type 0
IsCollected ids = All (λ s. (s ≢ "") × (strip s ≡ s)) ids × Distinct (λ (s : String). s) ids

not_contained : (ids : List String) (s : String) → contains ids s ≡ false → All (λ t. t ≢ s) ids
unfolding contains
not_contained [] s h = tt
not_contained (t ∷ ids) s h = (λ e. ground (arith, is_iff t s), not_contained ids s (ground arith))

All-snoc_collected :
    (ids : List String) (s : String)
    → All (λ s. (s ≢ "") × (strip s ≡ s)) ids
    → s ≢ ""
    → strip s ≡ s
    → All (λ s. (s ≢ "") × (strip s ≡ s)) (ids ++ s ∷ [])
All-snoc_collected [] s h n k = ((n, k), tt)
All-snoc_collected (t ∷ ids) s h n k = (h.0, All-snoc_collected ids s h.1 n k)

collect_one :
    (ids : List String) (s : String)
    → strip s ≡ s
    → IsCollected ids
    → IsCollected (if not (s is "") && not (contains ids s) then ids ++ s ∷ [] else ids)
collect_one ids s k h = elim (Bool-cases (s is "")) [
  | inl e ↦ rw e h
  | inr e ↦ elim (Bool-cases (contains ids s)) [
    | inl f ↦ rw (e, f) h
    | inr f ↦
        rw (e, f)
          (
            All-snoc_collected ids s h.0 (λ same. ground (arith, is_iff s "")) k,
            Distinct-append (λ (t : String). t) s ids h.1 (not_contained ids s f),
          )
  ]
]

-- From any list of values the identifiers that are collected are stripped, non-empty and pairwise
-- different.
pub collect_ids-IsCollected :
    (py : Python) (ids : List String) (raw : Items)
    → All (λ s. (s ≢ "") × (strip s ≡ s)) ids × Distinct (λ (s : String). s) ids
    → All (λ s. (s ≢ "") × (strip s ≡ s)) (collect_ids py ids raw)
      × Distinct (λ (s : String). s) (collect_ids py ids raw)
unfolding collect_ids
collect_ids-IsCollected py ids nil h = h
collect_ids-IsCollected py ids (cons x rest) h =
    let s = strip (py_str py x) in
    collect_ids-IsCollected py
      (if not (s is "") && not (contains ids s) then ids ++ s ∷ [] else ids) rest
      (collect_one ids s (strip-strip (py_str py x)) h)

-- An identifier is among the existing ones exactly when it was asked for and the table has it.
contains-existing :
    (ids : List String) (x : String) (ds : List Device)
    → contains
        (map (λ (d : Device). d.device_id) (select (λ (d : Device). contains ids d.device_id) ds))
        x
      ≡ (contains ids x && contains (map (λ (d : Device). d.device_id) ds) x)
unfolding select contains
contains-existing ids x [] = ground arith
contains-existing ids x (d ∷ ds) = ground (arith, is_iff d.device_id x, contains-existing ids x ds)

log_deletions-devices :
    (env : Env) (actor : String) (ids : List String) (db : Db)
    → ((log_deletions env actor ids db).devices ≡ db.devices)
      × (length (log_deletions env actor ids db).logs ≡ length db.logs + length ids)
unfolding log_deletions
log_deletions-devices env actor [] db = (refl, omega arith)
log_deletions-devices env actor (did ∷ ids) db =
    let db' = add_operation_log env actor "delete_device" "device" (some did) none db in
    let (same, count) = log_deletions-devices env actor ids db' in
    (
      same ∙ (unfold add_operation_log in refl),
      omega (arith, Audit.length-add env actor "delete_device" "device" (some did) none db),
    )

contains-find :
    (x : String) (ds : List Device)
    → contains (map (λ (d : Device). d.device_id) ds) x ≡ false
    → find (λ (d : Device). d.device_id is x) ds ≡ none
unfolding contains find
contains-find x [] h = refl
contains-find x (d ∷ ds) h = ground (arith, contains-find x ds)

find_device-after :
    (ids : List String) (x : String) (ds : List Device)
    → find
        (λ (d : Device). d.device_id is x)
        (select
          (λ (d : Device). not (
            contains
              (map
                (λ (e : Device). e.device_id)
                (select (λ (e : Device). contains ids e.device_id) ds))
              d.device_id))
          ds)
      ≡ (if contains ids x then none else find (λ (d : Device). d.device_id is x) ds)
find_device-after ids x ds =
    let gone =
      map (λ (e : Device). e.device_id) (select (λ (e : Device). contains ids e.device_id) ds) in
    let same : (d : Device)
        → (d.device_id is x) ≡ true
        → contains gone d.device_id ≡ contains gone x =
      λ d hit. ap (contains gone) ((is_iff d.device_id x).0 hit) in
    elim (Bool-cases (contains gone x)) [
      | inl e ↦ ground (
        arith,
        contains-existing ids x ds,
        find-select-none (λ (d : Device). d.device_id is x)
            (λ (d : Device). not (contains gone d.device_id)) ds (λ d hit. ap not (same d hit ∙ e)),
      )
      | inr e ↦ ground (
        arith,
        contains-existing ids x ds,
        contains-find x ds,
        find-select_hit (λ (d : Device). d.device_id is x)
            (λ (d : Device). not (contains gone d.device_id)) ds (λ d hit. ap not (same d hit ∙ e)),
      )
    ]

-- After the deletion of a batch no identifier that was asked for is found any more, every other
-- one is found as before, and the audit log has one more entry for each deleted identifier.
pub find_device-store_deletions :
    (env : Env) (actor : String) (ids : List String) (x : String) (db : Db)
    → (find_device x (store_deletions env actor (existing_ids ids db) db)
        ≡ (if contains ids x then none else find_device x db))
      × (length (store_deletions env actor (existing_ids ids db) db).logs
          ≡ length db.logs + length (existing_ids ids db))
unfolding store_deletions find_device
find_device-store_deletions env actor ids x db =
    let rest = record db {
      devices =
          select (λ (d : Device). not (contains (existing_ids ids db) d.device_id)) db.devices;
    } in
    let (devices, count) = log_deletions-devices env actor (existing_ids ids db) rest in
    (
      ap (find (λ (d : Device). d.device_id is x)) devices
          ∙ (unfold existing_ids in find_device-after ids x db.devices),
      count,
    )
