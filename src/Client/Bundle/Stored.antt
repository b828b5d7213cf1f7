-- ===== src/Client/Bundle/Stored.antt =====
-- state_bundle.py: one product's row put into the state and read back, as `save_cache`, `clear_cache`
-- and `persist_device_id` do it.
use py_auth.Prelude.{
  String, ◌≡◌, refl, ap, arith, Bool-cases, inl, inr, true, none, some, ◌is◌, contains, ◌∙◌,
}
use py_auth.Json.{Fields, obj, end, field, get, put, pop}
use py_auth.Json.Laws.{IsDict, put-IsDict, get-put_self, get-pop}
use py_auth.Client.Bundle.{
  commit_apps_map, drop_stale, reserved_root_keys, load_apps_map, load_into,
}
use py_auth.Client.Bundle.Commit.{
  IsApps, get-put_all, not_reserved, get-drop_stale-none, IsProper, IsClean, load-commit,
}
use py_auth.Client.Bundle.Loaded.{put-IsApps, load_into-IsDict, load_into-IsApps}

-- the root after the row of one product was replaced
abbrev pub stored : String → Fields → Fields → Fields
stored name row d = commit_apps_map d (put name (obj row) (load_apps_map d))

pub pop-absent : (k : String) (d : Fields) → get k d ≡ none → pop k d ≡ d
unfolding pop get
pop-absent k end h = refl
pop-absent k (field j v d) h = elim (Bool-cases (j is k)) [
  | inl e ↦ ground arith
  | inr e ↦ rw e (ap (field j v) (pop-absent k d (rw e at h)))
]

committed_without_stray :
    (k : String) (d apps : Fields)
    → IsDict apps
    → IsApps apps
    → contains reserved_root_keys k ≡ true
    → get k d ≡ none
    → get k (commit_apps_map d apps) ≡ none
unfolding commit_apps_map
committed_without_stray k d apps dict a reserved missing =
    rw (get-put_all k (drop_stale apps (pop "apps" d)) apps dict, not_reserved k apps a reserved)
      (get-drop_stale-none k apps (pop "apps" d) (ground (arith, get-pop "apps" k d)))

module _ (name : String) (row d : Fields) (dict : IsDict d) (clean : IsClean d)
    (proper : IsProper name) where
  put-IsDict_load : IsDict (put name (obj row) (load_apps_map d))
  unfolding load_apps_map
  put-IsDict_load = put-IsDict name (obj row) (load_into end d) (load_into-IsDict end d tt)

  put-IsApps_load : IsApps (put name (obj row) (load_apps_map d))
  unfolding load_apps_map
  put-IsApps_load = put-IsApps name row (load_into end d) proper (load_into-IsApps end d clean tt)

  -- the row is read back, without a `software_name`
  pub get-stored :
      get name (load_apps_map (stored name row d)) ≡ some (obj (pop "software_name" row))
  get-stored =
      load-commit name d (put name (obj row) (load_apps_map d)) dict put-IsDict_load put-IsApps_load
      ∙ (rw (get-put_self name (obj row) (load_apps_map d)) refl)

  -- a reserved key that the root does not have stays away
  pub get-stored_reserved :
      (k : String)
      → contains reserved_root_keys k ≡ true
      → get k d ≡ none
      → get k (stored name row d) ≡ none
  get-stored_reserved k reserved missing =
      committed_without_stray k d (put name (obj row) (load_apps_map d)) put-IsDict_load
        put-IsApps_load reserved missing

  pub pop-stored :
      get "device_id" d ≡ none → pop "device_id" (stored name row d) ≡ stored name row d
  unfolding contains ◌is◌
  pop-stored missing =
      pop-absent "device_id" (stored name row d) (get-stored_reserved "device_id" refl missing)
