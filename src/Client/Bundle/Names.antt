-- ===== src/Client/Bundle/Names.antt =====
-- Which names of products the map can have.
use py_auth.Prelude.{String, ◌≡◌, ◌≢◌, refl, none, arith, is_iff, ap, sym, ◌∙◌}
use py_auth.Json.{Json, Fields, obj, end, field, get, pop}
use py_auth.Json.Laws.{get-put}
use py_auth.Text.{strip}
use py_auth.Text.Laws.{strip-strip}
use py_auth.Client.Bundle.{load_one, load_into, load_apps_map}

get-load_one :
    (name : String) (out : Fields) (k : String) (v : Json)
    → strip name ≢ name
    → get name (load_one out k v) ≡ get name out
unfolding load_one
get-load_one name out k (obj row) h = ground (
  arith,
  get-put (strip k) name (obj (pop "software_name" row)) out,
  is_iff (strip k) name,
  λ (e : strip k ≡ name). h (ap strip (sym e) ∙ strip-strip k ∙ e),
)
get-load_one name out k _ h = refl

get-load_into :
    (name : String) (out root : Fields)
    → strip name ≢ name
    → get name (load_into out root) ≡ get name out
unfolding load_into
get-load_into name out end h = refl
get-load_into name out (field k v root) h =
    get-load_into name (load_one out k v) root h ∙ get-load_one name out k v h

-- A product whose name begins or ends with white space is never found in the state file: the names
-- are stripped when the file is read, and the row is looked up under the name as it was given.
pub load_apps_map_unstripped :
    (name : String) (root : Fields) → strip name ≢ name → get name (load_apps_map root) ≡ none
unfolding load_apps_map
load_apps_map_unstripped name root h = get-load_into name end root h ∙ (unfold get in refl)
