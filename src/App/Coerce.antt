-- ===== src/App/Coerce.antt =====
-- app/coerce.py: a stored or submitted configuration value as a truth value.
use py_auth.Prelude.{String, Bool, ◌||◌}
use py_auth.Text.{strip, lower, same_codes, codes}
use py_auth.Json.{Json, null, bool, str, truthy}

-- `value.strip().lower() in _TRUE_STRINGS`
unfoldable pub is_true_string : String → Bool
unfolding strip lower same_codes
is_true_string s =
    let word = lower (strip s) in
    same_codes word (codes "1")
    || same_codes word (codes "true")
    || same_codes word (codes "yes")
    || same_codes word (codes "on")

unfoldable pub coerce_boolish : Json → Bool → Bool
coerce_boolish null if_none = if_none
coerce_boolish (bool b) if_none = b
coerce_boolish (str s) if_none = is_true_string s
coerce_boolish v if_none = truthy v
