-- ===== src/Client/Deadlines.antt =====
-- client/python/py_auth_client/auth_client.py: how long an online check may take, in millionths of a
-- second. The texts of the environment variables are arguments, empty where one is not set; `parse`
-- is `float` of a text.
use py_auth.Prelude.{
  ℕ, ◌≤◌, String, Bool, true, false, ◌&&◌, Option, some, leb, max, ℤ, pos, negsuc, ◌is◌,
  if◌then◌else◌, arith, Option-cases, inl, inr,
}
use py_auth.Text.{strip}

-- a time that a variable gives, if it lies between the bounds, else the given one
unfoldable pub bounded : (String → Option ℤ) → ℕ → ℕ → String → ℕ → ℕ
unfolding strip
bounded parse low high raw default = if strip raw is "" then default else elim (parse (strip raw)) [
  | some (pos v) ↦ if leb low v && leb v high then v else default
  | _ ↦ default
]

-- `_online_check_wall_deadline_sec`
unfoldable pub online_check_wall_deadline : (String → Option ℤ) → String → ℕ
unfolding bounded
online_check_wall_deadline parse wall = bounded parse 1000000 30000000 wall 1750000

-- `_online_check_effective_wall_sec`
unfoldable pub online_check_effective_wall : (String → Option ℤ) → String → String → Bool → ℕ
unfolding online_check_wall_deadline bounded
online_check_effective_wall parse wall deferred_min false = online_check_wall_deadline parse wall
online_check_effective_wall parse wall deferred_min true =
    max (online_check_wall_deadline parse wall)
      (bounded parse 1000000 60000000 deferred_min 12000000)

bounded_bounds :
    (parse : String → Option ℤ) (low high : ℕ) (raw : String) (default : ℕ)
    → low ≤ default
    → default ≤ high
    → (low ≤ bounded parse low high raw default) × (bounded parse low high raw default ≤ high)
unfolding bounded
bounded_bounds parse low high raw default above below = elim (Option-cases (parse (strip raw))) [
  | inl e ↦ ground arith
  | inr (pos v, e) ↦ ground arith
  | inr (negsuc v, e) ↦ ground arith
]

-- Whatever the environment says, an online check is given at least one second, and at most 30, or 60
-- where the device information is still to be collected; it is then given at least as long as
-- otherwise.
pub online_check_effective_wall_bounds :
    (parse : String → Option ℤ) (wall deferred_min : String)
    → (1000000 ≤ online_check_effective_wall parse wall deferred_min false)
      × (online_check_effective_wall parse wall deferred_min false ≤ 30000000)
      × (online_check_effective_wall parse wall deferred_min false
          ≤ online_check_effective_wall parse wall deferred_min true)
      × (online_check_effective_wall parse wall deferred_min true ≤ 60000000)
unfolding online_check_effective_wall online_check_wall_deadline
online_check_effective_wall_bounds parse wall deferred_min =
    let b = bounded_bounds parse 1000000 30000000 wall 1750000 (ground arith) (ground arith) in
    let f =
      bounded_bounds parse 1000000 60000000 deferred_min 12000000 (ground arith) (ground arith) in
    (b.0, b.1, omega arith, omega (arith, b.1, f.1))
