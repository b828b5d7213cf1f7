-- ===== src/App/Paging.antt =====
-- The paging that app/routers/admin.py and app/routers/ws.py share:
-- `max(1, min(200, n))` and `.offset((page - 1) * page_size).limit(page_size)`.
use py_auth.Prelude.{ℕ, ◌-◌, ◌*◌, min, max, List, take, drop, ℤ, pos, negsuc}

unfoldable pub clamp_size : ℤ → ℕ
clamp_size (pos n) = max 1 (min 200 n)
clamp_size (negsuc n) = 1

unfoldable pub page_of {ℓ} : {A : Type ℓ} → ℕ → ℕ → List A → List A
page_of page page_size rows = take page_size (drop ((page - 1) * page_size) rows)
