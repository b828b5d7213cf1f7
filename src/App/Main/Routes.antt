-- ===== src/App/Main/Routes.antt =====
-- main.py: which handler a request reaches.
use py_auth.Prelude.{String, ◌≡◌, refl, Bool, true, false, none, some, arith, ◌is◌, find}
use py_auth.Text.{append, has_prefix, has_part}
use py_auth.App.Models.{fail}
use py_auth.App.Main

-- What FastAPI documents: prefixes are put in front, a path without parameters matches itself only,
-- a path with parameters only what begins like the part before the first of them, and a parameter of
-- the kind `path` the rest, whatever it is.
pub record Documented (fw : Main.Framework) : Type 0 where
  pub prefix_first : (prefix path : String) → fw.prefixed prefix path ≡ append prefix path
  pub fixed : (p q : String) → has_part p "{" ≡ false → fw.matches p q ≡ (p is q)
  pub with_parameter :
      (p rest q : String)
      → has_part p "{" ≡ false
      → has_prefix q p ≡ false
      → fw.matches (append p (append "{" rest)) q ≡ false
  pub whole_path : (rest : String) → fw.matches "/{full_path:path}" (append "/" rest) ≡ true

-- a path behind one prefix twice, without parameters
twice_behind :
    (fw : Main.Framework)
    → Documented fw
    → (prefix path q : String) → has_part (append prefix (append prefix path)) "{" ≡ false
    → (append prefix (append prefix path) is q) ≡ false
    → fw.matches (fw.prefixed prefix (fw.prefixed prefix path)) q ≡ false
twice_behind fw doc prefix path q plain apart =
    rw
      (
        doc.prefix_first prefix path,
        doc.prefix_first prefix (append prefix path),
        doc.fixed (append prefix (append prefix path)) q plain,
      )
      apart

post_facts :
    (fw : Main.Framework)
    → Documented fw
    → (fw.matches
          (fw.prefixed "/api/auth" (fw.prefixed "/api/auth" "/heartbeat"))
          "/api/auth/heartbeat"
        ≡ false)
      × (fw.matches
            (fw.prefixed "/api/admin" (fw.prefixed "/api/admin" "/users"))
            "/api/auth/heartbeat"
          ≡ false)
      × (fw.matches
            (fw.prefixed "/api/user" (fw.prefixed "/api/user" "/login"))
            "/api/auth/heartbeat"
          ≡ false)
      × (fw.matches
            (fw.prefixed "/api/user" (fw.prefixed "/api/user" "/verify"))
            "/api/auth/heartbeat"
          ≡ false)
      × (fw.matches
            (fw.prefixed "/api/user" (fw.prefixed "/api/user" "/change-password"))
            "/api/auth/heartbeat"
          ≡ false)
unfolding has_part ◌is◌
post_facts fw doc =
    let q : String = "/api/auth/heartbeat" in
    (
      twice_behind fw doc "/api/auth" "/heartbeat" q refl refl,
      twice_behind fw doc "/api/admin" "/users" q refl refl,
      twice_behind fw doc "/api/user" "/login" q refl refl,
      twice_behind fw doc "/api/user" "/verify" q refl refl,
      twice_behind fw doc "/api/user" "/change-password" q refl refl,
    )

-- The route of the heartbeat does not answer where the clients send it: `POST /api/auth/heartbeat`
-- has no handler, whatever there is of the front end, because `create_application` puts the prefix in
-- front of a path that has it already.
pub dispatch-heartbeat :
    (fw : Main.Framework) (dist : Main.Dist)
    → Documented fw
    → Main.dispatch fw dist Main.post "/api/auth/heartbeat" ≡ none
unfolding Main.dispatch find has_part has_prefix ◌is◌
dispatch-heartbeat fw Main.no_front_end doc = ground (arith, post_facts fw doc)
dispatch-heartbeat fw (Main.front_end false false) doc = ground (arith, post_facts fw doc)
dispatch-heartbeat fw (Main.front_end false true) doc = ground (arith, post_facts fw doc)
dispatch-heartbeat fw (Main.front_end true false) doc = ground (arith, post_facts fw doc)
dispatch-heartbeat fw (Main.front_end true true) doc = ground (arith, post_facts fw doc)

health_facts :
    (fw : Main.Framework)
    → Documented fw
    → (fw.matches "/openapi.json" "/health" ≡ false)
      × (fw.matches "/docs" "/health" ≡ false)
      × (fw.matches "/docs/oauth2-redirect" "/health" ≡ false)
      × (fw.matches "/redoc" "/health" ≡ false)
      × (fw.matches "/" "/health" ≡ false)
      × (fw.matches "/assets/{path:path}" "/health" ≡ false)
      × (fw.matches (fw.prefixed "/api/admin" (fw.prefixed "/api/admin" "/config")) "/health"
          ≡ false)
      × (fw.matches (fw.prefixed "/api/admin" (fw.prefixed "/api/admin" "/users")) "/health"
          ≡ false)
      × (fw.matches (fw.prefixed "/api/admin" (fw.prefixed "/api/admin" "/logs")) "/health" ≡ false)
      × (fw.matches (fw.prefixed "/api/user" (fw.prefixed "/api/user" "/me")) "/health" ≡ false)
      × (fw.matches "/{full_path:path}" "/health" ≡ true)
unfolding has_part has_prefix ◌is◌
health_facts fw doc =
    let q : String = "/health" in
    (
      rw (doc.fixed "/openapi.json" q refl) refl,
      rw (doc.fixed "/docs" q refl) refl,
      rw (doc.fixed "/docs/oauth2-redirect" q refl) refl,
      rw (doc.fixed "/redoc" q refl) refl,
      rw (doc.fixed "/" q refl) refl,
      doc.with_parameter "/assets/" "path:path}" q refl refl,
      twice_behind fw doc "/api/admin" "/config" q refl refl,
      twice_behind fw doc "/api/admin" "/users" q refl refl,
      twice_behind fw doc "/api/admin" "/logs" q refl refl,
      twice_behind fw doc "/api/user" "/me" q refl refl,
      doc.whole_path "health",
    )

-- Where the front end was built, the health check cannot be reached: `GET /health` goes to the
-- handler of the single-page application, whose route is added before, and which answers 404.
pub dispatch-health :
    (fw : Main.Framework) (has_assets : Bool)
    → Documented fw
    → ((e : Main.Endpoint) × (Main.dispatch fw (Main.front_end has_assets true) Main.get "/health"
          ≡ some e)
        × (e.handler ≡ Main.serve_spa))
      × (Main.serve_spa_path "health" ≡ fail 404 "Not found")
unfolding Main.dispatch Main.serve_spa_path find
dispatch-health fw false doc = (
  (
    record { method = Main.get; path = "/{full_path:path}"; handler = Main.serve_spa },
    ground (arith, health_facts fw doc),
    refl,
  ),
  refl,
)
dispatch-health fw true doc = (
  (
    record { method = Main.get; path = "/{full_path:path}"; handler = Main.serve_spa },
    ground (arith, health_facts fw doc),
    refl,
  ),
  refl,
)
