-- ===== src/Controllers/HealthController.antt =====
-- BACKEND/src/controllers/health.controller.ts
use test_specs_to_code.Common.{Bool, [], ◌∷◌}
use test_specs_to_code.Http.{str, flag, Response, response}

-- GET /health; `reachable` says whether `SELECT 1` succeeds.
unfoldable pub check : Bool → Response
check reachable = response 200 (("status", str "ok") ∷ ("db_reachable", flag reachable) ∷ [])
