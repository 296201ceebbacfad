-- ===== src/Server/Api/DashboardHandlers/Pages.antt =====
-- The pages of the dashboard's lists: `parsePagination` and the handlers that call it, of
-- apps/server/internal/api/handlers.go, over the statements of apps/server/internal/repository.
use dysonsphere.Common.{◌≤◌, ◌≡◌, ◌⊎◌, List, length, nat_eq}
use dysonsphere.Server.Store.{Result, ok, err}
use dysonsphere.Server.Repository.MetricRepo
use dysonsphere.Server.Api.Wire.{Body, Response, write_json}

-- A page that lists at most 500 rows, or the answer to an error.
abbrev pub IsPage : {A : Type 0} → (List A → Body) → Response → Type 0
IsPage {A} list r =
    ((rows : List A) × (r ≡ write_json 200 (list rows)) × (length rows ≤ 500)) ⊎ (r.status ≡ 500)

abbrev Few : {A : Type 0} → Result (List A) → Type 0
Few (ok rows) = length rows ≤ 500
Few (err e) = Unit
