-- ===== src/Api/Metrics.antt =====
-- apps/api/app/api/v1/metrics.py: the gauges of a workspace.
use hamicloud.Prelude.{some}
use hamicloud.Core.Auth.{authorize_workspace_access}
use hamicloud.Session.{query, ◌>>◌, M}
use hamicloud.Models.Tenancy.{viewer, Uuid}
use hamicloud.Schemas.{Caller}
use hamicloud.Core.Telemetry.{Metrics, collect_metrics}
use hamicloud.Env.{Env}

unfoldable pub get_workspace_telemetry : Env → Caller → Uuid → M Metrics
unfolding collect_metrics
get_workspace_telemetry env caller ws = do
  authorize_workspace_access caller ws viewer "Workspace not found"
  query (collect_metrics env.now (some ws))
