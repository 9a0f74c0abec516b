-- ===== src/Analytics/Worker.antt =====
-- worker/analytics_worker.go with repository/postgres/analytics_mv_repo.go: the refresh of a view that the
-- server keeps and that no part of the program reads. The view is not among the tables here.
use mali.Prelude.{Bool}
use mali.Prelude.Tests.{not}
use mali.Context.{failure, wrapped, M, on_error, raise_if, call, ◌>>◌}

-- Whether the refresher is set, and its database.
pub record AnalyticsWorker : Type 0 where
  pub has_refresher : Bool
  pub has_database : Bool

module _ (worker : AnalyticsWorker) where
  unfoldable pub refresh_monthly_summary : M (Unit {0})
  refresh_monthly_summary = do
    raise_if (not worker.has_database)
        (failure "analytics mv repository database is not configured")
    on_error (wrapped "refresh materialized view mv_monthly_summary") call

  unfoldable pub handle_refresh_monthly_summary_task : M (Unit {0})
  unfolding refresh_monthly_summary
  handle_refresh_monthly_summary_task = do
    raise_if (not worker.has_refresher) (failure "analytics worker dependencies are not configured")
    on_error (wrapped "refresh monthly summary") refresh_monthly_summary
