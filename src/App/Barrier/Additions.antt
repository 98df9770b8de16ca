-- ===== src/App/Barrier/Additions.antt =====
-- `AddDocument` of internal/app/service.go, for an owner that is archived.
use next_now_x.App.Repository.{Repository}
