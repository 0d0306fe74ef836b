-- ===== src/Tests/HandleCases.antt =====
-- The first call of a request at concrete URLs and methods.
use reachard.Prelude.{◌≡◌, ◌↔◌, some, pos}
use reachard.Text.{codes}
use reachard.Server.Connection.{targets_delete}
use reachard.Server.Handle.{route}
use reachard.Server.Handle.Routes.{Routed, route_iff}

route_iff_example :
    (route (codes "DELETE") (pos 0) ≡ some targets_delete)
    ↔ Routed (codes "DELETE") (pos 0) targets_delete
route_iff_example = route_iff (codes "DELETE") (pos 0) targets_delete
