-- ===== src/Server/Life.antt =====
-- The life of a request. libmicrohttpd makes the calls that `reachard_server_start` of
-- src/server/server.c asks for in the order of its documentation: a first one; where it returned
-- `MHD_YES` and queued no response, one for each chunk of the body until one returns `MHD_NO`, and
-- one without a chunk; in the end `reachard_handle_complete`.
pub mod Calls
pub mod Handlers
pub mod Refused
pub mod Uploads
pub mod Created
pub mod Changed
use reachard.Prelude.{
  ℕ, Bool, true, false, ◌&&◌, ◌==◌, List, [], ◌∷◌, Option, none, some, length, if◌then◌else◌,
}
use reachard.Text.{Bytes}
use reachard.System.{Postgres, World, M, pure, ◌>>=◌, ◌>>◌}
use reachard.Database.{Db}
use reachard.Server.Connection.{ConnectionInfo}
use reachard.Server.Request.{MhdResult, Queue}
use reachard.Server.Json.{CJson}
use reachard.Server.Handle.{Called, handle, handle_complete}

module _ (pg : Postgres) (cjson : CJson) (queue : Queue) where
  -- The calls behind the first one.
  unfoldable pub later_calls :
      Db → Bytes → Bytes → List Bytes → Option ConnectionInfo → Called pg.Server
  unfolding handle
  later_calls db url method [] info = handle pg cjson queue db url method [] info
  later_calls db url method (chunk ∷ chunks) info = do
    (result, info') ← handle pg cjson queue db url method chunk info
    elim result [ true ↦ later_calls db url method chunks info' | false ↦ pure (false, info') ]

  -- Whether there are more calls, where `sent` responses were queued before the first one.
  unfoldable pub calls_from :
      Db → Bytes → Bytes → List Bytes → ℕ → MhdResult × Option ConnectionInfo → Called pg.Server
  unfolding later_calls
  calls_from db url method chunks sent (result, info) w =
      if result && (length w.sent == sent)
      then later_calls db url method chunks info w
      else some ((result, info), w)

  unfoldable pub serve : Db → Bytes → Bytes → List Bytes → M pg.Server MhdResult
  unfolding calls_from handle_complete
  serve db url method chunks w =
      (do
        opened ← handle pg cjson queue db url method [] none
        (result, info) ← calls_from db url method chunks (length w.sent) opened
        handle_complete info
        pure result)
        w
