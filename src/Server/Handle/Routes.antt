-- ===== src/Server/Handle/Routes.antt =====
-- What `reachard_handle_first_call` of src/server/handle.c decides.
use mathlib.Core.Logic.{◌≢◌}
use reachard.Prelude.{
  suc, ◌<◌, Bool, true, [], ◌∷◌, Option, none, some, ◌≡◌, ◌↔◌, inl, inr, arith, ℤ, pos, negsuc,
  length, Option-cases, is_zero,
}
use reachard.Text.{Bytes, codes, same, atoi}
use reachard.System.{World}
use reachard.Server.Connection.{
  Handler, targets_delete, targets_get, targets_get_all, targets_patch, targets_post,
  ConnectionInfo, empty_info,
}
use reachard.Server.Url.{regexec}
use reachard.Server.Url.Ids.{regexec-copied}
use reachard.Server.Request.{Queue, queued, plain, http_bad_request}
use reachard.Server.Handle.{route, handle_first_call}

same_iff : (a b : Bytes) → (same a b ≡ true) ↔ (a ≡ b)
same_iff (x ∷ a) (y ∷ b) = ground (arith, same_iff a b)
same_iff _ _ = ground arith

-- The methods, and whether the URL has an id, for which there is a handler.
abbrev pub Routed : Bytes → ℤ → Handler → Type 0
Routed method id targets_delete = (method ≡ codes "DELETE") × (id ≢ pos 0)
Routed method id targets_get = (method ≡ codes "GET") × (id ≢ pos 0)
Routed method id targets_get_all = (method ≡ codes "GET") × (id ≡ pos 0)
Routed method id targets_patch = (method ≡ codes "PATCH") × (id ≢ pos 0)
Routed method id targets_post = method ≡ codes "POST"

is_zero_iff : (id : ℤ) → (is_zero id ≡ true) ↔ (id ≡ pos 0)
is_zero_iff (pos n) = ground arith
is_zero_iff (negsuc n) = ground arith

route_sound :
    (method : Bytes) (id : ℤ) (h : Handler) → route method id ≡ some h → Routed method id h
unfolding route
route_sound method id targets_delete e =
    ground (arith, same_iff method (codes "DELETE"), is_zero_iff id)
route_sound method id h e = ground (
  arith,
  same_iff method (codes "DELETE"),
  same_iff method (codes "GET"),
  same_iff method (codes "PATCH"),
  same_iff method (codes "POST"),
  is_zero_iff id,
)

route_complete :
    (method : Bytes) (id : ℤ) (h : Handler) → Routed method id h → route method id ≡ some h
unfolding route
route_complete method id targets_delete (e, ne) = rw e (ground (arith, is_zero_iff id))
route_complete method id targets_get (e, ne) = rw e (ground (arith, is_zero_iff id))
route_complete method id targets_get_all (e, z) = rw e (ground (arith, is_zero_iff id))
route_complete method id targets_patch (e, ne) = rw e (ground (arith, is_zero_iff id))
route_complete method id targets_post e = rw e (ground (arith, is_zero_iff id))

-- A method and an id are routed to a handler exactly if they are the handler's: an id wanted by
-- DELETE and PATCH, and telling the two kinds of GET apart.
pub route_iff :
    (method : Bytes) (id : ℤ) (h : Handler) → (route method id ≡ some h) ↔ Routed method id h
route_iff method id h = (route_sound method id h, route_complete method id h)

module _ (queue : Queue) {S : Type 0} where
  -- What the first call leaves of a request: the handler and the id, or a response.
  abbrev pub opened :
      ℤ → Option Handler → World S → Option ((Bool × Option ConnectionInfo) × World S)
  opened id (some h) w =
      some ((true, some (record empty_info { handle = some h; id = some id })), w)
  opened id none w =
      let (result, w') = queued queue (plain (codes "method not allowed") http_bad_request) w in
      some ((result, some (record empty_info { id = some id })), w')

  -- Where no allocation fails, the first call of a request for a URL with up to eleven digits, or
  -- none, stores the id and the handler of its method, or answers 400. It holds on to one block,
  -- the request's structure.
  pub handle_first_call-route :
      (url method ds : Bytes) (w : World S)
      → w.memory ≡ []
      → regexec url ≡ some ds
      → length ds < 12
      → handle_first_call queue url method w
        ≡ opened (atoi ds) (route method (atoi ds)) (record w { blocks = suc w.blocks })
  unfolding handle_first_call
  handle_first_call-route url method ds w m e l = elim (Option-cases (route method (atoi ds))) [
    | inl r ↦ ground (arith, m, e, regexec-copied url ds e l, r)
    | inr (h, r) ↦ ground (arith, m, e, regexec-copied url ds e l, r)
  ]

  -- Where no allocation fails, the first call for a URL that does not match answers 400, and leaves
  -- the request without a handler.
  pub handle_first_call_refused :
      (url method : Bytes) (w : World S)
      → w.memory ≡ []
      → regexec url ≡ none
      → let (result, w') =
          queued queue
            (plain (codes "url not allowed") http_bad_request)
            (record w { blocks = suc w.blocks }) in
        handle_first_call queue url method w ≡ some ((result, some empty_info), w')
  unfolding handle_first_call
  handle_first_call_refused url method w m e = ground (arith, m, e)
