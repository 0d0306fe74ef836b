-- ===== src/Client/Sockets.antt =====
-- The callbacks of src/client/state.c by which libcurl has sockets polled and a timer set, and those
-- by which libuv reports back. What the bits stand for is documented by libuv and libcurl.
pub mod Table
use reachard.Prelude.{
  ℕ, zero, suc, ◌+◌, ◌/◌, ◌%◌, Bool, true, false, List, [], ◌∷◌, ◌++◌, Option, none, some, ℤ, pos,
  negsuc, ◌==◌, if◌then◌else◌, find_key, remove_key, replace_key, length,
}
use reachard.System.{M, pure, ◌>>=◌, ◌>>◌, allocate, free_block}

-- `struct socket`: `events` is the mask of `uv_poll_start`, 0 before the first start.
pub record Socket : Type 0 where
  pub fd : ℕ
  pub events : ℕ

-- The argument `what` of the socket function, `CURL_POLL_...`.
pub data What : Type 0 where
  poll_none poll_in poll_out poll_inout poll_remove : What

-- The sockets that libcurl was given a structure for (`curl_multi_assign`), and how many structures
-- wait for the event loop to close them.
pub record Polls : Type 0 where
  pub sockets : List Socket
  pub closing : ℕ

-- `UV_READABLE` and `UV_WRITABLE`
abbrev pub uv_readable : ℕ
uv_readable = 1

abbrev pub uv_writable : ℕ
uv_writable = 2

-- The switch over `what`, on the socket of `fd`.
act : ℕ → What → Polls → Polls
act fd poll_none polls = polls
act fd poll_in polls = record polls {
  sockets = replace_key (λ s. s.fd) (record { fd = fd; events = uv_readable }) polls.sockets;
}
act fd poll_out polls = record polls {
  sockets = replace_key (λ s. s.fd) (record { fd = fd; events = uv_writable }) polls.sockets;
}
act fd poll_inout polls = record polls {
  sockets =
      replace_key (λ s. s.fd) (record { fd = fd; events = uv_readable + uv_writable })
        polls.sockets;
}
act fd poll_remove polls = record {
  sockets = remove_key (λ s. s.fd) fd polls.sockets;
  closing = suc polls.closing;
}

-- A new structure, which `curl_multi_assign` ties to the socket.
add_socket : ℕ → Polls → Polls
add_socket fd polls = record polls { sockets = record { fd = fd; events = 0 } ∷ polls.sockets }

module _ {S : Type 0} where
  -- `socket_function` behind the test of `socketp`.
  socket_at : ℕ → What → Polls → Option Socket → M S (ℤ × Polls)
  unfolding act add_socket allocate
  socket_at fd what polls (some s) = pure (pos 0, act fd what polls)
  socket_at fd what polls none = do
    granted ← allocate
    pure (if granted then (pos 0, act fd what (add_socket fd polls)) else (negsuc 0, polls))

  -- `socket_function`: the code, and the sockets.
  unfoldable pub socket_function : ℕ → What → Polls → M S (ℤ × Polls)
  unfolding socket_at
  socket_function fd what polls = socket_at fd what polls (find_key (λ s. s.fd) fd polls.sockets)

  unfoldable pub close_one : ℕ → List Socket → M S Polls
  unfolding free_block
  close_one zero sockets = pure (record { sockets = sockets; closing = 0 })
  close_one (suc n) sockets = do free_block; pure (record { sockets = sockets; closing = n })

  -- `socket_deinit`, which the event loop calls for a socket that waits; without one, nothing.
  unfoldable pub socket_deinit : Polls → M S Polls
  unfolding close_one
  socket_deinit polls = close_one polls.closing polls.sockets

-- Whether a mask has a bit, of value 1 or 2.
abbrev pub has_bit : ℕ → ℕ → Bool
has_bit mask bit = (mask / bit) % 2 == 1

-- `ev_bitmask` in `on_poll`: `CURL_CSELECT_IN`, `CURL_CSELECT_OUT` and `CURL_CSELECT_ERR` are 1, 2
-- and 4.
unfoldable pub ev_bitmask : ℤ → ℕ → ℕ
ev_bitmask (pos zero) events =
    (if has_bit events uv_readable then 1 else 0) + (if has_bit events uv_writable then 2 else 0)
ev_bitmask (pos (suc _)) events = 4
ev_bitmask (negsuc _) events = 4

-- `timer_function`: the timeout of `state->timer`, `none` where it is stopped.
unfoldable pub timer_function : ℤ → Option ℕ
timer_function (pos ms) = some ms
timer_function (negsuc _) = none
