-- ===== src/Env.antt =====
-- src/env/env.c: the configuration from the environment. The values of the two variables are
-- arguments, null where they are not set.
pub mod Port
use reachard.Prelude.{ℕ, Option, none, some, ℤ, pos, is_zero, to_uint16, if◌then◌else◌}
use reachard.Text.{Bytes, CString, codes, atoi}

-- `struct reachard_env`; a field that was never assigned is `none`.
pub record Env : Type 0 where
  pub port : Option ℕ
  pub db_url : Option Bytes

abbrev pub unassigned : Env
unassigned = record { port = none; db_url = none }

abbrev pub default_url : Bytes
default_url = codes "postgresql://reachard@/reachard"

-- `int port = 7272`, or `atoi` of the variable.
port_of : CString → ℤ
unfolding atoi
port_of none = pos 7272
port_of (some port_str) = atoi port_str

url_of : CString → Bytes
url_of none = default_url
url_of (some db_url) = db_url

-- `reachard_env_init`: the exit code and the structure. It gives up on a port that reads as 0, before
-- any assignment, and narrows any other to 16 bits.
unfoldable pub env_init : CString → CString → ℕ × Env
unfolding port_of url_of
env_init port_str db_url =
    let port = port_of port_str in
    if is_zero port
    then (1, unassigned)
    else (0, record { port = some (to_uint16 port); db_url = some (url_of db_url) })
