-- ===== src/System.antt =====
-- What the process shares with its surroundings, and the calls that reach them: libpq
-- (`PQconnectdb`, `PQexec`, `PQexecParams`, `PQclear`, `PQfinish`) and the allocator (`malloc`,
-- `calloc`, `strdup`, `free`). The PostgreSQL server itself is a parameter, the record `Postgres`.
-- A computation may fault (`none`): a null pointer read, a result or a block given back twice, a
-- connection used that is not open. A call that never returns is `none` too.
use reachard.Prelude.{
  ℕ, zero, suc, Bool, true, false, List, [], ◌∷◌, Option, none, some, ◌==◌, if◌then◌else◌,
  get_elem?,
}
use reachard.Text.{Bytes, CString}

-- `ExecStatusType`; `failed` stands for the statuses that the program never asks for.
pub data ExecStatus : Type 0 where
  command_ok tuples_ok failed : ExecStatus

abbrev pub is_command_ok : ExecStatus → Bool
is_command_ok command_ok = true
is_command_ok tuples_ok = false
is_command_ok failed = false

abbrev pub is_tuples_ok : ExecStatus → Bool
is_tuples_ok command_ok = false
is_tuples_ok tuples_ok = true
is_tuples_ok failed = false

-- A `PGresult`: its status and its rows in text format.
pub record PgResult : Type 0 where
  pub status : ExecStatus
  pub rows : List (List Bytes)

-- The server behind libpq, with any state of its own.
pub record Postgres : Type 1 where
  pub Server : Type 0
  -- `PQconnectdb` reaches `CONNECTION_OK`
  pub connects : Bytes → Server → Bool
  -- `PQexec` on a connection
  pub exec : ℕ → Bytes → Server → PgResult × Server
  -- `PQexecParams` on a connection; a null parameter is SQL's NULL
  pub exec_params : ℕ → Bytes → List CString → Server → PgResult × Server

-- An HTTP response handed to libmicrohttpd.
pub record Response : Type 0 where
  pub status_code : ℕ
  pub content_type : Bytes
  pub body : Bytes

-- `live` holds the open connections; `results`, `blocks` and `jsons` count the `PGresult`s, the
-- heap blocks and the cJSON trees not yet given back. `memory` says which of the next allocations
-- succeed (all, once the list is used up). `sent` holds the responses queued, the last one first.
pub record World (S : Type 0) : Type 0 where
  pub server : S
  pub next_conn : ℕ
  pub live : List ℕ
  pub results : ℕ
  pub blocks : ℕ
  pub jsons : ℕ
  pub memory : List Bool
  pub sent : List Response

abbrev pub M : Type 0 → Type 0 → Type 0
M S A = World S → Option (A × World S)

module _ {S A : Type 0} where
  abbrev pub pure : A → M S A
  pure a w = some (a, w)

  abbrev pub fault : M S A
  fault w = none

  -- A call that never returns.
  abbrev pub never_returns : M S A
  never_returns w = none

module _ {S A B : Type 0} where
  abbrev pub continue : (A → M S B) → Option (A × World S) → Option (B × World S)
  continue f none = none
  continue f (some (a, w)) = f a w

  infixl 5 ◌>>=◌
  abbrev pub ◌>>=◌ : M S A → (A → M S B) → M S B
  ◌>>=◌ m f w = continue f (m w)

module _ {S B : Type 0} where
  infixl 5 ◌>>◌
  abbrev pub ◌>>◌ : M S (Unit {0}) → M S B → M S B
  ◌>>◌ m k w = continue (λ _. k) (m w)

abbrev pub contains : List ℕ → ℕ → Bool
contains [] c = false
contains (d ∷ l) c = let rest = contains l c in if d == c then true else rest

abbrev pub remove : ℕ → List ℕ → List ℕ
remove c [] = []
remove c (d ∷ l) = let rest = remove c l in if d == c then l else d ∷ rest

-- A `PGconn *` that was never assigned is `none`.
abbrev pub is_live : Option ℕ → List ℕ → Bool
is_live none live = false
is_live (some c) live = contains live c

-- Give back one of the counted things.
abbrev pub give_back : ℕ → Option ℕ
give_back zero = none
give_back (suc n) = some n

-- Whether the next allocation succeeds.
abbrev pub grants : List Bool → Bool
grants [] = true
grants (b ∷ _) = b

abbrev pub later : List Bool → List Bool
later [] = []
later (_ ∷ rest) = rest

module _ {S : Type 0} where
  -- `malloc` and `calloc`: true unless the pointer is null.
  unfoldable pub allocate : M S Bool
  allocate w = some (
    grants w.memory,
    record w {
      memory = later w.memory;
      blocks = if grants w.memory then suc w.blocks else w.blocks;
    },
  )

  -- `free` of a pointer that is not null.
  unfoldable pub free_block : M S (Unit {0})
  free_block w = elim (give_back w.blocks) [
    | none ↦ none
    | some n ↦ some (tt, record w { blocks = n })
  ]

  -- `free` of a string.
  unfoldable pub free_string : CString → M S (Unit {0})
  unfolding free_block
  free_string none = pure tt
  free_string (some _) = free_block

  unfoldable pub strdup : CString → M S CString
  unfolding allocate
  strdup none = fault
  strdup (some s) = do granted ← allocate; pure (if granted then some s else none)

  -- `PQclear`, which ignores a null pointer.
  unfoldable pub pq_clear : Option PgResult → M S (Unit {0})
  pq_clear none w = some (tt, w)
  pq_clear (some _) w = elim (give_back w.results) [
    | none ↦ none
    | some n ↦ some (tt, record w { results = n })
  ]

  -- `PQfinish` of a connection that is not open is a fault.
  unfoldable pub pq_finish : Option ℕ → M S (Unit {0})
  pq_finish none w = none
  pq_finish (some c) w =
      if contains w.live c then some (tt, record w { live = remove c w.live }) else none

-- `PQgetvalue`: null out of range.
abbrev pub pq_getvalue : PgResult → ℕ → ℕ → CString
pq_getvalue r row col = elim (get_elem? r.rows row) [
  | none ↦ none
  | some cells ↦ get_elem? cells col
]

module _ (pg : Postgres) where
  abbrev pub reply : PgResult × pg.Server → World pg.Server → Option (PgResult × World pg.Server)
  reply (r, s) w = some (r, record w { server = s; results = suc w.results })

  unfoldable pub pq_exec : Option ℕ → Bytes → M pg.Server PgResult
  pq_exec none q w = none
  pq_exec (some c) q w = if contains w.live c then reply (pg.exec c q w.server) w else none

  unfoldable pub pq_exec_params : Option ℕ → Bytes → List CString → M pg.Server PgResult
  pq_exec_params none q vs w = none
  pq_exec_params (some c) q vs w =
      if contains w.live c then reply (pg.exec_params c q vs w.server) w else none

  -- `PQconnectdb` makes a handle whether or not the connection is established; `PQstatus` tells.
  unfoldable pub pq_connectdb : Bytes → M pg.Server (ℕ × Bool)
  pq_connectdb connstring w = some (
    (w.next_conn, pg.connects connstring w.server),
    record w { next_conn = suc w.next_conn; live = w.next_conn ∷ w.live },
  )
