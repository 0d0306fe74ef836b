-- ===== src/Database/Refines/Listing.antt =====
-- The query on all rows: `get_all`, and the release of what it returns.
use reachard.Prelude.{
  ℕ, zero, suc, ◌+◌, Bool, true, false, List, [], ◌∷◌, Option, none, some, ◌≡◌, refl, ap, All, map,
  arith, if◌then◌else◌, get_elem?, drop,
}
use reachard.System.{Postgres, PgResult, World, is_tuples_ok}
use reachard.Database.{Db}
use reachard.Database.Targets.{
  Target, parse_rows, get_rows, get_all, count_rows, free_each, free_array, targets_free,
  select_all_query,
}
use reachard.Database.Table.{Row, InRange, encode_row, target_of, IsTable}
use reachard.Database.Refines.Rows.{hold_strings, parse_target-encode_row, IsOpen}

-- The strings of some rows.
abbrev pub strings {ℓ} : {A : Type ℓ} → List A → ℕ
strings [] = 0
strings (r ∷ rs) = suc (suc (strings rs))

drop-cons {ℓ} :
    {A : Type ℓ} (xs : List A) (i : ℕ) (y : A) (ys : List A)
    → drop i xs ≡ y ∷ ys
    → (get_elem? xs i ≡ some y) × (drop (suc i) xs ≡ ys)
drop-cons [] zero y ys h = cc
drop-cons [] (suc i) y ys h = cc
drop-cons (x ∷ xs) zero y ys h = (cc, cc)
drop-cons (x ∷ xs) (suc i) y ys h = drop-cons xs i y ys h

count_rows-map {ℓ κ} :
    {A : Type ℓ} {B : Type κ} (xs : List A) (f : A → B) → count_rows (map f xs) ≡ count_rows xs
count_rows-map [] f = refl
count_rows-map (x ∷ xs) f = ap suc (count_rows-map xs f)

module _ {S : Type 0} where
  parse_rows-map :
      (w : World S) (res : PgResult) (i : ℕ) (rows : List Row)
      → w.memory ≡ []
      → All InRange rows
      → drop i res.rows ≡ map encode_row rows
      → parse_rows res i (count_rows rows) w
        ≡ some (map target_of rows, record w { blocks = strings rows + w.blocks })
  unfolding parse_rows
  parse_rows-map w res i [] m h e = ground arith
  parse_rows-map w res i (r ∷ rows) m h e =
      let (here, later) = drop-cons res.rows i (encode_row r) (map encode_row rows) e in
      rw (parse_target-encode_row w res i r m h.0 here)
        (rw (parse_rows-map (hold_strings w) res (suc i) rows m h.1 later) (ground arith))

  free_each-map :
      (w : World S) (rows : List Row) (n : ℕ)
      → w.blocks ≡ strings rows + n
      → free_each (map target_of rows) w ≡ some (tt, record w { blocks = n })
  unfolding free_each
  free_each-map w [] n e = ground arith
  free_each-map w (r ∷ rows) n e =
      ground (arith, free_each-map (record w { blocks = strings rows + n }) rows n refl)

-- The array and the strings of a list of targets are on the heap.
abbrev pub heap_of {ℓ} : {A : Type ℓ} → List A → ℕ
heap_of [] = 0
heap_of (r ∷ rs) = suc (strings (r ∷ rs))

module _ {S : Type 0} where
  -- Where the blocks of a list of targets are held, `targets_free` gives back all of them, and
  -- nothing else.
  pub targets_free-heap_of :
      (w : World S) (rows : List Row) (n : ℕ)
      → w.blocks ≡ heap_of rows + n
      → targets_free (map target_of rows) w ≡ some (tt, record w { blocks = n })
  unfolding targets_free
  targets_free-heap_of w [] n e = ground arith
  targets_free-heap_of w (r ∷ rows) n e =
      rw (free_each-map w (r ∷ rows) (suc n) (omega arith), free_array) refl

module _ (pg : Postgres) (c : ℕ) (t : IsTable pg c) where
  abbrev pub listed : pg.Server → PgResult × pg.Server
  listed s = pg.exec c select_all_query s

  get_rows-map :
      (w : World pg.Server) (res : PgResult) (s : pg.Server) (rows : List Row)
      → w.memory ≡ []
      → All InRange rows
      → res.rows ≡ map encode_row rows
      → get_rows pg res (map encode_row rows) (record w { server = s; results = suc w.results })
        ≡ some
            (some (map target_of rows), record w { server = s; blocks = heap_of rows + w.blocks })
  unfolding get_rows
  get_rows-map w res s [] m h e = ground arith
  get_rows-map w res s (r ∷ rows) m h e = rw (count_rows-map rows encode_row) (
      ground (
        arith,
        m,
        parse_rows-map
            (record w { server = s; results = suc w.results; blocks = suc w.blocks; memory = [] })
            res 0 (r ∷ rows) refl h e,
      ))

  abbrev pub listing : pg.Server → Option (List Target)
  listing s = if is_tuples_ok (listed s).0.status then some (map target_of (t.view s)) else none

  abbrev pub listing_heap : pg.Server → ℕ
  listing_heap s = if is_tuples_ok (listed s).0.status then heap_of (t.view s) else 0

  -- On an open connection to a table, where no allocation fails: `get_all` returns every row of the
  -- table, in its order, unless the query fails. It changes no row, and holds on to the strings of
  -- the rows and to the array.
  pub get_all-view :
      (db : Db) (w : World pg.Server)
      → IsOpen c db w
      → w.memory ≡ []
      → (s : pg.Server) × (get_all pg db w
          ≡ some (
            listing w.server,
            record w { server = s; blocks = listing_heap w.server + w.blocks },
          ))
        × (t.view s ≡ t.view w.server)
  unfolding get_all
  get_all-view db w o m = (
    (listed w.server).1,
    rw o.conn_is (
        ground (
          arith,
          o.is_open,
          t.select_all_rows w.server,
          get_rows-map w (listed w.server).0 (listed w.server).1 (t.view w.server) m
              (t.in_range w.server),
        )),
    t.select_all_view w.server,
  )

  -- Where the allocation of the array fails for a table with a row, `get_all` returns 1 and never
  -- gives its `PGresult` back.
  pub get_all_leak :
      (db : Db) (w : World pg.Server) (r : Row) (rows : List Row) (rest : List Bool)
      → IsOpen c db w
      → w.memory ≡ false ∷ rest
      → t.view w.server ≡ r ∷ rows
      → is_tuples_ok (listed w.server).0.status ≡ true
      → get_all pg db w
        ≡ some (
          none,
          record w { server = (listed w.server).1; results = suc w.results; memory = rest },
        )
  unfolding get_all
  get_all_leak db w r rows rest o m v q =
      rw o.conn_is (ground (arith, o.is_open, m, v, q, t.select_all_rows w.server))
