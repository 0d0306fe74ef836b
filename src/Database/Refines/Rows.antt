-- ===== src/Database/Refines/Rows.antt =====
-- Reading a row in text format: the macros of src/database/targets.h and src/database/macros.c.
use reachard.Prelude.{
  ℕ, suc, true, List, [], ◌∷◌, Option, none, some, ◌≡◌, sym, ap, ◌∙◌, ℤ, IsInt32, All, arith,
  get_elem?,
}
use mathlib.Core.List.{append-nil}
use reachard.Text.{atoi, print_int}
use reachard.Text.Decimal.{atoi-print_int}
use reachard.System.{PgResult, World, contains}
use reachard.Database.{Db}
use reachard.Database.Targets.{Target, parse_target}
use reachard.Database.Table.{Row, InRange, encode_row, target_of, with_id}

pub atoi-print : (z : ℤ) → IsInt32 z → atoi (print_int z) ≡ z
atoi-print z h = ap atoi (sym (append-nil (print_int z))) ∙ atoi-print_int z [] h tt

pub with_id-InRange : (k : ℤ) (rows : List Row) → All InRange rows → All InRange (with_id k rows)
with_id-InRange k [] h = tt
with_id-InRange k (r ∷ rs) h = ground (arith, with_id-InRange k rs h.1)

-- Two strings more are on the heap.
abbrev pub hold_strings : {S : Type 0} → World S → World S
hold_strings w = record w { blocks = suc (suc w.blocks) }

module _ {S : Type 0} where
  -- A row in text format is read back.
  pub parse_target-encode_row :
      (w : World S) (res : PgResult) (i : ℕ) (r : Row)
      → w.memory ≡ []
      → InRange r
      → get_elem? res.rows i ≡ some (encode_row r)
      → parse_target res i w ≡ some (target_of r, hold_strings w)
  unfolding parse_target
  parse_target-encode_row w res i r m h e =
      ground (arith, m, atoi-print r.id h.0, atoi-print r.interval h.1)

-- The two strings of a target that was found, and the array of those that were listed.
abbrev pub hold_found : {S : Type 0} → Option Target → World S → World S
hold_found none w = w
hold_found (some _) w = hold_strings w

abbrev pub to_target : Option Row → Option Target
to_target none = none
to_target (some r) = some (target_of r)

-- The database structure holds the connection, and it is open.
pub record IsOpen {S : Type 0} (c : ℕ) (db : Db) (w : World S) : Type 0 where
  pub conn_is : db.conn ≡ some c
  pub is_open : contains w.live c ≡ true
