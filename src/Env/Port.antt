-- ===== src/Env/Port.antt =====
-- Which port the environment sets.
use mathlib.Core.List.{append-nil}
use reachard.Prelude.{ℕ, ◌%◌, ◌<◌, some, ◌≡◌, sym, ap, ◌∙◌, arith, pos, []}
use reachard.Text.{Bytes, CString, atoi, print_int}
use reachard.Text.Decimal.{atoi-print_int}
use reachard.Env.{env_init, url_of}

atoi-number : (n : ℕ) → n < 2147483648 → atoi (print_int (pos n)) ≡ pos n
atoi-number n h = ap atoi (sym (append-nil (print_int (pos n)))) ∙ atoi-print_int (pos n) [] h tt

-- A positive `int` in the variable gives the port with that number modulo 65536: the number itself
-- if it is a port, and another port, 0 among them, if it is larger.
pub env_init-port :
    (n : ℕ) (db_url : CString)
    → 0 < n
    → n < 2147483648
    → (url : Bytes) × (env_init (some (print_int (pos n))) db_url
        ≡ (0, record { port = some (n % 65536); db_url = some url }))
unfolding env_init
env_init-port n db_url p h = (url_of db_url, rw (atoi-number n h) (ground arith))
