-- ===== src/Tests/TextCases.antt =====
-- Decimal texts, URLs, chunks of a body and update queries at concrete inputs.
use mathlib.Core.Logic.{◌≢◌}
use reachard.Env.{env_init}
use reachard.Env.Port.{env_init-port}
use reachard.Prelude.{ℕ, List, [], ◌∷◌, ◌++◌, none, some, ◌≡◌, ◌↔◌, refl, arith, pos, negsuc}
use reachard.Text.{Bytes, codes, atoi, snprintf_int, print_int}
use reachard.System.{World}
use reachard.Database.Targets.Update.{Kv, name, interval, string, number, query, param_values}
use reachard.Database.Targets.Update.Text.{update_statement, query-update_statement}
use reachard.Database.Targets.Update.Params.{param_values-text_of}
use reachard.Server.Connection.{empty_info}
use reachard.Server.Upload.{upload}
use reachard.Server.Upload.Chunks.{body, body-upload_twice_ne}
use reachard.Server.Url.{regexec, parse_id}
use reachard.Server.Url.Ids.{
  IsDigits, IsIdPart, regexec_iff, url_of, parse_id-url_of, parse_id_overrun,
}

print_minus : snprintf_int (negsuc 2147483647) ≡ codes "-2147483648"
unfolding snprintf_int
print_minus = refl

atoi_junk : atoi (codes " \t+12x3") ≡ pos 12
unfolding atoi
atoi_junk = refl

abbrev two_fields : List Kv
two_fields =
    record { key = name; value = string (some (codes "a")) }
    ∷ record { key = interval; value = number (pos 30) }
    ∷ []

query_text :
    query (pos 4) two_fields ≡ codes "UPDATE targets SET name = $1, interval = $2  WHERE id = 4"
unfolding query
query_text = refl

query-update_statement_example :
    query (pos 4) two_fields
    ≡ update_statement
        (pos 4)
        (record { key = name; value = string (some (codes "a")) })
        (record { key = interval; value = number (pos 30) } ∷ [])
query-update_statement_example =
    query-update_statement (pos 4) (record { key = name; value = string (some (codes "a")) })
      (record { key = interval; value = number (pos 30) } ∷ [])

param_values-text_of_example :
    param_values two_fields ≡ some (some (codes "a") ∷ some (print_int (pos 30)) ∷ [])
param_values-text_of_example =
    param_values-text_of two_fields (tt, (omega arith, tt)) ((λ e. cc, tt), (tt, tt))

body-upload_twice_ne_example :
    body (upload (upload empty_info (codes "{\"a\"")) (codes ":1}")) ≢ some (codes "{\"a\":1}")
body-upload_twice_ne_example =
    body-upload_twice_ne (codes "{\"a\"") (codes ":1}") (omega arith) (omega arith)

regexec_cases :
    (regexec (codes "/targets/") ≡ some [])
    × (regexec (codes "/targets/12/") ≡ some (codes "12"))
    × (regexec (codes "/targets/12") ≡ none)
    × (regexec (codes "/targets/1x/") ≡ none)
    × (regexec (codes "/target/1/") ≡ none)
unfolding regexec
regexec_cases = (refl, refl, refl, refl, refl)

regexec_iff_example :
    (regexec (codes "/targets/12/") ≡ some (codes "12"))
    ↔ ((s : Bytes) × (codes "/targets/12/" ≡ codes "/targets/" ++ s) × IsIdPart s (codes "12"))
regexec_iff_example = regexec_iff (codes "/targets/12/") (codes "12")

abbrev quiet : World ℕ
quiet = record {
  server = 0;
  next_conn = 1;
  live = [];
  results = 0;
  blocks = 0;
  jsons = 0;
  memory = [];
  sent = [];
}

-- The id that wraps round to 1.
parse_id-url_of_example :
    (ds : Bytes) × (regexec (url_of 4294967297) ≡ some ds)
    × (parse_id ds quiet ≡ some (pos 1, quiet))
parse_id-url_of_example = parse_id-url_of 4294967297 quiet (omega arith)

zero_padded : IsDigits (codes "000000000001")
zero_padded = (
  refl,
  (refl, (refl, (refl, (refl, (refl, (refl, (refl, (refl, (refl, (refl, (refl, tt))))))))))),
)

parse_id_overrun_example :
    (regexec (codes "/targets/000000000001/") ≡ some (codes "000000000001"))
    × (parse_id (codes "000000000001") quiet ≡ none)
parse_id_overrun_example = parse_id_overrun (codes "000000000001") quiet zero_padded refl

env_init-port_example :
    (url : Bytes) × (env_init (some (print_int (pos 70000))) none
      ≡ (0, record { port = some 4464; db_url = some url }))
env_init-port_example = env_init-port 70000 none (omega arith) (omega arith)
