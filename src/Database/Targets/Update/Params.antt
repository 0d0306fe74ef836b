-- ===== src/Database/Targets/Update/Params.antt =====
-- The parameters of the update query: what the shared buffers hold when the query is sent.
use mathlib.Core.Logic.{◌≢◌}
use reachard.Prelude.{
  List, [], ◌∷◌, some, ◌≡◌, refl, ap, ap₂, ◌∙◌, map, IsInt32, arith, if◌then◌else◌, All,
}
use reachard.Text.{CString, codes, print_int, snprintf_int}
use reachard.Text.Decimal.{snprintf_int-print_int}
use reachard.Database.Targets.Update.{
  Key, id, name, url, interval, up, Value, string, number, boolean, Kv, Param, direct, buffer,
  Buffers, no_buffers, contents, encode, encode_all, resolve, resolve_all, param_values,
}

-- The member of the union is the one of the field's type, a number in the range of `int`.
abbrev pub HasType : Key → Value → Type 0
HasType id (number n) = IsInt32 n
HasType interval (number n) = IsInt32 n
HasType name (string s) = Unit
HasType url (string s) = Unit
HasType up (boolean b) = Unit
HasType _ _ = ⊥

-- The text format of a value.
abbrev pub text_of : Value → CString
text_of (string s) = s
text_of (number n) = some (print_int n)
text_of (boolean b) = some (if b then codes "t" else codes "f")

abbrev pub IsTyped : Kv → Type 0
IsTyped kv = HasType kv.key kv.value

abbrev pub IsFresh : Key → List Kv → Type 0
IsFresh key = All (λ kv. kv.key ≢ key)

-- No field is set twice.
abbrev pub IsDistinct : List Kv → Type 0
IsDistinct [] = Unit
IsDistinct (kv ∷ kvs) = IsFresh kv.key kvs × IsDistinct kvs

-- What one turn of the loop leaves: its parameter reads right as long as its buffer stays.
abbrev Encoded : Key → Value → Buffers → Type 0
Encoded key value b =
    (p : Param) × (b' : Buffers) × (encode key value b ≡ some (p, b'))
    × ((b'' : Buffers) → contents b'' key ≡ contents b' key → resolve b'' p ≡ text_of value)
    × ((other : Key) → key ≢ other → contents b' other ≡ contents b other)

encode-Encoded : (key : Key) (value : Value) (b : Buffers) → HasType key value → Encoded key value b
unfolding encode
encode-Encoded id (number n) b h = (
  buffer id,
  record b { id = snprintf_int n },
  refl,
  λ b'' e. e ∙ ap some (snprintf_int-print_int n h),
  λ other ne. ground arith,
)
encode-Encoded interval (number n) b h = (
  buffer interval,
  record b { interval = snprintf_int n },
  refl,
  λ b'' e. e ∙ ap some (snprintf_int-print_int n h),
  λ other ne. ground arith,
)
encode-Encoded name (string s) b h = (direct s, b, refl, λ b'' e. refl, λ other ne. refl)
encode-Encoded url (string s) b h = (direct s, b, refl, λ b'' e. refl, λ other ne. refl)
encode-Encoded up (boolean v) b h =
    (direct (some (if v then codes "t" else codes "f")), b, refl, λ b'' e. refl, λ other ne. refl)
encode-Encoded id (string s) b h = absurd h
encode-Encoded id (boolean v) b h = absurd h
encode-Encoded interval (string s) b h = absurd h
encode-Encoded interval (boolean v) b h = absurd h
encode-Encoded name (number n) b h = absurd h
encode-Encoded name (boolean v) b h = absurd h
encode-Encoded url (number n) b h = absurd h
encode-Encoded url (boolean v) b h = absurd h
encode-Encoded up (number n) b h = absurd h
encode-Encoded up (string s) b h = absurd h

abbrev texts : List Kv → List CString
texts = map (λ kv. text_of kv.value)

abbrev AllEncoded : List Kv → Buffers → Type 0
AllEncoded kvs b =
    (ps : List Param) × (b' : Buffers) × (encode_all kvs b ≡ some (ps, b'))
    × (resolve_all b' ps ≡ texts kvs)
    × ((other : Key) → IsFresh other kvs → contents b' other ≡ contents b other)

encode_all_lem : (kvs : List Kv) (b : Buffers) → All IsTyped kvs → IsDistinct kvs → AllEncoded kvs b
unfolding encode_all resolve_all
encode_all_lem [] b t d = ([], b, refl, refl, λ other f. refl)
encode_all_lem (kv ∷ kvs) b t d =
    let (p, b1, e1, reads, keeps) = encode-Encoded kv.key kv.value b t.0 in
    let (ps, b2, e2, read_all, keep_all) = encode_all_lem kvs b1 t.1 d.1 in
    (
      p ∷ ps,
      b2,
      rw (e1, encode_all) (rw e2),
      ap₂ (◌∷◌) (reads b2 (keep_all kv.key d.0)) read_all,
      λ other f. keep_all other f.1 ∙ keeps other f.0,
    )

-- Where no field is set twice and each value has its field's type, the parameters are the text
-- formats of the values, in order: nothing is cut off, and no shared buffer is overwritten.
pub param_values-text_of :
    (kvs : List Kv)
    → All IsTyped kvs
    → IsDistinct kvs
    → param_values kvs ≡ some (map (λ kv. text_of kv.value) kvs)
unfolding param_values
param_values-text_of kvs t d =
    let (ps, b, e, read_all, keep_all) = encode_all_lem kvs no_buffers t d in
    rw (e, param_values) (ap some read_all)
