-- ===== src/Tests/ServerCases.antt =====
-- The handlers over the table in memory, with JSON trees of four shapes.
use mathlib.Core.Path.{subst}
use mathlib.Core.Option.{some-injective}
use reachard.Prelude.{
  All, ℕ, suc, true, List, [], ◌∷◌, Option, none, some, ◌≡◌, ◌↔◌, refl, ℤ, pos, IsInt32, to_int32,
  to_int32-IsInt32, if◌then◌else◌,
}
use reachard.Text.{Bytes, codes, same, print_int}
use reachard.Database.Targets.{Target}
use reachard.Server.Connection.{Cell}
use reachard.Server.Upload.{read_string}
use reachard.Server.Request.{Queue}
use reachard.Server.Json.{CJson}
use reachard.Database.Targets.Update.Params.{IsTyped}
use reachard.Server.Targets.{post_fields, posted, patch_fields}
use reachard.Server.Targets.Fields.{IsCJson, Describes, post_fields_iff, patch_fields-IsTyped}
use reachard.Server.Targets.Changes.{Body}
use reachard.Tests.TableServer.{table_server, table_laws}

pub data Sample : Type 0 where
  text : Bytes → Sample
  number : ℤ → Sample
  fields : Option Bytes → Option Bytes → Option ℤ → Sample
  items : ℕ → Sample

abbrev as_text : Option Bytes → Option Sample
as_text none = none
as_text (some s) = some (text s)

abbrev as_number : Option ℤ → Option Sample
as_number none = none
as_number (some n) = some (number n)

abbrev sample_item : Sample → Bytes → Option Sample
sample_item (fields n u i) key =
    if same key (codes "name")
    then as_text n
    else if same key (codes "url")
    then as_text u
    else if same key (codes "interval")
    then as_number i
    else none
sample_item (text s) key = none
sample_item (number n) key = none
sample_item (items n) key = none

abbrev sample_string : Sample → Option Bytes
sample_string (text s) = some s
sample_string (number n) = none
sample_string (fields n u i) = none
sample_string (items n) = none

abbrev sample_number : Sample → Option ℤ
sample_number (number n) = some (to_int32 n)
sample_number (text s) = none
sample_number (fields n u i) = none
sample_number (items n) = none

abbrev pub sample_body : Bytes
sample_body = codes "{\"name\":\"n\",\"url\":\"u\",\"interval\":7}"

abbrev pub sample_tree : Sample
sample_tree = fields (some (codes "n")) (some (codes "u")) (some (pos 7))

abbrev count_items : Sample → ℕ
count_items (items n) = suc n
count_items (text s) = 0
count_items (number n) = 0
count_items (fields n u i) = 0

abbrev sample_print : Sample → Bytes
sample_print (text s) = s
sample_print (number n) = print_int n
sample_print (fields n u i) = sample_body
sample_print (items n) = print_int (pos n)

abbrev pub sample_json : CJson
sample_json = record {
  Tree = Sample;
  parse = λ s. if same s sample_body then some sample_tree else none;
  item = sample_item;
  string_of = sample_string;
  number_of = sample_number;
  object = fields none none none;
  add_number = λ tree key n. number n;
  add_string = λ tree key s. tree;
  array = items 0;
  add_item = λ array item. items (count_items array);
  print = sample_print;
}

sample_number-IsInt32 : (tree : Sample) (n : ℤ) → sample_number tree ≡ some n → IsInt32 n
sample_number-IsInt32 (number m) n h =
    let e : to_int32 m ≡ n = some-injective (to_int32 m) n h in
    subst (λ z. IsInt32 z) e (to_int32-IsInt32 m)
sample_number-IsInt32 (text s) n h = cc
sample_number-IsInt32 (fields a u i) n h = cc
sample_number-IsInt32 (items m) n h = cc

pub sample_laws : IsCJson sample_json
sample_laws = record { number_range = sample_number-IsInt32 }

abbrev pub queue : Queue
queue sent r = true

abbrev pub sample_target : Target
sample_target = record {
  id = pos 0;
  name = some (codes "n");
  url = some (codes "u");
  interval = pos 7;
  up = true;
}

post_fields_iff_example :
    (post_fields sample_json sample_tree ≡ posted sample_target)
    ↔ Describes sample_json sample_tree sample_target
post_fields_iff_example = post_fields_iff sample_json sample_tree sample_target

abbrev pub stored : Bytes → List Cell
stored [] = some 0 ∷ []
stored (c ∷ cs) = some c ∷ stored cs

pub sample-Body :
    Body table_server sample_json queue 7 (table_laws 7) (stored sample_body) sample_tree
unfolding read_string
sample-Body = record { text = sample_body; read = refl; parsed = refl }

patch_fields-IsTyped_example : All IsTyped (patch_fields sample_json sample_tree)
patch_fields-IsTyped_example = patch_fields-IsTyped sample_json sample_laws sample_tree
