-- ===== src/Server/Life/Created.antt =====
-- A target that is created is found: POST, then GET of the URL with the id that it answered.
use reachard.Prelude.{
  ℕ, ◌<◌, ◌^◌, true, List, [], ◌∷◌, ◌++◌, none, some, ◌≡◌, refl, ℤ, pos, IsInt32, All, length,
  if◌then◌else◌, ap, ◌∙◌, Bool-cases, inl, inr, ==_iff,
}
use reachard.Text.{Bytes, codes}
use reachard.System.{Postgres, World, Response, is_tuples_ok}
use reachard.Database.{Db}
use reachard.Database.Targets.{Target}
use reachard.Database.Table.{Row, IsTable, with_id, find, same_id}
use reachard.Database.Refines.Rows.{IsOpen}
use reachard.Database.Refines.Single.{found, selected}
use reachard.Database.Refines.Changes.{inserted, new_row}
use reachard.Server.Url.{regexec}
use reachard.Server.Url.Ids.{url_of}
use reachard.Server.Request.{Queue, queued}
use reachard.Server.Json.{CJson}
use reachard.Server.Targets.{post_fields, posted}
use reachard.Server.Targets.Effects.{get_response}
use reachard.Server.Targets.Changes.{post_response}
use reachard.Server.Life.{serve}
use reachard.Server.Life.Uploads.{serve-new_row, serve-found}

with_id-append :
    (k : ℤ) (rows more : List Row) → with_id k rows ≡ [] → with_id k (rows ++ more) ≡ with_id k more
with_id-append k [] more e = refl
with_id-append k (r ∷ rows) more e = elim (Bool-cases (same_id r.id k)) [
  | inl d ↦ cc (rw d at e)
  | inr d ↦ rw d (with_id-append k rows more (rw d at e))
]

find-append_new :
    (k : ℕ) (rows : List Row) (r : Row)
    → with_id (pos k) rows ≡ []
    → r.id ≡ pos k
    → find (pos k) (rows ++ r ∷ []) ≡ some r
find-append_new k rows r e i =
    rw (with_id-append (pos k) rows (r ∷ []) e, i, (==_iff k k).1 refl) refl

module _ (queue : Queue) {S : Type 0} where
  pub queued-IsOpen :
      (c : ℕ) (db : Db) (r : Response) (w : World S)
      → IsOpen c db w
      → IsOpen c db (queued queue r w).1
  queued-IsOpen c db r w o = elim (Bool-cases (queue w.sent r)) [
    | inl q ↦ rw q (record { conn_is = o.conn_is; is_open = o.is_open })
    | inr q ↦ rw q o
  ]

  pub memory-queued : (r : Response) (w : World S) → (queued queue r w).1.memory ≡ w.memory
  memory-queued r w = elim (Bool-cases (queue w.sent r)) [ inl q ↦ rw q refl | inr q ↦ rw q refl ]

  pub server-queued : (r : Response) (w : World S) → (queued queue r w).1.server ≡ w.server
  server-queued r w = elim (Bool-cases (queue w.sent r)) [ inl q ↦ rw q refl | inr q ↦ rw q refl ]

module _ (pg : Postgres) (cjson : CJson) (queue : Queue) (c : ℕ) (t : IsTable pg c) where
  next-small :
      (s : pg.Server) (n u : Bytes) (i : ℤ) (k : ℕ)
      → IsInt32 i
      → is_tuples_ok (inserted pg c t n u i s).0.status ≡ true
      → t.next s ≡ pos k
      → k < 2 ^ 31
  next-small s n u i k h ok e =
      let (rows, small, view) = t.insert_done s n u i h ok in rw e at small

  found-new_row :
      (s s1 : pg.Server) (k : ℕ) (r : Row)
      → t.view s1 ≡ t.view s ++ r ∷ []
      → t.next s ≡ pos k
      → r.id ≡ pos k
      → found pg c t (pos k) s1
        ≡ (if is_tuples_ok (selected pg c t (pos k) s1).0.status then some r else none)
  found-new_row s s1 k r view next i =
      rw (view, find-append_new k (t.view s) r (rw next at (t.next_fresh s)) i) refl

  -- POST of the body appends the row and answers the id. GET of the URL with that id then answers
  -- with the row's object, unless the server refuses its query.
  abbrev pub Created : Db → World pg.Server → Bytes → Bytes → Row → ℕ → Type 0
  Created db w url text r k =
      (s1 : pg.Server) × (s2 : pg.Server) × let created =
          queued queue (post_response pg cjson queue c t (pos k)) (record w { server = s1 }) in
        let answered =
          if is_tuples_ok (selected pg c t (pos k) s1).0.status then some r else none in
        (serve pg cjson queue db url (codes "POST") (text ∷ []) w ≡ some created)
        × (serve pg cjson queue db (url_of k) (codes "GET") [] created.1
            ≡ some (
                queued queue (get_response pg cjson queue c t answered)
                  (record created.1 { server = s2 })))
        × (t.view s2 ≡ t.view w.server ++ r ∷ [])

  -- On an open connection to a table, where no allocation fails, and the next id is above 0: where
  -- the server takes the row, POST of a body of one chunk with no NUL, the text of an object that
  -- describes a target, answers the id of a new row, with its name as the column keeps it; GET of
  -- the URL with that id then answers with the row's object, or 500 if the query fails. Both
  -- requests give back all that they took.
  pub serve-Created :
      (db : Db) (w : World pg.Server) (url ds : Bytes) (b : ℕ) (bs : Bytes) (tree : cjson.Tree)
      (target : Target) (n u : Bytes) (k : ℕ)
      → IsOpen c db w
      → w.memory ≡ []
      → regexec url ≡ some ds
      → length ds < 12
      → All (λ b. 0 < b) (b ∷ bs)
      → cjson.parse (b ∷ bs) ≡ some tree
      → post_fields cjson tree ≡ posted target
      → target.name ≡ some n
      → target.url ≡ some u
      → IsInt32 target.interval
      → is_tuples_ok (inserted pg c t n u target.interval w.server).0.status ≡ true
      → t.next w.server ≡ pos k
      → 0 < k
      → Created db w url (b ∷ bs) (new_row pg c t n u target.interval w.server) k
  serve-Created db w url ds b bs tree target n u k o m e l h p fields en eu small ok next pk =
      let (s1, called, v) =
        serve-new_row pg cjson queue c t db w url ds b bs tree target n u o m e l h p fields en eu
          small in
      let r = new_row pg c t n u target.interval w.server in
      let response = post_response pg cjson queue c t (pos k) in
      let w1 = record w { server = s1 } in
      let held = (queued queue response w1).1 in
      let view : t.view s1 ≡ t.view w.server ++ r ∷ [] = rw ok at v in
      let (s2, got, same_view) =
        serve-found pg cjson queue c t db held k
          (queued-IsOpen queue c db response w1
            (record { conn_is = o.conn_is; is_open = o.is_open }))
          (memory-queued queue response w1 ∙ m) pk
          (next-small w.server n u target.interval k small ok next) in
      (
        s1,
        s2,
        (
          rw (ok, next) at called,
          got
              ∙ ap
                  (λ x. some (
                    queued queue (get_response pg cjson queue c t x) (record held { server = s2 })))
                  (ap (found pg c t (pos k)) (server-queued queue response w1)
                    ∙ found-new_row w.server s1 k r view next next),
          same_view ∙ ap t.view (server-queued queue response w1) ∙ view,
        ),
      )
