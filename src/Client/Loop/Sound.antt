-- ===== src/Client/Loop/Sound.antt =====
-- What holds of the client's thread between two events, and that every callback keeps it.
use mathlib.Core.Path.{subst}
use mathlib.Core.Option.{some-injective}
use reachard.Prelude.{
  ℕ, ◌+◌, List, [], ◌∷◌, Option, some, ◌≡◌, refl, sym, ap, ◌∙◌, ℤ, IsInt32, if◌then◌else◌, arith,
  length, All, find_key, remove_key, Bool-cases, inl, inr,
}
use reachard.System.{World}
use reachard.Database.{Db}
use reachard.Database.Table.{same_id}
use reachard.Database.Refines.Rows.{IsOpen}
use reachard.Client.Targets.{ClientTarget}
use reachard.Client.Watcher.{hash_find}
use reachard.Client.Watcher.Table.{same_id_iff, held}
use reachard.Client.Sockets.{Polls}
use reachard.Client.Sockets.Table.{HasUniqueSockets, held_sockets, socket_function-Served}
use reachard.Client.Loop.{
  Transfer, Loop, Callback, socket, timer, Message, hash_set, call_back, call_all,
}

pub length-hash_set :
    (target : ClientTarget) (targets : List ClientTarget)
    → length (hash_set target targets) ≡ length targets
length-hash_set target [] = refl
length-hash_set target (t ∷ targets) = ground (arith, length-hash_set target targets)

-- An id is in the table.
abbrev pub IsWatched : List ClientTarget → ℤ → Type 0
IsWatched targets id = (target : ClientTarget) × (hash_find id targets ≡ some target)

pub hash_set-IsWatched :
    (new : ClientTarget) (id : ℤ) (targets : List ClientTarget)
    → IsWatched targets id
    → IsWatched (hash_set new targets) id
hash_set-IsWatched new id [] h = h
hash_set-IsWatched new id (t ∷ targets) (target, h) = elim (Bool-cases (same_id t.id new.id)) [
  | inl e ↦ elim (Bool-cases (same_id t.id id)) [
    | inl d ↦ rw e (new, rw (ap (λ i. same_id i id) (sym ((same_id_iff t.id new.id).0 e)) ∙ d) refl)
    | inr d ↦ rw e (
      target,
      rw (ap (λ i. same_id i id) (sym ((same_id_iff t.id new.id).0 e)) ∙ d) (sym (rw d refl) ∙ h),
    )
  ]
  | inr e ↦ elim (Bool-cases (same_id t.id id)) [
    | inl d ↦ rw e (t, rw d refl)
    | inr d ↦
        let (found, k) = hash_set-IsWatched new id targets (target, sym (rw d refl) ∙ h) in
        rw e (found, rw d k)
  ]
]

pub hash_set-ids :
    (new : ClientTarget) (targets : List ClientTarget)
    → IsInt32 new.id
    → All (λ t. IsInt32 t.id) targets
    → All (λ t. IsInt32 t.id) (hash_set new targets)
hash_set-ids new [] h a = tt
hash_set-ids new (t ∷ targets) h a = elim (Bool-cases (same_id t.id new.id)) [
  | inl e ↦ rw e (h, a.1)
  | inr e ↦ rw e (a.0, hash_set-ids new targets h a.1)
]

pub hash_find-id :
    (id : ℤ) (targets : List ClientTarget) (target : ClientTarget)
    → hash_find id targets ≡ some target
    → All (λ t. IsInt32 t.id) targets
    → (target.id ≡ id) × IsInt32 target.id
hash_find-id id [] target h a = cc
hash_find-id id (t ∷ targets) target h a = elim (Bool-cases (same_id t.id id)) [
  | inl d ↦
      let same : some t ≡ some target = sym (rw d refl) ∙ h in
      subst (λ x. (x.id ≡ id) × IsInt32 x.id) (some-injective _ _ same)
        ((same_id_iff t.id id).0 d, a.0)
  | inr d ↦ hash_find-id id targets target (sym (rw d refl) ∙ h) a.1
]

-- The heap blocks that the thread holds.
abbrev pub held_blocks : Loop → ℕ
held_blocks loop = held loop.watched + (length loop.transfers + held_sockets loop.polls)

-- Between two events: the connection is open, every block is one that the thread holds or one of the
-- `n` others, each transfer has its target, and no socket has two structures.
pub record IsSound {S : Type 0} (c : ℕ) (db : Db) (n : ℕ) (loop : Loop) (w : World S) : Type 0 where
  pub connected : IsOpen c db w
  pub memory_left : w.memory ≡ []
  pub accounted : w.blocks ≡ held_blocks loop + n
  pub ids : All (λ t. IsInt32 t.id) loop.watched.targets
  pub attached : All (λ tr. IsWatched loop.watched.targets tr.target) loop.transfers
  pub unique : HasUniqueSockets loop.polls

-- The thread changes the server's state and what is on the heap, and nothing else of the world.
abbrev pub Touches : {S : Type 0} → World S → World S → Type 0
Touches w w' = w' ≡ record w { server = w'.server; blocks = w'.blocks }

pub Touches-trans : {S : Type 0} → (w w1 w2 : World S) → Touches w w1 → Touches w1 w2 → Touches w w2
Touches-trans {S = S} w w1 w2 e1 e2 =
    e2
    ∙ ap {A = World S} {B = World S} (λ x. record x { server = w2.server; blocks = w2.blocks }) e1

-- Nothing but what is on the heap changes.
abbrev pub Frees : {S : Type 0} → World S → World S → Type 0
Frees w w' = w' ≡ record w { blocks = w'.blocks }

pub Frees-Touches : {S : Type 0} → (w w' : World S) → Frees w w' → Touches w w'
Frees-Touches {S = S} w w' e =
    e
    ∙ ap {A = S} {B = World S} (λ x. record w { server = x; blocks = w'.blocks })
        (sym (ap (λ x. x.server) e))

pub Frees-trans : {S : Type 0} → (w w1 w2 : World S) → Frees w w1 → Frees w1 w2 → Frees w w2
Frees-trans {S = S} w w1 w2 e1 e2 =
    e2 ∙ ap {A = World S} {B = World S} (λ x. record x { blocks = w2.blocks }) e1

-- The messages that libcurl may have: a done one for a transfer that is attached, at most once.
abbrev pub IsReported : List Message → List Transfer → Type 0
IsReported [] transfers = Unit
IsReported (m ∷ messages) transfers =
    if m.done
    then ((tr : Transfer) × (find_key (λ tr. tr.handle) m.handle transfers ≡ some tr))
      × IsReported messages (remove_key (λ tr. tr.handle) m.handle transfers)
    else IsReported messages transfers

module _ {S : Type 0} where
  pub with_id_of :
      {c : ℕ} {db : Db} {w : World S} (b : ℕ)
      → IsOpen c db w
      → IsOpen c db (record w { blocks = b })
  with_id_of b o = record { conn_is = o.conn_is; is_open = o.is_open }

  -- A call back keeps what holds, and leaves the targets and the transfers as they are.
  abbrev pub Called : ℕ → Db → ℕ → Loop → World S → Option (Loop × World S) → Type 0
  Called c db n loop w result =
      (polls : Polls) × (ms : Option ℕ) × (b : ℕ) × (result
        ≡ some (record loop { polls = polls; timer = ms }, record w { blocks = b }))
      × IsSound c db n (record loop { polls = polls; timer = ms }) (record w { blocks = b })

  call_back-Called :
      (c : ℕ) (db : Db) (n : ℕ) (call : Callback) (loop : Loop) (w : World S)
      → IsSound c db n loop w
      → Called c db n loop w (call_back call loop w)
  unfolding call_back
  call_back-Called c db n (timer ms) loop w s = (
    loop.polls,
    _,
    w.blocks,
    refl,
    record {
      connected = with_id_of w.blocks s.connected;
      memory_left = s.memory_left;
      accounted = s.accounted;
      ids = s.ids;
      attached = s.attached;
      unique = s.unique;
    },
  )
  call_back-Called c db n (socket fd what) loop w s =
      let (polls, b, e, (u, f, k)) =
        socket_function-Served fd what loop.polls w s.memory_left s.unique in
      (
        polls,
        loop.timer,
        b,
        rw e refl,
        record {
          connected = with_id_of b s.connected;
          memory_left = s.memory_left;
          accounted = omega (arith, k, s.accounted);
          ids = s.ids;
          attached = s.attached;
          unique = u;
        },
      )

  pub call_all-Called :
      (c : ℕ) (db : Db) (n : ℕ) (calls : List Callback) (loop : Loop) (w : World S)
      → IsSound c db n loop w
      → Called c db n loop w (call_all calls loop w)
  unfolding call_all
  call_all-Called c db n [] loop w s = (loop.polls, loop.timer, w.blocks, refl, s)
  call_all-Called c db n (call ∷ calls) loop w s =
      let (polls, ms, b, e, s') = call_back-Called c db n call loop w s in
      let (polls2, ms2, b2, e2, s2) =
        call_all-Called c db n calls (record loop { polls = polls; timer = ms })
          (record w { blocks = b }) s' in
      (polls2, ms2, b2, rw e e2, s2)
