-- ===== src/Client/Watcher.antt =====
-- src/client/watcher.c: the table of the targets that the client polls. The hash table of uthash is
-- a list, in the order of insertion, with an id at most once.
pub mod Start
pub mod Add
pub mod Table
use reachard.Prelude.{
  ℕ, zero, suc, ◌+◌, Bool, true, false, List, [], ◌∷◌, ◌++◌, Option, none, some, ℤ, length,
  if◌then◌else◌,
}
use reachard.System.{Postgres, M, pure, ◌>>=◌, ◌>>◌, free_block}
use reachard.Database.{Db}
use reachard.Database.Targets
use reachard.Database.Targets.{Target, target_free, targets_free}
use reachard.Database.Table.{same_id}
use reachard.Client.Targets.{ClientTarget, client_target_init}

-- The targets, and how many more wait for the event loop to close their timer and free them.
pub record Watched : Type 0 where
  pub targets : List ClientTarget
  pub closing : ℕ

add_started : Watched → Option ClientTarget → ℕ × Watched
add_started watched none = (1, watched)
add_started watched (some target) = (0, record watched { targets = watched.targets ++ target ∷ [] })

module _ {S : Type 0} where
  -- The loop of `reachard_client_watcher_start`: the code, and the table.
  start_targets : List Target → List ClientTarget → M S (ℕ × List ClientTarget)
  unfolding client_target_init
  start_targets [] targets = pure (0, targets)
  start_targets (db_target ∷ db_targets) targets = do
    started ← client_target_init db_target
    elim started [
      | none ↦ pure (1, targets)
      | some target ↦ start_targets db_targets (targets ++ target ∷ [])
    ]

  start_listed : Option (List Target) → List ClientTarget → M S (ℕ × List ClientTarget)
  unfolding start_targets targets_free
  start_listed none targets = pure (1, targets)
  start_listed (some db_targets) targets = do
    started ← start_targets db_targets targets
    targets_free db_targets
    pure started

  add_found : Watched → Option Target → M S (ℕ × Watched)
  unfolding add_started client_target_init target_free
  add_found watched none = pure (1, watched)
  add_found watched (some db_target) = do
    started ← client_target_init db_target
    target_free db_target
    pure (add_started watched started)

module _ (pg : Postgres) where
  -- `reachard_client_watcher_start`, on the table so far
  unfoldable pub watcher_start : Db → List ClientTarget → M pg.Server (ℕ × List ClientTarget)
  unfolding start_listed
  watcher_start db targets = do listed ← Targets.get_all pg db; start_listed listed targets

  -- `reachard_client_watcher_add`
  unfoldable pub watcher_add : Db → ℤ → Watched → M pg.Server (ℕ × Watched)
  unfolding add_found
  watcher_add db id watched = do found ← Targets.get pg db id; add_found watched found

-- `HASH_FIND_INT`
abbrev pub hash_find : ℤ → List ClientTarget → Option ClientTarget
hash_find id [] = none
hash_find id (target ∷ targets) =
    let rest = hash_find id targets in if same_id target.id id then some target else rest

-- `HASH_DEL` of the target that `HASH_FIND_INT` gives.
abbrev pub hash_del : ℤ → List ClientTarget → List ClientTarget
hash_del id [] = []
hash_del id (target ∷ targets) =
    let rest = hash_del id targets in if same_id target.id id then targets else target ∷ rest

-- `reachard_client_target_deinit`: the timer of one more target waits to be closed.
abbrev pub client_target_deinit : ℕ → ℕ
client_target_deinit closing = suc closing

-- `reachard_client_watcher_delete`
unfoldable pub watcher_delete : ℤ → Watched → Watched
watcher_delete id watched = elim (hash_find id watched.targets) [
  | none ↦ watched
  | some target ↦ record {
    targets = hash_del id watched.targets;
    closing = client_target_deinit watched.closing;
  }
]

-- The loop of `reachard_client_watcher_stop`: each target is deleted, the first one first.
unfoldable pub close_all : List ClientTarget → ℕ → Watched
close_all [] closing = record { targets = []; closing = closing }
close_all (target ∷ targets) closing = close_all targets (client_target_deinit closing)

unfoldable pub watcher_stop : Watched → Watched
unfolding close_all
watcher_stop watched = close_all watched.targets watched.closing
