-- ===== src/Agent/Machine/Stores.antt =====
-- The state files of a machine, by their paths: state.Open of apps/agent/internal/state/store.go and
-- what is done with the store that it gives, as apps/agent/cmd/agent/main.go and
-- apps/agent/internal/app/app.go open it.
use dysonsphere.Common.{
  Bool, true, false, ◌||◌, not, Option, none, some, [], ◌∷◌, Text, text_eq, if◌then◌else◌,
}
use dysonsphere.Common.Strings.{is_empty}
use dysonsphere.Common.Assoc.{Assoc, lookup, insert}
use dysonsphere.Agent.Bolt.{Bolt}
use dysonsphere.Agent.World
use dysonsphere.Agent.World.{AgentEnv, Buckets, empty_buckets}
use dysonsphere.Agent.Machine.{Machine, MachineEnv, open_state_failed, ok, err, Action, tick}

-- bbolt makes a database of a file that is missing or empty, and takes no other text for one.
abbrev pub may_be_database : Option Text → Bool
may_be_database none = true
may_be_database (some []) = true
may_be_database (some (c ∷ s)) = false

abbrev pub buckets_or_empty : {bolt : Bolt} → Option (Buckets bolt) → Buckets bolt
buckets_or_empty {bolt} none = empty_buckets bolt
buckets_or_empty (some b) = b

-- What the state file of a path holds, and no buckets' entries where there is none.
abbrev pub buckets_at : {bolt : Bolt} → Text → Assoc Text (Buckets bolt) → Buckets bolt
buckets_at path stores = buckets_or_empty (lookup path stores)

module _ {agent : AgentEnv} where
  -- The state file of the path is the open one.
  abbrev pub opened : Text → Machine agent → Machine agent
  opened path m = record m {
    world = record m.world { buckets = buckets_at path m.stores };
    stores = insert path (buckets_at path m.stores) m.stores;
  }

  abbrev pub cannot_open : Text → Machine agent → Bool
  cannot_open path m = is_empty path || not (may_be_database (lookup path m.files))

  unfoldable pub open_state : MachineEnv → Text → Action agent (Unit {0})
  open_state env path m =
      if env.fails m.world.steps || cannot_open path m
      then (err open_state_failed, tick m)
      else (ok tt, opened path (tick m))

  -- An action on the state file of the path, which is open; a transaction that is done is on disk.
  unfoldable pub in_state : {A : Type 0} → Text → World.Action agent A → Action agent A
  in_state path f m =
      let (a, w) = f m.world in
      (ok a, record m { world = w; stores = insert path w.buckets m.stores })
