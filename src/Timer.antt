-- ===== src/Timer.antt =====
-- include/__mping/measurements/timer.hpp and measurements/internal/measurement_utils.hpp: the tree of
-- measurements that `start` and the `stop` functions walk. A node's address is a number, what stands at
-- an address a function of it; a null pointer is `none`. Names are only compared, and are numbers here.
-- The arithmetic on durations (`double`) is a parameter, and so is what `wtime` returns, an argument of
-- each call. The barrier of `synchronize_and_start` changes no node.
pub mod Nodes
pub mod Measured
mod Tests
use mping.Prelude.{
  ℕ, zero, suc, ◌+◌, Bool, true, false, List, [], ◌∷◌, ◌++◌, Option, none, some, ◌==◌,
  if◌then◌else◌, kassert, ◌>>=◌, ◌>>◌,
}

pub data LocalAggregationMode : Type 0 where
  accumulate append : LocalAggregationMode

pub data GlobalAggregationMode : Type 0 where
  min max sum gather : GlobalAggregationMode

pub record TreeNode (D : Type 0) : Type 0 where
  pub name : ℕ
  pub parent_ptr : Option ℕ
  pub children_map : List (ℕ × ℕ)
  pub children_storage : List ℕ
  pub start : D
  pub is_active : Bool
  pub durations : List D
  pub duration_aggregation_operations : List GlobalAggregationMode

pub record TimerTree (D : Type 0) : Type 0 where
  pub nodes : ℕ → TreeNode D
  pub next : ℕ
  pub current_node : Option ℕ

-- `_children_map.find(name)`
abbrev pub find : ℕ → List (ℕ × ℕ) → Option ℕ
find k [] = none
find k ((n, c) ∷ children) = if n == k then some c else find k children

module _ {D : Type 0} where
  abbrev pub write : (ℕ → TreeNode D) → ℕ → TreeNode D → ℕ → TreeNode D
  write nodes i node j = if j == i then node else nodes j

  -- A new node; its start point is not initialised, and is some value.
  abbrev pub new_node : D → ℕ → Option ℕ → TreeNode D
  new_node unset name parent = record {
    name = name;
    parent_ptr = parent;
    children_map = [];
    children_storage = [];
    start = unset;
    is_active = false;
    durations = [];
    duration_aggregation_operations = max ∷ [];
  }

  -- The tree that the constructor makes: the root, at address 0, is its own parent.
  pub init : D → TimerTree D
  init unset = record { nodes = λ i. new_node unset 0 (some 0); next = 1; current_node = some 0 }

  -- `reset`: the new root has no parent.
  pub reset : D → TimerTree D → TimerTree D
  reset unset t = record {
    nodes = write t.nodes 0 (new_node unset 0 none);
    next = 1;
    current_node = some 0;
  }

  abbrev pub insert_child : D → ℕ → ℕ → TimerTree D → TimerTree D
  insert_child unset i name t =
      let parent = t.nodes i in
      record t {
        nodes = write (write t.nodes t.next (new_node unset name (some i))) i (record parent {
          children_map = (name, t.next) ∷ parent.children_map;
          children_storage = parent.children_storage ++ t.next ∷ [];
        });
        next = suc t.next;
      }

  abbrev pub find_or_insert_at : Option ℕ → D → ℕ → ℕ → TimerTree D → ℕ × TimerTree D
  find_or_insert_at (some c) unset i name t = (c, t)
  find_or_insert_at none unset i name t = (t.next, insert_child unset i name t)

  -- `find_or_insert` of the node at address `i`.
  pub find_or_insert : D → ℕ → ℕ → TimerTree D → ℕ × TimerTree D
  find_or_insert unset i name t =
      find_or_insert_at (find name (t.nodes i).children_map) unset i name t

  pub activate : ℕ → D → TimerTree D → TimerTree D
  activate c start_point t = record t {
    nodes = write t.nodes c (record (t.nodes c) { is_active = true; start = start_point });
    current_node = some c;
  }

  pub start_impl : D → ℕ → D → TimerTree D → Option (TimerTree D)
  start_impl unset key start_point t = do
    i ← t.current_node
    let (c, found) = find_or_insert unset i key t
    some (activate c start_point found)

  module _ (plus minus : D → D → D) where
    -- `_durations.back() += duration`
    abbrev pub add_to_back : D → List D → List D
    add_to_back d [] = []
    add_to_back d (x ∷ []) = plus x d ∷ []
    add_to_back d (x ∷ y ∷ durations) = x ∷ add_to_back d (y ∷ durations)

    abbrev pub is_empty {ℓ} : {A : Type ℓ} → List A → Bool
    is_empty [] = true
    is_empty (x ∷ xs) = false

    pub aggregate_measurements_locally : LocalAggregationMode → D → List D → List D
    aggregate_measurements_locally accumulate d durations =
        if is_empty durations then d ∷ [] else add_to_back d durations
    aggregate_measurements_locally append d durations = durations ++ d ∷ []

    pub deactivate : LocalAggregationMode → List GlobalAggregationMode → D → TreeNode D → TreeNode D
    deactivate mode modes endpoint node = record node {
      is_active = false;
      durations = aggregate_measurements_locally mode (minus endpoint node.start) node.durations;
      duration_aggregation_operations =
          if is_empty modes then node.duration_aggregation_operations else modes;
    }

    pub stop_impl :
        LocalAggregationMode → List GlobalAggregationMode → D → TimerTree D → Option (TimerTree D)
    stop_impl mode modes endpoint t = do
      i ← t.current_node
      kassert ((t.nodes i).is_active)
      some (record t {
        nodes = write t.nodes i (deactivate mode modes endpoint (t.nodes i));
        current_node = (t.nodes i).parent_ptr;
      })

-- A program whose measurements are nested: a key, its start, the measurements inside, its stop, and the
-- measurements after it.
pub data Program (D : Type 0) : Type 0 where
  done : Program D
  measure :
      ℕ
      → D
      → Program D
      → LocalAggregationMode
      → List GlobalAggregationMode
      → D
      → Program D
      → Program D

module _ {D : Type 0} (plus minus : D → D → D) (unset : D) where
  pub run : Program D → TimerTree D → Option (TimerTree D)
  run done t = some t
  run (measure key started inside mode modes stopped after) t = do
    t' ← start_impl unset key started t
    t'' ← run inside t'
    t''' ← stop_impl plus minus mode modes stopped t''
    run after t'''
