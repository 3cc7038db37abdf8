-- ===== src/Graph/Plan.antt =====
-- crates/revoot-core/src/execution_graph.rs: node ids, limits, and the compilation of a plan.
use revoot.Prelude.{
  ℕ, zero, suc, ◌+◌, Bool, not, ◌&&◌, ◌||◌, Option, none, some, List, [], ◌∷◌, ltb, ◌==◌,
  if◌then◌else◌, is_empty, any, length, filter_by, Result, ok, err, and_then, reject_if, is_none_or,
  checked_mul, u64_max,
}
use revoot.Text.{Str, len, str_eq, all_bytes, is_ascii_lowercase, is_ascii_digit}
use revoot.Map.{Map, lookup, contains_key, insert, values, str_ltb}

abbrev pub max_node_id_bytes : ℕ
max_node_id_bytes = 128

abbrev pub hard_max_nodes : ℕ
hard_max_nodes = 256

abbrev pub hard_max_events : ℕ
hard_max_events = 2_048

abbrev pub hard_max_parallel_nodes : ℕ
hard_max_parallel_nodes = 32

pub data ExecutionGraphError : Type 0 where
  invalid_node_id invalid_limits duplicate_node missing_dependency : ExecutionGraphError
  self_dependency cycle unknown_node node_not_ready node_not_running : ExecutionGraphError
  clock_regression event_budget usage_overflow : ExecutionGraphError

abbrev pub id_byte : ℕ → Bool
id_byte c =
    is_ascii_lowercase c || is_ascii_digit c || c == b'-' || c == b'_' || c == b':' || c == b'.'

-- An `ExecutionNodeId` is its text.
unfoldable pub node_id : Str → Result ExecutionGraphError Str
unfolding len
node_id value =
    if is_empty value || ltb max_node_id_bytes (len value) || not (all_bytes id_byte value)
    then err invalid_node_id
    else ok value

pub data ExecutionNodeKind : Type 0 where
  review_preparation investigation candidate_verification adjudication : ExecutionNodeKind

pub record ExecutionGraphLimits : Type 0 where
  pub max_nodes : ℕ  -- u32
  pub max_events : ℕ  -- u32
  pub max_parallel_nodes : ℕ  -- u32

abbrev pub default_limits : ExecutionGraphLimits
default_limits = record { max_nodes = 32; max_events = 256; max_parallel_nodes = 8 }

unfoldable pub validate_limits : ExecutionGraphLimits → Result ExecutionGraphError (Unit {0})
validate_limits l =
    and_then (reject_if (l.max_nodes == 0 || ltb hard_max_nodes l.max_nodes) invalid_limits) λ _.
      and_then (reject_if (l.max_events == 0 || ltb hard_max_events l.max_events) invalid_limits)
        λ _.
          reject_if
            (l.max_parallel_nodes == 0
              || ltb hard_max_parallel_nodes l.max_parallel_nodes
              || ltb l.max_nodes l.max_parallel_nodes)
            invalid_limits

-- The dependencies are a set, in order.
pub record ExecutionNodeSpec : Type 0 where
  pub id : Str
  pub kind : ExecutionNodeKind
  pub dependencies : List Str

pub record ExecutionGraphPlan : Type 0 where
  pub nodes : Map ExecutionNodeSpec
  pub limits : ExecutionGraphLimits

unfoldable pub compile :
    Map ExecutionNodeSpec
    → List ExecutionNodeSpec
    → Result ExecutionGraphError (Map ExecutionNodeSpec)
unfolding insert lookup
compile compiled [] = ok compiled
compile compiled (node ∷ nodes) =
    let rest = compile (insert node.id node compiled) nodes in
    if contains_key node.id compiled then err duplicate_node else rest

unfoldable pub check_dependencies :
    Map ExecutionNodeSpec → List ExecutionNodeSpec → Result ExecutionGraphError (Unit {0})
unfolding lookup
check_dependencies compiled [] = ok tt
check_dependencies compiled (node ∷ nodes) =
    and_then (reject_if (any (λ d. str_eq d node.id) node.dependencies) self_dependency) λ _.
      and_then
        (reject_if (any (λ d. not (contains_key d compiled)) node.dependencies) missing_dependency)
        λ _. check_dependencies compiled nodes

-- A `BTreeSet` of ids in order: insertion, and removal with its result.
unfoldable pub insert_id : Str → List Str → List Str
insert_id k [] = k ∷ []
insert_id k (j ∷ s) =
    let rest = insert_id k s in
    if str_eq j k then j ∷ s else if str_ltb k j then k ∷ j ∷ s else j ∷ rest

abbrev pub remove_id : Str → List Str → List Str
remove_id k s = filter_by (λ j. not (str_eq j k)) s

abbrev pub has_id : Str → List Str → Bool
has_id k s = any (λ j. str_eq j k) s

-- `remaining`: the dependencies that each node still waits for.
abbrev pub waits_of : Map ExecutionNodeSpec → Map (List Str)
waits_of [] = []
waits_of ((id, n) ∷ m) = (id, n.dependencies) ∷ waits_of m

abbrev pub without : Str → Map (List Str) → Map (List Str)
without id m = filter_by (λ e. not (str_eq e.0 id)) m

-- the inner loop: `id` is done, and who waits for nothing else becomes ready
unfoldable pub release : Str → Map (List Str) → List Str → Map (List Str) × List Str
unfolding insert_id
release id [] ready = ([], ready)
release id ((k, deps) ∷ m) ready =
    let left = remove_id id deps in
    let (m', ready') =
      release id m (if has_id id deps && is_empty left then insert_id k ready else ready) in
    ((k, left) ∷ m', ready')

-- the loop of `validate_acyclic`, on fuel: the number of nodes visited
unfoldable pub visit : ℕ → Map (List Str) → List Str → ℕ → Option ℕ
unfolding release
visit zero remaining ready visited = none
visit (suc fuel) remaining [] visited = some visited
visit (suc fuel) remaining (id ∷ ready) visited =
    let (remaining', ready') = release id (without id remaining) ready in
    visit fuel remaining' ready' (visited + 1)

abbrev pub ready_at_first : Map (List Str) → List Str
ready_at_first [] = []
ready_at_first ((k, deps) ∷ m) = if is_empty deps then k ∷ ready_at_first m else ready_at_first m

-- Each node is visited at most once, so one round more than there are nodes is enough.
unfoldable pub validate_acyclic : Map ExecutionNodeSpec → Result ExecutionGraphError (Unit {0})
unfolding visit
validate_acyclic nodes =
    let remaining = waits_of nodes in
    elim (visit (length nodes + 1) remaining (ready_at_first remaining) 0) [
      | none ↦ err cycle
      | some visited ↦ if visited == length nodes then ok tt else err cycle
    ]

unfoldable pub plan :
    List ExecutionNodeSpec → ExecutionGraphLimits → Result ExecutionGraphError ExecutionGraphPlan
plan nodes limits = and_then (validate_limits limits) λ _. and_then (compile [] nodes) λ compiled.
    and_then
      (reject_if
        (is_empty compiled
          || ltb limits.max_nodes (length compiled)
          || is_none_or (checked_mul u64_max (length compiled) 2)
              (λ minimum. ltb limits.max_events minimum))
        invalid_limits)
      λ _. and_then (check_dependencies compiled (values compiled)) λ _.
        and_then (validate_acyclic compiled) λ _. ok (record { nodes = compiled; limits = limits })
