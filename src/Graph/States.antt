-- ===== src/Graph/States.antt =====
-- crates/revoot-core/src/execution_graph.rs: node states against the dependencies of a plan.
use revoot.Prelude.{
  ℕ, zero, suc, ◌≡◌, refl, Bool, true, false, not, ◌&&◌, ◌||◌, Option, none, some, List, [], ◌∷◌,
  map, arith, any, all, take, filter_by, Bool-cases, inl, inr,
}
use revoot.Text.{Str, str_eq, str_eq_iff}
use revoot.Map.{Map, lookup, write}
use revoot.Map.Laws.{lookup-write_self, lookup-write_ne}
use revoot.Graph.Plan.{ExecutionNodeSpec}
use revoot.Graph.Data.{
  ExecutionNodeState, pending, running, completed, cancelled, is_state, found_in,
}
use revoot.Graph.{is_ready}

-- a node that was begun: running or, after that, completed or failed
abbrev pub was_started : Option ExecutionNodeState → Bool
was_started none = false
was_started (some pending) = false
was_started (some cancelled) = false
was_started (some _) = true

abbrev pub deps_done : Map ExecutionNodeState → List Str → Bool
deps_done states ds = all (λ d. found_in completed (lookup d states)) ds

-- a node is begun only when what it depends on is completed
abbrev pub respects_deps : Map ExecutionNodeState → ExecutionNodeSpec → Bool
respects_deps states n = not (was_started (lookup n.id states)) || deps_done states n.dependencies

abbrev pub distinct : List Str → Bool
distinct [] = true
distinct (k ∷ ks) = not (any (λ j. str_eq j k) ks) && distinct ks

-- A write to an entry that is not completed leaves the completed ones.
pub deps_done-write :
    (id : Str) (s new : ExecutionNodeState) (states : Map ExecutionNodeState) (ds : List Str)
    → lookup id states ≡ some s
    → is_state s completed ≡ false
    → deps_done states ds ≡ true
    → deps_done (write id new states) ds ≡ true
deps_done-write id s new states [] h k done = refl
deps_done-write id s new states (d ∷ ds) h k done = elim (Bool-cases (str_eq id d)) [
  | inl same ↦ ground (arith, same, str_eq_iff id d)
  | inr other ↦
      ground (arith, lookup-write_ne id d new states other, deps_done-write id s new states ds h k)
]

abbrev pub may_become : Map ExecutionNodeState → Str → ExecutionNodeState → ExecutionNodeSpec → Bool
may_become states id new n =
    not (str_eq id n.id) || not (was_started (some new)) || deps_done states n.dependencies

pub respects_deps-write :
    (id : Str) (s new : ExecutionNodeState) (states : Map ExecutionNodeState)
    (ns : List ExecutionNodeSpec)
    → lookup id states ≡ some s
    → is_state s completed ≡ false
    → all (may_become states id new) ns ≡ true
    → all (respects_deps states) ns ≡ true
    → all (respects_deps (write id new states)) ns ≡ true
respects_deps-write id s new states [] h k may all_ok = refl
respects_deps-write id s new states (n ∷ ns) h k may all_ok = elim (Bool-cases (str_eq id n.id)) [
  | inl same ↦ ground (
    arith,
    str_eq_iff id n.id,
    lookup-write_self id new states {w = s} h,
    deps_done-write id s new states n.dependencies h k,
    respects_deps-write id s new states ns h k,
  )
  | inr other ↦ ground (
    arith,
    lookup-write_ne id n.id new states other,
    deps_done-write id s new states n.dependencies h k,
    respects_deps-write id s new states ns h k,
  )
]

pub any-ready :
    (p : ExecutionNodeSpec → Bool) (id : Str) (c : ℕ) (ns : List ExecutionNodeSpec)
    → any (λ r. str_eq r id) (map (λ n. n.id) (take c (filter_by p ns))) ≡ true
    → any (λ n. str_eq n.id id && p n) ns ≡ true
any-ready p id zero ns h = cc
any-ready p id (suc c) [] h = cc
any-ready p id (suc c) (n ∷ ns) h = elim (Bool-cases (p n)) [
  | inl passes ↦ ground (arith, passes, any-ready p id c ns)
  | inr fails ↦ ground (arith, fails, any-ready p id (suc c) ns)
]

pub is_ready-pending :
    (id : Str) (states : Map ExecutionNodeState) (ns : List ExecutionNodeSpec)
    → any (λ n. str_eq n.id id && is_ready states n) ns ≡ true
    → found_in pending (lookup id states) ≡ true
unfolding is_ready
is_ready-pending id states [] h = cc
is_ready-pending id states (n ∷ ns) h =
    ground (arith, str_eq_iff n.id id, is_ready-pending id states ns)

abbrev pub ids_of : List ExecutionNodeSpec → List Str
ids_of ns = map (λ n. n.id) ns

may_become-others :
    (id : Str) (states : Map ExecutionNodeState) (ns : List ExecutionNodeSpec)
    → any (λ j. str_eq j id) (ids_of ns) ≡ false
    → all (may_become states id running) ns ≡ true
may_become-others id states [] h = refl
may_become-others id states (n ∷ ns) h =
    ground (arith, str_eq_iff n.id id, str_eq_iff id n.id, may_become-others id states ns)

any-ids :
    (id : Str) (p : ExecutionNodeSpec → Bool) (ns : List ExecutionNodeSpec)
    → any (λ j. str_eq j id) (ids_of ns) ≡ false
    → any (λ n. str_eq n.id id && p n) ns ≡ false
any-ids id p [] h = refl
any-ids id p (n ∷ ns) h = ground (arith, any-ids id p ns)

-- A ready node may run.
pub may_become-ready :
    (id : Str) (states : Map ExecutionNodeState) (ns : List ExecutionNodeSpec)
    → distinct (ids_of ns) ≡ true
    → any (λ n. str_eq n.id id && is_ready states n) ns ≡ true
    → all (may_become states id running) ns ≡ true
unfolding is_ready
may_become-ready id states [] d h = cc
may_become-ready id states (n ∷ ns) d h = elim (Bool-cases (str_eq n.id id)) [
  | inl same ↦ ground (
    arith,
    same,
    str_eq_iff n.id id,
    str_eq_iff id n.id,
    may_become-others id states ns,
    any-ids id (is_ready states) ns,
  )
  | inr other ↦
      ground (arith, other, str_eq_iff n.id id, str_eq_iff id n.id, may_become-ready id states ns)
]

-- A node that runs may end.
pub may_become-ended :
    (id : Str) (states : Map ExecutionNodeState) (ns : List ExecutionNodeSpec)
    (new : ExecutionNodeState)
    → lookup id states ≡ some running
    → all (respects_deps states) ns ≡ true
    → all (may_become states id new) ns ≡ true
may_become-ended id states [] new h r = refl
may_become-ended id states (n ∷ ns) new h r =
    ground (arith, str_eq_iff id n.id, may_become-ended id states ns new h)

pub may_become-cancelled :
    (id : Str) (states : Map ExecutionNodeState) (ns : List ExecutionNodeSpec)
    → all (may_become states id cancelled) ns ≡ true
may_become-cancelled id states [] = refl
may_become-cancelled id states (n ∷ ns) = ground (arith, may_become-cancelled id states ns)
