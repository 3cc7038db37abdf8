-- ===== src/Graph/Compiled.antt =====
-- crates/revoot-core/src/execution_graph.rs: what holds of a compiled plan.
use revoot.Prelude.{
  ℕ, ◌*◌, ◌≤◌, ◌≡◌, refl, subst, Bool, true, false, ◌&&◌, ◌||◌, List, [], ◌∷◌, arith, ltb, any,
  is_empty, length, Bool-cases, inl, inr, ok, and_then-ok, ok_inj, reject_if, reject_if-ok,
  checked_mul, u64_max, is_none_or,
}
use revoot.Text.{Str, str_eq, str_eq_iff}
use revoot.Map.{Map, lookup, insert, contains_key, values}
use revoot.Map.Laws.{keys}
use revoot.Graph.Plan.{
  ExecutionNodeSpec, ExecutionGraphPlan, ExecutionGraphLimits, compile, plan, validate_limits,
  check_dependencies, validate_acyclic, hard_max_events, invalid_limits,
}
use revoot.Graph.States.{distinct, ids_of}

module _ {ℓ} {V : Type ℓ} where
  any-keys-insert :
      (j k : Str) (v : V) (m : Map V)
      → any (λ i. str_eq i j) (keys (insert k v m)) ≡ str_eq k j || any (λ i. str_eq i j) (keys m)
  unfolding insert
  any-keys-insert j k v [] = refl
  any-keys-insert j k v ((i, w) ∷ m) =
      ground (arith, str_eq_iff i k, str_eq_iff k j, str_eq_iff i j, any-keys-insert j k v m)

  contains_key-false :
      (k : Str) (m : Map V) → contains_key k m ≡ false → any (λ i. str_eq i k) (keys m) ≡ false
  unfolding lookup
  contains_key-false k [] h = refl
  contains_key-false k ((i, w) ∷ m) h = ground (arith, contains_key-false k m)

  distinct-insert :
      (k : Str) (v : V) (m : Map V)
      → any (λ i. str_eq i k) (keys m) ≡ false
      → distinct (keys m) ≡ true
      → distinct (keys (insert k v m)) ≡ true
  unfolding insert
  distinct-insert k v [] h d = refl
  distinct-insert k v ((i, w) ∷ m) h d =
      ground (arith, str_eq_iff i k, str_eq_iff k i, any-keys-insert i k v m, distinct-insert k v m)

-- Each node stands under its own id.
abbrev pub keyed_by_id : Map ExecutionNodeSpec → Bool
keyed_by_id [] = true
keyed_by_id ((k, n) ∷ m) = str_eq k n.id && keyed_by_id m

keyed_by_id-insert :
    (n : ExecutionNodeSpec) (m : Map ExecutionNodeSpec)
    → keyed_by_id m ≡ true
    → keyed_by_id (insert n.id n m) ≡ true
unfolding insert
keyed_by_id-insert n [] h = ground (arith, str_eq_iff n.id n.id)
keyed_by_id-insert n ((i, w) ∷ m) h = ground (arith, str_eq_iff n.id n.id, keyed_by_id-insert n m)

keys-ids : (m : Map ExecutionNodeSpec) → keyed_by_id m ≡ true → keys m ≡ ids_of (values m)
keys-ids [] h = refl
keys-ids ((k, n) ∷ m) h = ground (arith, str_eq_iff k n.id, keys-ids m)

compile-keys :
    (c : Map ExecutionNodeSpec) (ns : List ExecutionNodeSpec) {m : Map ExecutionNodeSpec}
    → distinct (keys c) ≡ true
    → keyed_by_id c ≡ true
    → compile c ns ≡ ok m
    → (distinct (keys m) ≡ true) × (keyed_by_id m ≡ true)
unfolding compile
compile-keys c [] {m} d k h = ground arith
compile-keys c (n ∷ ns) {m} d k h = elim (Bool-cases (contains_key n.id c)) [
  | inl twice ↦ ground (arith, twice)
  | inr once ↦
      compile-keys (insert n.id n c) ns
        (distinct-insert n.id n c (contains_key-false n.id c once) d) (keyed_by_id-insert n c k)
        (ground (arith, once))
]

-- What a plan promises: ids that differ, and room for the start and the end of each node.
pub record IsCompiled (p : ExecutionGraphPlan) : Type 0 where
  pub separate : distinct (ids_of (values p.nodes)) ≡ true
  pub keyed : keys p.nodes ≡ ids_of (values p.nodes)
  pub nonempty : 1 ≤ length p.nodes
  pub few : length p.nodes ≤ p.limits.max_nodes
  pub room : length p.nodes * 2 ≤ p.limits.max_events
  pub bounded : p.limits.max_events ≤ hard_max_events
  pub workers : 1 ≤ p.limits.max_parallel_nodes
  pub known : check_dependencies p.nodes (values p.nodes) ≡ ok tt
  pub acyclic : validate_acyclic p.nodes ≡ ok tt

limits_fit :
    (l : ExecutionGraphLimits)
    → validate_limits l ≡ ok tt
    → (l.max_events ≤ hard_max_events) × (1 ≤ l.max_parallel_nodes)
unfolding validate_limits
limits_fit l h = ground arith

sizes_fit :
    (l : ExecutionGraphLimits) (n : ℕ)
    → ltb l.max_nodes n
        || is_none_or (checked_mul u64_max n 2) (λ minimum. ltb l.max_events minimum)
      ≡ false
    → (n ≤ l.max_nodes) × (n * 2 ≤ l.max_events)
sizes_fit l n h = ground arith

abbrev oversized : Map ExecutionNodeSpec → ExecutionGraphLimits → Bool
oversized compiled limits =
    is_empty compiled
    || ltb limits.max_nodes (length compiled)
    || is_none_or (checked_mul u64_max (length compiled) 2)
        (λ minimum. ltb limits.max_events minimum)

nonempty_fits :
    (m : Map ExecutionNodeSpec) (l : ExecutionGraphLimits) → oversized m l ≡ false → 1 ≤ length m
nonempty_fits [] l h = cc
nonempty_fits (e ∷ m) l h = omega arith

oversized-sizes :
    (m : Map ExecutionNodeSpec) (l : ExecutionGraphLimits)
    → oversized m l ≡ false
    → (length m ≤ l.max_nodes) × (length m * 2 ≤ l.max_events)
oversized-sizes m l h = sizes_fit l (length m) (ground arith)

-- The plan of a `plan` call that succeeds has nodes of different ids, each under its own, no more of
-- them than its limits allow, and a budget of two events for each.
pub plan-IsCompiled :
    (nodes : List ExecutionNodeSpec) (limits : ExecutionGraphLimits) {p : ExecutionGraphPlan}
    → plan nodes limits ≡ ok p
    → IsCompiled p
unfolding plan
plan-IsCompiled nodes limits {p} h =
    let a = and_then-ok (validate_limits limits) _ h in
    let b = and_then-ok (compile [] nodes) _ a.2 in
    let m = b.0 in
    let c = and_then-ok (reject_if (oversized m limits) invalid_limits) _ b.2 in
    let d = and_then-ok (check_dependencies m (values m)) _ c.2 in
    let e = and_then-ok (validate_acyclic m) _ d.2 in
    let sized : oversized m limits ≡ false = reject_if-ok (oversized m limits) invalid_limits c.1 in
    let fit = oversized-sizes m limits sized in
    let own = compile-keys [] nodes {m = m} refl refl b.1 in
    let fit_limits = limits_fit limits a.1 in
    subst IsCompiled (ok_inj e.2) (record {
      separate = subst (λ ks. distinct ks ≡ true) (keys-ids m own.1) own.0;
      keyed = keys-ids m own.1;
      nonempty = nonempty_fits m limits sized;
      few = fit.0;
      room = fit.1;
      bounded = fit_limits.0;
      workers = fit_limits.1;
      known = d.1;
      acyclic = e.1;
    })
