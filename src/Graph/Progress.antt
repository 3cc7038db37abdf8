-- ===== src/Graph/Progress.antt =====
-- crates/revoot-core/src/execution_graph.rs: which nodes a graph with work left can start.
use revoot.Prelude.{
  ℕ, zero, suc, ◌-◌, ◌≤◌, ◌<◌, ◌≡◌, ◌∙◌, refl, sym, subst, Bool, true, false, ◌||◌, Option, some,
  List, [], ◌∷◌, map, arith, ltb, any, is_empty, all, take, filter_by, Bool-cases, inl, inr,
}
use revoot.Text.{Str, str_eq, str_eq_iff}
use revoot.Map.{Map, lookup, contains_key, values}
use revoot.Map.Laws.{keys, count}
use revoot.Graph.Plan.{ExecutionNodeSpec, waits_of, has_id}
use revoot.Graph.Data.{
  ExecutionNodeState, ExecutionGraph, pending, running, completed, failed, cancelled, is_state,
  found_in,
}
use revoot.Graph.{is_ready, ready_nodes, running_count, is_complete}
use revoot.Graph.States.{distinct, deps_done}
use revoot.Graph.Invariant.{IsOrderly}
use revoot.Graph.Compiled.{IsCompiled}
use revoot.Graph.Queue.{all-at}
use revoot.Graph.Order.{ranks_below, validate_acyclic-ranks}
use revoot.Graph.Lookups.{
  lookup-all, lookup-any, contains_key-keys, lookup-id, lookup-ranks, check_dependencies-known,
  find_failing, found,
}

-- neither running nor ended without being completed
abbrev pub is_settled : ExecutionNodeState → Bool
is_settled s = is_state s pending || is_state s completed

waiting_pending :
    (o : Option ExecutionNodeState) (s : ExecutionNodeState)
    → o ≡ some s
    → is_settled s ≡ true
    → found_in completed o ≡ false
    → o ≡ some pending
waiting_pending o pending at h f = at
waiting_pending o running at h f = cc
waiting_pending o completed at h f =
    let found : found_in completed o ≡ true = rw at refl in absurd (ground (arith, found, f))
waiting_pending o failed at h f = cc
waiting_pending o cancelled at h f = cc

-- Down the ranks from a pending node there is one that can start.
descend :
    (g : ExecutionGraph) (rank : Str → ℕ)
    → IsOrderly g
    → IsCompiled g.plan
    → ranks_below rank (waits_of g.plan.nodes) ≡ true
    → all is_settled (values g.states) ≡ true
    → (fuel : ℕ) (k : Str) → lookup k g.states ≡ some pending
    → rank k < fuel
    → any (is_ready g.states) (values g.plan.nodes) ≡ true
unfolding is_ready
descend g rank o c ranked settled zero k at low = absurd (ground (arith, low))
descend g rank o c ranked settled (suc fuel) k at low =
    let held : has_id k (keys g.states) ≡ true = sym (contains_key-keys k g.states) ∙ rw at refl in
    let same_keys : keys g.states ≡ keys g.plan.nodes = o.keyed ∙ sym c.keyed in
    let (n, here) = found k g.plan.nodes (subst (λ ks. has_id k ks ≡ true) same_keys held) in
    let own : n.id ≡ k = lookup-id k g.plan.nodes {n = n} c.keyed here in
    let known =
      lookup-all (λ m. all (λ d. contains_key d g.plan.nodes) m.dependencies) k g.plan.nodes {v = n}
        (check_dependencies-known g.plan.nodes (values g.plan.nodes) c.known) here in
    let below = lookup-ranks rank k g.plan.nodes {n = n} ranked here in
    elim (Bool-cases (deps_done g.states n.dependencies)) [
      | inl done ↦
          let ready : is_ready g.states n ≡ true = rw (own, at, done) refl in
          lookup-any (is_ready g.states) k g.plan.nodes {v = n} here ready
      | inr waits ↦
          let (d, in_deps, undone) =
            find_failing (λ j. found_in completed (lookup j g.states)) n.dependencies waits in
          let d_known = all-at (λ j. contains_key j g.plan.nodes) d n.dependencies known in_deps in
          let d_below : ltb (rank d) (rank k) ≡ true =
            all-at (λ j. ltb (rank j) (rank k)) d n.dependencies below in_deps in
          let d_held : has_id d (keys g.states) ≡ true =
            rw same_keys (sym (contains_key-keys d g.plan.nodes) ∙ d_known) in
          let (s, d_at) = found d g.states d_held in
          let d_settled = lookup-all is_settled d g.states {v = s} settled d_at in
          descend g rank o c ranked settled fuel d
            (waiting_pending (lookup d g.states) s d_at d_settled undone)
            (ground (arith, d_below, low))
    ]

find_pending :
    (m : Map ExecutionNodeState)
    → distinct (keys m) ≡ true
    → all is_settled (values m) ≡ true
    → all (λ s. is_state s completed) (values m) ≡ false
    → (k : Str) × (lookup k m ≡ some pending)
unfolding lookup
find_pending [] d h f = absurd (ground (arith, f))
find_pending ((k, pending) ∷ m) d h f = (k, ground (arith, str_eq_iff k k))
find_pending ((k, completed) ∷ m) d h f =
    let (j, at) = find_pending m (ground arith) (ground arith) (ground arith) in
    let there : has_id j (keys m) ≡ true = sym (contains_key-keys j m) ∙ rw at refl in
    let other : str_eq k j ≡ false = ground (arith, str_eq_iff k j, there) in (j, rw other at)
find_pending ((k, running) ∷ m) d h f = absurd (ground (arith, h))
find_pending ((k, failed) ∷ m) d h f = absurd (ground (arith, h))
find_pending ((k, cancelled) ∷ m) d h f = absurd (ground (arith, h))

settled-idle :
    (ss : List ExecutionNodeState)
    → all is_settled ss ≡ true
    → count (λ s. is_state s running) ss ≡ 0
settled-idle [] h = refl
settled-idle (pending ∷ ss) h = omega (arith, settled-idle ss (ground arith))
settled-idle (completed ∷ ss) h = omega (arith, settled-idle ss (ground arith))
settled-idle (running ∷ ss) h = absurd (ground (arith, h))
settled-idle (failed ∷ ss) h = absurd (ground (arith, h))
settled-idle (cancelled ∷ ss) h = absurd (ground (arith, h))

offered_some :
    (p : ExecutionNodeSpec → Bool) (c : ℕ) (ns : List ExecutionNodeSpec)
    → 1 ≤ c
    → any p ns ≡ true
    → is_empty (map (λ n. n.id) (take c (filter_by p ns))) ≡ false
offered_some p zero ns h a = absurd (ground (arith, h))
offered_some p (suc c) [] h a = cc
offered_some p (suc c) (n ∷ ns) h a = elim (Bool-cases (p n)) [
  | inl passes ↦ rw passes refl
  | inr fails ↦ rw fails (offered_some p (suc c) ns h (ground (arith, fails)))
]

-- An orderly graph of a compiled plan does not get stuck: when nothing runs, nothing has failed or
-- was cancelled and not every node is completed, some node is ready.
pub ready_nodes_offered :
    (g : ExecutionGraph)
    → IsOrderly g
    → IsCompiled g.plan
    → all is_settled (values g.states) ≡ true
    → is_complete g ≡ false
    → is_empty (ready_nodes g) ≡ false
unfolding ready_nodes is_complete
ready_nodes_offered g o c settled unfinished =
    let order = validate_acyclic-ranks g.plan.nodes (rw c.keyed c.separate) c.acyclic in
    let (k, at) = find_pending g.states (rw o.keyed o.separate) settled unfinished in
    let idle : running_count g ≡ 0 = settled-idle (values g.states) settled in
    offered_some (is_ready g.states) (g.plan.limits.max_parallel_nodes - running_count g)
      (values g.plan.nodes) (omega (arith, idle, c.workers))
      (descend g order.0 o c order.1 settled (suc (order.0 k)) k at (omega arith))
