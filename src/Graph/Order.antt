-- ===== src/Graph/Order.antt =====
-- crates/revoot-core/src/execution_graph.rs: the loop of `validate_acyclic`, its end and the order of its visits.
use revoot.Prelude.{
  ℕ, zero, suc, ◌+◌, ◌<◌, ◌≡◌, ◌∙◌, refl, ap, Bool, true, false, not, ◌&&◌, ◌||◌, Option, none,
  some, List, [], ◌∷◌, arith, ltb, ◌==◌, if◌then◌else◌, is_empty, all, length, Bool-cases, inl, inr,
  Result, ok, err,
}
use revoot.Text.{Str, str_eq, str_eq_iff}
use revoot.Map.{Map, lookup}
use revoot.Map.Laws.{keys}
use revoot.Graph.Plan.{
  ExecutionGraphError, cycle, ExecutionNodeSpec, ExecutionGraphLimits, ExecutionGraphPlan, plan,
  validate_acyclic, waits_of, ready_at_first, remove_id, insert_id, has_id, without, release, visit,
}
use revoot.Graph.States.{distinct}
use revoot.Graph.Release.{waits_none}
use revoot.Graph.First.{first-IsQueue, length-waits_of}
use revoot.Graph.Compiled.{plan-IsCompiled}
use revoot.Graph.Acyclic.{IsQueue, round}

-- The loop ends before it has done more rounds than there are nodes.
pub visit-ends :
    (fuel : ℕ) (m : Map (List Str)) (ready : List Str) (n : ℕ)
    → IsQueue m ready
    → length m < fuel
    → (v : ℕ) × (visit fuel m ready n ≡ some v)
unfolding visit
visit-ends zero m ready n q h = absurd (ground (arith, h))
visit-ends (suc fuel) m [] n q h = (n, refl)
visit-ends (suc fuel) m (id ∷ ready) n q h =
    let r = round id m ready q in
    visit-ends fuel (release id (without id m) ready).0 (release id (without id m) ready).1 (n + 1)
      r.queue (omega (arith, r.fewer, h))

abbrev pub ranks_below : (Str → ℕ) → Map (List Str) → Bool
ranks_below rank [] = true
ranks_below rank ((k, deps) ∷ m) = all (λ d. ltb (rank d) (rank k)) deps && ranks_below rank m

abbrev rank_first : Str → (Str → ℕ) → Str → ℕ
rank_first id rank j = if str_eq j id then 0 else suc (rank j)

deps_first :
    (id : Str) (rank : Str → ℕ) (r : ℕ) (deps : List Str)
    → all (λ d. ltb (rank d) r) (remove_id id deps) ≡ true
    → all (λ d. ltb (rank_first id rank d) (suc r)) deps ≡ true
deps_first id rank r [] h = refl
deps_first id rank r (d ∷ deps) h = elim (Bool-cases (str_eq d id)) [
  | inl same ↦ ground (arith, same, deps_first id rank r deps)
  | inr other ↦ ground (arith, other, deps_first id rank r deps)
]

below-release :
    (id : Str) (rank : Str → ℕ) (m : Map (List Str)) (ready : List Str)
    → has_id id (keys m) ≡ false
    → ranks_below rank (release id m ready).0 ≡ true
    → ranks_below (rank_first id rank) m ≡ true
unfolding release
below-release id rank [] ready h b = refl
below-release id rank ((k, deps) ∷ m) ready h b =
    let other : str_eq k id ≡ false = ground arith in
    let rest =
      below-release id rank m
        (if has_id id deps && is_empty (remove_id id deps) then insert_id k ready else ready)
        (ground arith) (ground arith) in
    let mine = deps_first id rank (rank k) deps (ground arith) in
    rw other (ground (arith, rest, mine))

-- what stands under `id` waits for nothing
abbrev waits_nothing : Str → Map (List Str) → Bool
waits_nothing id [] = true
waits_nothing id ((k, deps) ∷ m) = (not (str_eq k id) || is_empty deps) && waits_nothing id m

absent_waits_nothing :
    (id : Str) (m : Map (List Str)) → has_id id (keys m) ≡ false → waits_nothing id m ≡ true
absent_waits_nothing id [] h = refl
absent_waits_nothing id ((k, deps) ∷ m) h = ground (arith, absent_waits_nothing id m)

found_waits_nothing :
    (id : Str) (m : Map (List Str))
    → distinct (keys m) ≡ true
    → waits_none (lookup id m) ≡ true
    → waits_nothing id m ≡ true
unfolding lookup
found_waits_nothing id [] d h = refl
found_waits_nothing id ((k, deps) ∷ m) d h = elim (Bool-cases (str_eq k id)) [
  | inl here ↦ ground (arith, here, str_eq_iff k id, absent_waits_nothing id m)
  | inr there ↦ ground (arith, there, found_waits_nothing id m)
]

below-without :
    (id : Str) (rank : Str → ℕ) (m : Map (List Str))
    → waits_nothing id m ≡ true
    → ranks_below rank (without id m) ≡ true
    → ranks_below rank m ≡ true
below-without id rank [] w b = refl
below-without id rank ((k, []) ∷ m) w b = ground (arith, below-without id rank m)
below-without id rank ((k, d ∷ deps) ∷ m) w b = ground (arith, below-without id rank m)

absent-without : (id : Str) (m : Map (List Str)) → has_id id (keys (without id m)) ≡ false
absent-without id [] = refl
absent-without id ((k, deps) ∷ m) = ground (arith, absent-without id m)

-- When every node was visited, the order of the visits ranks each node above what it waits for.
visit-ranks :
    (fuel : ℕ) (m : Map (List Str)) (ready : List Str) (n : ℕ)
    → IsQueue m ready
    → visit fuel m ready n ≡ some (n + length m)
    → (rank : Str → ℕ) × (ranks_below rank m ≡ true)
unfolding visit
visit-ranks zero m ready n q h = cc
visit-ranks (suc fuel) [] [] n q h = (λ j. 0, refl)
visit-ranks (suc fuel) (e ∷ m) [] n q h = absurd (ground (arith, h))
visit-ranks (suc fuel) m (id ∷ ready) n q h =
    let r = round id m ready q in
    let (m', ready') = release id (without id m) ready in
    let rest =
      visit-ranks fuel (release id (without id m) ready).0 (release id (without id m) ready).1
        (n + 1) r.queue (h ∙ ap some (omega (arith, r.fewer))) in
    (
      rank_first id rest.0,
      below-without id (rank_first id rest.0) m
          (found_waits_nothing id m q.separate (ground (arith, q.idle)))
          (below-release id rest.0 (without id m) ready (absent-without id m) rest.1),
    )

-- The fuel of `validate_acyclic` is enough: on nodes of different ids, its loop ends.
pub validate_acyclic_ends :
    (nodes : Map ExecutionNodeSpec)
    → distinct (keys nodes) ≡ true
    → (v : ℕ) × (visit (length nodes + 1) (waits_of nodes) (ready_at_first (waits_of nodes)) 0
        ≡ some v)
validate_acyclic_ends nodes d =
    visit-ends (length nodes + 1) (waits_of nodes) (ready_at_first (waits_of nodes)) 0
      (first-IsQueue nodes d) (omega (arith, length-waits_of nodes))

visited_all :
    (o : Option ℕ) (n : ℕ)
    → ◌≡◌ {A = Result ExecutionGraphError (Unit {0})}
        (elim o [ none ↦ err cycle | some v ↦ if v == n then ok tt else err cycle ])
        (ok tt)
    → o ≡ some n
visited_all none n h = cc
visited_all (some v) n h = ground arith

-- Nodes that `validate_acyclic` accepts have ranks, each node above what it depends on.
pub validate_acyclic-ranks :
    (nodes : Map ExecutionNodeSpec)
    → distinct (keys nodes) ≡ true
    → validate_acyclic nodes ≡ ok tt
    → (rank : Str → ℕ) × (ranks_below rank (waits_of nodes) ≡ true)
unfolding validate_acyclic
validate_acyclic-ranks nodes d h =
    visit-ranks (length nodes + 1) (waits_of nodes) (ready_at_first (waits_of nodes)) 0
      (first-IsQueue nodes d)
      (visited_all (visit (length nodes + 1) (waits_of nodes) (ready_at_first (waits_of nodes)) 0)
          (length nodes) h
        ∙ ap some (omega (arith, length-waits_of nodes)))

-- The plan of a `plan` call that succeeds has no cycle: its nodes have ranks, each node above what
-- it depends on.
pub plan-ranks :
    (nodes : List ExecutionNodeSpec) (limits : ExecutionGraphLimits) {p : ExecutionGraphPlan}
    → plan nodes limits ≡ ok p
    → (rank : Str → ℕ) × (ranks_below rank (waits_of p.nodes) ≡ true)
plan-ranks nodes limits {p} planned =
    let c = plan-IsCompiled nodes limits planned in
    validate_acyclic-ranks p.nodes (rw c.keyed c.separate) c.acyclic
