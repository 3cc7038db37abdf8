-- ===== src/Graph/Tests.antt =====
-- Runs of the graph on a small plan, and uses of its theorems there.
use revoot.Prelude.{◌↔◌, ◌⊎◌, IsIn, is_empty, ℕ, ◌≡◌, refl, true, some, [], ◌∷◌, ok, false}
use revoot.Text.{Str, str_eq}
use revoot.Graph
use revoot.Graph.Plan.{
  plan, visit, waits_of, ready_at_first, compile, validate_limits, check_dependencies,
  validate_acyclic,
}
use revoot.Graph.Data.{completed, add_usage, ExecutionFact, extend_facts}
use revoot.Graph.{is_complete, start, complete, fail, cancel_remaining, ready_nodes, summary}
use revoot.Graph.Invariant.{IsOrderly}
use revoot.Graph.Outcomes.{start_outcome, complete_outcome, start_result, complete_result}
use revoot.Graph.Cancel.{Cancels, cancel_remaining-Cancels}
use revoot.Graph.Compiled.{IsCompiled, plan-IsCompiled}
use revoot.Graph.Order.{ranks_below, validate_acyclic_ends, plan-ranks}
use revoot.Graph.Steps.{Reach, begun, starts, completes, plan-new-Reach-IsOrderly}
use revoot.Graph.Progress.{ready_nodes_offered}
use revoot.Graph.Final.{ended_is_final}
use revoot.Map.{lookup}
use revoot.Graph.Samples.{
  prepare, inspect, three_nodes, small_limits, three_plan, new_graph, preparing, contribution,
  prepared,
}

planned : plan three_nodes small_limits ≡ ok three_plan
unfolding plan validate_limits compile str_eq check_dependencies validate_acyclic
planned = refl

ready_first : ready_nodes new_graph ≡ prepare ∷ []
unfolding ready_nodes Graph.new str_eq
ready_first = refl

ready_second : ready_nodes prepared ≡ inspect ∷ []
unfolding ready_nodes Graph.new start complete str_eq add_usage
ready_second = refl

prepared-Reach : Reach new_graph prepared
prepared-Reach = completes prepare contribution 15 (starts prepare 12 begun)

plan-new-Reach-IsOrderly_example : IsOrderly prepared
plan-new-Reach-IsOrderly_example =
    plan-new-Reach-IsOrderly three_nodes small_limits 10 {p = three_plan} {h = prepared} planned
      prepared-Reach

prepared-IsOrderly : IsOrderly prepared
prepared-IsOrderly =
    plan-new-Reach-IsOrderly three_nodes small_limits 10 {p = three_plan} {h = prepared} planned
      prepared-Reach

preparing-IsOrderly : IsOrderly preparing
preparing-IsOrderly =
    plan-new-Reach-IsOrderly three_nodes small_limits 10 {p = three_plan} {h = preparing} planned
      (starts prepare 12 begun)

start_outcome_example : start inspect 16 prepared ≡ start_result inspect 16 prepared
start_outcome_example = start_outcome inspect 16 prepared prepared-IsOrderly

complete_outcome_example :
    (complete prepare contribution 15 preparing ≡ complete_result prepare contribution 15 preparing)
    × ((f : ExecutionFact)
        → IsIn f (extend_facts preparing.facts contribution.facts)
          ↔ (IsIn f preparing.facts ⊎ IsIn f contribution.facts))
complete_outcome_example = complete_outcome prepare contribution 15 preparing preparing-IsOrderly

cancel_remaining-Cancels_example : Cancels preparing 20 (cancel_remaining 20 preparing)
unfolding Graph.new start ready_nodes str_eq
cancel_remaining-Cancels_example = cancel_remaining-Cancels 20 preparing preparing-IsOrderly refl

plan-IsCompiled_example : IsCompiled three_plan
plan-IsCompiled_example = plan-IsCompiled three_nodes small_limits {p = three_plan} planned

plan-ranks_example : (rank : Str → ℕ) × (ranks_below rank (waits_of three_plan.nodes) ≡ true)
plan-ranks_example = plan-ranks three_nodes small_limits {p = three_plan} planned

validate_acyclic_ends_example :
    (v : ℕ) × (visit 4 (waits_of three_plan.nodes) (ready_at_first (waits_of three_plan.nodes)) 0
      ≡ some v)
unfolding str_eq
validate_acyclic_ends_example = validate_acyclic_ends three_plan.nodes refl

new_graph-IsOrderly : IsOrderly new_graph
new_graph-IsOrderly =
    plan-new-Reach-IsOrderly three_nodes small_limits 10 {p = three_plan} {h = new_graph} planned
      begun

ready_nodes_offered_example : is_empty (ready_nodes new_graph) ≡ false
unfolding Graph.new is_complete
ready_nodes_offered_example =
    ready_nodes_offered new_graph new_graph-IsOrderly
      (plan-IsCompiled three_nodes small_limits {p = three_plan} planned) refl refl

ended_is_final_example : lookup prepare (start inspect 16 prepared).1.states ≡ some completed
unfolding Graph.new start complete ready_nodes str_eq add_usage lookup
ended_is_final_example =
    ended_is_final {g = prepared} {h = (start inspect 16 prepared).1} prepare completed
      prepared-IsOrderly refl refl (starts inspect 16 begun)
