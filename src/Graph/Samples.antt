-- ===== src/Graph/Samples.antt =====
-- A plan of three nodes, and graphs on it, for the tests.
use revoot.Prelude.{List, [], ◌∷◌}
use revoot.Text.{Str}
use revoot.Graph
use revoot.Graph.Plan.{
  ExecutionNodeSpec, ExecutionGraphPlan, ExecutionGraphLimits, investigation, adjudication,
  review_preparation,
}
use revoot.Graph.Data.{ExecutionGraph, ExecutionNodeContribution, request_validated, no_usage}
use revoot.Graph.{start, complete}

abbrev pub prepare : Str
prepare = b'p' ∷ []

abbrev pub inspect : Str
inspect = b'i' ∷ []

abbrev pub judge : Str
judge = b'j' ∷ []

abbrev pub three_nodes : List ExecutionNodeSpec
three_nodes =
    record { id = judge; kind = adjudication; dependencies = inspect ∷ [] }
    ∷ record { id = prepare; kind = review_preparation; dependencies = [] }
    ∷ record { id = inspect; kind = investigation; dependencies = prepare ∷ [] }
    ∷ []

abbrev pub small_limits : ExecutionGraphLimits
small_limits = record { max_nodes = 3; max_events = 6; max_parallel_nodes = 2 }

-- The nodes in the order of their ids: `i`, `j`, `p`.
abbrev pub three_plan : ExecutionGraphPlan
three_plan = record {
  nodes =
      (inspect, record { id = inspect; kind = investigation; dependencies = prepare ∷ [] })
      ∷ (judge, record { id = judge; kind = adjudication; dependencies = inspect ∷ [] })
      ∷ (prepare, record { id = prepare; kind = review_preparation; dependencies = [] })
      ∷ [];
  limits = small_limits;
}

abbrev pub new_graph : ExecutionGraph
new_graph = Graph.new three_plan 10

abbrev pub preparing : ExecutionGraph
preparing = (start prepare 12 new_graph).1

abbrev pub contribution : ExecutionNodeContribution
contribution = record { facts = request_validated ∷ []; usage = no_usage }

abbrev pub prepared : ExecutionGraph
prepared = (complete prepare contribution 15 preparing).1
