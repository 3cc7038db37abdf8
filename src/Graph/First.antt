-- ===== src/Graph/First.antt =====
-- crates/revoot-core/src/execution_graph.rs: who is ready when `validate_acyclic` starts.
use revoot.Prelude.{suc, ◌≡◌, refl, ap, Bool, true, false, List, [], ◌∷◌, arith, all, length}
use revoot.Text.{Str, str_eq_iff}
use revoot.Map.{Map, lookup}
use revoot.Map.Laws.{keys}
use revoot.Graph.Plan.{ExecutionNodeSpec, waits_of, ready_at_first, has_id}
use revoot.Graph.States.{distinct}
use revoot.Graph.Release.{waits_none}
use revoot.Graph.Acyclic.{IsQueue}

first_absent :
    (j : Str) (m : Map (List Str)) → has_id j (keys m) ≡ false → has_id j (ready_at_first m) ≡ false
first_absent j [] h = refl
first_absent j ((k, []) ∷ m) h = ground (arith, first_absent j m)
first_absent j ((k, d ∷ deps) ∷ m) h = ground (arith, first_absent j m)

first_once : (m : Map (List Str)) → distinct (keys m) ≡ true → distinct (ready_at_first m) ≡ true
first_once [] d = refl
first_once ((k, []) ∷ m) d = ground (arith, first_absent k m, first_once m)
first_once ((k, e ∷ deps) ∷ m) d = ground (arith, first_once m)

abbrev idle_in : Map (List Str) → List Str → Bool
idle_in m ready = all (λ j. waits_none (lookup j m)) ready

idle_tail :
    (k : Str) (deps : List Str) (m : Map (List Str)) (ready : List Str)
    → has_id k ready ≡ false
    → idle_in m ready ≡ true
    → idle_in ((k, deps) ∷ m) ready ≡ true
unfolding lookup
idle_tail k deps m [] h i = refl
idle_tail k deps m (j ∷ ready) h i =
    ground (arith, str_eq_iff k j, str_eq_iff j k, idle_tail k deps m ready)

first_idle : (m : Map (List Str)) → distinct (keys m) ≡ true → idle_in m (ready_at_first m) ≡ true
unfolding lookup
first_idle [] d = refl
first_idle ((k, []) ∷ m) d =
    let apart = first_absent k m (ground arith) in
    let rest = idle_tail k [] m (ready_at_first m) apart (first_idle m (ground arith)) in
    ground (arith, rest, str_eq_iff k k)
first_idle ((k, e ∷ deps) ∷ m) d =
    idle_tail k (e ∷ deps) m (ready_at_first m) (first_absent k m (ground arith))
      (first_idle m (ground arith))

keys-waits_of : (m : Map ExecutionNodeSpec) → keys (waits_of m) ≡ keys m
keys-waits_of [] = refl
keys-waits_of ((k, n) ∷ m) = ap (λ ks. k ∷ ks) (keys-waits_of m)

pub length-waits_of : (m : Map ExecutionNodeSpec) → length (waits_of m) ≡ length m
length-waits_of [] = refl
length-waits_of ((k, n) ∷ m) = ap suc (length-waits_of m)

pub first-IsQueue :
    (nodes : Map ExecutionNodeSpec)
    → distinct (keys nodes) ≡ true
    → IsQueue (waits_of nodes) (ready_at_first (waits_of nodes))
first-IsQueue nodes d =
    let d' : distinct (keys (waits_of nodes)) ≡ true = rw (keys-waits_of nodes) d in
    record {
      separate = d';
      once = first_once (waits_of nodes) d';
      idle = first_idle (waits_of nodes) d';
    }
