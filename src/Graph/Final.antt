-- ===== src/Graph/Final.antt =====
-- crates/revoot-core/src/execution_graph.rs: nodes that have ended.
use revoot.Prelude.{
  ℕ, ◌≡◌, ◌∙◌, refl, ap, true, false, some, [], ◌∷◌, arith, ltb, Bool-cases, inl, inr,
}
use revoot.Text.{Str, str_eq, str_eq_iff}
use revoot.Map.{Map, lookup, write}
use revoot.Map.Laws.{lookup-write_ne}
use revoot.Graph.Data.{
  ExecutionNodeState, pending, running, completed, failed, found_in, ExecutionGraph,
  ExecutionNodeContribution,
}
use revoot.Graph.{is_open, cancel_remaining}
use revoot.Graph.Invariant.{IsOrderly}
use revoot.Graph.Moves.{offers, offers-pending, found_running}
use revoot.Graph.Contributed.{summed, overflows}
use revoot.Graph.Outcomes.{
  start_outcome, fail_outcome, complete_outcome, start_result, fail_result, complete_result,
}
use revoot.Graph.Cancel.{all_cancelled, cancel_remaining-Cancels, cancel_remaining_late}
use revoot.Graph.Steps.{Reach, begun, starts, completes, fails, cancels, Reach-IsOrderly}

-- a node that has ended, and how
abbrev pub HasEnded : Str → ExecutionNodeState → ExecutionGraph → Type 0
HasEnded k s g = (lookup k g.states ≡ some s) × (is_open s ≡ false)

write_keeps_ended :
    (id k : Str) (new s old : ExecutionNodeState) (m : Map ExecutionNodeState)
    → lookup k m ≡ some s
    → is_open s ≡ false
    → lookup id m ≡ some old
    → is_open old ≡ true
    → lookup k (write id new m) ≡ some s
write_keeps_ended id k new s old m at closed there opened = elim (Bool-cases (str_eq id k)) [
  | inl same ↦
      let key : id ≡ k = ground (arith, same, str_eq_iff id k) in
      let one : old ≡ s = ground (arith, key, at, there) in
      let both : is_open old ≡ false = rw one closed in absurd (ground (arith, both, opened))
  | inr other ↦ lookup-write_ne id k new m other ∙ at
]

cancelling_keeps_ended :
    (k : Str) (s : ExecutionNodeState) (m : Map ExecutionNodeState)
    → lookup k m ≡ some s
    → is_open s ≡ false
    → lookup k (all_cancelled m) ≡ some s
unfolding lookup
cancelling_keeps_ended k s [] at closed = cc
cancelling_keeps_ended k s ((j, t) ∷ m) at closed = elim (Bool-cases (str_eq j k)) [
  | inl here ↦ let same : t ≡ s = ground (arith, here) in rw (here, same, closed) refl
  | inr there ↦ rw there (cancelling_keeps_ended k s m (ground (arith, there)) closed)
]

start_keeps_ended :
    (k id : Str) (s : ExecutionNodeState) (now : ℕ) (g : ExecutionGraph)
    → HasEnded k s g
    → lookup k (start_result id now g).1.states ≡ some s
start_keeps_ended k id s now g e = elim (Bool-cases (offers id g)) [
  | inr refused ↦ rw refused e.0
  | inl offered ↦ elim (Bool-cases (ltb now g.last_observed_millis)) [
    | inl late ↦ rw (offered, late) e.0
    | inr on_time ↦
        rw (offered, on_time)
          (write_keeps_ended id k running s pending g.states e.0 e.1 (offers-pending id g offered)
            refl)
  ]
]

fail_keeps_ended :
    (k id : Str) (s : ExecutionNodeState) (now : ℕ) (g : ExecutionGraph)
    → HasEnded k s g
    → lookup k (fail_result id now g).1.states ≡ some s
fail_keeps_ended k id s now g e = elim (Bool-cases (found_in running (lookup id g.states))) [
  | inr refused ↦ rw refused e.0
  | inl runs ↦ elim (Bool-cases (ltb now g.last_observed_millis)) [
    | inl late ↦ rw (runs, late) e.0
    | inr on_time ↦
        rw (runs, on_time)
          (write_keeps_ended id k failed s running g.states e.0 e.1
            (found_running (lookup id g.states) runs) refl)
  ]
]

complete_keeps_ended :
    (k id : Str) (s : ExecutionNodeState) (c : ExecutionNodeContribution) (now : ℕ)
    (g : ExecutionGraph)
    → HasEnded k s g
    → lookup k (complete_result id c now g).1.states ≡ some s
complete_keeps_ended k id s c now g e = elim (Bool-cases (found_in running (lookup id g.states))) [
  | inr refused ↦ rw refused e.0
  | inl runs ↦ elim (Bool-cases (overflows (summed g.usage c.usage))) [
    | inl over ↦ rw (runs, over) e.0
    | inr within ↦ elim (Bool-cases (ltb now g.last_observed_millis)) [
      | inl late ↦ rw (runs, within, late) e.0
      | inr on_time ↦
          rw (runs, within, on_time)
            (write_keeps_ended id k completed s running g.states e.0 e.1
              (found_running (lookup id g.states) runs) refl)
    ]
  ]
]

cancel_keeps_ended :
    (k : Str) (s : ExecutionNodeState) (now : ℕ) (g : ExecutionGraph)
    → IsOrderly g
    → HasEnded k s g
    → lookup k (cancel_remaining now g).1.states ≡ some s
cancel_keeps_ended k s now g o e = elim (Bool-cases (ltb now g.last_observed_millis)) [
  | inl late ↦ rw (cancel_remaining_late now g late) e.0
  | inr on_time ↦
      let c = cancel_remaining-Cancels now g o on_time in
      ap (lookup k) c.closed ∙ cancelling_keeps_ended k s g.states e.0 e.1
]

-- In an orderly graph, a node that is completed, failed or cancelled is so after any sequence of
-- calls.
pub ended_is_final :
    {g h : ExecutionGraph} (k : Str) (s : ExecutionNodeState)
    → IsOrderly g
    → lookup k g.states ≡ some s
    → is_open s ≡ false
    → Reach g h
    → lookup k h.states ≡ some s
ended_is_final k s o at closed begun = at
ended_is_final k s o at closed (starts {h = h} id now r) =
    rw (start_outcome id now h (Reach-IsOrderly o r))
      (start_keeps_ended k id s now h (ended_is_final k s o at closed r, closed))
ended_is_final k s o at closed (completes {h = h} id c now r) =
    rw ((complete_outcome id c now h (Reach-IsOrderly o r)).0)
      (complete_keeps_ended k id s c now h (ended_is_final k s o at closed r, closed))
ended_is_final k s o at closed (fails {h = h} id now r) =
    rw (fail_outcome id now h (Reach-IsOrderly o r))
      (fail_keeps_ended k id s now h (ended_is_final k s o at closed r, closed))
ended_is_final k s o at closed (cancels {h = h} now r) =
    cancel_keeps_ended k s now h (Reach-IsOrderly o r) (ended_is_final k s o at closed r, closed)
