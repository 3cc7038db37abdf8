-- ===== src/Graph/Contributed.antt =====
-- crates/revoot-core/src/execution_graph.rs: what a contribution adds to counters and facts.
use revoot.Prelude.{
  ◌+◌, ◌≡◌, ◌∙◌, ◌↔◌, ◌⊎◌, Bool, true, ◌||◌, ◌==◌, List, [], ◌∷◌, IsIn, arith, ltb, if◌then◌else◌,
  Bool-cases, inl, inr, ok, err,
}
use revoot.Graph.Plan.{usage_overflow}
use revoot.Graph.Data.{
  ExecutionGraphUsage, add_usage, extend_facts, insert_fact, ExecutionFact, fact_rank,
}

-- the sum of two usages, and whether a counter of it is above `u32::MAX`
abbrev pub summed : ExecutionGraphUsage → ExecutionGraphUsage → ExecutionGraphUsage
summed a b = record {
  model_turns = a.model_turns + b.model_turns;
  tool_calls = a.tool_calls + b.tool_calls;
  admitted_candidates = a.admitted_candidates + b.admitted_candidates;
  suppressed_candidates = a.suppressed_candidates + b.suppressed_candidates;
}

abbrev pub overflows : ExecutionGraphUsage → Bool
overflows u =
    ltb 0xffffffff u.model_turns
    || ltb 0xffffffff u.tool_calls
    || ltb 0xffffffff u.admitted_candidates
    || ltb 0xffffffff u.suppressed_candidates

pub add_usage-sum :
    (a b : ExecutionGraphUsage)
    → add_usage a b ≡ (if overflows (summed a b) then err usage_overflow else ok (summed a b))
unfolding add_usage
add_usage-sum a b = ground arith

same_fact : (f g : ExecutionFact) → fact_rank f == fact_rank g ≡ true → f ≡ g
same_fact f g h = ground arith

insert_fact-IsIn :
    (f g : ExecutionFact) (s : List ExecutionFact) → IsIn f (insert_fact g s) ↔ ((f ≡ g) ⊎ IsIn f s)
unfolding insert_fact
insert_fact-IsIn f g [] = (λ i. i, λ i. i)
insert_fact-IsIn f g (h ∷ s) = elim (Bool-cases (fact_rank g == fact_rank h)) [
  | inl same ↦
      rw (insert_fact, same)
        (λ i. inr i, λ i. elim i [ inl e ↦ inl (e ∙ same_fact g h same) | inr j ↦ j ])
  | inr other ↦ elim (Bool-cases (ltb (fact_rank g) (fact_rank h))) [
    | inl less ↦ rw (insert_fact, other, less) (λ i. i, λ i. i)
    | inr more ↦
        rw (insert_fact, other, more)
          (
            λ i. elim i [
              | inl e ↦ inr (inl e)
              | inr j ↦ elim ((insert_fact-IsIn f g s).0 j) [ inl e ↦ inl e | inr k ↦ inr (inr k) ]
            ],
            λ i. elim i [
              | inl e ↦ inr ((insert_fact-IsIn f g s).1 (inl e))
              | inr j ↦ elim j [ inl e ↦ inl e | inr k ↦ inr ((insert_fact-IsIn f g s).1 (inr k)) ]
            ],
          )
  ]
]

pub extend_facts-IsIn :
    (f : ExecutionFact) (facts given : List ExecutionFact)
    → IsIn f (extend_facts facts given) ↔ (IsIn f facts ⊎ IsIn f given)
unfolding extend_facts
extend_facts-IsIn f facts [] = (λ i. inl i, λ i. elim i [ inl j ↦ j | inr k ↦ absurd k ])
extend_facts-IsIn f facts (g ∷ given) =
    let rest = extend_facts-IsIn f (insert_fact g facts) given in
    let first = insert_fact-IsIn f g facts in
    (
      λ i. elim (rest.0 i) [
        | inl j ↦ elim (first.0 j) [ inl e ↦ inr (inl e) | inr k ↦ inl k ]
        | inr k ↦ inr (inr k)
      ],
      λ i. elim i [
        | inl j ↦ rest.1 (inl (first.1 (inr j)))
        | inr k ↦ elim k [ inl e ↦ rest.1 (inl (first.1 (inl e))) | inr l ↦ rest.1 (inr l) ]
      ],
    )
