-- ===== src/Graph/Acyclic.antt =====
-- crates/revoot-core/src/execution_graph.rs: who is ready after a round of the loop of `validate_acyclic`.
use revoot.Prelude.{
  suc, ◌≡◌, ◌∙◌, refl, sym, ap, true, false, ◌||◌, Option, none, some, List, [], ◌∷◌, arith, all,
  length, Bool-cases, inl, inr,
}
use revoot.Text.{Str, str_eq, str_eq_iff}
use revoot.Map.{Map, lookup}
use revoot.Map.Laws.{keys}
use revoot.Graph.Plan.{has_id, without, release}
use revoot.Graph.States.{distinct}
use revoot.Graph.Release.{
  waits_none, waits_only, released, keys-release, lookup-release, ready-release,
}
use revoot.Graph.Queue.{
  all-at, all-of, is_fresh, distinct-release, lookup-without, distinct-without, length-without,
}

-- Between two rounds: who is ready waits for nothing, and stands there once.
pub record IsQueue (m : Map (List Str)) (ready : List Str) : Type 0 where
  pub separate : distinct (keys m) ≡ true
  pub once : distinct ready ≡ true
  pub idle : all (λ j. waits_none (lookup j m)) ready ≡ true

-- A round: the node is taken out, and the ready list of what is left.
pub record IsRound (id : Str) (m m' : Map (List Str)) (ready : List Str) : Type 0 where
  pub queue : IsQueue m' ready
  pub fewer : suc (length m') ≡ length m

still_idle :
    (id j : Str) (m : Map (List Str))
    → str_eq j id ≡ false
    → waits_none (lookup j m) ≡ true
    → waits_none (lookup j (without id m)) ≡ true
still_idle id j m other h = ground (arith, lookup-without id j m, str_eq_iff id j, str_eq_iff j id)

idle_others :
    (id : Str) (m : Map (List Str)) (ready : List Str)
    → has_id id ready ≡ false
    → all (λ j. waits_none (lookup j m)) ready ≡ true
    → all (λ j. waits_none (lookup j (without id m))) ready ≡ true
idle_others id m [] h k = refl
idle_others id m (j ∷ ready) h k = ground (arith, still_idle id j m, idle_others id m ready)

idle_fresh : (id : Str) (o : Option (List Str)) → waits_none o ≡ true → waits_only id o ≡ false
idle_fresh id none h = refl
idle_fresh id (some []) h = refl
idle_fresh id (some (d ∷ ds)) h = cc

all_fresh :
    (id : Str) (m : Map (List Str)) (ready : List Str)
    → all (λ j. waits_none (lookup j m)) ready ≡ true
    → is_fresh id m ready ≡ true
all_fresh id m [] h = refl
all_fresh id m (j ∷ ready) h = ground (arith, idle_fresh id (lookup j m), all_fresh id m ready)

released_idle :
    (id : Str) (o : Option (List Str))
    → waits_none o || waits_only id o ≡ true
    → waits_none (released id o) ≡ true
released_idle id none h = cc
released_idle id (some []) h = refl
released_idle id (some (d ∷ ds)) h = ground arith

length-keys : (m : Map (List Str)) → length (keys m) ≡ length m
length-keys [] = refl
length-keys ((k, v) ∷ m) = ap suc (length-keys m)

ready_idle :
    (id j : Str) (m : Map (List Str)) (ready : List Str)
    → distinct (keys m) ≡ true
    → all (λ i. waits_none (lookup i m)) ready ≡ true
    → has_id j (release id m ready).1 ≡ true
    → waits_none (lookup j m) || waits_only id (lookup j m) ≡ true
ready_idle id j m ready d idle h = elim (Bool-cases (has_id j ready)) [
  | inl before ↦ ground (arith, all-at (λ i. waits_none (lookup i m)) j ready idle before)
  | inr not_before ↦
      let came : has_id j ready || waits_only id (lookup j m) ≡ true =
        sym (ready-release id j m ready d) ∙ h in
      ground (arith, came, not_before)
]

pub round :
    (id : Str) (m : Map (List Str)) (ready : List Str)
    → IsQueue m (id ∷ ready)
    → IsRound id m (release id (without id m) ready).0 (release id (without id m) ready).1
round id m ready q =
    let m1 = without id m in
    let apart : has_id id ready ≡ false = ground (arith, q.once) in
    let idle1 = idle_others id m ready apart (ground (arith, q.idle)) in
    let sep1 = distinct-without id m q.separate in
    record {
      queue = record {
        separate = rw (keys-release id m1 ready) sep1;
        once =
            distinct-release id m1 ready sep1 (all_fresh id m1 ready idle1)
              (ground (arith, q.once));
        idle =
            all-of (λ j. waits_none (lookup j (release id m1 ready).0)) (release id m1 ready).1
              λ j h.
                rw (lookup-release id j m1 ready)
                  (released_idle id (lookup j m1) (ready_idle id j m1 ready sep1 idle1 h));
      };
      fewer = omega (
        arith,
        length-keys (release id m1 ready).0,
        length-keys m1,
        ap length (keys-release id m1 ready),
        length-without id m q.separate (ground (arith, q.idle)),
      );
    }
