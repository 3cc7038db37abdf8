-- ===== src/Graph/Queue.antt =====
-- crates/revoot-core/src/execution_graph.rs: who is ready in the loop of `validate_acyclic`.
use revoot.Prelude.{
  suc, ◌≡◌, ◌∙◌, refl, Bool, true, false, not, ◌&&◌, none, List, [], ◌∷◌, arith, if◌then◌else◌,
  is_empty, all, length, Bool-cases, inl, inr,
}
use revoot.Text.{Str, str_eq, str_eq_iff}
use revoot.Map.{Map, lookup}
use revoot.Map.Laws.{keys}
use revoot.Graph.Plan.{insert_id, remove_id, has_id, without, release}
use revoot.Graph.States.{distinct}
use revoot.Graph.Release.{waits_none, waits_only, distinct-insert_id, lookup-none}

pub all-at :
    (p : Str → Bool) (j : Str) (s : List Str) → all p s ≡ true → has_id j s ≡ true → p j ≡ true
all-at p j [] h k = cc
all-at p j (i ∷ s) h k = ground (arith, str_eq_iff i j, all-at p j s)

pub all-of :
    (p : Str → Bool) (s : List Str) → ((j : Str) → has_id j s ≡ true → p j ≡ true) → all p s ≡ true
all-of p [] f = refl
all-of p (i ∷ s) f =
    let first : p i ≡ true = f i (ground (arith, str_eq_iff i i)) in
    let rest : all p s ≡ true = all-of p s (λ j h. f j (ground (arith, h))) in
    ground (arith, first, rest)

-- nobody in `ready` waits for `id` alone
abbrev pub is_fresh : Str → Map (List Str) → List Str → Bool
is_fresh id m ready = all (λ j. not (waits_only id (lookup j m))) ready

all-insert_id : (p : Str → Bool) (k : Str) (s : List Str) → all p (insert_id k s) ≡ p k && all p s
unfolding insert_id
all-insert_id p k [] = refl
all-insert_id p k (i ∷ s) = ground (arith, str_eq_iff i k, all-insert_id p k s)

fresh_tail :
    (id k : Str) (deps : List Str) (m : Map (List Str)) (ready : List Str)
    → has_id k ready ≡ false
    → is_fresh id ((k, deps) ∷ m) ready ≡ true
    → is_fresh id m ready ≡ true
unfolding lookup
fresh_tail id k deps m [] h f = refl
fresh_tail id k deps m (j ∷ ready) h f =
    ground (arith, str_eq_iff k j, str_eq_iff j k, fresh_tail id k deps m ready)

fresh_tail_any :
    (id k : Str) (deps : List Str) (m : Map (List Str)) (ready : List Str)
    → distinct (keys ((k, deps) ∷ m)) ≡ true
    → is_fresh id ((k, deps) ∷ m) ready ≡ true
    → is_fresh id m ready ≡ true
unfolding lookup
fresh_tail_any id k deps m [] h f = refl
fresh_tail_any id k deps m (j ∷ ready) h f =
    ground (arith, str_eq_iff k j, lookup-none j m, fresh_tail_any id k deps m ready)

not_ready :
    (id k : Str) (deps : List Str) (m : Map (List Str)) (ready : List Str)
    → has_id id deps && is_empty (remove_id id deps) ≡ true
    → is_fresh id ((k, deps) ∷ m) ready ≡ true
    → has_id k ready ≡ false
unfolding lookup
not_ready id k deps m [] last f = refl
not_ready id k deps m (j ∷ ready) last f =
    ground (arith, str_eq_iff k j, str_eq_iff j k, not_ready id k deps m ready last)

pub distinct-release :
    (id : Str) (m : Map (List Str)) (ready : List Str)
    → distinct (keys m) ≡ true
    → is_fresh id m ready ≡ true
    → distinct ready ≡ true
    → distinct (release id m ready).1 ≡ true
unfolding release
distinct-release id [] ready d f once = once
distinct-release id ((k, deps) ∷ m) ready d f once =
    elim (Bool-cases (has_id id deps && is_empty (remove_id id deps))) [
      | inl last ↦
          let apart = not_ready id k deps m ready last f in
          let tail = fresh_tail id k deps m ready apart f in
          let gone : has_id k (keys m) ≡ false = ground arith in
          let joined : is_fresh id m (insert_id k ready) ≡ true =
            all-insert_id (λ j. not (waits_only id (lookup j m))) k ready
            ∙ rw (lookup-none k m gone) tail in
          rw last (
            distinct-release id m (insert_id k ready) (ground arith) joined
              (distinct-insert_id k ready apart once))
      | inr more ↦
          rw more
            (distinct-release id m ready (ground arith) (fresh_tail_any id k deps m ready d f) once)
    ]

-- taking a node out
pub lookup-without :
    (id j : Str) (m : Map (List Str))
    → lookup j (without id m) ≡ (if str_eq id j then none else lookup j m)
unfolding lookup
lookup-without id j [] = ground arith
lookup-without id j ((k, deps) ∷ m) =
    ground (arith, str_eq_iff k id, str_eq_iff id j, str_eq_iff k j, lookup-without id j m)

has_id-without :
    (id j : Str) (m : Map (List Str))
    → has_id j (keys m) ≡ false
    → has_id j (keys (without id m)) ≡ false
has_id-without id j [] h = refl
has_id-without id j ((k, deps) ∷ m) h = ground (arith, has_id-without id j m)

pub distinct-without :
    (id : Str) (m : Map (List Str))
    → distinct (keys m) ≡ true
    → distinct (keys (without id m)) ≡ true
distinct-without id [] d = refl
distinct-without id ((k, deps) ∷ m) d = ground (arith, has_id-without id k m, distinct-without id m)

length-without_absent :
    (id : Str) (m : Map (List Str)) → has_id id (keys m) ≡ false → length (without id m) ≡ length m
length-without_absent id [] h = refl
length-without_absent id ((k, deps) ∷ m) h = ground (arith, length-without_absent id m)

pub length-without :
    (id : Str) (m : Map (List Str))
    → distinct (keys m) ≡ true
    → waits_none (lookup id m) ≡ true
    → suc (length (without id m)) ≡ length m
unfolding lookup
length-without id [] d h = cc
length-without id ((k, deps) ∷ m) d h = elim (Bool-cases (str_eq k id)) [
  | inl here ↦ ground (arith, here, str_eq_iff k id, length-without_absent id m)
  | inr there ↦ ground (arith, there, length-without id m)
]
