-- ===== src/Graph/Release.antt =====
-- crates/revoot-core/src/execution_graph.rs: one round of the loop of `validate_acyclic`.
use revoot.Prelude.{
  ◌≡◌, ◌∙◌, refl, ap, Bool, true, false, ◌&&◌, ◌||◌, Option, none, some, List, [], ◌∷◌, arith,
  if◌then◌else◌, is_empty, Bool-cases, inl, inr,
}
use revoot.Text.{Str, str_eq, str_eq_iff}
use revoot.Map.{Map, lookup}
use revoot.Map.Laws.{keys}
use revoot.Graph.Plan.{insert_id, remove_id, has_id, release}
use revoot.Graph.States.{distinct}

-- who waits for nothing, and who waits for `id` alone
abbrev pub waits_none : Option (List Str) → Bool
waits_none none = false
waits_none (some deps) = is_empty deps

abbrev pub waits_only : Str → Option (List Str) → Bool
waits_only id none = false
waits_only id (some deps) = has_id id deps && is_empty (remove_id id deps)

pub any-insert_id : (j k : Str) (s : List Str) → has_id j (insert_id k s) ≡ str_eq k j || has_id j s
unfolding insert_id
any-insert_id j k [] = refl
any-insert_id j k (i ∷ s) =
    ground (arith, str_eq_iff i k, str_eq_iff k j, str_eq_iff i j, any-insert_id j k s)

pub distinct-insert_id :
    (k : Str) (s : List Str)
    → has_id k s ≡ false
    → distinct s ≡ true
    → distinct (insert_id k s) ≡ true
unfolding insert_id
distinct-insert_id k [] h d = refl
distinct-insert_id k (i ∷ s) h d =
    ground (arith, str_eq_iff i k, str_eq_iff k i, any-insert_id i k s, distinct-insert_id k s)

abbrev pub released : Str → Option (List Str) → Option (List Str)
released id none = none
released id (some deps) = some (remove_id id deps)

pub keys-release :
    (id : Str) (m : Map (List Str)) (ready : List Str) → keys (release id m ready).0 ≡ keys m
unfolding release
keys-release id [] ready = refl
keys-release id ((k, deps) ∷ m) ready =
    ap (λ ks. k ∷ ks)
      (keys-release id m
        (if has_id id deps && is_empty (remove_id id deps) then insert_id k ready else ready))

pub lookup-release :
    (id j : Str) (m : Map (List Str)) (ready : List Str)
    → lookup j (release id m ready).0 ≡ released id (lookup j m)
unfolding release lookup
lookup-release id j [] ready = refl
lookup-release id j ((k, deps) ∷ m) ready = elim (Bool-cases (str_eq k j)) [
  | inl here ↦ rw here refl
  | inr there ↦ rw there (
      lookup-release id j m
        (if has_id id deps && is_empty (remove_id id deps) then insert_id k ready else ready))
]

pub lookup-none : (j : Str) (m : Map (List Str)) → has_id j (keys m) ≡ false → lookup j m ≡ none
unfolding lookup
lookup-none j [] h = refl
lookup-none j ((k, deps) ∷ m) h = ground (arith, lookup-none j m)

-- Who is ready after a round: who was, and who waited for `id` alone.
pub ready-release :
    (id j : Str) (m : Map (List Str)) (ready : List Str)
    → distinct (keys m) ≡ true
    → has_id j (release id m ready).1 ≡ has_id j ready || waits_only id (lookup j m)
unfolding release lookup
ready-release id j [] ready d = ground arith
ready-release id j ((k, deps) ∷ m) ready d =
    elim (Bool-cases (has_id id deps && is_empty (remove_id id deps))) [
      | inl last ↦ rw last (
          ready-release id j m (insert_id k ready) (ground arith)
          ∙ ground (arith, last, str_eq_iff k j, any-insert_id j k ready, lookup-none j m))
      | inr more ↦ rw more (
          ready-release id j m ready (ground arith)
          ∙ ground (arith, more, str_eq_iff k j, lookup-none j m))
    ]
