-- ===== src/Graph/Lookups.antt =====
-- crates/revoot-core/src/execution_graph.rs: what a lookup finds in a compiled plan.
use revoot.Prelude.{
  ℕ, ◌≡◌, ◌∙◌, refl, sym, subst, ap, Bool, true, false, not, some, List, [], ◌∷◌, arith, ltb, any,
  all, Bool-cases, Option-cases, inl, inr, ok, and_then-ok, reject_if, reject_if-ok,
}
use revoot.Text.{Str, str_eq, str_eq_iff}
use revoot.Map.{Map, lookup, contains_key, values}
use revoot.Map.Laws.{keys}
use revoot.Graph.Plan.{
  ExecutionNodeSpec, check_dependencies, waits_of, has_id, self_dependency, missing_dependency,
}
use revoot.Graph.States.{ids_of}
use revoot.Graph.Order.{ranks_below}

module _ {ℓ} {V : Type ℓ} where
  pub lookup-all :
      (p : V → Bool) (k : Str) (m : Map V) {v : V}
      → all p (values m) ≡ true
      → lookup k m ≡ some v
      → p v ≡ true
  unfolding lookup
  lookup-all p k [] h at = cc
  lookup-all p k ((j, w) ∷ m) {v} h at = elim (Bool-cases (str_eq j k)) [
    | inl here ↦
        let same : w ≡ v = ground (arith, here) in subst (λ x. p x ≡ true) same (ground arith)
    | inr there ↦ lookup-all p k m {v = v} (ground arith) (ground (arith, there))
  ]

  pub lookup-any :
      (p : V → Bool) (k : Str) (m : Map V) {v : V}
      → lookup k m ≡ some v
      → p v ≡ true
      → any p (values m) ≡ true
  unfolding lookup
  lookup-any p k [] at h = cc
  lookup-any p k ((j, w) ∷ m) {v} at h = elim (Bool-cases (str_eq j k)) [
    | inl here ↦
        let same : v ≡ w = ground (arith, here) in
        let first : p w ≡ true = subst (λ x. p x ≡ true) same h in ground (arith, first)
    | inr there ↦ ground (arith, lookup-any p k m {v = v} (ground (arith, there)) h)
  ]

  pub contains_key-keys : (k : Str) (m : Map V) → contains_key k m ≡ has_id k (keys m)
  unfolding lookup
  contains_key-keys k [] = refl
  contains_key-keys k ((j, w) ∷ m) = ground (arith, contains_key-keys k m)

pub lookup-id :
    (k : Str) (m : Map ExecutionNodeSpec) {n : ExecutionNodeSpec}
    → keys m ≡ ids_of (values m)
    → lookup k m ≡ some n
    → n.id ≡ k
unfolding lookup
lookup-id k [] own at = cc
lookup-id k ((j, w) ∷ m) {n} own at = elim (Bool-cases (str_eq j k)) [
  | inl here ↦
      let same : w ≡ n = ground (arith, here) in
      let named : j ≡ w.id = ground arith in
      ap (λ x. x.id) (sym same) ∙ sym named ∙ ground (arith, str_eq_iff j k)
  | inr there ↦ lookup-id k m {n = n} (ground arith) (ground (arith, there))
]

pub lookup-ranks :
    (rank : Str → ℕ) (k : Str) (m : Map ExecutionNodeSpec) {n : ExecutionNodeSpec}
    → ranks_below rank (waits_of m) ≡ true
    → lookup k m ≡ some n
    → all (λ d. ltb (rank d) (rank k)) n.dependencies ≡ true
unfolding lookup
lookup-ranks rank k [] b at = cc
lookup-ranks rank k ((j, w) ∷ m) {n} b at = elim (Bool-cases (str_eq j k)) [
  | inl here ↦
      let same : w ≡ n = ground (arith, here) in
      let key : j ≡ k = ground (arith, str_eq_iff j k) in
      let mine : all (λ d. ltb (rank d) (rank j)) w.dependencies ≡ true = ground arith in
      subst (λ x. all (λ d. ltb (rank d) (rank k)) x.dependencies ≡ true) same
        (subst (λ i. all (λ d. ltb (rank d) (rank i)) w.dependencies ≡ true) key mine)
  | inr there ↦ lookup-ranks rank k m {n = n} (ground arith) (ground (arith, there))
]

all_known :
    (c : Map ExecutionNodeSpec) (ds : List Str)
    → any (λ d. not (contains_key d c)) ds ≡ false
    → all (λ d. contains_key d c) ds ≡ true
all_known c [] h = refl
all_known c (d ∷ ds) h = ground (arith, all_known c ds)

pub check_dependencies-known :
    (c : Map ExecutionNodeSpec) (ns : List ExecutionNodeSpec)
    → check_dependencies c ns ≡ ok tt
    → all (λ n. all (λ d. contains_key d c) n.dependencies) ns ≡ true
unfolding check_dependencies
check_dependencies-known c [] h = refl
check_dependencies-known c (n ∷ ns) h =
    let a = and_then-ok (reject_if (any (λ d. str_eq d n.id) n.dependencies) self_dependency) _ h in
    let b =
      and_then-ok (reject_if (any (λ d. not (contains_key d c)) n.dependencies) missing_dependency)
        _ a.2 in
    let mine = all_known c n.dependencies (reject_if-ok _ missing_dependency b.1) in
    let rest = check_dependencies-known c ns b.2 in ground (arith, mine, rest)

pub find_failing :
    (p : Str → Bool) (ds : List Str)
    → all p ds ≡ false
    → (d : Str) × (has_id d ds ≡ true) × (p d ≡ false)
find_failing p [] h = cc
find_failing p (d ∷ ds) h = elim (Bool-cases (p d)) [
  | inr fails ↦ (d, ground (arith, str_eq_iff d d), fails)
  | inl holds ↦
      let (e, in_ds, fails) = find_failing p ds (ground (arith, holds)) in
      (e, ground (arith, in_ds), fails)
]

pub found {ℓ} :
    {V : Type ℓ} (k : Str) (m : Map V) → has_id k (keys m) ≡ true → (v : V) × (lookup k m ≡ some v)
found k m h = elim (Option-cases (lookup k m)) [
  | inl missing ↦
      let absent : contains_key k m ≡ false = rw missing refl in
      absurd (ground (arith, absent, h, contains_key-keys k m))
  | inr got ↦ got
]
