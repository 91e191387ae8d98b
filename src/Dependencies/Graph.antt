-- ===== src/Dependencies/Graph.antt =====
-- The dependency rows as a graph: `graph.get(item, ())` and reachability.
use rpsd_config.Common.{
  ℕ, Bool, true, List, [], ◌∷◌, Option, none, some, select, exists_row, In, not, ◌==◌,
  if◌then◌else◌,
}

-- A row of `IndicatorVersionDependency`: the dependent version needs the prerequisite.
pub record Dependency : Type 0 where
  pub pk : ℕ
  pub dependent_id : ℕ
  pub prerequisite_id : ℕ

-- `item in seen`
abbrev pub member : ℕ → List ℕ → Bool
member x xs = exists_row (λ y. y == x) xs

-- The prerequisites of a version. The source keeps them in a set, whose order it does not fix.
abbrev pub children : ℕ → List Dependency → List ℕ
children item [] = []
children item (e ∷ edges) =
    let rest = children item edges in
    if e.dependent_id == item then e.prerequisite_id ∷ rest else rest

-- `objects.exclude(pk=exclude_pk)`: excluding the missing key excludes no row.
abbrev pub included : Option ℕ → Dependency → Bool
included none e = true
included (some pk) e = not (e.pk == pk)

abbrev pub without : Option ℕ → List Dependency → List Dependency
without exclude_pk edges = select (included exclude_pk) edges

-- `b` is `a`, or a prerequisite of a version that `a` reaches.
pub data Reaches (edges : List Dependency) (a : ℕ) : ℕ → Type 0 where
  here : Reaches edges a a
  step : {b c : ℕ} → Reaches edges a b → In c (children b edges) → Reaches edges a c
