-- ===== src/Checks/Plan.antt =====
-- `Plan` of internal/checks/registry.go: Kahn's algorithm over the registered checks. The maps
-- `indegree` and `dependents` are functions on ids; the loop works on ids, and the checks are looked
-- up in the finished order. Every round emits one id, so the number of checks is fuel enough.
pub mod Walking
pub mod Linking
pub mod Topology
pub mod Verdict
use mathlib.Core.Option
use orkano.Prelude.{
  ℕ, zero, suc, ◌+◌, ◌-◌, Text, text_eq, List, [], ◌∷◌, ◌++◌, Option, none, some, Bool, ◌==◌, ltb,
  leb, if◌then◌else◌, is_some, length, select, Result, ok, err, ◌>>=◌,
}
use orkano.Checks.{Check}
use orkano.Checks.Registry.{Registry, get}

-- `cycle` carries the checks that are in a cycle or behind one.
pub data PlanError : Type 0 where
  missing_requirement : Text → Text → PlanError
  cycle : List Text → PlanError

abbrev pub update : {V : Type 0} → (Text → V) → Text → V → Text → V
update f k v j = if text_eq j k then v else f j

-- `idx`: the place of an id in the registration order.
unfoldable pub index_of : Text → List Text → ℕ
index_of id [] = 0
index_of id (x ∷ xs) = if text_eq id x then 0 else suc (index_of id xs)

-- `slices.SortFunc` by an index.
insert_by : (Text → ℕ) → Text → List Text → List Text
insert_by idx x [] = x ∷ []
insert_by idx x (y ∷ ys) = if leb (idx x) (idx y) then x ∷ y ∷ ys else y ∷ insert_by idx x ys

unfoldable pub sort_by : (Text → ℕ) → List Text → List Text
unfolding insert_by
sort_by idx [] = []
sort_by idx (x ∷ xs) = insert_by idx x (sort_by idx xs)

pub record Edges : Type 0 where
  pub indegree : Text → ℕ
  pub dependents : Text → List Text

abbrev pub no_edges : Edges
no_edges = record { indegree = λ _. 0; dependents = λ _. [] }

abbrev pub add_edge : Text → Text → Edges → Edges
add_edge id req e = record {
  indegree = update e.indegree id (e.indegree id + 1);
  dependents = update e.dependents req (e.dependents req ++ id ∷ []);
}

-- The loop over one check's requirements.
unfoldable pub link_requires : (Text → Bool) → Text → List Text → Edges → Result PlanError Edges
link_requires known id [] e = ok e
link_requires known id (req ∷ reqs) e =
    let rest = link_requires known id reqs (add_edge id req e) in
    if known req then rest else err (missing_requirement id req)

-- The loop over the registered checks.
unfoldable pub link :
    (Text → Bool) → (Text → List Text) → List Text → Edges → Result PlanError Edges
unfolding link_requires
link known reqs [] e = ok e
link known reqs (id ∷ ids) e = do e' ← link_requires known id (reqs id) e; link known reqs ids e'

pub record Walk : Type 0 where
  pub indegree : Text → ℕ
  pub ready : List Text
  pub order : List Text

-- One dependent of the check that was emitted.
unfoldable pub release : Text → Walk → Walk
release dep w =
    let d = w.indegree dep - 1 in
    record w {
      indegree = update w.indegree dep d;
      ready = if d == 0 then w.ready ++ dep ∷ [] else w.ready;
    }

unfoldable pub release_all : List Text → Walk → Walk
unfolding release
release_all [] w = w
release_all (dep ∷ deps) w = release_all deps (release dep w)

-- One round, with `ready` already sorted into `id ∷ rest`.
unfoldable pub emit : (Text → List Text) → Text → List Text → Walk → Walk
unfolding release_all
emit dependents id rest w =
    release_all (dependents id) (record w { ready = rest; order = w.order ++ id ∷ [] })

-- `for len(ready) > 0`; `none` means that the fuel ran out.
unfoldable pub walk : ℕ → (Text → ℕ) → (Text → List Text) → Walk → Option Walk
unfolding sort_by emit
walk zero idx dependents w = elim w.ready [ [] ↦ some w | _ ↦ none ]
walk (suc fuel) idx dependents w = elim (sort_by idx w.ready) [
  | [] ↦ some w
  | id ∷ rest ↦ walk fuel idx dependents (emit dependents id rest w)
]

module _ {W : Type 0} where
  abbrev pub requires_of : Option (Check W) → List Text
  requires_of none = []
  requires_of (some c) = c.requires

  abbrev pub known : Registry W → Text → Bool
  known r id = is_some (get r id)

  abbrev pub reqs : Registry W → Text → List Text
  reqs r id = requires_of (get r id)

  -- The checks of a list of registered ids.
  unfoldable pub checks_at : Registry W → List Text → List (Check W)
  checks_at r [] = []
  checks_at r (id ∷ ids) = elim (get r id) [ some c ↦ c ∷ checks_at r ids | none ↦ checks_at r ids ]

  -- The walk's start: the ids with no requirement are ready.
  abbrev pub start : Registry W → Edges → Walk
  start r e = record {
    indegree = e.indegree;
    ready = select (λ id. e.indegree id == 0) r.order;
    order = [];
  }

  -- What is still unmet when the walk has ended.
  abbrev pub finish : Registry W → Walk → Result PlanError (List (Check W))
  finish r w =
      if ltb (length w.order) (length r.order)
      then err (cycle (select (λ id. ltb 0 (w.indegree id)) r.order))
      else ok (checks_at r w.order)

  abbrev pub walk_from : Registry W → Edges → Option Walk
  walk_from r e = walk (length r.order) (λ id. index_of id r.order) e.dependents (start r e)

  unfoldable pub plan : Registry W → Option (Result PlanError (List (Check W)))
  plan r = elim (link (known r) (reqs r) r.order no_edges) [
    | err e ↦ some (err e)
    | ok e ↦ Option.map (finish r) (walk_from r e)
  ]
