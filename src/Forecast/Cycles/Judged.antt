-- ===== src/Forecast/Cycles/Judged.antt =====
-- forecast.py, `_reject_cycles`: what a search for cycles leaves: a cycle, or an order of the nodes.
use free_model_orchestrator.Base.{
  ℕ, suc, zero, ◌+◌, ◌<◌, ◌≤◌, ◌≡◌, refl, String, true, false, none, some, List, [], ◌∷◌, ◌++◌,
  ◌==◌, ◌||◌, contains, string_eq, if◌then◌else◌, length, All, Bool-cases, inl, inr, arith, subst,
  sym,
}
use free_model_orchestrator.Base.Dict.{lookup, get_or, keys}
use free_model_orchestrator.Effects.{return, raise}
use free_model_orchestrator.Forecast.Cycles.{
  Graph, graph_of, Visit, then_visit, visit_each, visit, nodes_of, reject_cycles, cycle_found,
  mark_visited,
}

pub contains-append :
    (xs ys : List String) (x : String) → contains (xs ++ ys) x ≡ (contains xs x || contains ys x)
contains-append [] ys x = refl
contains-append (y ∷ xs) ys x = ground (arith, contains-append xs ys x)

-- How many nodes are not on the path
free_count : List String → List String → ℕ
free_count visiting [] = 0
free_count visiting (node ∷ nodes) =
    (if contains visiting node then 0 else 1) + free_count visiting nodes

free_count-le :
    (visiting nodes : List String) (node : String)
    → free_count (node ∷ visiting) nodes ≤ free_count visiting nodes
unfolding free_count
free_count-le visiting [] node = omega arith
free_count-le visiting (n ∷ nodes) node = ground (arith, free_count-le visiting nodes node)

free_count-lt :
    (visiting nodes : List String) (node : String)
    → contains nodes node ≡ true
    → contains visiting node ≡ false
    → free_count (node ∷ visiting) nodes < free_count visiting nodes
unfolding free_count
free_count-lt visiting [] node h free = absurd (ground (arith, h))
free_count-lt visiting (n ∷ nodes) node h free = elim (Bool-cases (node == n)) [
  | inl e ↦ ground (arith, e, free, free_count-le visiting nodes node)
  | inr e ↦ ground (arith, e, h, free_count-lt visiting nodes node (ground (arith, h, e)) free)
]

free_count-length : (visiting nodes : List String) → free_count visiting nodes ≤ length nodes
unfolding free_count
free_count-length visiting [] = omega arith
free_count-length visiting (n ∷ nodes) = ground (arith, free_count-length visiting nodes)

-- The nodes of a graph have the children of every node, and the sources of the edges.
child-nodes_of :
    (graph : Graph) (node child : String)
    → contains (get_or node [] graph) child ≡ true
    → contains (nodes_of graph) child ≡ true
unfolding nodes_of lookup
child-nodes_of [] node child h = h
child-nodes_of ((n, children) ∷ graph) node child h = elim (Bool-cases (node == n)) [
  | inl e ↦ ground (arith, e, h, contains-append children (nodes_of graph) child)
  | inr e ↦ ground (
    arith,
    contains-append children (nodes_of graph) child,
    child-nodes_of graph node child (
        subst
          (λ b.
            contains
              (elim (if b then some children else lookup node graph) as (λ _. List String) [
                | none ↦ []
                | some w ↦ w
              ])
              child
            ≡ true)
          e h),
  )
]

keys-nodes_of :
    (graph : Graph) (node : String)
    → contains (keys graph) node ≡ true
    → contains (nodes_of graph) node ≡ true
unfolding nodes_of keys
keys-nodes_of [] node h = h
keys-nodes_of ((n, children) ∷ graph) node h =
    ground (arith, h, contains-append children (nodes_of graph) node, keys-nodes_of graph node)

each-All :
    {P : String → Type 0}
    → (nodes : List String) → ((node : String) → contains nodes node ≡ true → P node)
    → All P nodes
each-All [] h = tt
each-All (node ∷ nodes) h = (h node (ground arith), each-All nodes (λ n m. h n (ground (arith, m))))

module _ (graph : Graph) where
  abbrev pub children : String → List String
  children node = get_or node [] graph

  -- A walk along edges, of one edge at least
  pub data Reaches : String → String → Type 0 where
    edge : {a b : String} → contains (children a) b ≡ true → Reaches a b
    onward : {a b c : String} → Reaches a b → contains (children b) c ≡ true → Reaches a c

  -- The children of each node stand behind it.
  abbrev pub Ordered : List String → Type 0
  Ordered [] = Unit
  Ordered (node ∷ visited) =
      All (λ child. contains visited child ≡ true) (children node) × Ordered visited

  -- What a visit leaves: a cycle, or an order that has what it had and these nodes
  abbrev pub Judged : List String → List String → Visit → Type 0
  Judged visited nodes none = ⊥
  Judged visited nodes (some (raise e)) =
      (some (raise e) ≡ some cycle_found) × ((node : String) × Reaches node node)
  Judged visited nodes (some (return visited')) =
      Ordered visited'
      × All (λ node. contains visited' node ≡ true) nodes
      × ((other : String) → contains visited other ≡ true → contains visited' other ≡ true)

  visit_each-Judged :
      (one : String → List String → Visit) (nodes visited : List String)
      → Ordered visited
      → All (λ node. (v : List String) → Ordered v → Judged v (node ∷ []) (one node v)) nodes
      → Judged visited nodes (visit_each one nodes visited)
  unfolding visit_each
  visit_each-Judged one [] visited ordered each = (ordered, tt, λ other h. h)
  visit_each-Judged one (node ∷ nodes) visited ordered (first, each) =
      go (one node visited) (first visited ordered) (λ v o. visit_each-Judged one nodes v o each)
    where
      go :
          (r : Visit)
          → Judged visited (node ∷ []) r
          → ((v : List String) → Ordered v → Judged v nodes (visit_each one nodes v))
          → Judged visited (node ∷ nodes) (then_visit r (visit_each one nodes))
      go none h rest = absurd h
      go (some (raise e)) h rest = h
      go (some (return v)) (o, (has, _), kept) rest = more (visit_each one nodes v) (rest v o)
        where
          more : (r : Visit) → Judged v nodes r → Judged visited (node ∷ nodes) r
          more none h = absurd h
          more (some (raise e)) h = h
          more (some (return v')) (o', all', kept') =
              (o', (kept' node has, all'), λ other h. kept' other (kept other h))

  then_visit-Judged :
      (node : String) (visited : List String) (r : Visit)
      → Judged visited (children node) r
      → Judged visited (node ∷ []) (then_visit r (mark_visited node))
  then_visit-Judged node visited none h = absurd h
  then_visit-Judged node visited (some (raise e)) h = h
  then_visit-Judged node visited (some (return v)) (ordered, has, kept) =
      ((has, ordered), (ground arith, tt), λ other h. ground (arith, kept other h))

  Reaches-child :
      (visiting : List String) (node child : String)
      → ((p : String) → contains visiting p ≡ true → Reaches p node)
      → contains (children node) child ≡ true
      → (p : String) → contains (node ∷ visiting) p ≡ true
      → Reaches p child
  Reaches-child visiting node child path known p h = elim (string_eq.dec p node) [
    | yes same ↦ subst (λ q. Reaches q child) (sym same) (edge known)
    | no differ ↦ onward (path p (ground (arith, h, differ))) known
  ]

  visit-Judged :
      (fuel : ℕ) (visiting : List String) (node : String) (visited : List String)
      → contains (nodes_of graph) node ≡ true
      → free_count visiting (nodes_of graph) < fuel
      → ((p : String) → contains visiting p ≡ true → Reaches p node)
      → Ordered visited
      → Judged visited (node ∷ []) (visit fuel graph visiting node visited)
  unfolding visit
  visit-Judged zero visiting node visited known enough path ordered = absurd (omega (arith, enough))
  visit-Judged (suc fuel) visiting node visited known enough path ordered =
      elim (Bool-cases (contains visiting node)) [
        | inl e ↦ rw e (refl, (node, path node e))
        | inr e ↦ rw e (elim (Bool-cases (contains visited node)) [
          | inl seen ↦ rw seen (ordered, (seen, tt), λ other h. h)
          | inr new ↦ rw new (
              then_visit-Judged node visited
                (visit_each (visit fuel graph (node ∷ visiting)) (children node) visited)
                (visit_each-Judged (visit fuel graph (node ∷ visiting)) (children node) visited
                  ordered
                  (each-All (children node) (λ child h v o.
                    visit-Judged fuel (node ∷ visiting) child v (child-nodes_of graph node child h)
                      (less e) (Reaches-child visiting node child path h) o))))
        ])
      ]
    where
      less : contains visiting node ≡ false → free_count (node ∷ visiting) (nodes_of graph) < fuel
      less e = omega (arith, enough, free_count-lt visiting (nodes_of graph) node known e)

pub reject_cycles-Judged :
    (edges : List (String × String))
    → Judged (graph_of [] edges) [] (keys (graph_of [] edges)) (reject_cycles edges)
unfolding reject_cycles
reject_cycles-Judged edges =
    let graph = graph_of [] edges in
    visit_each-Judged graph (visit (suc (length (nodes_of graph))) graph []) (keys graph) [] tt (
      each-All (keys graph) (λ node h v o.
        visit-Judged graph (suc (length (nodes_of graph))) [] node v (keys-nodes_of graph node h)
          (omega (arith, free_count-length [] (nodes_of graph))) (λ p m. absurd (ground (arith, m)))
          o))
