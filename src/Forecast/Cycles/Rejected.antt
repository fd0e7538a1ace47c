-- ===== src/Forecast/Cycles/Rejected.antt =====
-- forecast.py: the verdict of `_reject_cycles` against walks along the edges.
use free_model_orchestrator.Base.{
  ◌≡◌, refl, String, Bool, true, false, none, some, List, [], ◌∷◌, ◌++◌, ◌==◌, ◌||◌, ◌&&◌, contains,
  string_eq, if◌then◌else◌, All, Bool-cases, inl, inr, ◌⊎◌, arith, subst, sym, ◌∙◌,
}
use mathlib.Core.Logic.{ite}
use free_model_orchestrator.Base.Dict.{lookup, insert, lookup-insert, get_or, keys, contains-keys}
use free_model_orchestrator.Effects.{return, raise}
use free_model_orchestrator.Forecast.Cycles.{Graph, graph_of, Visit, reject_cycles, cycle_found}
use free_model_orchestrator.Forecast.Cycles.Judged.{
  contains-append, children, Reaches, edge, onward, Ordered, Judged, reject_cycles-Judged,
}

abbrev pub has_edge : List (String × String) → String → String → Bool
has_edge [] a b = false
has_edge ((source, target) ∷ edges) a b = (a == source && b == target) || has_edge edges a b

-- A walk along edges, of one edge at least
pub data Walk (edges : List (String × String)) : String → String → Type 0 where
  step : {a b : String} → has_edge edges a b ≡ true → Walk edges a b
  further : {a b c : String} → Walk edges a b → has_edge edges b c ≡ true → Walk edges a c

children-insert :
    (source target : String) (graph : Graph) (a b : String)
    → contains (children (insert source (get_or source [] graph ++ target ∷ []) graph) a) b
      ≡ (contains (children graph a) b || (a == source && b == target))
children-insert source target graph a b =
    subst
      (λ r.
        contains (elim r as (λ _. List String) [ none ↦ [] | some w ↦ w ]) b
        ≡ (contains (children graph a) b || (a == source && b == target)))
      (sym (lookup-insert a source (get_or source [] graph ++ target ∷ []) graph))
      (elim (string_eq.dec a source)
        as (λ d.
          contains
            (elim (if ite d true false
                then some (get_or source [] graph ++ target ∷ [])
                else lookup a graph)
              as (λ _. List String) [ none ↦ [] | some w ↦ w ])
            b
          ≡ (contains (children graph a) b || (ite d true false && b == target))) [
            | yes same ↦
                rw same (contains-append (get_or source [] graph) (target ∷ []) b ∙ ground arith)
            | no differ ↦ ground arith
          ])

children-graph_of :
    (edges : List (String × String)) (graph : Graph) (a b : String)
    → contains (children (graph_of graph edges) a) b
      ≡ (contains (children graph a) b || has_edge edges a b)
unfolding graph_of
children-graph_of [] graph a b = ground arith
children-graph_of ((source, target) ∷ edges) graph a b =
    let values = get_or source [] graph ++ target ∷ [] in
    rw (children-graph_of edges (insert source values graph) a b)
      (rw (children-insert source target graph a b) (ground arith))

All-member :
    (P : String → Type 0) (xs : List String) (x : String) → All P xs → contains xs x ≡ true → P x
All-member P [] x all h = absurd (ground (arith, h))
All-member P (y ∷ xs) x (p, all) h = elim (string_eq.dec x y) [
  | yes same ↦ subst P (sym same) p
  | no differ ↦ All-member P xs x all (ground (arith, h, differ))
]

module _ (edges : List (String × String)) where
  abbrev graph : Graph
  graph = graph_of [] edges

  edge-graph_of : (a b : String) → contains (children graph a) b ≡ has_edge edges a b
  unfolding lookup
  edge-graph_of a b = children-graph_of edges [] a b

  Reaches-Walk : {a b : String} → Reaches graph a b → Walk edges a b
  Reaches-Walk (edge {a} {b} h) = step (sym (edge-graph_of a b) ∙ h)
  Reaches-Walk (onward {a} {b} {c} r h) = further (Reaches-Walk r) (sym (edge-graph_of b c) ∙ h)

  Ordered-edge :
      (visited : List String)
      → Ordered graph visited
      → (a b : String) → contains visited a ≡ true
      → has_edge edges a b ≡ true
      → contains visited b ≡ true
  Ordered-edge [] ordered a b known h = known
  Ordered-edge (n ∷ visited) (closed, ordered) a b known h = elim (string_eq.dec a n) [
    | yes same ↦ ground (
      arith,
      All-member (λ child. contains visited child ≡ true) (children graph n) b closed
          (subst (λ m. contains (children graph m) b ≡ true) same (edge-graph_of a b ∙ h)),
    )
    | no differ ↦ ground (arith, Ordered-edge visited ordered a b (ground (arith, known, differ)) h)
  ]

  Ordered-Walk :
      (n : String) (visited : List String)
      → All (λ child. contains visited child ≡ true) (children graph n)
      → Ordered graph visited
      → {b : String} → Walk edges n b
      → contains visited b ≡ true
  Ordered-Walk n visited closed ordered (step {b} h) =
      All-member (λ child. contains visited child ≡ true) (children graph n) b closed
        (edge-graph_of n b ∙ h)
  Ordered-Walk n visited closed ordered (further {b} {c} w h) =
      Ordered-edge visited ordered b c (Ordered-Walk n visited closed ordered w) h

  Ordered-acyclic :
      (visited : List String)
      → Ordered graph visited
      → (a : String) → contains visited a ≡ true
      → ¬ Walk edges a a
  Ordered-acyclic [] ordered a known w = ground (arith, known)
  Ordered-acyclic (n ∷ visited) (closed, ordered) a known w =
      elim (Bool-cases (contains visited a)) [
        | inl e ↦ Ordered-acyclic visited ordered a e w
        | inr e ↦
            let same : a ≡ n = ground (arith, known, e) in
            ground
              (arith, e, Ordered-Walk n visited closed ordered (subst (λ m. Walk edges m a) same w))
      ]

  Walk-source : {a b : String} → Walk edges a b → contains (keys graph) a ≡ true
  Walk-source (step {a} {b} h) =
      (contains-keys graph a).1 (λ missing. ground (arith, edge-graph_of a b, h, missing))
  Walk-source (further w h) = Walk-source w

  -- An error and a cycle, or no error and no cycle
  abbrev pub Verdict : Visit → Type 0
  Verdict result =
      ((result ≡ some cycle_found) × ((node : String) × Walk edges node node))
      ⊎ ((visited : List String) × (result ≡ some (return visited))
          × ((node : String) → ¬ Walk edges node node))

  Judged-Verdict : (result : Visit) → Judged graph [] (keys graph) result → Verdict result
  Judged-Verdict none h = absurd h
  Judged-Verdict (some (raise e)) (same, (node, r)) = inl (same, (node, Reaches-Walk r))
  Judged-Verdict (some (return visited)) (ordered, has, kept) = inr (
    visited,
    refl,
    λ node w.
        Ordered-acyclic visited ordered node
          (All-member (λ n. contains visited n ≡ true) (keys graph) node has (Walk-source w)) w,
  )

-- The search ends with the fuel given. Either it raises the error of a cycle and a walk along the
-- edges leads from some node back to it, or it returns and no such walk exists.
pub reject_cycles-Verdict : (edges : List (String × String)) → Verdict edges (reject_cycles edges)
reject_cycles-Verdict edges =
    Judged-Verdict edges (reject_cycles edges) (reject_cycles-Judged edges)
