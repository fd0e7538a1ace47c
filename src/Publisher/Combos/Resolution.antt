-- ===== src/Publisher/Combos/Resolution.antt =====
-- What a resolved generation says.
use free_model_orchestrator.Base.{
  ◌≡◌, refl, ◌≢◌, String, true, Option, none, some, List, [], ◌∷◌, contains, string_eq, arith,
}
use free_model_orchestrator.Base.Dict.{lookup, lookup-insert}
use free_model_orchestrator.Base.Float.{Float}
use free_model_orchestrator.Effects.{Outcome, return, raise}
use free_model_orchestrator.Json.{
  Json, Items, nil, cons, Fields, null, bool, int, decimal, obj, arr, str,
}
use free_model_orchestrator.Publisher.{Pool, Generation}
use free_model_orchestrator.Publisher.Combos.{
  ComboIndex, empty_index, index_combos, combos_of, resolve_ref, resolve_pools, resolve_generation,
  add_combo, text_field,
}

-- Each name stands for a listed id.
abbrev IsClosed : ComboIndex → Type 0
IsClosed index =
    (name id : String)
    → lookup name index.combo_id_by_name ≡ some id
    → contains index.combo_ids id ≡ true

add_combo-IsClosed :
    (fields : Fields) (index : ComboIndex) → IsClosed index → IsClosed (add_combo fields index)
add_combo-IsClosed fields index closed name id h = ground (
  arith,
  closed name id,
  lookup-insert name (text_field "name" fields) (text_field "id" fields) index.combo_id_by_name,
)

index_combos-IsClosed :
    (combos : Items) (index : ComboIndex) → IsClosed index → IsClosed (index_combos index combos)
unfolding index_combos
index_combos-IsClosed nil index closed = closed
index_combos-IsClosed (cons null combos) index closed = index_combos-IsClosed combos index closed
index_combos-IsClosed (cons (bool _) combos) index closed =
    index_combos-IsClosed combos index closed
index_combos-IsClosed (cons (int _) combos) index closed = index_combos-IsClosed combos index closed
index_combos-IsClosed (cons (decimal _ _) combos) index closed =
    index_combos-IsClosed combos index closed
index_combos-IsClosed (cons (str _) combos) index closed = index_combos-IsClosed combos index closed
index_combos-IsClosed (cons (arr _) combos) index closed = index_combos-IsClosed combos index closed
index_combos-IsClosed (cons (obj fields) combos) index closed =
    index_combos-IsClosed combos (add_combo fields index) (add_combo-IsClosed fields index closed)

empty_index-IsClosed : IsClosed empty_index
unfolding lookup
empty_index-IsClosed name id h = cc

abbrev pub index_of : Json → ComboIndex
index_of payload = index_combos empty_index (combos_of payload)

index_of-IsClosed : (payload : Json) → IsClosed (index_of payload)
index_of-IsClosed payload =
    index_combos-IsClosed (combos_of payload) empty_index empty_index-IsClosed

resolve_ref-listed :
    (index : ComboIndex) (combo_ref : String)
    → IsClosed index
    → resolve_ref index combo_ref ≢ ""
    → contains index.combo_ids (resolve_ref index combo_ref) ≡ true
unfolding resolve_ref
resolve_ref-listed index combo_ref closed ne = go (lookup combo_ref index.combo_id_by_name) refl
  where
    go :
        (o : Option String)
        → lookup combo_ref index.combo_id_by_name ≡ o
        → contains index.combo_ids (resolve_ref index combo_ref) ≡ true
    go none e = ground (arith, e, ne)
    go (some id) e = ground (arith, e, closed combo_ref id e)

resolve_ref-kept :
    (index : ComboIndex) (combo_ref : String)
    → contains index.combo_ids combo_ref ≡ true
    → resolve_ref index combo_ref ≡ combo_ref
unfolding resolve_ref
resolve_ref-kept index combo_ref h = rw h

module _ {F : Float} where
  -- Pool by pool: the reference is now an id in `ids`, it stayed if it was one, and nothing else of
  -- the pool changed.
  abbrev pub Resolved : List String → List (Pool F) → List (Pool F) → Type 0
  Resolved ids [] [] = Unit
  Resolved ids [] (q ∷ qs) = ⊥
  Resolved ids (p ∷ ps) [] = ⊥
  Resolved ids (p ∷ ps) (q ∷ qs) =
      (q ≡ record p { combo_id = q.combo_id })
      × (q.combo_id ≢ "")
      × (contains ids q.combo_id ≡ true)
      × (contains ids p.combo_id ≡ true → q.combo_id ≡ p.combo_id)
      × Resolved ids ps qs

  resolve_pools-nil :
      (index : ComboIndex) (qs : List (Pool F)) → resolve_pools index [] ≡ return qs → qs ≡ []
  unfolding resolve_pools
  resolve_pools-nil index qs e = ground arith

  resolve_pools-cons :
      (index : ComboIndex) (p : Pool F) (ps qs : List (Pool F))
      → resolve_pools index (p ∷ ps) ≡ return qs
      → (rest : List (Pool F)) × (resolve_pools index ps ≡ return rest)
        × (resolve_ref index p.combo_id ≢ "")
        × (qs ≡ record p { combo_id = resolve_ref index p.combo_id } ∷ rest)
  unfolding resolve_pools
  resolve_pools-cons index p ps qs e = go (resolve_pools index ps) refl
    where
      go :
          (o : Outcome (List (Pool F)))
          → resolve_pools index ps ≡ o
          → (rest : List (Pool F)) × (resolve_pools index ps ≡ return rest)
            × (resolve_ref index p.combo_id ≢ "")
            × (qs ≡ record p { combo_id = resolve_ref index p.combo_id } ∷ rest)
      go (return rest) eo = (rest, eo, ground (arith, eo), ground (arith, eo))
      go (raise x) eo = absurd (ground (arith, eo))

  resolve_pools-Resolved :
      (index : ComboIndex) (ps qs : List (Pool F))
      → IsClosed index
      → resolve_pools index ps ≡ return qs
      → Resolved index.combo_ids ps qs
  resolve_pools-Resolved index [] qs closed e = rw (resolve_pools-nil index qs e) tt
  resolve_pools-Resolved index (p ∷ ps) qs closed e =
      let (rest, er, ne, eq) = resolve_pools-cons index p ps qs e in
      rw eq (
        refl,
        ne,
        resolve_ref-listed index p.combo_id closed ne,
        resolve_ref-kept index p.combo_id,
        resolve_pools-Resolved index ps rest closed er,
      )

  resolve_pools_idem :
      (index : ComboIndex) (ps qs : List (Pool F))
      → IsClosed index
      → resolve_pools index ps ≡ return qs
      → resolve_pools index qs ≡ return qs
  unfolding resolve_pools
  resolve_pools_idem index [] qs closed e = rw (resolve_pools-nil index qs e)
  resolve_pools_idem index (p ∷ ps) qs closed e =
      let (rest, er, ne, eq) = resolve_pools-cons index p ps qs e in
      let kept =
        resolve_ref-kept index (resolve_ref index p.combo_id)
          (resolve_ref-listed index p.combo_id closed ne) in
      rw eq (ground (arith, kept, ne, resolve_pools_idem index ps rest closed er))

  module _ (payload : Json) (g g' : Generation F)
      (resolved : resolve_generation payload g ≡ return g') where
    pools_resolved :
        (resolve_pools (index_of payload) g.pools ≡ return g'.pools)
        × (g' ≡ record g { pools = g'.pools })
    unfolding resolve_generation
    pools_resolved = go (resolve_pools (index_of payload) g.pools) refl
      where
        go :
            (o : Outcome (List (Pool F)))
            → resolve_pools (index_of payload) g.pools ≡ o
            → (resolve_pools (index_of payload) g.pools ≡ return g'.pools)
              × (g' ≡ record g { pools = g'.pools })
        go (return ps) eo = ground (arith, eo)
        go (raise x) eo = absurd (ground (arith, eo))

    -- Every combo reference of a resolved generation is an id that OmniRoute listed; references
    -- that were ids stay, and nothing else of the generation changes.
    pub resolve_generation-Resolved :
        (g' ≡ record g { pools = g'.pools })
        × Resolved (index_of payload).combo_ids g.pools g'.pools
    resolve_generation-Resolved = (
      pools_resolved.1,
      resolve_pools-Resolved (index_of payload) g.pools g'.pools (index_of-IsClosed payload)
          pools_resolved.0,
    )

    -- Resolving a resolved generation against the same listing gives it back.
    pub resolve_generation_idem : resolve_generation payload g' ≡ return g'
    unfolding resolve_generation
    resolve_generation_idem = rw (
        resolve_pools_idem (index_of payload) g.pools g'.pools (index_of-IsClosed payload)
          pools_resolved.0)
