-- ===== src/Forecast/Bands.antt =====
-- What band the search finds.
use free_model_orchestrator.Base.{
  ◌≡◌, refl, ◌⊎◌, inl, inr, Bool, true, false, Option, none, some, List, [], ◌∷◌, ◌&&◌, All, arith,
  Bool-cases,
}
use free_model_orchestrator.Base.Float.{Float, IsOrdered, lt, eq}
use free_model_orchestrator.Effects.{Outcome, return, raise, ◌>>=?◌}
use free_model_orchestrator.Forecast.{
  Candidate, Rated, QualityBand, Best, capacity_within, reaches, first_reaching, is_anchor, improve,
  improve_if, search_band, qualities_of, lows, highs, band_with, confirmed_of, rate_all,
  quality_band_for_demand,
}

module _ (F : Float) (anchor : F.Number) (confirmed : List (Rated F))
    (protected_requests : F.Number) where
  abbrev reaches_here : F.Number → F.Number → Bool
  reaches_here minimum maximum = reaches F anchor confirmed protected_requests minimum maximum

  -- No maximum of the list gives the band enough capacity.
  abbrev NoneReaches : F.Number → List F.Number → Type 0
  NoneReaches minimum maxima = All (λ maximum. reaches_here minimum maximum ≡ false) maxima

  abbrev Reached : F.Number → List F.Number → Option F.Number → Type 0
  Reached minimum maxima none = NoneReaches minimum maxima
  Reached minimum maxima (some maximum) =
      (reaches_here minimum maximum ≡ true) × (F.le anchor maximum ≡ true)

  first_reaching-Reached :
      (minimum : F.Number) (maxima : List F.Number)
      → All (λ maximum. F.le anchor maximum ≡ true) maxima
      → Reached minimum maxima (first_reaching F anchor confirmed protected_requests minimum maxima)
  unfolding first_reaching
  first_reaching-Reached minimum [] above = tt
  first_reaching-Reached minimum (maximum ∷ maxima) (high, above) =
      elim (Bool-cases (reaches_here minimum maximum)) [
        | inl e ↦ rw e (e, high)
        | inr e ↦ rw e (
            go (first_reaching F anchor confirmed protected_requests minimum maxima)
              (first_reaching-Reached minimum maxima above) e)
      ]
    where
      go :
          (o : Option F.Number)
          → Reached minimum maxima o
          → reaches_here minimum maximum ≡ false
          → Reached minimum (maximum ∷ maxima) o
      go none h e = (e, h)
      go (some m) h e = h

  abbrev Within : F.Number → F.Number → Type 0
  Within minimum maximum = (F.le minimum anchor ≡ true) × (F.le anchor maximum ≡ true)

  abbrev Enough : Best F → Type 0
  Enough best =
      (reaches_here best.best_minimum best.best_maximum ≡ true)
      × Within best.best_minimum best.best_maximum

  abbrev improved : Best F → F.Number → F.Number → Best F
  improved best minimum maximum = improve F anchor confirmed protected_requests best minimum maximum

  abbrev anchored : Best F → Bool
  anchored best = is_anchor F anchor confirmed protected_requests best

  improve-Enough :
      (best : Best F) (minimum maximum : F.Number)
      → reaches_here minimum maximum ≡ true
      → Within minimum maximum
      → (anchored best ≡ true) ⊎ Enough best
      → Enough (improved best minimum maximum)
  improve-Enough best minimum maximum reach within h = ground (arith, reach, within, h)

  abbrev searched : Best F → List F.Number → List F.Number → Best F
  searched best minima maxima = search_band F anchor confirmed protected_requests best minima maxima

  abbrev stepped : Best F → F.Number → Option F.Number → Best F
  stepped best minimum o = improve_if F anchor confirmed protected_requests best minimum o

  -- The search found a band with enough capacity around the anchor, or no band has it.
  abbrev Searched : Best F → List F.Number → List F.Number → Type 0
  Searched best minima maxima =
      Enough (searched best minima maxima)
      ⊎ (searched best minima maxima ≡ best) × All (λ minimum. NoneReaches minimum maxima) minima

  module _ (maxima : List F.Number)
      (above : All (λ maximum. F.le anchor maximum ≡ true) maxima) where
    search_band-Searched :
        (best : Best F) (minima : List F.Number)
        → All (λ minimum. F.le minimum anchor ≡ true) minima
        → (anchored best ≡ true) ⊎ Enough best
        → Searched best minima maxima
    unfolding search_band
    search_band-Searched best [] below h = inr (refl, tt)
    search_band-Searched best (minimum ∷ minima) (low, below) h =
        go (first_reaching F anchor confirmed protected_requests minimum maxima)
          (λ b k. search_band-Searched b minima below k)
          (first_reaching-Reached minimum maxima above)
      where
        go :
            (o : Option F.Number)
            → ((b : Best F) → (anchored b ≡ true) ⊎ Enough b → Searched b minima maxima)
            → Reached minimum maxima o
            → let next = searched (stepped best minimum o) minima maxima in
              Enough next
              ⊎ (next ≡ best) × All (λ minimum. NoneReaches minimum maxima) (minimum ∷ minima)
        go none ih r = elim (ih best h) [
          | inl found ↦ inl found
          | inr (same, rest) ↦ inr (same, (r, rest))
        ]
        go (some maximum) ih (reach, high) =
            let better = improve-Enough best minimum maximum reach (low, high) h in
            elim (ih (improved best minimum maximum) (inr better)) [
              | inl found ↦ inl found
              | inr (same, rest) ↦ inl (rw same better)
            ]

  lows-below :
      (adequacy_floor : F.Number) (qs : List F.Number)
      → All (λ minimum. F.le minimum anchor ≡ true) (lows F anchor adequacy_floor qs)
  unfolding lows
  lows-below adequacy_floor [] = tt
  lows-below adequacy_floor (q ∷ qs) = elim (Bool-cases (F.le q anchor && F.le adequacy_floor q)) [
    | inl e ↦ rw e (ground (arith, e), lows-below adequacy_floor qs)
    | inr e ↦ rw e (lows-below adequacy_floor qs)
  ]

  highs-above :
      (qs : List F.Number) → All (λ maximum. F.le anchor maximum ≡ true) (highs F anchor qs)
  unfolding highs
  highs-above [] = tt
  highs-above (q ∷ qs) = elim (Bool-cases (F.le anchor q)) [
    | inl e ↦ rw e (e, highs-above qs)
    | inr e ↦ rw e (highs-above qs)
  ]

module _ (F : Float) (ordered : IsOrdered F) (anchor : F.Number) (candidates : List (Candidate F))
    (protected_requests adequacy_floor : F.Number) where
  -- The band contains the anchor. It is degraded only where the capacity of no band around the
  -- anchor, of two qualities at hand with the lower one adequate, reaches the protected requests.
  pub record IsBandOf (confirmed : List (Rated F)) (band : QualityBand F) : Type 0 where
    pub low : F.le band.minimum anchor ≡ true
    pub high : F.le anchor band.maximum ≡ true
    pub capacity :
        band.degraded
        ≡ lt F (capacity_within F confirmed band.minimum band.maximum) protected_requests
    pub exhausted :
        band.degraded ≡ true
        → All
            (λ minimum.
              NoneReaches F anchor confirmed protected_requests minimum
                (highs F anchor (qualities_of F anchor confirmed)))
            (lows F anchor adequacy_floor (qualities_of F anchor confirmed))

  anchor_refl : F.le anchor anchor ≡ true
  anchor_refl = elim (ordered.le_total anchor anchor) [ inl h ↦ h | inr h ↦ h ]

  band_with-IsBandOf :
      (confirmed : List (Rated F))
      → IsBandOf confirmed (band_with F anchor protected_requests adequacy_floor confirmed)
  band_with-IsBandOf confirmed =
      let qs = qualities_of F anchor confirmed in
      let start : Best F = record { best_minimum = anchor; best_maximum = anchor } in
      elim (search_band-Searched F anchor confirmed protected_requests (highs F anchor qs)
        (highs-above F anchor confirmed protected_requests qs) start
        (lows F anchor adequacy_floor qs)
        (lows-below F anchor confirmed protected_requests adequacy_floor qs)
        (inl (ground (arith, anchor_refl)))) [
          | inl (reach, (low, high)) ↦ record {
            low = low;
            high = high;
            capacity = refl;
            exhausted = λ h. absurd (ground (arith, h, reach));
          }
          | inr (same, none_reaches) ↦ record {
            low = rw same anchor_refl;
            high = rw same anchor_refl;
            capacity = refl;
            exhausted = λ _. none_reaches;
          }
        ]

  -- The call returns such a band for the confirmed candidates that are adequate, or raises because
  -- one of them has no quality.
  pub quality_band_for_demand-IsBandOf :
      (band : QualityBand F)
      → quality_band_for_demand F anchor candidates protected_requests adequacy_floor ≡ return band
      → (confirmed : List (Rated F)) × (rate_all F (confirmed_of F adequacy_floor candidates)
          ≡ return confirmed)
        × IsBandOf confirmed band
  unfolding quality_band_for_demand
  quality_band_for_demand-IsBandOf band h =
      go (rate_all F (confirmed_of F adequacy_floor candidates)) refl h
    where
      go :
          (o : Outcome (List (Rated F)))
          → rate_all F (confirmed_of F adequacy_floor candidates) ≡ o
          → (o >>=? λ confirmed.
              return (band_with F anchor protected_requests adequacy_floor confirmed))
            ≡ return band
          → (confirmed : List (Rated F)) × (rate_all F (confirmed_of F adequacy_floor candidates)
              ≡ return confirmed)
            × IsBandOf confirmed band
      go (raise e) eq k = absurd (ground (arith, k))
      go (return confirmed) eq k =
          let same : band_with F anchor protected_requests adequacy_floor confirmed ≡ band =
            ground (arith, k) in
          (confirmed, eq, rw (← same) (band_with-IsBandOf confirmed))
