-- ===== src/Pipeline/Status.antt =====
-- `outcome_exit_code` and `worse_status`: the status of a run is the worst of its stages.
use free_model_orchestrator.Base.{
  ℕ, ◌≤◌, max, ◌≡◌, refl, ◌⊎◌, inl, inr, String, List, [], ◌∷◌, ◌++◌, Bool-cases, ◌∙◌, arith, leb,
  leb→le, string_eq, All, All-append, ap,
}
use free_model_orchestrator.Base.Dict.{lookup}
use free_model_orchestrator.Effects.{Outcome, return, raise}
use free_model_orchestrator.Persistence.{StageRecord}
use free_model_orchestrator.Pipeline.{
  outcome_exit_code, worse_status, Progress, no_progress, advance,
}

-- The worse of two known statuses is one of the two, has the larger exit code, and is the later
-- status where the codes are equal.
pub worse_status-max :
    (left right : String) (l r : ℕ)
    → outcome_exit_code left ≡ return l
    → outcome_exit_code right ≡ return r
    → (s : String) × (worse_status left right ≡ return s)
      × (outcome_exit_code s ≡ return (max l r))
      × ((l ≤ r) × (s ≡ right) ⊎ (r ≤ l) × (s ≡ left))
unfolding worse_status
worse_status-max left right l r el er = elim (Bool-cases (leb l r)) [
  | inl h ↦ (
    right,
    ground (arith, el, er, h),
    er ∙ ap return (omega (arith, leb→le l r h)),
    inl (leb→le l r h, refl),
  )
  | inr h ↦ (
    left,
    ground (arith, el, er, h),
    el ∙ ap return (ground (arith, h)),
    inr (ground (arith, h), refl),
  )
]

-- An unknown status makes it raise, on either side.
worse_status-returns :
    (left right s : String)
    → worse_status left right ≡ return s
    → (l r : ℕ) × (outcome_exit_code left ≡ return l) × (outcome_exit_code right ≡ return r)
unfolding worse_status
worse_status-returns left right s e =
    go (outcome_exit_code left) (outcome_exit_code right) refl refl
  where
    go :
        (ol or : Outcome ℕ)
        → outcome_exit_code left ≡ ol
        → outcome_exit_code right ≡ or
        → (l r : ℕ) × (outcome_exit_code left ≡ return l) × (outcome_exit_code right ≡ return r)
    go (return l) (return r) el er = (l, r, el, er)
    go (raise x) or el er = absurd (ground (arith, el, er))
    go (return l) (raise x) el er = absurd (ground (arith, el, er))

-- Every status among the records is known, and its exit code is at most `c`.
abbrev pub CodesLe : ℕ → List StageRecord → Type 0
CodesLe c records = All (λ r. (d : ℕ) × (outcome_exit_code r.status ≡ return d) × (d ≤ c)) records

abbrev pub OccursIn : String → List StageRecord → Type 0
OccursIn status [] = ⊥
OccursIn status (r ∷ rs) = (r.status ≡ status) ⊎ OccursIn status rs

-- `status` is the worst of the records' statuses, with exit code `code`.
pub record IsWorst (status : String) (records : List StageRecord) : Type 0 where
  pub code : ℕ
  pub known : outcome_exit_code status ≡ return code
  pub bounds : CodesLe code records
  pub source : (status ≡ "success") ⊎ OccursIn status records

CodesLe-mono :
    (c d : ℕ) (records : List StageRecord) → c ≤ d → CodesLe c records → CodesLe d records
CodesLe-mono c d [] h b = tt
CodesLe-mono c d (r ∷ rs) h ((e, known, le), bs) =
    ((e, known, omega arith), CodesLe-mono c d rs h bs)

OccursIn-append_left :
    (status : String) (xs ys : List StageRecord) → OccursIn status xs → OccursIn status (xs ++ ys)
OccursIn-append_left status [] ys h = absurd h
OccursIn-append_left status (r ∷ xs) ys (inl e) = inl e
OccursIn-append_left status (r ∷ xs) ys (inr h) = inr (OccursIn-append_left status xs ys h)

OccursIn-last : (xs : List StageRecord) (r : StageRecord) → OccursIn r.status (xs ++ r ∷ [])
OccursIn-last [] r = inl refl
OccursIn-last (x ∷ xs) r = inr (OccursIn-last xs r)

-- What `advance` sets.
pub advance-eq-return :
    (p p' : Progress) (r : StageRecord)
    → advance p r ≡ return p'
    → (worse_status p.status r.status ≡ return p'.status)
      × (p'.stage_records ≡ p.stage_records ++ r ∷ [])
unfolding advance
advance-eq-return p p' r e = go (worse_status p.status r.status) refl
  where
    go :
        (o : Outcome String)
        → worse_status p.status r.status ≡ o
        → (worse_status p.status r.status ≡ return p'.status)
          × (p'.stage_records ≡ p.stage_records ++ r ∷ [])
    go (return s) eo = ground (arith, eo)
    go (raise x) eo = absurd (ground (arith, eo))

success_known : outcome_exit_code "success" ≡ return 0
unfolding outcome_exit_code lookup string_eq
success_known = refl

pub no_progress-IsWorst : IsWorst no_progress.status no_progress.stage_records
no_progress-IsWorst = record { code = 0; known = success_known; bounds = tt; source = inl refl }

module _ (p : Progress) (r : StageRecord) (w : IsWorst p.status p.stage_records) where
  IsWorst-append :
      (c : ℕ) (s : String)
      → outcome_exit_code r.status ≡ return c
      → outcome_exit_code s ≡ return (max w.code c)
      → (w.code ≤ c) × (s ≡ r.status) ⊎ (c ≤ w.code) × (s ≡ p.status)
      → IsWorst s (p.stage_records ++ r ∷ [])
  IsWorst-append c s er known side = record {
    code = max w.code c;
    known = known;
    bounds =
        All-append _ p.stage_records (r ∷ [])
          (CodesLe-mono w.code (max w.code c) p.stage_records (omega arith) w.bounds)
          ((c, er, omega arith), tt);
    source = source side w.source;
  }
    where
      source :
          (w.code ≤ c) × (s ≡ r.status) ⊎ (c ≤ w.code) × (s ≡ p.status)
          → (p.status ≡ "success") ⊎ OccursIn p.status p.stage_records
          → (s ≡ "success") ⊎ OccursIn s (p.stage_records ++ r ∷ [])
      source (inl (_, e)) _ = inr (rw e (OccursIn-last p.stage_records r))
      source (inr (_, e)) (inl ok) = inl (e ∙ ok)
      source (inr (_, e)) (inr m) =
          inr (rw e (OccursIn-append_left p.status p.stage_records (r ∷ []) m))

  pub advance-IsWorst :
      (p' : Progress) → advance p r ≡ return p' → IsWorst p'.status p'.stage_records
  advance-IsWorst p' e =
      let (chosen, records) = advance-eq-return p p' r e in
      let (l, c, el, er) = worse_status-returns p.status r.status p'.status chosen in
      let (s, same, known, side) = worse_status-max p.status r.status w.code c w.known er in
      let one : p'.status ≡ s = cc in rw (one, records) (IsWorst-append c s er known side)
