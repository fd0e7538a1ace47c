-- ===== src/Hermes/Grid/Selected.antt =====
-- The cell that the grid gives for a request.
use free_model_orchestrator.Base.{
  ◌≡◌, refl, sym, subst, ◌∙◌, String, Bool, true, false, List, [], ◌∷◌, ◌⊎◌, inl, inr, contains,
  leb, string_eq, filter_by, All, Bool-cases, arith,
}
use free_model_orchestrator.Base.Float.{Float, IsOrdered}
use free_model_orchestrator.Text.{sorted_set, insert_sorted}
use free_model_orchestrator.Hermes.Grid.{
  is_subset, same_bool, ComboGridCell, CellRequest, fits, cell_lt, insert_cell, sorted_cells,
  unique_cell, first_or_unique, select_combo_grid_cell,
}

contains-insert_sorted :
    (s x : String) (xs : List String) → contains (insert_sorted s xs) x ≡ contains (s ∷ xs) x
unfolding insert_sorted
contains-insert_sorted s x [] = refl
contains-insert_sorted s x (y ∷ ys) = ground (arith, contains-insert_sorted s x ys)

contains-sorted_set : (xs : List String) (x : String) → contains (sorted_set xs) x ≡ contains xs x
unfolding sorted_set
contains-sorted_set [] x = refl
contains-sorted_set (y ∷ ys) x = elim (Bool-cases (contains (sorted_set ys) y)) [
  | inl e ↦ rw e (ground (arith, contains-sorted_set ys x, e))
  | inr e ↦
      rw e (ground (arith, contains-insert_sorted y x (sorted_set ys), contains-sorted_set ys x))
]

is_subset-contains :
    (xs b : List String)
    → ((x : String) → contains xs x ≡ true → contains b x ≡ true)
    → is_subset xs b ≡ true
unfolding is_subset
is_subset-contains [] b h = refl
is_subset-contains (x ∷ xs) b h =
    ground (arith, h x (ground arith), is_subset-contains xs b (λ y e. h y (ground (arith, e))))

module _ (F : Float) (request : CellRequest F) where
  -- The cell does what is asked for.
  abbrev pub Serves : ComboGridCell F → Type 0
  Serves cell =
      (cell.auxiliary ≡ request.auxiliary)
      × (cell.capability_axis ≡ request.capability_axis)
      × (cell.tier ≡ request.tier)
      × (is_subset request.required_capabilities cell.required_capabilities ≡ true)
      × (leb request.minimum_context_window cell.minimum_context_window ≡ true)

  same_bool-eq : (a b : Bool) → same_bool a b ≡ true → a ≡ b
  same_bool-eq true b h = sym h
  same_bool-eq false true h = absurd (ground (arith, h))
  same_bool-eq false false h = refl

  fits-Serves : (cell : ComboGridCell F) → fits F request cell ≡ true → Serves cell
  unfolding fits
  fits-Serves cell h = (
    same_bool-eq cell.auxiliary request.auxiliary (ground (arith, h)),
    ground (arith, h),
    ground (arith, h),
    ground (arith, h),
    ground (arith, h),
  )

  unique_cell-Serves : Serves (unique_cell F request)
  unfolding unique_cell
  unique_cell-Serves = (
    refl,
    refl,
    refl,
    is_subset-contains request.required_capabilities _
        (λ x h. contains-sorted_set request.required_capabilities x ∙ h),
    ground arith,
  )

module _ (F : Float) where
  -- In the order of anchors
  abbrev IsLeast : ComboGridCell F → List (ComboGridCell F) → Type 0
  IsLeast cell = All (λ other. F.le cell.anchor other.anchor ≡ true)

  abbrev AreOrdered : List (ComboGridCell F) → Type 0
  AreOrdered [] = Unit
  AreOrdered (cell ∷ cells) = IsLeast cell cells × AreOrdered cells

  module _ {ℓ} (P : ComboGridCell F → Type ℓ) where
    All-insert_cell :
        (cell : ComboGridCell F) (cells : List (ComboGridCell F))
        → P cell
        → All P cells
        → All P (insert_cell F cell cells)
    unfolding insert_cell
    All-insert_cell cell [] p ps = (p, tt)
    All-insert_cell cell (other ∷ cells) p (q, ps) = elim (Bool-cases (cell_lt F other cell)) [
      | inl e ↦ rw e (q, All-insert_cell cell cells p ps)
      | inr e ↦ rw e (p, (q, ps))
    ]

    All-sorted_cells : (cells : List (ComboGridCell F)) → All P cells → All P (sorted_cells F cells)
    unfolding sorted_cells
    All-sorted_cells [] ps = tt
    All-sorted_cells (cell ∷ cells) (p, ps) =
        All-insert_cell cell (sorted_cells F cells) p (All-sorted_cells cells ps)

    insert_cell-All :
        (cell : ComboGridCell F) (cells : List (ComboGridCell F))
        → All P (insert_cell F cell cells)
        → P cell × All P cells
    unfolding insert_cell
    insert_cell-All cell [] (p, _) = (p, tt)
    insert_cell-All cell (other ∷ cells) h = elim (Bool-cases (cell_lt F other cell)) [
      | inl e ↦
          let (q, rest) : P other × All P (insert_cell F cell cells) = rw e at h in
          let (p, ps) = insert_cell-All cell cells rest in (p, (q, ps))
      | inr e ↦ rw e at h
    ]

    sorted_cells-All : (cells : List (ComboGridCell F)) → All P (sorted_cells F cells) → All P cells
    unfolding sorted_cells
    sorted_cells-All [] h = tt
    sorted_cells-All (cell ∷ cells) h =
        let (p, rest) = insert_cell-All cell (sorted_cells F cells) h in
        (p, sorted_cells-All cells rest)

  module _ (ordered : IsOrdered F) where
    lt-le : (a b : ComboGridCell F) → cell_lt F a b ≡ true → F.le a.anchor b.anchor ≡ true
    unfolding cell_lt
    lt-le a b h = ground (arith, h, ordered.le_total a.anchor b.anchor)

    not_lt-le : (a b : ComboGridCell F) → cell_lt F a b ≡ false → F.le b.anchor a.anchor ≡ true
    unfolding cell_lt
    not_lt-le a b h = ground (arith, h, ordered.le_total a.anchor b.anchor)

    IsLeast-trans :
        (a b : ComboGridCell F)
        → F.le a.anchor b.anchor ≡ true
        → (cells : List (ComboGridCell F)) → IsLeast b cells
        → IsLeast a cells
    IsLeast-trans a b h [] least = tt
    IsLeast-trans a b h (c ∷ cells) (l, least) =
        (ordered.le_trans a.anchor b.anchor c.anchor h l, IsLeast-trans a b h cells least)

    insert_cell-AreOrdered :
        (cell : ComboGridCell F) (cells : List (ComboGridCell F))
        → AreOrdered cells
        → AreOrdered (insert_cell F cell cells)
    unfolding insert_cell
    insert_cell-AreOrdered cell [] h = (tt, tt)
    insert_cell-AreOrdered cell (other ∷ cells) (least, h) =
        elim (Bool-cases (cell_lt F other cell)) [
          | inl e ↦ rw e (
            All-insert_cell _ cell cells (lt-le other cell e) least,
            insert_cell-AreOrdered cell cells h,
          )
          | inr e ↦ rw e (
            (not_lt-le other cell e, IsLeast-trans cell other (not_lt-le other cell e) cells least),
            (least, h),
          )
        ]

    sorted_cells-AreOrdered : (cells : List (ComboGridCell F)) → AreOrdered (sorted_cells F cells)
    unfolding sorted_cells
    sorted_cells-AreOrdered [] = tt
    sorted_cells-AreOrdered (cell ∷ cells) =
        insert_cell-AreOrdered cell (sorted_cells F cells) (sorted_cells-AreOrdered cells)

    module _ (request : CellRequest F) (grid : List (ComboGridCell F)) where
      -- A cell of the grid that fits, before which no cell that fits comes, or the unique cell where
      -- none fits
      abbrev pub IsSelected : ComboGridCell F → Type 0
      IsSelected cell =
          ((fits F request cell ≡ true)
            × All (λ other. fits F request other ≡ true → F.le cell.anchor other.anchor ≡ true)
                grid)
          ⊎ ((cell ≡ unique_cell F request) × All (λ other. fits F request other ≡ false) grid)

      module _ (p : ComboGridCell F → Bool) where
        filter_by-holds :
            (cells : List (ComboGridCell F)) → All (λ c. p c ≡ true) (filter_by p cells)
        filter_by-holds [] = tt
        filter_by-holds (c ∷ cells) = elim (Bool-cases (p c)) [
          | inl e ↦ rw (filter_by, e) (e, filter_by-holds cells)
          | inr e ↦ rw (filter_by, e) (filter_by-holds cells)
        ]

        All-filter_by :
            (Q : ComboGridCell F → Type 0) (cells : List (ComboGridCell F))
            → All Q (filter_by p cells)
            → All (λ c. p c ≡ true → Q c) cells
        All-filter_by Q [] h = tt
        All-filter_by Q (c ∷ cells) h = elim (Bool-cases (p c)) [
          | inl e ↦
              let (q, qs) : Q c × All Q (filter_by p cells) = rw (filter_by, e) at h in
              (λ _. q, All-filter_by Q cells qs)
          | inr e ↦
              let qs : All Q (filter_by p cells) = rw (filter_by, e) at h in
              (λ held. absurd (ground (arith, held, e)), All-filter_by Q cells qs)
        ]

      none_fit :
          (cells : List (ComboGridCell F))
          → All (λ c. fits F request c ≡ true → ⊥) cells
          → All (λ c. fits F request c ≡ false) cells
      none_fit [] h = tt
      none_fit (c ∷ cells) (n, h) = (ground (arith, n), none_fit cells h)

      first_or_unique-IsSelected :
          (cells : List (ComboGridCell F))
          → cells ≡ sorted_cells F (filter_by (fits F request) grid)
          → IsSelected (first_or_unique F request cells)
      unfolding first_or_unique
      first_or_unique-IsSelected [] e = inr (
        refl,
        none_fit grid (
            All-filter_by (fits F request) (λ _. ⊥) grid
              (sorted_cells-All (λ _. ⊥) (filter_by (fits F request) grid)
                (subst (All (λ _. ⊥)) e tt))),
      )
      first_or_unique-IsSelected (cell ∷ cells) e =
          let ordered_cells : AreOrdered (cell ∷ cells) =
            subst AreOrdered (sym e) (sorted_cells-AreOrdered (filter_by (fits F request) grid)) in
          let held : All (λ c. fits F request c ≡ true) (cell ∷ cells) =
            subst (All (λ c. fits F request c ≡ true)) (sym e) (
              All-sorted_cells (λ c. fits F request c ≡ true) _
                (filter_by-holds (fits F request) grid)) in
          let own : F.le cell.anchor cell.anchor ≡ true =
            ground (arith, ordered.le_total cell.anchor cell.anchor) in
          inl (
            held.0,
            All-filter_by (fits F request) _ grid (
                sorted_cells-All _ (filter_by (fits F request) grid)
                  (subst (IsLeast cell) e (own, ordered_cells.0))),
          )

      -- The cell serves the request. It is a cell of the grid that fits, with the least anchor of
      -- those that fit, or, where none fits, the cell of the role's own.
      pub select_combo_grid_cell-IsSelected :
          Serves F request (select_combo_grid_cell F request grid)
          × IsSelected (select_combo_grid_cell F request grid)
      unfolding select_combo_grid_cell
      select_combo_grid_cell-IsSelected =
          let chosen = first_or_unique-IsSelected _ refl in
          (
            elim chosen [
              | inl (held, _) ↦ fits-Serves F request (select_combo_grid_cell F request grid) held
              | inr (e, _) ↦ subst (Serves F request) (sym e) (unique_cell-Serves F request)
            ],
            chosen,
          )
