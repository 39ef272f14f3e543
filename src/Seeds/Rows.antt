-- ===== src/Seeds/Rows.antt =====
-- Rows that are given with `clause.OnConflict`: what becomes of a table.
use sociomile.Prelude.{
  ℕ, ◌≡◌, ◌≢◌, inl, inr, refl, sym, ap, ◌∙◌, subst⁻¹, List, [], ◌∷◌, Member, Unique, ◌==◌, eq_iff,
  Bool-cases, if◌then◌else◌, Bool, true, false, not, ◌||◌, ◌&&◌, arith,
}
use sociomile.Seeds.Columns.{OnConflict}

module _ {R : Type 0} (c : OnConflict R) where
  -- No row of another key is the same as `v` in another unique index.
  abbrev pub no_clash : R → List R → Bool
  no_clash v [] = true
  no_clash v (x ∷ xs) = (c.key x == c.key v || not (c.clashes v x)) && no_clash v xs

  abbrev pub clear : List R → List R → Bool
  clear [] rows = true
  clear (v ∷ vs) rows = no_clash v rows && clear vs rows

  no_clash_lem :
      ((v x : R) → c.clashes v x ≡ false) → (v : R) (rows : List R) → no_clash v rows ≡ true
  no_clash_lem never v [] = refl
  no_clash_lem never v (x ∷ xs) = ground (arith, never v x, no_clash_lem never v xs)

  pub clear_lem : ((v x : R) → c.clashes v x ≡ false) → (vs rows : List R) → clear vs rows ≡ true
  clear_lem never [] rows = refl
  clear_lem never (v ∷ vs) rows = ground (arith, no_clash_lem never v rows, clear_lem never vs rows)

  -- `INSERT … ON DUPLICATE KEY UPDATE` of a row
  abbrev pub put_row : R → List R → List R
  put_row r [] = r ∷ []
  put_row r (x ∷ xs) = if c.key x == c.key r then c.assign r x ∷ xs else x ∷ put_row r xs

  abbrev pub put_rows : ℕ → List R → List R → List R
  put_rows t [] rows = rows
  put_rows t (v ∷ vs) rows = put_rows t vs (put_row (c.stamped t v) rows)

  -- The columns that are assigned are not the key.
  pub record KeepsKey : Type 0 where
    pub stamped_key : (t : ℕ) (v : R) → c.key (c.stamped t v) ≡ c.key v
    pub assign_key : (r x : R) → c.key (c.assign r x) ≡ c.key x

  -- A row that stands for the value `v`: a new one, or an old one with the columns of `v`.
  pub data Stands (t : ℕ) (v : R) (rows : List R) (row : R) : Type 0 where
    added : row ≡ c.stamped t v → Stands t v rows row
    assigned :
        (x : R)
        → Member x rows
        → c.key x ≡ c.key v
        → row ≡ c.assign (c.stamped t v) x
        → Stands t v rows row

  -- The rows of a table after its values were loaded: one for each value, and every other row as it was.
  pub record IsSeeded (t : ℕ) (values rows rows' : List R) : Type 0 where
    pub each :
        (v : R)
        → Member v values
        → (row : R) × Member row rows' × (c.key row ≡ c.key v) × Stands t v rows row
    pub others :
        (x : R)
        → ((v : R) → Member v values → c.key x ≢ c.key v)
        → (Member x rows → Member x rows') × (Member x rows' → Member x rows)

  module _ (k : KeepsKey) where
    put_row_kept :
        (r x : R) (rows : List R) → c.key x ≢ c.key r → Member x rows → Member x (put_row r rows)
    put_row_kept r x [] n m = elim m [ ]
    put_row_kept r x (y ∷ ys) n m = elim (Bool-cases (c.key y == c.key r)) [
      | inl same ↦
          rw same (elim m [ inl e ↦ absurd (n (ap c.key e ∙ (eq_iff _ _).0 same)) | inr h ↦ inr h ])
      | inr other ↦ rw other (elim m [ inl e ↦ inl e | inr h ↦ inr (put_row_kept r x ys n h) ])
    ]

    put_row_back :
        (r x : R) (rows : List R) → c.key x ≢ c.key r → Member x (put_row r rows) → Member x rows
    put_row_back r x [] n (inl e) = absurd (n (ap c.key e))
    put_row_back r x [] n (inr m) = elim m [ ]
    put_row_back r x (y ∷ ys) n m = elim (Bool-cases (c.key y == c.key r)) [
      | inl same ↦ elim (let m' : Member x (c.assign r y ∷ ys) = rw same at m in m') [
        | inl e ↦ absurd (n (ap c.key e ∙ (k.assign_key r y ∙ (eq_iff _ _).0 same)))
        | inr h ↦ inr h
      ]
      | inr other ↦ elim (let m' : Member x (y ∷ put_row r ys) = rw other at m in m') [
        | inl e ↦ inl e
        | inr h ↦ inr (put_row_back r x ys n h)
      ]
    ]

    put_row_hit :
        (t : ℕ) (v : R) (rows : List R)
        → (row : R) × Member row (put_row (c.stamped t v) rows)
          × (c.key row ≡ c.key v)
          × Stands t v rows row
    put_row_hit t v [] = (c.stamped t v, inl refl, k.stamped_key t v, added refl)
    put_row_hit t v (y ∷ ys) = elim (Bool-cases (c.key y == c.key (c.stamped t v))) [
      | inl same ↦
          let e : c.key y ≡ c.key v = (eq_iff _ _).0 same ∙ k.stamped_key t v in
          (
            c.assign (c.stamped t v) y,
            rw same (inl refl),
            k.assign_key (c.stamped t v) y ∙ e,
            assigned y (inl refl) e refl,
          )
      | inr other ↦
          let (row, m, e, s) = put_row_hit t v ys in
          (row, rw other (inr m), e, stands_later t v y ys row s)
    ]
      where
        stands_later :
            (t : ℕ) (v y : R) (ys : List R) (row : R) → Stands t v ys row → Stands t v (y ∷ ys) row
        stands_later t v y ys row (added e) = added e
        stands_later t v y ys row (assigned x m e f) = assigned x (inr m) e f

    put_rows_others :
        (t : ℕ) (vs rows : List R) (x : R)
        → ((v : R) → Member v vs → c.key x ≢ c.key v)
        → (Member x rows → Member x (put_rows t vs rows))
          × (Member x (put_rows t vs rows) → Member x rows)
    put_rows_others t [] rows x n = (λ m. m, λ m. m)
    put_rows_others t (v ∷ vs) rows x n =
        let d : c.key x ≢ c.key (c.stamped t v) = λ e. n v (inl refl) (e ∙ k.stamped_key t v) in
        let (there, back) =
          put_rows_others t vs (put_row (c.stamped t v) rows) x (λ w m. n w (inr m)) in
        (
          λ m. there (put_row_kept (c.stamped t v) x rows d m),
          λ m. put_row_back (c.stamped t v) x rows d (back m),
        )

    pub put_rows-IsSeeded :
        (t : ℕ) (vs rows : List R) → Unique c.key vs → IsSeeded t vs rows (put_rows t vs rows)
    put_rows-IsSeeded t [] rows u = record {
      each = λ v m. elim m [ ];
      others = λ x n. (λ m. m, λ m. m);
    }
    put_rows-IsSeeded t (v ∷ vs) rows (first, u) = record {
      each = λ w m. elim m [
        | inl e ↦
            (let (row, h, same, s) = put_row_hit t v rows in
              subst⁻¹
                (λ z.
                  (row : R) × Member row (put_rows t vs (put_row (c.stamped t v) rows))
                  × (c.key row ≡ c.key z)
                  × Stands t z rows row)
                e
                (
                  row,
                  (put_rows_others t vs (put_row (c.stamped t v) rows) row
                        (λ z n e'. first z n (sym e' ∙ same))).0
                      h,
                  same,
                  s,
                ))
        | inr h ↦
            (let (row, n, same, s) =
                (put_rows-IsSeeded t vs (put_row (c.stamped t v) rows) u).each w h in
              (row, n, same, earlier w row (λ e'. first w h e') s))
      ];
      others = λ x n. put_rows_others t (v ∷ vs) rows x n;
    }
      where
        earlier :
            (w row : R)
            → c.key w ≢ c.key v
            → Stands t w (put_row (c.stamped t v) rows) row
            → Stands t w rows row
        earlier w row d (added e) = added e
        earlier w row d (assigned x m e f) =
            assigned x
              (put_row_back (c.stamped t v) x rows (λ e'. d (sym e ∙ (e' ∙ k.stamped_key t v))) m) e
              f
