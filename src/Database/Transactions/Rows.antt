-- ===== src/Database/Transactions/Rows.antt =====
-- What the statements of crates/gateway/src/main.rs on one table do to the row of each identifier.
use nvidia_build_lb.Prelude.{
  ℕ, ◌+◌, ◌-◌, Bool, true, false, not, ◌&&◌, List, [], ◌∷◌, Option, none, some, find_by, ◌==◌,
  if◌then◌else◌, ◌≡◌, ◌≢◌, refl, ap, ◌∙◌, subst, arith,
}
use nvidia_build_lb.Vault.State.{Uuid}
use nvidia_build_lb.Database.Tables.{Tables}
use nvidia_build_lb.Database.Transactions.{
  Engine, Table, ◌>>◌, raise_if, count_overflow, expect_one, execute, only_if, update_where,
  update_rows, update_row, update_count, fits_i64,
}
use nvidia_build_lb.Database.Transactions.Rules.{
  Ensures, bind-Ensures, guarded-Ensures, expect_one-Ensures, execute-Ensures, only_if-Ensures,
}

module _ {Row : Type 0} (table : Table Row) where
  abbrev pub row_of : Uuid → List Row → Option Row
  row_of id rows = find_by (λ row. table.id row == id) rows

  abbrev pub rewritten : (Row → Bool) → (Row → Row) → Option Row → Option Row
  rewritten test set none = none
  rewritten test set (some row) = some (if test row then set row else row)

  -- An update that keeps identifiers rewrites the row of each key, or leaves it.
  pub row_of-update_where :
      (test : Row → Bool) (set : Row → Row)
      → ((row : Row) → table.id (set row) ≡ table.id row)
      → (id : Uuid) (rows : List Row)
      → row_of id (update_where test set rows) ≡ rewritten test set (row_of id rows)
  row_of-update_where test set keep id [] = refl
  row_of-update_where test set keep id (row ∷ rows) =
      ground (arith, keep row, row_of-update_where test set keep id rows)

  pub row_of-id :
      (id : Uuid) (rows : List Row) (row : Row) → row_of id rows ≡ some row → table.id row ≡ id
  row_of-id id [] row h = cc
  row_of-id id (r ∷ rows) row h = ground (arith, row_of-id id rows row)

  -- The row of one key, with the rows of all others as they were at the start.
  pub record Tracks (start : List Row) (id : Uuid) (row : Row) (t : Tables) : Type 0 where
    pub here : row_of id (table.rows t) ≡ some row
    pub others : (j : Uuid) → j ≢ id → row_of j (table.rows t) ≡ row_of j start

  module _ (put-get : (t : Tables) (rows : List Row) → table.rows (table.with_rows t rows) ≡ rows)
      (e : Engine) (start : List Row) (id : Uuid) where
    -- A guarded update whose guard holds rewrites that row alone.
    pub update_row-Ensures :
        (guard : Engine → Row → Bool) (set : Engine → Row → Row)
        → ((row : Row) → table.id (set e row) ≡ table.id row)
        → (row row' : Row) → guard e row ≡ true
        → set e row ≡ row'
        → Ensures e
            (Tracks start id row)
            (update_row table id guard set)
            (λ _. Tracks start id row')
    unfolding update_row
    update_row-Ensures guard set keep row row' passes is =
        bind-Ensures e (Tracks start id row) (execute (update_rows table id guard set))
          (λ _. Tracks start id row') expect_one (λ _. Tracks start id row')
          (execute-Ensures e (Tracks start id row) (update_rows table id guard set)
            (λ _. Tracks start id row')
            (λ t h. record {
              here =
                  ap (row_of id) (put-get t _)
                  ∙ row_of-update_where (λ r. table.id r == id && guard e r) (set e) keep id
                      (table.rows t)
                  ∙ rewritten-here (table.rows t) h.here;
              others = λ j differs.
                  ap (row_of j) (put-get t _)
                  ∙ row_of-update_where (λ r. table.id r == id && guard e r) (set e) keep j
                      (table.rows t)
                  ∙ rewritten-other j (table.rows t) differs
                  ∙ h.others j differs;
            }))
          (λ affected. expect_one-Ensures e (Tracks start id row') affected)
      where
        rewritten-here :
            (rows : List Row)
            → row_of id rows ≡ some row
            → rewritten (λ r. table.id r == id && guard e r) (set e) (row_of id rows) ≡ some row'
        rewritten-here rows h = ground (arith, row_of-id id rows row h)

        rewritten-other :
            (j : Uuid) (rows : List Row)
            → j ≢ id
            → rewritten (λ r. table.id r == id && guard e r) (set e) (row_of j rows) ≡ row_of j rows
        rewritten-other j rows differs = go (row_of j rows) refl
          where
            go :
                (o : Option Row)
                → row_of j rows ≡ o
                → rewritten (λ r. table.id r == id && guard e r) (set e) o ≡ o
            go none at = refl
            go (some r) at = ground (arith, row_of-id j rows r at, differs)

    -- The same under a test: where it fails, the row is already as wanted.
    pub maybe_update-Ensures :
        (test : Bool) (guard : Engine → Row → Bool) (set : Engine → Row → Row)
        → ((row : Row) → table.id (set e row) ≡ table.id row)
        → (row row' : Row) → guard e row ≡ true
        → set e row ≡ row'
        → (test ≡ false → row ≡ row')
        → Ensures e
            (Tracks start id row)
            (only_if test (update_row table id guard set))
            (λ _. Tracks start id row')
    maybe_update-Ensures test guard set keep row row' passes is same =
        only_if-Ensures e (Tracks start id row) test (update_row table id guard set)
          (Tracks start id row') (λ _. update_row-Ensures guard set keep row row' passes is)
          (λ off t h. subst (λ (r : Row). Tracks start id r t) (same off) h)

    -- A counter under its test.
    pub maybe_count-Ensures :
        (test : Bool) (now before : ℕ) (count : Row → ℕ) (put : Row → ℕ → Row)
        → ((row : Row) (n : ℕ) → table.id (put row n) ≡ table.id row)
        → (row row' : Row) → put row (count row + now - before) ≡ row'
        → (test ≡ false → row ≡ row')
        → Ensures e
            (Tracks start id row)
            (only_if test (update_count table now before count id put))
            (λ _. Tracks start id row')
    unfolding update_count
    maybe_count-Ensures test now before count put keep row row' is same =
        only_if-Ensures e P test (update_count table now before count id put) (Tracks start id row')
          (λ _.
            guarded-Ensures e P (not (fits_i64 now)) count_overflow
              (raise_if (not (fits_i64 before)) count_overflow
                >> update_row table id always (set now before))
              (λ _. Tracks start id row')
              (guarded-Ensures e P (not (fits_i64 before)) count_overflow
                (update_row table id always (set now before)) (λ _. Tracks start id row')
                (update_row-Ensures always (set now before) (λ r. keep r (count r + now - before))
                  row row' refl is)))
          (λ off t h. subst (λ (r : Row). Tracks start id r t) (same off) h)
      where
        P : Tables → Type 0
        P = Tracks start id row

        always : Engine → Row → Bool
        always e r = true

        set : ℕ → ℕ → Engine → Row → Row
        set now before e r = put r (count r + now - before)
