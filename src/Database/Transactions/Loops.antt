-- ===== src/Database/Transactions/Loops.antt =====
-- The loops of `sync_database_delta` in crates/gateway/src/main.rs: where a table held the items from before
-- one mutation, a run that succeeds leaves it with the items from after it.
use nvidia_build_lb.Prelude.{
  ℕ, Bool, true, false, not, List, [], ◌∷◌, ◌++◌, All, Option, none, some, any, ◌==◌, ◌≡◌, ◌≢◌,
  refl, sym, ap, ◌∙◌, subst, ◌⊎◌, inl, inr, arith, find_by-append_none,
}
use nvidia_build_lb.Vault.State.{Uuid}
use nvidia_build_lb.Database.Tables.{Tables}
use nvidia_build_lb.Database.Transactions.{
  concurrent_change, expect_one, insert_row, Engine, Table, Tx, last_with, sync_all,
}
use nvidia_build_lb.Database.Transactions.Rules.{
  Ensures, return-Ensures, then-Ensures, raise_if-Ensures,
}
use nvidia_build_lb.Database.Transactions.Rows.{row_of}

-- How items of the vault stand in a table: the table, the identifier of an item, when a row holds an item,
-- and what a mutation leaves alone of an item.
pub record Copying (Row Item : Type 0) : Type 1 where
  pub table : Table Row
  pub id_of : Item → Uuid
  pub Mirrors : Engine → Item → Row → Type 0
  pub SameFixed : Engine → Item → Item → Type 0

module _ {Row Item : Type 0} (c : Copying Row Item) where
  open c use {table, id_of}

  -- The table has a row for the item that mirrors it.
  pub record Holds (e : Engine) (rows : List Row) (item : Item) : Type 0 where
    pub row : Row
    pub found : row_of table (id_of item) rows ≡ some row
    pub mirrors : c.Mirrors e item row

  abbrev pub Apart : Uuid → List Item → Type 0
  Apart id items = All (λ (item : Item). id_of item ≢ id) items

  abbrev pub DistinctIds : List Item → Type 0
  DistinctIds [] = Unit
  DistinctIds (item ∷ items) = Apart (id_of item) items × DistinctIds items

  -- An item that was there before has kept what is fixed, and the table holds what it was.
  abbrev pub Prepared : Engine → List Row → Option Item → Item → Type 0
  Prepared e rows none item = Unit
  Prepared e rows (some before) item = c.SameFixed e before item × Holds e rows before

  abbrev pub Starts : List Row → Tables → Type 0
  Starts start t = table.rows t ≡ start

  -- The item has its row, and the rows of all others are as at the start.
  pub record Written (e : Engine) (start : List Row) (item : Item) (t : Tables) : Type 0 where
    pub held : Holds e (table.rows t) item
    pub others : (j : Uuid) → j ≢ id_of item → row_of table j (table.rows t) ≡ row_of table j start

  pub row_of-append_other :
      (j : Uuid) (rows : List Row) (row : Row)
      → table.id row ≢ j
      → row_of table j (rows ++ row ∷ []) ≡ row_of table j rows
  row_of-append_other j [] row differs = ground arith
  row_of-append_other j (r ∷ rows) row differs =
      ground (arith, row_of-append_other j rows row differs)

  -- What an INSERT leaves: it affected no row, or the item has its row.
  abbrev pub Inserted : Engine → List Row → Item → ℕ → Tables → Type 0
  Inserted e start item affected t = (affected ≡ 0) ⊎ Written e start item t

  pub insert_row-Written :
      (put-get : (t : Tables) (rows : List Row) → table.rows (table.with_rows t rows) ≡ rows)
      (e : Engine) (start : List Row) (item : Item) (row : Row)
      → table.id row ≡ id_of item
      → c.Mirrors e item row
      → (t : Tables) → Starts start t
      → Inserted e start item (insert_row table row t).1 (insert_row table row t).0
  insert_row-Written put-get e start item row same mirrors t h =
      go (any (λ r. table.id r == table.id row) (table.rows t)) refl
    where
      go :
          (there : Bool)
          → any (λ r. table.id r == table.id row) (table.rows t) ≡ there
          → Inserted e start item (insert_row table row t).1 (insert_row table row t).0
      go true is = rw is (inl refl)
      go false is = rw is (
          inr (record {
            held = record {
              row = row;
              found =
                  ap
                    (λ (id : Uuid).
                      row_of table id (table.rows (table.with_rows t (table.rows t ++ row ∷ []))))
                    (sym same)
                  ∙ ap (row_of table (table.id row)) (put-get t (table.rows t ++ row ∷ []))
                  ∙ find_by-append_none (λ r. table.id r == table.id row) (table.rows t) (row ∷ [])
                      is
                  ∙ ground arith;
              mirrors = mirrors;
            };
            others = λ j differs.
                ap (row_of table j) (put-get t (table.rows t ++ row ∷ []))
                ∙ row_of-append_other j (table.rows t) row (λ it. differs (sym it ∙ same))
                ∙ ap (row_of table j) h;
          }))

  pub one-Written :
      (e : Engine) (start : List Row) (item : Item) (affected : ℕ)
      → Ensures e (Inserted e start item affected) (expect_one affected) (λ _. Written e start item)
  one-Written e start item affected s s' a h is =
      let (h', one) =
        raise_if-Ensures e (Inserted e start item affected) (not (affected == 1)) concurrent_change
          s s' a h is in
      elim h' [ inl none_ ↦ absurd (ground arith) | inr w ↦ w ]

  Holds-moved :
      (e : Engine) (rows rows' : List Row) (item : Item)
      → row_of table (id_of item) rows' ≡ row_of table (id_of item) rows
      → Holds e rows item
      → Holds e rows' item
  Holds-moved e rows rows' item same h = record {
    row = h.row;
    found = same ∙ h.found;
    mirrors = h.mirrors;
  }

  -- Every item of the list was there before the mutation with its secret and its row, or is new.
  abbrev pub AllPrepared : Engine → List Row → List Item → List Item → Type 0
  AllPrepared e rows previous items =
      All (λ (item : Item). Prepared e rows (last_with id_of (id_of item) previous) item) items

  last_with-id :
      (id : Uuid) (items : List Item) (item : Item)
      → last_with id_of id items ≡ some item
      → id_of item ≡ id
  unfolding last_with
  last_with-id id [] item h = cc
  last_with-id id (k ∷ items) item h = ground (arith, last_with-id id items item)

  module _ (e : Engine) (previous : List Item) where
    Prepared-moved :
        (rows rows' : List Row) (item : Item) (before : Option Item)
        → last_with id_of (id_of item) previous ≡ before
        → row_of table (id_of item) rows' ≡ row_of table (id_of item) rows
        → Prepared e rows before item
        → Prepared e rows' before item
    Prepared-moved rows rows' item none is same h = tt
    Prepared-moved rows rows' item (some before) is same h = (
      h.0,
      Holds-moved e rows rows' before
          (subst (λ (id : Uuid). row_of table id rows' ≡ row_of table id rows)
            (sym (last_with-id (id_of item) previous before is)) same)
          h.1,
    )

    AllPrepared-moved :
        (rows rows' : List Row) (id : Uuid) (items : List Item)
        → ((j : Uuid) → j ≢ id → row_of table j rows' ≡ row_of table j rows)
        → Apart id items
        → AllPrepared e rows previous items
        → AllPrepared e rows' previous items
    AllPrepared-moved rows rows' id [] same apart h = tt
    AllPrepared-moved rows rows' id (item ∷ items) same apart h = (
      Prepared-moved rows rows' item (last_with id_of (id_of item) previous) refl
          (same (id_of item) apart.0) h.0,
      AllPrepared-moved rows rows' id items same apart.1 h.1,
    )

  -- After the loop the table holds every item of the list, and every other row is as before.
  pub record Synced (e : Engine) (start : List Row) (items : List Item) (t : Tables) : Type 0 where
    pub held : All (Holds e (table.rows t)) items
    pub others : (j : Uuid) → Apart j items → row_of table j (table.rows t) ≡ row_of table j start

  module _ (e : Engine) (sync : Option Item → Item → Tx (Unit {0})) (previous : List Item)
      (sync-Written : (start : List Row) (item : Item) (before : Option Item)
        → Prepared e start before item
        → Ensures e (Starts start) (sync before item) (λ _. Written e start item)) where
    pub sync_all-Synced :
        (items : List Item) (start : List Row)
        → DistinctIds items
        → AllPrepared e start previous items
        → Ensures e (Starts start) (sync_all id_of sync previous items) (λ _. Synced e start items)
    unfolding sync_all
    sync_all-Synced [] start d h =
        return-Ensures e (Starts start) tt (λ _. Synced e start [])
          (λ t is. record { held = tt; others = λ j apart. ap (row_of table j) is })
    sync_all-Synced (item ∷ items) start d h =
        then-Ensures e (Starts start) (sync (last_with id_of (id_of item) previous) item)
          (Written e start item) (sync_all id_of sync previous items)
          (λ _. Synced e start (item ∷ items))
          (sync-Written start item (last_with id_of (id_of item) previous) h.0)
          (λ s s' a w is.
            let rows = (table.rows s.tables) in
            let later =
              sync_all-Synced items rows d.1
                (AllPrepared-moved e previous start rows (id_of item) items w.others d.0 h.1) s s' a
                refl is in
            record {
              held = (
                Holds-moved e rows (table.rows s'.tables) item (later.others (id_of item) d.0)
                    w.held,
                later.held,
              );
              others = λ j apart. later.others j apart.1 ∙ w.others j (λ same. apart.0 (sym same));
            })
