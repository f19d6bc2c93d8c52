-- ===== src/Database/Transactions.antt =====
-- A transaction of sqlx and PostgreSQL as crates/gateway/src/main.rs uses them: statements on the tables
-- that can fail one by one, the rows that a statement affects, and the end of the transaction.
pub mod Rules
pub mod Rows
pub mod Loops
use nvidia_build_lb.Prelude.{
  ℕ, ◌+◌, ◌-◌, ◌^◌, ltb, ◌&&◌, Bool, true, false, not, List, [], ◌∷◌, Option, none, some, count_by,
  any, ◌++◌, ◌==◌, if◌then◌else◌, ◌≡◌,
}
use nvidia_build_lb.Vault.State.{Uuid, Time}
use nvidia_build_lb.Database.Tables.{Tables}

-- What the code relies on of the server and the driver in one transaction: `now()`, the value that a
-- time column holds for a bound time, the identifier that a row gets by default, which statement (counted
-- from the first) is executed, which tables a constraint refuses, and whether a COMMIT takes effect and is
-- acknowledged.
pub record Engine : Type 0 where
  pub now : Time
  pub stamp : Time → Time
  pub fresh : Uuid
  pub executes : ℕ → Bool
  pub refuses : Tables → Bool
  pub commits : Bool
  pub acknowledges : Bool

-- The tables as the transaction sees them, and the statements sent so far.
pub record Session : Type 0 where
  pub tables : Tables
  pub sent : ℕ

pub data DbError : Type 0 where
  unavailable : DbError
  concurrent_change : DbError
  at_most_two_keys : DbError
  count_overflow : DbError
  policy_target_is_unavailable : DbError
  missing_row : DbError

pub data Outcome {ℓ} (A : Type ℓ) : Type ℓ where
  done : A → Session → Outcome A
  failed : DbError → Outcome A

abbrev pub Tx {ℓ} : Type ℓ → Type ℓ
Tx A = Engine → Session → Outcome A

infixl 5 ◌>>=◌ ◌>>◌
abbrev pub ◌>>=◌ {ℓ κ} : {A : Type ℓ} {B : Type κ} → Tx A → (A → Tx B) → Tx B
◌>>=◌ m f e s = elim (m e s) [ failed x ↦ failed x | done a s' ↦ f a e s' ]

abbrev pub ◌>>◌ {ℓ} : {B : Type ℓ} → Tx (Unit {0}) → Tx B → Tx B
m >> k = m >>= λ _. k

abbrev pub return {ℓ} : {A : Type ℓ} → A → Tx A
return a e s = done a s

abbrev pub raise {ℓ} : {A : Type ℓ} → DbError → Tx A
raise x e s = failed x

-- `if fails { bail!(..) }`
abbrev pub raise_if : Bool → DbError → Tx (Unit {0})
raise_if fails x = if fails then raise x else return tt

abbrev pub only_if : Bool → Tx (Unit {0}) → Tx (Unit {0})
only_if test m = if test then m else return tt

-- One statement: a query with the tables after it and its answer.
unfoldable pub execute {ℓ} : {A : Type ℓ} → (Engine → Tables → Tables × A) → Tx A
execute statement e s =
    let (tables, answer) = statement e s.tables in
    if not (e.executes s.sent)
    then failed unavailable
    else if e.refuses tables
    then failed unavailable
    else done answer (record { tables = tables; sent = s.sent + 1 })

-- `UPDATE .. SET .. WHERE ..` on the rows of a table.
abbrev pub update_where {ℓ} : {A : Type ℓ} → (A → Bool) → (A → A) → List A → List A
update_where test set [] = []
update_where test set (row ∷ rows) =
    (if test row then set row else row) ∷ update_where test set rows

-- `rows_affected() != 1` is an error.
abbrev pub expect_one : ℕ → Tx (Unit {0})
expect_one affected = raise_if (not (affected == 1)) concurrent_change

-- `i64::try_from`
abbrev pub fits_i64 : ℕ → Bool
fits_i64 n = ltb n (2 ^ 63)

-- A table of rows with an identifier, among the tables.
pub record Table (Row : Type 0) : Type 0 where
  pub id : Row → Uuid
  pub rows : Tables → List Row
  pub with_rows : Tables → List Row → Tables

abbrev pub stamped : Engine → Option Time → Option Time
stamped e none = none
stamped e (some t) = some (e.stamp t)

module _ {Row : Type 0} (table : Table Row) where
  -- The rows that an `UPDATE .. SET .. WHERE id=$1 AND ..` writes, and their number.
  abbrev pub update_rows :
      Uuid → (Engine → Row → Bool) → (Engine → Row → Row) → Engine → Tables → Tables × ℕ
  update_rows id guard set e t = (
    table.with_rows t
        (update_where (λ row. table.id row == id && guard e row) (set e) (table.rows t)),
    count_by (λ row. table.id row == id && guard e row) (table.rows t),
  )

  -- The rows after an `INSERT .. ON CONFLICT (id) DO NOTHING`, and how many it affects.
  abbrev pub insert_row : Row → Tables → Tables × ℕ
  insert_row row t =
      if any (λ r. table.id r == table.id row) (table.rows t)
      then (t, 0)
      else (table.with_rows t (table.rows t ++ row ∷ []), 1)

  -- The UPDATE, which must affect exactly one row.
  unfoldable pub update_row : Uuid → (Engine → Row → Bool) → (Engine → Row → Row) → Tx (Unit {0})
  update_row id guard set = execute (update_rows id guard set) >>= expect_one

  -- A counter moves by the difference of the mutation, and `GREATEST(0, ..)` keeps it from going below.
  -- A sum that leaves the column's type is an error of the statement, which `refuses` stands for.
  unfoldable pub update_count : ℕ → ℕ → (Row → ℕ) → Uuid → (Row → ℕ → Row) → Tx (Unit {0})
  unfolding update_row
  update_count now before count id put = do
    raise_if (not (fits_i64 now)) count_overflow
    raise_if (not (fits_i64 before)) count_overflow
    update_row id (λ e row. true) (λ e row. put row (count row + now - before))

-- `HashMap::get` after `collect`: of two items with one identifier the later one stays.
unfoldable pub last_with : {Item : Type 0} → (Item → Uuid) → Uuid → List Item → Option Item
last_with id_of id [] = none
last_with id_of id (item ∷ items) = elim (last_with id_of id items) [
  | some later ↦ some later
  | none ↦ if id_of item == id then some item else none
]

-- `for current in ..` with the item of the same identifier from before the mutation.
unfoldable pub sync_all :
    {Item : Type 0}
    → (Item → Uuid)
    → (Option Item → Item → Tx (Unit {0}))
    → List Item
    → List Item
    → Tx (Unit {0})
sync_all id_of sync previous [] = return tt
sync_all id_of sync previous (item ∷ items) =
    sync (last_with id_of (id_of item) previous) item >> sync_all id_of sync previous items

-- `pool.begin()`, the statements, `tx.commit()`. A transaction that is dropped is rolled back. A COMMIT
-- whose acknowledgement is lost took effect and is reported as an error.
pub record Ended {ℓ} (A : Type ℓ) : Type ℓ where
  pub tables : Tables
  pub result : Option A

abbrev pub committed {ℓ} : {A : Type ℓ} → Tables → A → Session → Bool → Bool → Ended A
committed before a s true acknowledges = record {
  tables = s.tables;
  result = if acknowledges then some a else none;
}
committed before a s false acknowledges = record { tables = before; result = none }

abbrev pub commit_done {ℓ} : {A : Type ℓ} → Engine → Tables → Outcome A → Ended A
commit_done e before (failed x) = record { tables = before; result = none }
commit_done e before (done a s) = committed before a s e.commits e.acknowledges

unfoldable pub transaction {ℓ} : {A : Type ℓ} → Engine → Tx A → Tables → Ended A
transaction e body tables = commit_done e tables (body e (record { tables = tables; sent = 0 }))
