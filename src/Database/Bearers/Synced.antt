-- ===== src/Database/Bearers/Synced.antt =====
-- The loop over the downstream credentials in `sync_database_delta` of crates/gateway/src/main.rs: a new
-- one gets a row, and one that has changed gets its fields written.
use nvidia_build_lb.Prelude.{ℕ, not, List, Option, none, some, refl, sym, ap, ◌∙◌, arith}
use nvidia_build_lb.Vault.State.{Uuid, VaultDownstreamRecord}
use nvidia_build_lb.Database.Tables.{Tables, DownstreamRow}
use nvidia_build_lb.Database.Transactions.{
  fits_i64, Engine, ◌>>=◌, execute, expect_one, count_overflow,
}
use nvidia_build_lb.Database.Transactions.Rules.{
  Ensures, bind-Ensures, guarded-Ensures, execute-Ensures,
}
use nvidia_build_lb.Database.Transactions.Rows.{row_of}
use nvidia_build_lb.Database.Transactions.Loops
use nvidia_build_lb.Database.Transactions.Loops.{Copying, sync_all-Synced}
use nvidia_build_lb.Database.Bearers.{
  bearer_table, bearer_row, inserted, add_bearer, update_changed, sync_bearer, sync_bearers,
}
use nvidia_build_lb.Database.Bearers.Mirrors.{Mirrors, SameIssue, written, update_changed-Ensures}

abbrev pub bearers_in_table : Copying DownstreamRow VaultDownstreamRecord
bearers_in_table = record {
  table = bearer_table;
  id_of = λ item. item.id;
  Mirrors = Mirrors;
  SameFixed = SameIssue;
}

abbrev pub Holds : Engine → List DownstreamRow → VaultDownstreamRecord → Type 0
Holds = Loops.Holds bearers_in_table

abbrev pub Starts : List DownstreamRow → Tables → Type 0
Starts = Loops.Starts bearers_in_table

module _ (e : Engine) (start : List DownstreamRow) (item : VaultDownstreamRecord) where
  abbrev Written : Tables → Type 0
  Written = Loops.Written bearers_in_table e start item

  abbrev Inserted : ℕ → Tables → Type 0
  Inserted = Loops.Inserted bearers_in_table e start item

  bearer_row-Mirrors : Mirrors e item (bearer_row e item)
  bearer_row-Mirrors = ground arith

  inserted-Written :
      (t : Tables) → Starts start t → Inserted (inserted item e t).1 (inserted item e t).0
  inserted-Written t h =
      Loops.insert_row-Written bearers_in_table (λ t rows. refl) e start item (bearer_row e item)
        refl bearer_row-Mirrors t h

  add_bearer-Written : Ensures e (Starts start) (add_bearer item) (λ _. Written)
  unfolding add_bearer
  add_bearer-Written =
      guarded-Ensures e (Starts start) (not (fits_i64 item.request_count)) count_overflow
        (execute (inserted item) >>= expect_one) (λ _. Written)
        (bind-Ensures e (Starts start) (execute (inserted item)) Inserted expect_one (λ _. Written)
          (execute-Ensures e (Starts start) (inserted item) Inserted inserted-Written)
          (Loops.one-Written bearers_in_table e start item))

  update_changed-Written :
      (before : VaultDownstreamRecord)
      → SameIssue e before item
      → Holds e start before
      → Ensures e (Starts start) (update_changed before item) (λ _. Written)
  update_changed-Written before issue old s s' a h is =
      let t =
        update_changed-Ensures e start before item old.row old.mirrors issue.used_later s s' a
          (record {
            here =
                ap (row_of bearer_table item.id) h
                ∙ ap (λ (id : Uuid). row_of bearer_table id start) (sym issue.id)
                ∙ old.found;
            others = λ j differs. ap (row_of bearer_table j) h;
          })
          is in
      record {
        held = record {
          row = written e start before item old.row;
          found = t.here;
          mirrors = record {
            label = old.mirrors.label ∙ issue.label;
            digest = refl;
            scopes = refl;
            active = refl;
            request_count = refl;
            last_used_at = refl;
            created_at = old.mirrors.created_at ∙ ap e.stamp issue.created_at;
            revoked_at = refl;
          };
        };
        others = t.others;
      }

  sync_bearer-Written :
      (before : Option VaultDownstreamRecord)
      → Loops.Prepared bearers_in_table e start before item
      → Ensures e (Starts start) (sync_bearer before item) (λ _. Written)
  sync_bearer-Written none h = add_bearer-Written
  sync_bearer-Written (some before) h = update_changed-Written before h.0 h.1

pub sync_bearers-Synced :
    (e : Engine) (previous items : List VaultDownstreamRecord) (start : List DownstreamRow)
    → Loops.DistinctIds bearers_in_table items
    → Loops.AllPrepared bearers_in_table e start previous items
    → Ensures e
        (Starts start)
        (sync_bearers previous items)
        (λ _. Loops.Synced bearers_in_table e start items)
unfolding sync_bearers
sync_bearers-Synced e previous items start d h =
    sync_all-Synced bearers_in_table e sync_bearer previous
      (λ start item before. sync_bearer-Written e start item before) items start d h
