-- ===== src/Evidence/Admission.antt =====
-- `admit_and_start_selected` and `start` of crates/gateway/src/evidence.rs: the permit of a request, its row in
-- the ledger and its first attempt, before the provider is called.
use nvidia_build_lb.Prelude.{
  ℕ, ◌+◌, Bool, true, false, List, [], ◌∷◌, Option, none, some, any, ◌==◌, if◌then◌else◌, ◌≡◌, refl,
  sym, subst, arith,
}
use nvidia_build_lb.Vault.State.{Uuid}
use nvidia_build_lb.Vault.Custody.{Primitives}
use nvidia_build_lb.Database.Tables.{Tables}
use nvidia_build_lb.Database.Permits
use nvidia_build_lb.Database.Permits.{permitted, refusal, acquire_downstream_permit}
use nvidia_build_lb.Store.{VaultStore}
use nvidia_build_lb.Selection.{Routers, Gateway, select_from_vault}
use nvidia_build_lb.Ledger.{Arrival, request_failed}
use nvidia_build_lb.Ledger.Operations.{
  Written, proxy_request_started, Started, select_and_start_request, attempt_started,
}
use nvidia_build_lb.Evidence.{
  Response, openai_error, Server, Surroundings, Step, go_on, respond, Handler, ◌>>=◌, ◌>>◌, return,
  reply, or_reply, on_request, evidence_unavailable, default_recovery, permit_error_response,
  arm_evidence_failure, reset_drop_recovery, finish, drop,
}

-- What a handler works on before its request is admitted.
pub record Idle (File : Type 0) : Type 0 where
  pub store : VaultStore File
  pub routers : Routers
  pub retried : List Uuid
  pub calls : ℕ

-- The request is admitted with a key, or it is turned away.
pub data Admission (File : Type 0) : Type 0 where
  admitted : Server File → Routers → Uuid → Admission File
  turned_away : Idle File → Response → Admission File

abbrev pub no_eligible_upstream : Response
no_eligible_upstream = openai_error 503 "service_unavailable_error" "no_eligible_upstream" none

-- `RequestEvidence` with the permit that the guard hands over.
abbrev pub owning : {F : Type 0} → Idle F → Option Tables → Arrival → Bool → Server F
owning i database arrival permit_acquired = record {
  store = record i.store { database = database };
  evidence = record {
    request_id = arrival.request_id;
    terminal = false;
    permit_acquired = permit_acquired;
    drop_recovery = default_recovery;
  };
  retried = i.retried;
  posts = [];
  calls = i.calls + 2;
}

-- The guard is dropped with the permit: a task releases it.
abbrev pub guarded : {F : Type 0} → Idle F → Option Tables → Arrival → Bool → Idle F
guarded i database arrival permit_acquired = record i {
  store = record i.store { database = database };
  retried = if permit_acquired then arrival.request_id ∷ i.retried else i.retried;
  calls = i.calls + 2;
}

abbrev pub dropped : {F : Type 0} → Surroundings → Routers → Server F → Idle F
dropped around routers s =
    let s' = drop around s in
    record { store = s'.store; routers = routers; retried = s'.retried; calls = s'.calls }

module _ (p : Primitives) (around : Surroundings) (arrival : Arrival) where
  -- With a database: the selection, the request and its first attempt in one transaction.
  abbrev pub selected : Idle p.File → Bool → Started → Admission p.File
  selected i permit_acquired (database, some (some key_id)) =
      admitted (owning i database arrival permit_acquired) i.routers key_id
  selected i permit_acquired (database, some none) =
      turned_away (guarded i database arrival permit_acquired) no_eligible_upstream
  selected i permit_acquired (database, none) =
      turned_away (guarded i database arrival permit_acquired) evidence_unavailable

  abbrev pub after_permit : Idle p.File → Option Tables × Permits.Answer → Admission p.File
  after_permit i (database, refusal x) =
      turned_away (guarded i database arrival false) (permit_error_response x)
  after_permit i (database, permitted permit_acquired) = selected i permit_acquired (
      select_and_start_request (around.operations i.calls) (around.engine i.calls 1) around.owner_id
        arrival database)

  -- `start`
  abbrev pub recorded : Idle p.File → Bool → Written → Step (Server p.File) × Idle p.File
  recorded i permit_acquired (database, true) =
      (go_on (owning i database arrival permit_acquired), guarded i database arrival false)
  recorded i permit_acquired (database, false) =
      (respond evidence_unavailable, guarded i database arrival permit_acquired)

  abbrev pub started :
      Idle p.File → Option Tables × Permits.Answer → Step (Server p.File) × Idle p.File
  started i (database, refusal x) =
      (respond (permit_error_response x), guarded i database arrival false)
  started i (database, permitted permit_acquired) =
      recorded i permit_acquired
        (proxy_request_started (around.engine i.calls 1) around.owner_id arrival database)

  abbrev pub acquired : Idle p.File → Option Tables × Permits.Answer
  acquired i =
      acquire_downstream_permit (around.engine i.calls 0) (around.clock i.calls) around.owner_id
        arrival.request_id arrival.downstream_credential_id arrival.profile_id i.store.database

  unfoldable pub start : Idle p.File → Step (Server p.File) × Idle p.File
  unfolding acquire_downstream_permit proxy_request_started
  start i = started i (acquired i)

  -- Without a database: the key of the vault's own selection.
  abbrev pub first_call : Uuid → Uuid → ℕ → Option Tables → Written
  first_call key_id request_id n =
      attempt_started (around.engine n 0) around.owner_id request_id arrival.profile_id key_id

  abbrev pub first_attempt : Uuid → Handler p.File Uuid
  first_attempt key_id = do
    arm_evidence_failure none 0
    recorded ← on_request (first_call key_id)
    or_reply (openai_error 500 "service_unavailable_error" "ledger_unavailable" none) recorded
    reset_drop_recovery
    return key_id

  abbrev pub with_key : Option Uuid → Handler p.File Uuid
  with_key none =
      finish around (request_failed 503 "no_eligible_upstream") >> reply no_eligible_upstream
  with_key (some key_id) = first_attempt key_id

  abbrev pub admission_of : Routers → Server p.File × Step Uuid → Admission p.File
  admission_of routers (s, go_on key_id) = admitted s routers key_id
  admission_of routers (s, respond r) = turned_away (dropped around routers s) r

  abbrev pub with_selection : Server p.File → Gateway p.File × Option Uuid → Admission p.File
  with_selection s (g, key_id) =
      admission_of g.routers (with_key key_id (record s { store = g.store; calls = s.calls + 1 }))

  abbrev pub select_for : Routers → Server p.File → Gateway p.File × Option Uuid
  select_for routers s =
      select_from_vault p (around.setting s.calls) (around.clock s.calls) arrival.profile_id
        (record { store = s.store; routers = routers })

  abbrev pub after_start : Routers → Step (Server p.File) × Idle p.File → Admission p.File
  after_start routers (respond r, i) = turned_away i r
  after_start routers (go_on s, i) = with_selection s (select_for routers s)

  abbrev pub admit_by_database : Idle p.File → Option Tables → Admission p.File
  admit_by_database i none = after_start i.routers (start i)
  admit_by_database i (some t) = after_permit i (acquired i)

  unfoldable pub admit_and_start_selected : Idle p.File → Admission p.File
  unfolding start select_and_start_request select_from_vault finish drop
  admit_and_start_selected i = admit_by_database i i.store.database

-- A permit that was taken is with the evidence of the admitted request, which is not closed, or with a task
-- that releases it.
abbrev pub IsTracked : {F : Type 0} → Uuid → Admission F → Type 0
IsTracked request_id (admitted s routers key_id) =
    (s.evidence.request_id ≡ request_id)
    × (s.evidence.permit_acquired ≡ true)
    × (s.evidence.terminal ≡ false)
IsTracked request_id (turned_away i r) = any (λ id. id == request_id) i.retried ≡ true

selected-IsTracked :
    (p : Primitives) (around : Surroundings) (arrival : Arrival) (i : Idle p.File) (x : Started)
    → IsTracked arrival.request_id (selected p around arrival i true x)
selected-IsTracked p around arrival i (database, some (some key_id)) = (refl, refl, refl)
selected-IsTracked p around arrival i (database, some none) = ground arith
selected-IsTracked p around arrival i (database, none) = ground arith

-- With a database, a permit that an admission takes is not lost, whatever the selection, the ledger and the
-- COMMIT answer: the admitted request owns it, or it is released by a task.
pub admit_and_start_selected-IsTracked :
    (p : Primitives) (around : Surroundings) (arrival : Arrival) (i : Idle p.File) (t : Tables)
    (database : Option Tables)
    → i.store.database ≡ some t
    → acquired p around arrival i ≡ (database, permitted true)
    → IsTracked arrival.request_id (admit_and_start_selected p around arrival i)
unfolding admit_and_start_selected
admit_and_start_selected-IsTracked p around arrival i t database with_database taken =
    subst (λ d. IsTracked arrival.request_id (admit_by_database p around arrival i d))
      (sym with_database)
      (subst (λ x. IsTracked arrival.request_id (after_permit p around arrival i x)) (sym taken)
        (selected-IsTracked p around arrival i (
          select_and_start_request (around.operations i.calls) (around.engine i.calls 1)
            around.owner_id arrival database)))
