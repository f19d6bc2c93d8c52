-- ===== src/Tests/Proxy.antt =====
-- The loop over keys of crates/gateway/src/proxy.rs: runs, and its theorems at concrete inputs.
use nvidia_build_lb.Prelude.{
  ℕ, length, String, Bool, true, false, [], ◌∷◌, ◌++◌, List, none, some, Option, ◌≡◌, refl, codes,
  Bytes,
}
use nvidia_build_lb.Database.Tables.{Tables}
use nvidia_build_lb.Ledger.{Arrival, request_row, attempt_row}
use nvidia_build_lb.Evidence.{openai_error, Server, Surroundings, default_recovery}
use nvidia_build_lb.Evidence.Settled.{IsAccounted}
use nvidia_build_lb.Evidence.Admission.{
  Idle, IsTracked, acquired, admit_and_start_selected, admit_and_start_selected-IsTracked,
}
use nvidia_build_lb.Failover.{Received}
use nvidia_build_lb.Failover.Attempts.{Answered, Provider, answer_request, key_attempts}
use nvidia_build_lb.Failover.Posts.{IsOnce, answer_request-IsOnce}
use nvidia_build_lb.Vault.Keys.{list}
use nvidia_build_lb.Failover.Accounted.{answer_request-IsAccounted}
use nvidia_build_lb.Tests.Fixtures.{toy}
use nvidia_build_lb.Tests.Stores.{server, setting, tables, store, live}

abbrev arrival : Arrival
arrival = record {
  request_id = 41;
  downstream_credential_id = some 5;
  endpoint = "/v1/embeddings";
  profile_id = "nvidia/vila";
  stream = false;
  modality = "embedding";
}

-- The request was admitted with the key of slot one.
abbrev admitted : Tables
admitted = record tables {
  proxy_requests = request_row server 70 (some 9) arrival ∷ [];
  request_attempts = attempt_row server 41 70 "nvidia/vila" 1 (some 9) 1 ∷ [];
}

abbrev working : Server (nvidia_build_lb.Vault.Custody.Primitives.File toy)
working = record {
  store = record store { database = some admitted };
  evidence = record {
    request_id = 41;
    terminal = false;
    permit_acquired = true;
    drop_recovery = default_recovery;
  };
  retried = [];
  posts = [];
  calls = 0;
}

abbrev around : Surroundings
around = record {
  owner_id = some 9;
  engine = λ n m. server;
  setting = λ n. setting;
  operations = λ n. live;
  clock = λ n. 1000;
}

abbrev waiting : Idle (nvidia_build_lb.Vault.Custody.Primitives.File toy)
waiting = record { store = store; routers = []; retried = []; calls = 0 }

admit_and_start_selected-IsTracked_example :
    IsTracked 41 (admit_and_start_selected toy around arrival waiting)
unfolding nvidia_build_lb.Database.Permits.acquire_downstream_permit
    nvidia_build_lb.Database.Transactions.execute
admit_and_start_selected-IsTracked_example =
    admit_and_start_selected-IsTracked toy around arrival waiting tables
      (acquired toy around arrival waiting).0 refl refl

abbrev answering : ℕ → Provider
answering status = record {
  answers = λ n. some (record {
    received = record {
      status = status;
      content_type = none;
      content_length = none;
      chunks = some (codes "ab") ∷ some (codes "c") ∷ [];
    };
    retry_after = none;
    polled = none;
  });
  routing_document = λ n. none;
  http_date = λ header. none;
  normalize = λ path body content_type. some (body, content_type);
}

answer_request-IsAccounted_example :
    IsAccounted
      (answer_request toy around (answering 200) "/v1/embeddings" "nvidia/vila" 1 working).1
      (answer_request toy around (answering 200) "/v1/embeddings" "nvidia/vila" 1 working).0
answer_request-IsAccounted_example =
    answer_request-IsAccounted toy around (answering 200) "/v1/embeddings" "nvidia/vila" 1 working
      refl

answer_request-IsOnce_example :
    IsOnce "/v1/embeddings"
      (length (list working.store.world.vault))
      []
      (answer_request toy around (answering 503) "/v1/embeddings" "nvidia/vila" 1 working).0.posts
answer_request-IsOnce_example =
    answer_request-IsOnce toy around (answering 503) "/v1/embeddings" "nvidia/vila" 1 working

-- A request that the provider rejects is not sent again.
rejected_once :
    (answer_request toy around (answering 422) "/v1/embeddings" "nvidia/vila" 1 working).1
    ≡ openai_error 422 "upstream_error" "upstream_request_rejected" none
unfolding answer_request nvidia_build_lb.Failover.Attempts.key_attempts
    nvidia_build_lb.Vault.Keys.list nvidia_build_lb.Vault.Keys.credential
    nvidia_build_lb.Prelude.is_utf8 nvidia_build_lb.Ledger.Operations.request_and_attempt_finished
    nvidia_build_lb.Database.Transactions.execute nvidia_build_lb.Ledger.latest
rejected_once = refl
