-- ===== src/Examples/Working.antt =====
-- Runs of `Run` in `indexer/client.go`, of `indexer/account.go` and of `transport/http/http.go`.
use polkadot_worker.Base.{
  ℕ, ◌≡◌, refl, false, List, [], ◌∷◌, none, some, Bytes, codes, format_uint, arith, Outcome, err,
}
use polkadot_worker.Base.Int.{pos}
use polkadot_worker.Api.Session.{request_timedout}
use polkadot_worker.Scale.Storage.{decoded}
use polkadot_worker.Scale.Requests.{Codecs}
use polkadot_worker.Proxy.Client.{fault}
use polkadot_worker.Indexer.Hashes.{get_block_hashes, ask_hashes, look_up, await_hashes}
use polkadot_worker.Indexer.Pool.{new}
use polkadot_worker.Indexer.Tasks.{TaskRequest, Services, Round}
use polkadot_worker.Indexer.Run.{RequestNames, Happening, received, finish, RunState, run}
use polkadot_worker.Indexer.Run.Answering.{Answers}
use polkadot_worker.Indexer.Run.Responses.{taken, all_owed, run-Answers}
use polkadot_worker.Indexer.AccountData.{AccountInfo, timeout}
use polkadot_worker.Indexer.Account.{
  AccountNode, AccountLibraries, AccountShared, cleaned_up, get_account,
}
use polkadot_worker.Indexer.Account.Fates.{fates_of, get_account_fates}
use polkadot_worker.Transport.Http.{answered}
use polkadot_worker.Transport.Http
use polkadot_worker.Transport.Http.Serving.{get_account_served}
use polkadot_worker.Examples.Hashing.{full_cache, chain}
use polkadot_worker.Examples.Mapping.{int_floats, dot}
use polkadot_worker.Examples.Proxying.{two_conns}

-- Nothing is unmarshalled but ranges, and the latter reads one height.
abbrev services : Services ℕ ℕ ℕ
services = record {
  unmarshal_account = λ s. (record { account = []; height = 0 }, none);
  unmarshal_range = λ s. (record { start_height = 3; end_height = 3 }, none);
  unmarshal_latest = λ s. some 1;
  marshal_balance = λ b. [];
  marshal_latest = λ n. [];
  get_range = λ r. ((1, codes "[3]"), none);
  serve = λ ac q. fault 0;
  undefined = λ s. 0;
  header_number = λ s. none;
}

abbrev names : RequestNames
names = record {
  account_balance = codes "B";
  transactions = codes "T";
  latest_mark = codes "L";
  mark_is_not_balance = refl;
  mark_is_not_transactions = refl;
}

abbrev task : ℕ → Bytes → TaskRequest
task id type = record { id = id; type = type; payload = [] }

abbrev silence : Round ℕ
silence = record { wait = none; send = λ m. some request_timedout; replies = [] }

-- A range, a mark with a payload that is not read, an unknown type, the end, and a task after it.
abbrev happenings : List (Happening ℕ)
happenings =
    received (task 1 (codes "T")) silence
    ∷ received (task 2 (codes "L")) silence
    ∷ received (task 3 (codes "?")) silence
    ∷ finish
    ∷ received (task 4 (codes "T")) silence
    ∷ []

owed_four : all_owed services names (taken happenings) ≡ 1 ∷ 2 ∷ 2 ∷ 3 ∷ []
owed_four = refl

abbrev start_state : RunState full_cache ℕ
start_state = record {
  tasks = record { conns = two_conns; pool = new [] 3; cache = [] };
  client = record { streams = []; running = [] };
}

run-Answers_example :
    Answers
      (1 ∷ 2 ∷ 2 ∷ 3 ∷ [])
      (run full_cache int_floats (pos 10) dot services names 9 happenings start_state)
run-Answers_example =
    run-Answers full_cache int_floats (pos 10) dot services names 9 happenings start_state

abbrev plain_codecs : Codecs
plain_codecs = record {
  Hash = Bytes;
  Fault = ℕ;
  hash64 = λ seed s. s;
  base58 = λ s. s;
  blake_new = none;
  blake_write = λ s. (s, none);
  blake_sum = λ s. s;
  to_hex = λ s. s;
}

abbrev account_libraries : AccountLibraries ℕ Bytes
account_libraries = record {
  undefined = λ s. 0;
  header_number = λ s. none;
  unmarshal_version = λ s. none;
  process_metadata = λ s. decoded s;
  process_account = λ s d v. none;
}

-- The hashes are cached, and the runtime version does not come.
abbrev silent_node : AccountNode
silent_node = record {
  send_latest = λ m. none;
  latest_replies = [];
  send_hashes = λ q. none;
  hashes_replies = [];
  send_version = none;
  version_reply = none;
  send_metadata = none;
  metadata_replies = [];
  send_account = λ r h. none;
  account_reply = none;
}

abbrev account_shared : AccountShared full_cache Bytes
account_shared = record {
  cache = (5, chain 5) ∷ (4, chain 4) ∷ [];
  storage = record { spec_name = codes "polkadot"; decoders = [] };
}

timed_out :
    get_account full_cache plain_codecs account_libraries silent_node account_shared 5 (codes "1a")
    ≡ ((err timeout, cleaned_up ∷ []), account_shared)
unfolding get_account get_block_hashes ask_hashes look_up await_hashes
timed_out = refl

get_account_fates_example :
    (get_account full_cache plain_codecs account_libraries silent_node account_shared 5
      (codes "1a")).0.1
    ≡ fates_of
        (get_account full_cache plain_codecs account_libraries silent_node account_shared 5
          (codes "1a")).0.0
get_account_fates_example =
    get_account_fates full_cache plain_codecs account_libraries silent_node account_shared 5
      (codes "1a")

abbrev empty_account : ℕ → Bytes → Outcome ℕ AccountInfo
empty_account height id = err height

get_account_served_example :
    (Http.get_account empty_account (λ v. false) (codes "/account/1a") (format_uint 77)
      ≡ answered empty_account (λ v. false) (err 77))
    × (Http.get_account empty_account (λ v. false) (codes "/account/1a") []
        ≡ answered empty_account (λ v. false) (err 0))
get_account_served_example =
    get_account_served empty_account (λ v. false) 77 (codes "1a") (omega arith) (λ e. cc)
      ((λ e. cc), ((λ e. cc), tt))
