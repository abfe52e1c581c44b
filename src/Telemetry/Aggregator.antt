-- ===== src/Telemetry/Aggregator.antt =====
-- elyra-engine/src/elyra/monitor/ebpf/aggregator.py: `RuntimeTelemetryAggregator`. A reading of the
-- clock is an argument, in microseconds; a reference to a state is the process identifier under which
-- the table holds it.
use elyra.Base.{
  ℕ, suc, String, Bool, true, false, ◌&&◌, Option, none, some, List, [], ◌∷◌, ◌++◌, contains,
  length, leb, ltb, drop, ◌-◌, if◌then◌else◌,
}
use elyra.Base.Int.{ℤ, pos, ◌-ℤ◌, ltb_ℤ, leb_ℤ}
use elyra.Base.Dict.{Dict, lookup, insert, erase, int_key}
use elyra.Base.Outcome.{Result, ok, err}
use elyra.Base.Exec.{Exec, pure, lift, gets, modify, ◌>>=◌, ◌>>◌}
use elyra.Base.Value.{
  equals_text, Value, null, bool, int, text, dict, Fields, end, field, get, set, truthy, py_or,
  int_of, str_of, PyError, value_error, Builtins,
}

pub record ProcessTelemetryState : Type 0 where
  pub tgid : ℤ
  pub executable_identifier : Value
  pub parent_pid : ℤ
  pub uid : ℤ
  pub last_seen : ℤ
  pub distinct_files : List String
  pub outbound_connections : ℕ
  pub event_count : ℕ

pub record Aggregator : Type 0 where
  pub states : Dict ℤ ProcessTelemetryState
  pub recent_events : List Fields

-- The arguments of the constructor.
pub record Limits : Type 0 where
  pub state_ttl : ℤ
  pub max_states : ℕ
  pub max_distinct_files : ℕ

abbrev pub recent_limit : ℕ
recent_limit = 4096

abbrev pub empty : Aggregator
empty = record { states = []; recent_events = [] }

abbrev pub Method : Type 0 → Type 0
Method A = Exec PyError Aggregator A

-- `ProcessTelemetryState(tgid=tgid)`
abbrev pub fresh : ℤ → ℤ → ProcessTelemetryState
fresh now tgid = record {
  tgid = tgid;
  executable_identifier = null;
  parent_pid = pos 0;
  uid = pos 0;
  last_seen = now;
  distinct_files = [];
  outbound_connections = 0;
  event_count = 0;
}

abbrev pub is_expired : Limits → ℤ → ProcessTelemetryState → Bool
is_expired limits now s = ltb_ℤ limits.state_ttl (now -ℤ s.last_seen)

-- The list of the expired states in `expire`.
abbrev pub expired : Limits → ℤ → Dict ℤ ProcessTelemetryState → List ℤ
expired limits now [] = []
expired limits now ((k, s) ∷ states) =
    let rest = expired limits now states in if is_expired limits now s then k ∷ rest else rest

abbrev pub pop_all : List ℤ → Dict ℤ ProcessTelemetryState → Dict ℤ ProcessTelemetryState
pop_all [] states = states
pop_all (k ∷ ks) states = pop_all ks (erase k states)

-- `expire`, without the number of expired states that it returns and `ingest` leaves unused.
unfoldable pub expire : Limits → ℤ → Aggregator → Aggregator
expire limits now a = record a { states = pop_all (expired limits now a.states) a.states }

-- `min(self.states, key=…)`, the first of the least, after those that were looked at
abbrev pub oldest_from : ℤ → ProcessTelemetryState → Dict ℤ ProcessTelemetryState → ℤ
oldest_from k s [] = k
oldest_from k s ((j, t) ∷ states) =
    oldest_from (if ltb_ℤ t.last_seen s.last_seen then j else k)
      (if ltb_ℤ t.last_seen s.last_seen then t else s) states

abbrev pub drop_oldest :
    Dict ℤ ProcessTelemetryState → Result PyError (Dict ℤ ProcessTelemetryState)
drop_oldest [] = err value_error
drop_oldest ((k, s) ∷ states) = ok (erase (oldest_from k s states) ((k, s) ∷ states))

-- The table with room for one more state.
unfoldable pub make_room :
    Limits → Dict ℤ ProcessTelemetryState → Result PyError (Dict ℤ ProcessTelemetryState)
make_room limits states =
    if leb limits.max_states (length states) then drop_oldest states else ok states

abbrev pub enter_new : Limits → ℤ → ℤ → Method ProcessTelemetryState
enter_new limits now tgid = do
  made ← gets (λ (a : Aggregator). make_room limits a.states)
  states ← lift made
  modify (λ (a : Aggregator). record a { states = insert tgid (fresh now tgid) states })
  pure (fresh now tgid)

abbrev pub enter_found :
    Limits → ℤ → ℤ → Option ProcessTelemetryState → Method ProcessTelemetryState
enter_found limits now tgid none = enter_new limits now tgid
enter_found limits now tgid (some s) = pure s

-- The state of a process, entered in the table if it is new.
unfoldable pub enter : Limits → ℤ → ℤ → Method ProcessTelemetryState
unfolding make_room
enter limits now tgid = do
  found ← gets (λ (a : Aggregator). lookup tgid a.states)
  enter_found limits now tgid found

abbrev pub store : ℤ → ProcessTelemetryState → Aggregator → Aggregator
store tgid s a = record a { states = insert tgid s a.states }

abbrev pub is_type : Fields → String → Bool
is_type event t = equals_text (get "event_type" event) t

-- `set.add`
abbrev pub add : String → List String → List String
add x xs = if contains xs x then xs else x ∷ xs

-- The fields that follow the two conversions.
unfoldable pub observe : Builtins → Limits → Fields → ProcessTelemetryState → ProcessTelemetryState
observe lib limits event s = record s {
  executable_identifier =
      if is_type event "PROCESS_EXEC"
      then get "executable_identifier" event
      else s.executable_identifier;
  distinct_files =
      if truthy (get "distinct_file_key" event)
        && ltb (length s.distinct_files) limits.max_distinct_files
      then add (str_of lib (get "distinct_file_key" event)) s.distinct_files
      else s.distinct_files;
  outbound_connections =
      if is_type event "NETWORK_CONNECT"
      then suc s.outbound_connections
      else s.outbound_connections;
}

unfoldable pub summary : ℤ → ProcessTelemetryState → Fields
summary tgid s = field "accepted" (bool true) (
    field "tgid" (int tgid) (
      field "distinct_files_modified" (int (pos (length s.distinct_files))) (
        field "outbound_connection_attempts" (int (pos s.outbound_connections)) (
          field "event_count" (int (pos s.event_count))
            (field "executable_identifier" s.executable_identifier end)))))

-- `deque.append` with a bound on the length
abbrev pub append_recent : Fields → List Fields → List Fields
append_recent event events =
    let longer = events ++ event ∷ [] in drop (length longer - recent_limit) longer

abbrev pub rejected : Fields
rejected = field "accepted" (bool false) (field "reason" (text "MISSING_PROCESS_ID") end)

module _ (lib : Builtins) (limits : Limits) (now : ℤ) (event : Fields) where
  abbrev pub leave : ℤ → Method (Unit {0})
  leave tgid =
      if is_type event "PROCESS_EXIT"
      then modify (λ (a : Aggregator). record a { states = erase tgid a.states })
      else pure tt

  -- `ingest` from where the event has a process.
  unfoldable pub ingest_process : ℤ → Method Fields
  unfolding enter observe summary
  ingest_process tgid = do
    found ← enter limits now tgid
    let seen = record found { last_seen = now; event_count = suc found.event_count }
    modify (store tgid seen)
    parent ← lift (int_of lib (py_or (get "ppid" event) (int seen.parent_pid)))
    let child = record seen { parent_pid = parent }
    modify (store tgid child)
    user ← lift (int_of lib (py_or (get "uid" event) (int child.uid)))
    let final = observe lib limits event (record child { uid = user })
    modify (store tgid final)
    let result = summary tgid final
    modify (λ (a : Aggregator). record a {
      recent_events = append_recent (set "runtime_summary" (dict result) event) a.recent_events;
    })
    leave tgid
    pure result

  unfoldable pub ingest : Method Fields
  unfolding expire ingest_process
  ingest = do
    modify (expire limits now)
    tgid ← lift (int_of lib (py_or (get "tgid" event) (py_or (get "pid" event) (int (pos 0)))))
    if leb_ℤ tgid (pos 0) then pure rejected else ingest_process tgid

-- Calls of `ingest` one after another, with the time of each.
unfoldable pub ingest_all : Builtins → Limits → List (ℤ × Fields) → Aggregator → Aggregator
unfolding ingest
ingest_all lib limits [] a = a
ingest_all lib limits ((now, event) ∷ events) a =
    ingest_all lib limits events (ingest lib limits now event a).1
