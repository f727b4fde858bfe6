-- ===== src/Pilot/Client/Interface.antt =====
-- The calls of `PilotIntegrationClient` of src/pilot/pilot_integration_client.cpp, and the steps of
-- the whole client: a result of the transport, a wait that ends or is woken, and the calls.
use nodus_vision.Prelude.{
  ℕ, ◌-◌, ◌/◌, ◌^◌, Bool, true, false, ◌||◌, ◌&&◌, not, Option, none, some, List, [], ◌∷◌, Text,
  leb, ltb, ◌==◌, if◌then◌else◌,
}
use nodus_vision.Prelude.Int.{ℤ, pos, negsuc, ltb_ℤ}
use nodus_vision.Prelude.Result.{Result, ok, err}
use nodus_vision.Camera.Contracts.{ProviderState, PilotIntegrationState}
use nodus_vision.Config.{VisionConfig}
use nodus_vision.Pilot.{PilotHttpResult, VisionEndpointCatalog}
use nodus_vision.Pilot.Identifiers.{generate_instance_id}
use nodus_vision.Pilot.Catalog.{build_catalog}
use nodus_vision.Pilot.Transport.{make_transport}
use nodus_vision.Pilot.Client.{Environment, Worker, PilotIntegrationSnapshot, PilotClient}
use nodus_vision.Pilot.Client.Run.{
  finish_worker, registration_head, registration_replied, publication_head,
}
use nodus_vision.Pilot.Client.Writes.{publication_replied, session_woken, write_replied}

unfoldable pub empty_snapshot : PilotIntegrationSnapshot
empty_snapshot = record {
  enabled = false;
  state = PilotIntegrationState.disabled;
  server_instance_id = [];
  catalog_generation = 0;
  descriptor_count = pos 0;
  retry_count = 0;
  last_success_age_ms = negsuc 0;
  last_error = [];
}

unfoldable pub make_client : VisionConfig → PilotClient
unfolding empty_snapshot
make_client config = record {
  config = config;
  catalog = record { descriptors = []; capabilities = [] };
  instance_id = [];
  started_at_ns = 0;
  started = false;
  stop_requested = false;
  current_state = ProviderState.starting;
  pending_state = none;
  snapshot = empty_snapshot;
  last_success = 0;
  worker = Worker.no_thread;
  requests = [];
}

-- `std::min` of two `int`s.
abbrev pub min_ℤ : ℤ → ℤ → ℤ
min_ℤ a b = if ltb_ℤ b a then b else a

-- What `startClient` sets before it looks at the configuration.
unfoldable pub reset_client : ProviderState → PilotClient → PilotClient
unfolding empty_snapshot
reset_client initial_state c = record c {
  started = true;
  current_state = initial_state;
  pending_state = none;
  last_success = 0;
  snapshot = record empty_snapshot { enabled = c.config.pilot.enabled };
}

-- The worker is started after the transport has been made, where the thread's constructor returns.
unfoldable pub launch :
    {A : Type 0} → Result A → Result (Unit {0}) → PilotClient → Result (Unit {0}) × PilotClient
launch (ok transport) (ok _) c = (ok tt, record c { worker = Worker.spawned })
launch (ok transport) (err exception) c = (err exception, c)
launch (err exception) thread_start c = (err exception, c)

unfoldable pub identified :
    Result Text → Result (Unit {0}) → ℕ → PilotClient → Result (Unit {0}) × PilotClient
unfolding make_transport launch
identified (ok instance_id) thread_start now c =
    launch
      (make_transport c.config.pilot.base_url c.config.pilot.connect_timeout_ms
        (min_ℤ c.config.pilot.request_timeout_ms c.config.pilot.shutdown_timeout_ms)
        c.config.pilot.max_response_bytes)
      thread_start
      (record c { instance_id = instance_id; started_at_ns = now; stop_requested = false })
identified (err exception) thread_start now c = (err exception, c)

unfoldable pub cataloged :
    Result VisionEndpointCatalog
    → Result Text
    → Result (Unit {0})
    → ℕ
    → PilotClient
    → Result (Unit {0}) × PilotClient
unfolding identified
cataloged (ok catalog) instance_id thread_start now c =
    identified instance_id thread_start now (record c { catalog = catalog })
cataloged (err exception) instance_id thread_start now c = (err exception, c)

-- The result, and the client that is left also where an exception is thrown. `generator` is what the
-- injected generator returns, `random` the bytes of the random device.
unfoldable pub start_client :
    Environment
    → ProviderState
    → Option Text
    → List ℕ
    → ℕ
    → PilotClient
    → Result (Unit {0}) × PilotClient
unfolding reset_client build_catalog generate_instance_id cataloged
start_client env initial_state generator random now c =
    if c.started
    then (ok tt, c)
    else if not c.config.pilot.enabled
    then (ok tt, reset_client initial_state c)
    else cataloged (build_catalog c.config env.arithmetic) (generate_instance_id generator random)
        env.thread_start now (reset_client initial_state c)

-- The client that `startClient` leaves.
abbrev pub started_client :
    Environment → ProviderState → Option Text → List ℕ → ℕ → PilotClient → PilotClient
started_client env initial_state generator random now c =
    (start_client env initial_state generator random now c).1

unfoldable pub update_provider_state : ProviderState → PilotClient → PilotClient
update_provider_state state c =
    if not c.started || not c.config.pilot.enabled
    then c
    else record c { current_state = state; pending_state = some state }

-- The part of `stopClient` before the join.
unfoldable pub request_stop : PilotClient → PilotClient
request_stop c = if c.started then record c { stop_requested = true } else c

-- Whether `join` returns.
unfoldable pub is_joinable_now : Worker → Bool
is_joinable_now Worker.no_thread = true
is_joinable_now Worker.returned = true
is_joinable_now _ = false

-- The part of `stopClient` after the join, which waits for the worker.
unfoldable pub finish_stop : PilotClient → PilotClient
unfolding is_joinable_now
finish_stop c =
    if c.started && (c.stop_requested && is_joinable_now c.worker)
    then record c { started = false; worker = Worker.no_thread }
    else c

-- The age is capped to an `int`.
unfoldable pub get_snapshot : ℕ → PilotClient → PilotIntegrationSnapshot
get_snapshot now c =
    let age = (now - c.last_success) / 1000000 in
    if c.last_success == 0 then c.snapshot else record c.snapshot {
      last_success_age_ms = pos (if ltb (2 ^ 31 - 1) age then 2 ^ 31 - 1 else age);
    }

-- The worker goes on where it is woken, or where its wait has ended, at this time.
unfoldable pub wake_worker : Environment → ℕ → Worker → PilotClient → PilotClient
unfolding registration_head publication_head session_woken
wake_worker env now Worker.spawned c = registration_head env [] 0 c
wake_worker env now (Worker.retrying session_id retry_count end) c =
    if c.stop_requested || leb end now then registration_head env session_id retry_count c else c
wake_worker env now (Worker.publish_retrying session body retry_count publish_retry_count end) c =
    if c.stop_requested || leb end now
    then publication_head session body retry_count publish_retry_count now c
    else c
wake_worker env now (Worker.waiting session sequence next_heartbeat) c =
    session_woken env session sequence next_heartbeat now c
wake_worker env now _ c = c

unfoldable pub wake : Environment → ℕ → PilotClient → PilotClient
unfolding wake_worker
wake env now c = wake_worker env now c.worker c

-- The transport has a result for the request that the worker waits for. After the disconnection the
-- snapshot is the last thing that `runWorker` sets.
unfoldable pub reply_worker : Environment → PilotHttpResult → ℕ → Worker → PilotClient → PilotClient
unfolding registration_replied publication_replied write_replied finish_worker
reply_worker env result now (Worker.registering session_id retry_count) c =
    registration_replied env session_id retry_count result now c
reply_worker env result now (Worker.publishing session body retry_count publish_retry_count) c =
    publication_replied env session body retry_count publish_retry_count result now c
reply_worker env result now (Worker.writing session sequence) c =
    write_replied env session sequence result now c
reply_worker env result now Worker.disconnecting c = finish_worker [] c
reply_worker env result now _ c = c

unfoldable pub reply : Environment → PilotHttpResult → ℕ → PilotClient → PilotClient
unfolding reply_worker
reply env result now c = reply_worker env result now c.worker c

pub data Event : Type 0 where
  woken : ℕ → Event
  replied : PilotHttpResult → ℕ → Event
  updated : ProviderState → Event
  stop_called stop_joined : Event

unfoldable pub step : Environment → Event → PilotClient → PilotClient
unfolding wake reply update_provider_state request_stop finish_stop
step env (Event.woken now) c = wake env now c
step env (Event.replied result now) c = reply env result now c
step env (Event.updated state) c = update_provider_state state c
step env Event.stop_called c = request_stop c
step env Event.stop_joined c = finish_stop c

-- A run, from the first event on.
unfoldable pub run : Environment → List Event → PilotClient → PilotClient
unfolding step
run env [] c = c
run env (event ∷ events) c = run env events (step env event c)
