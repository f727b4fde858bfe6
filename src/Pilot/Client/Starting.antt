-- ===== src/Pilot/Client/Starting.antt =====
-- Every step of src/pilot/pilot_integration_client.cpp keeps the worker and the snapshot in agreement,
-- and a start makes them agree.
use nodus_vision.Prelude.{
  ℕ, ◌≡◌, ◌≢◌, refl, subst, sym, Bool, true, false, ◌||◌, ◌&&◌, not, Option, none, List, [], ◌∷◌,
  Text, leb, length, if_cases,
}
use nodus_vision.Prelude.Result.{Result, ok, err, Ensures}
use nodus_vision.Camera.Contracts.{ProviderState}
use nodus_vision.Config.Valid.{IsVisionConfig}
use nodus_vision.Pilot.{PilotHttpResult, VisionEndpointCatalog}
use nodus_vision.Pilot.Identifiers.{is_instance_id_valid, generate_instance_id}
use nodus_vision.Pilot.Identifiers.Generated.{generate_instance_id-lem}
use nodus_vision.Pilot.Catalog.{build_catalog}
use nodus_vision.Pilot.Client.{Environment, Session, Worker, PilotClient}
use nodus_vision.Pilot.Client.Writes.{session_woken, is_some}
use nodus_vision.Pilot.Client.Interface.{
  Event, wake, wake_worker, reply, reply_worker, update_provider_state, request_stop,
  is_joinable_now, finish_stop, step, run, reset_client, empty_snapshot, launch, identified,
  cataloged, start_client, started_client,
}
use nodus_vision.Pilot.Client.Consistent.{
  is_online, Online, IsSession, Matches, Consistent, Known, finish_worker-Consistent,
  registration_head-Consistent, registration_replied-Consistent, publication_head-Consistent,
}
use nodus_vision.Pilot.Client.Agreeing.{
  publication_replied-Consistent, write_request-Consistent, write_replied-Consistent,
}

last : (a b d : Bool) → a && (b && d) ≡ true → d ≡ true
last true true d h = h
last true false d h = cc
last false b d h = cc

module _ (env : Environment) where
  -- Where the worker stays where it is.
  kept :
      (w : Worker) (c : PilotClient)
      → c.worker ≡ w
      → Matches env w c.config c.catalog c.instance_id c.snapshot
      → Consistent env c
  kept w c e h = subst (λ v. Matches env v c.config c.catalog c.instance_id c.snapshot) (sym e) h

  session_woken-Consistent :
      (s : Session) (n end now : ℕ) (c : PilotClient)
      → c.worker ≡ Worker.waiting s n end
      → Known env c
      → IsSession s
      → Online s c.catalog c.snapshot
      → Consistent env (session_woken env s n end now c)
  unfolding session_woken Matches
  session_woken-Consistent s n end now c e known session online =
      if_cases (Consistent env) c.stop_requested _ _
        (λ _. finish_worker-Consistent env s.session_id c)
        (λ _.
          if_cases (Consistent env) (is_some c.pending_state || leb end now) _ _
            (λ _.
              write_request-Consistent env s n c.pending_state now
                (record c { pending_state = none }) known session online)
            (λ _. kept (Worker.waiting s n end) c e (known, session, online)))

  wake_worker-Consistent :
      (now : ℕ) (w : Worker) (c : PilotClient)
      → c.worker ≡ w
      → Matches env w c.config c.catalog c.instance_id c.snapshot
      → Consistent env (wake_worker env now w c)
  unfolding wake_worker Matches
  wake_worker-Consistent now Worker.spawned c e (known, offline) =
      registration_head-Consistent env [] 0 c known
  wake_worker-Consistent now (Worker.retrying id n end) c e (known, offline) =
      if_cases (Consistent env) (c.stop_requested || leb end now) _ _
        (λ _. registration_head-Consistent env id n c known)
        (λ _. kept (Worker.retrying id n end) c e (known, offline))
  wake_worker-Consistent now (Worker.publish_retrying s body n m end) c e
        (known, session, offline) =
      if_cases (Consistent env) (c.stop_requested || leb end now) _ _
        (λ _. publication_head-Consistent env s body n m now c known session offline)
        (λ _. kept (Worker.publish_retrying s body n m end) c e (known, session, offline))
  wake_worker-Consistent now (Worker.waiting s n end) c e (known, session, online) =
      session_woken-Consistent s n end now c e known session online
  wake_worker-Consistent now Worker.no_thread c e h = kept _ c e h
  wake_worker-Consistent now Worker.disconnecting c e h = kept _ c e h
  wake_worker-Consistent now Worker.returned c e h = kept _ c e h
  wake_worker-Consistent now Worker.terminated c e h = kept _ c e h
  wake_worker-Consistent now (Worker.registering id n) c e h = kept _ c e h
  wake_worker-Consistent now (Worker.publishing s body n m) c e h = kept _ c e h
  wake_worker-Consistent now (Worker.writing s n) c e h = kept _ c e h

  reply_worker-Consistent :
      (result : PilotHttpResult) (now : ℕ) (w : Worker) (c : PilotClient)
      → c.worker ≡ w
      → Matches env w c.config c.catalog c.instance_id c.snapshot
      → Consistent env (reply_worker env result now w c)
  unfolding reply_worker Matches
  reply_worker-Consistent result now (Worker.registering id n) c e (known, offline) =
      registration_replied-Consistent env id n result now c known offline
  reply_worker-Consistent result now (Worker.publishing s body n m) c e (known, session, offline) =
      publication_replied-Consistent env s body n m result now c known session offline
  reply_worker-Consistent result now (Worker.writing s n) c e (known, session, online) =
      write_replied-Consistent env s n result now c known session online
  reply_worker-Consistent result now Worker.disconnecting c e h = finish_worker-Consistent env [] c
  reply_worker-Consistent result now Worker.no_thread c e h = kept _ c e h
  reply_worker-Consistent result now Worker.spawned c e h = kept _ c e h
  reply_worker-Consistent result now Worker.returned c e h = kept _ c e h
  reply_worker-Consistent result now Worker.terminated c e h = kept _ c e h
  reply_worker-Consistent result now (Worker.retrying id n end) c e h = kept _ c e h
  reply_worker-Consistent result now (Worker.publish_retrying s body n m end) c e h = kept _ c e h
  reply_worker-Consistent result now (Worker.waiting s n end) c e h = kept _ c e h

  joined-Consistent :
      (w : Worker) (c : PilotClient)
      → Matches env w c.config c.catalog c.instance_id c.snapshot
      → is_joinable_now w ≡ true
      → is_online c.snapshot.state ≡ false
  unfolding Matches is_joinable_now
  joined-Consistent Worker.no_thread c h j = h
  joined-Consistent Worker.returned c h j = h
  joined-Consistent Worker.spawned c h j = cc
  joined-Consistent Worker.disconnecting c h j = cc
  joined-Consistent Worker.terminated c h j = cc
  joined-Consistent (Worker.registering id n) c h j = cc
  joined-Consistent (Worker.retrying id n end) c h j = cc
  joined-Consistent (Worker.publishing s body n m) c h j = cc
  joined-Consistent (Worker.publish_retrying s body n m end) c h j = cc
  joined-Consistent (Worker.waiting s n end) c h j = cc
  joined-Consistent (Worker.writing s n) c h j = cc

  step-Consistent :
      (event : Event) (c : PilotClient) → Consistent env c → Consistent env (step env event c)
  unfolding step wake reply update_provider_state request_stop finish_stop Matches
  step-Consistent (Event.woken now) c h = wake_worker-Consistent now c.worker c refl h
  step-Consistent (Event.replied result now) c h =
      reply_worker-Consistent result now c.worker c refl h
  step-Consistent (Event.updated state) c h =
      if_cases (Consistent env) (not c.started || not c.config.pilot.enabled) _ _ (λ _. h) (λ _. h)
  step-Consistent Event.stop_called c h = if_cases (Consistent env) c.started _ _ (λ _. h) (λ _. h)
  step-Consistent Event.stop_joined c h =
      if_cases (Consistent env) (c.started && (c.stop_requested && is_joinable_now c.worker)) _ _
        (λ j. joined-Consistent c.worker c h (last _ _ _ j)) (λ _. h)

  -- Every run of calls, wake-ups and results, in any order and with any content, keeps the worker and
  -- the snapshot in agreement.
  pub run-Consistent :
      (events : List Event) (c : PilotClient) → Consistent env c → Consistent env (run env events c)
  unfolding run
  run-Consistent [] c h = h
  run-Consistent (event ∷ events) c h =
      run-Consistent events (step env event c) (step-Consistent event c h)

true-false : (b : Bool) → b ≡ true → b ≡ false → ⊥
true-false true h k = cc
true-false false h k = cc

launch-Consistent :
    {A : Type 0} (env : Environment) (r : Result A) (thread_start : Result (Unit {0}))
    (c : PilotClient)
    → c.worker ≡ Worker.no_thread
    → Known env c
    → is_online c.snapshot.state ≡ false
    → Consistent env ((launch r thread_start c).1)
unfolding launch Matches
launch-Consistent env (ok transport) (ok _) c e known offline = (known, offline)
launch-Consistent env (ok transport) (err exception) c e known offline =
    kept env Worker.no_thread c e offline
launch-Consistent env (err exception) thread_start c e known offline =
    kept env Worker.no_thread c e offline

identified-Consistent :
    (env : Environment) (r : Result Text) (thread_start : Result (Unit {0})) (now : ℕ)
    (c : PilotClient)
    → c.worker ≡ Worker.no_thread
    → IsVisionConfig c.config
    → build_catalog c.config env.arithmetic ≡ ok c.catalog
    → Ensures (λ id. is_instance_id_valid id ≡ true) r
    → is_online c.snapshot.state ≡ false
    → Consistent env ((identified r thread_start now c).1)
unfolding identified Matches
identified-Consistent env (ok id) thread_start now c e valid catalog instance offline =
    launch-Consistent env _ thread_start
      (record c { instance_id = id; started_at_ns = now; stop_requested = false }) e
      (valid, catalog, instance) offline
identified-Consistent env (err exception) thread_start now c e valid catalog instance offline =
    kept env Worker.no_thread c e offline

cataloged-Consistent :
    (env : Environment) (catalog : Result VisionEndpointCatalog) (r : Result Text)
    (thread_start : Result (Unit {0})) (now : ℕ) (c : PilotClient)
    → build_catalog c.config env.arithmetic ≡ catalog
    → c.worker ≡ Worker.no_thread
    → IsVisionConfig c.config
    → Ensures (λ id. is_instance_id_valid id ≡ true) r
    → is_online c.snapshot.state ≡ false
    → Consistent env ((cataloged catalog r thread_start now c).1)
unfolding cataloged Matches
cataloged-Consistent env (ok catalog) r thread_start now c built e valid instance offline =
    identified-Consistent env r thread_start now (record c { catalog = catalog }) e valid built
      instance offline
cataloged-Consistent env (err exception) r thread_start now c built e valid instance offline =
    kept env Worker.no_thread c e offline

start_client-Consistent :
    (env : Environment) (state : ProviderState) (generator : Option Text) (random : List ℕ)
    (now : ℕ) (c : PilotClient)
    → c.worker ≡ Worker.no_thread
    → c.started ≡ false
    → IsVisionConfig c.config
    → length random ≡ 16
    → Consistent env (started_client env state generator random now c)
unfolding start_client reset_client empty_snapshot Matches is_online
start_client-Consistent env state generator random now c e stopped valid sixteen =
    let Q : (Result (Unit {0}) × PilotClient) → Type 0 = λ r. Consistent env (r.1) in
    if_cases Q c.started _ _ (λ started. absurd (true-false c.started started stopped))
      (λ _.
        if_cases Q (not c.config.pilot.enabled) _ _
          (λ _. kept env Worker.no_thread (reset_client state c) e refl)
          (λ _.
            cataloged-Consistent env (build_catalog c.config env.arithmetic)
              (generate_instance_id generator random) env.thread_start now (reset_client state c)
              refl e valid (generate_instance_id-lem generator random sixteen) refl))

not_terminated :
    (env : Environment) (c : PilotClient) → Consistent env c → c.worker ≢ Worker.terminated
unfolding Matches
not_terminated env c h e =
    subst (λ v. Matches env v c.config c.catalog c.instance_id c.snapshot) e h

-- With a configuration that the parser accepted, no exception of the request's metadata, of its
-- serialization or of the transport's test of its target leaves the worker thread: after any start of
-- a client, and any run of calls, wake-ups and results of the transport, whatever they hold, the
-- worker has not been terminated.
pub run-not_terminated :
    (env : Environment) (state : ProviderState) (generator : Option Text) (random : List ℕ)
    (now : ℕ) (c : PilotClient) (events : List Event)
    → c.worker ≡ Worker.no_thread
    → c.started ≡ false
    → IsVisionConfig c.config
    → length random ≡ 16
    → (run env events (started_client env state generator random now c)).worker ≢ Worker.terminated
run-not_terminated env state generator random now c events e stopped valid sixteen =
    not_terminated env (run env events (started_client env state generator random now c)) (
      run-Consistent env events (started_client env state generator random now c)
        (start_client-Consistent env state generator random now c e stopped valid sixteen))

-- What a worker in a session has.
abbrev pub InSession : PilotClient → Worker → Type 0
InSession c (Worker.waiting s n end) = Online s c.catalog c.snapshot
InSession c (Worker.writing s n) = Online s c.catalog c.snapshot
InSession c _ = ⊥

online_worker :
    (env : Environment) (w : Worker) (c : PilotClient)
    → Matches env w c.config c.catalog c.instance_id c.snapshot
    → is_online c.snapshot.state ≡ true
    → InSession c w
unfolding Matches
online_worker env (Worker.waiting s n end) c (known, session, h) online = h
online_worker env (Worker.writing s n) c (known, session, h) online = h
online_worker env Worker.no_thread c h online = absurd (true-false _ online h)
online_worker env Worker.returned c h online = absurd (true-false _ online h)
online_worker env Worker.disconnecting c h online = absurd (true-false _ online h)
online_worker env Worker.spawned c (known, h) online = absurd (true-false _ online h)
online_worker env (Worker.registering id n) c (known, h) online = absurd (true-false _ online h)
online_worker env (Worker.retrying id n end) c (known, h) online = absurd (true-false _ online h)
online_worker env (Worker.publishing s body n m) c (known, session, h) online =
    absurd (true-false _ online h)
online_worker env (Worker.publish_retrying s body n m end) c (known, session, h) online =
    absurd (true-false _ online h)
online_worker env Worker.terminated c h online = absurd h

-- The snapshot says that the client is online only while the worker is in a session: it waits for
-- the next heartbeat or for the result of a write, the server and the number of descriptors in the
-- snapshot are those that were published, and the catalog has a generation.
pub run-online :
    (env : Environment) (state : ProviderState) (generator : Option Text) (random : List ℕ)
    (now : ℕ) (c : PilotClient) (events : List Event)
    → c.worker ≡ Worker.no_thread
    → c.started ≡ false
    → IsVisionConfig c.config
    → length random ≡ 16
    → is_online (run env events (started_client env state generator random now c)).snapshot.state
      ≡ true
    → InSession
        (run env events (started_client env state generator random now c))
        (run env events (started_client env state generator random now c)).worker
run-online env state generator random now c events e stopped valid sixteen online =
    let d : PilotClient = run env events (started_client env state generator random now c) in
    online_worker env d.worker d
      (run-Consistent env events (started_client env state generator random now c)
        (start_client-Consistent env state generator random now c e stopped valid sixteen))
      online
