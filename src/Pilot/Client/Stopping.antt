-- ===== src/Pilot/Client/Stopping.antt =====
-- `stopClient` of src/pilot/pilot_integration_client.cpp ends: the worker returns from wherever it
-- blocks, so that the join returns.
use nodus_vision.Prelude.{
  bytes, ℕ, ◌≤◌, ◌≡◌, ◌≢◌, ◌<◌, refl, sym, subst, true, false, [], ◌∷◌, Text, is_empty,
  if◌then◌else◌, if_cases, arith,
}
use nodus_vision.Pilot.{PilotHttpResult}
use nodus_vision.Pilot.Client.{Environment, Worker, PilotClient, set_snapshot}
use nodus_vision.Pilot.Client.Run.{
  finish_worker, registration_head, registration_replied, publication_head,
}
use nodus_vision.Pilot.Client.Writes.{publication_replied, session_woken, write_replied}
use nodus_vision.Pilot.Client.Interface.{
  Event, wake, wake_worker, reply, reply_worker, request_stop, is_joinable_now, finish_stop, run,
}

-- How many events a stopping worker still needs.
abbrev rank : Worker → ℕ
rank Worker.no_thread = 0
rank Worker.returned = 0
rank Worker.disconnecting = 1
rank (Worker.registering id n) = 2
rank (Worker.publishing s b n m) = 2
rank (Worker.writing s n) = 2
rank Worker.terminated = 4
rank _ = 3

abbrev Closing : ℕ → PilotClient → Type 0
Closing n c = (c.started ≡ true) × (c.stop_requested ≡ true) × (rank c.worker ≤ n)

finish_worker-Closing :
    (id : Text) (c : PilotClient) (n : ℕ) → Closing n c → Closing 1 (finish_worker id c)
unfolding finish_worker set_snapshot bytes
finish_worker-Closing id c n (started, stopping, r) =
    if_cases (Closing 1) (is_empty id) _ _ (λ _. (started, stopping, omega arith))
      (λ _. (started, stopping, omega arith))

finishes : (id : Text) (c d : PilotClient) → d ≡ finish_worker id c → Closing 3 c → Closing 1 d
finishes id c d e h = subst (Closing 1) (sym e) (finish_worker-Closing id c 3 h)

weaken : (c : PilotClient) → Closing 1 c → Closing 2 c
weaken c (started, stopping, r) = (started, stopping, omega (arith, r))

finishes_early :
    (id : Text) (c d : PilotClient) → d ≡ finish_worker id c → Closing 3 c → Closing 2 d
finishes_early id c d e h = weaken d (finishes id c d e h)

small : (c : PilotClient) (n : ℕ) (w : Worker) → c.worker ≡ w → rank w ≤ n → rank c.worker ≤ n
small c n w e h = subst (λ v. rank v ≤ n) (sym e) h

excludes :
    (c : PilotClient) (w : Worker) (n : ℕ) → c.worker ≡ w → rank c.worker ≤ n → n < rank w → ⊥
excludes c w n e r h = omega (arith, subst (λ v. rank v ≤ n) e r, h)

wake_worker-Closing :
    (env : Environment) (now : ℕ) (w : Worker) (c : PilotClient)
    → c.worker ≡ w
    → Closing 3 c
    → Closing 2 (wake_worker env now w c)
unfolding wake_worker registration_head publication_head session_woken
wake_worker-Closing env now Worker.spawned c e (started, stopping, r) =
    finishes_early [] c (wake_worker env now Worker.spawned c) (rw stopping) (started, stopping, r)
wake_worker-Closing env now (Worker.retrying id n end) c e (started, stopping, r) =
    finishes_early id c (wake_worker env now (Worker.retrying id n end) c) (rw stopping)
      (started, stopping, r)
wake_worker-Closing env now (Worker.publish_retrying s b n m end) c e (started, stopping, r) =
    finishes_early s.session_id c (wake_worker env now (Worker.publish_retrying s b n m end) c)
      (rw stopping) (started, stopping, r)
wake_worker-Closing env now (Worker.waiting s n end) c e (started, stopping, r) =
    finishes_early s.session_id c (wake_worker env now (Worker.waiting s n end) c) (rw stopping)
      (started, stopping, r)
wake_worker-Closing env now Worker.no_thread c e (started, stopping, r) =
    (started, stopping, small c 2 _ e (omega arith))
wake_worker-Closing env now Worker.returned c e (started, stopping, r) =
    (started, stopping, small c 2 _ e (omega arith))
wake_worker-Closing env now Worker.disconnecting c e (started, stopping, r) =
    (started, stopping, small c 2 _ e (omega arith))
wake_worker-Closing env now (Worker.registering id n) c e (started, stopping, r) =
    (started, stopping, small c 2 _ e (omega arith))
wake_worker-Closing env now (Worker.publishing s b n m) c e (started, stopping, r) =
    (started, stopping, small c 2 _ e (omega arith))
wake_worker-Closing env now (Worker.writing s n) c e (started, stopping, r) =
    (started, stopping, small c 2 _ e (omega arith))
wake_worker-Closing env now Worker.terminated c e (started, stopping, r) =
    absurd (excludes c _ 3 e r (omega arith))

reply_worker-Closing :
    (env : Environment) (result : PilotHttpResult) (now : ℕ) (w : Worker) (c : PilotClient)
    → c.worker ≡ w
    → Closing 2 c
    → Closing 1 (reply_worker env result now w c)
unfolding reply_worker registration_replied publication_replied write_replied
reply_worker-Closing env result now (Worker.registering id n) c e (started, stopping, r) =
    finishes id c (reply_worker env result now (Worker.registering id n) c) (rw stopping)
      (started, stopping, omega (arith, r))
reply_worker-Closing env result now (Worker.publishing s b n m) c e (started, stopping, r) =
    finishes s.session_id c (reply_worker env result now (Worker.publishing s b n m) c)
      (rw stopping) (started, stopping, omega (arith, r))
reply_worker-Closing env result now (Worker.writing s n) c e (started, stopping, r) =
    finishes s.session_id c (reply_worker env result now (Worker.writing s n) c) (rw stopping)
      (started, stopping, omega (arith, r))
reply_worker-Closing env result now Worker.disconnecting c e (started, stopping, r) =
    finishes [] c (reply_worker env result now Worker.disconnecting c) refl
      (started, stopping, omega (arith, r))
reply_worker-Closing env result now Worker.no_thread c e (started, stopping, r) =
    (started, stopping, small c 1 _ e (omega arith))
reply_worker-Closing env result now Worker.returned c e (started, stopping, r) =
    (started, stopping, small c 1 _ e (omega arith))
reply_worker-Closing env result now Worker.terminated c e (started, stopping, r) =
    absurd (excludes c _ 2 e r (omega arith))
reply_worker-Closing env result now Worker.spawned c e (started, stopping, r) =
    absurd (excludes c _ 2 e r (omega arith))
reply_worker-Closing env result now (Worker.retrying id n end) c e (started, stopping, r) =
    absurd (excludes c _ 2 e r (omega arith))
reply_worker-Closing env result now (Worker.publish_retrying s b n m end) c e
      (started, stopping, r) =
    absurd (excludes c _ 2 e r (omega arith))
reply_worker-Closing env result now (Worker.waiting s n end) c e (started, stopping, r) =
    absurd (excludes c _ 2 e r (omega arith))

-- The result of the disconnection is the last that the worker waits for.
reply_worker-ended :
    (env : Environment) (result : PilotHttpResult) (now : ℕ) (w : Worker) (c : PilotClient)
    → c.worker ≡ w
    → Closing 1 c
    → Closing 0 (reply_worker env result now w c)
unfolding reply_worker finish_worker set_snapshot
reply_worker-ended env result now Worker.no_thread c e (started, stopping, r) =
    (started, stopping, small c 0 _ e (omega arith))
reply_worker-ended env result now Worker.returned c e (started, stopping, r) =
    (started, stopping, small c 0 _ e (omega arith))
reply_worker-ended env result now Worker.disconnecting c e (started, stopping, r) =
    (started, stopping, omega arith)
reply_worker-ended env result now Worker.terminated c e (started, stopping, r) =
    absurd (excludes c _ 1 e r (omega arith))
reply_worker-ended env result now Worker.spawned c e (started, stopping, r) =
    absurd (excludes c _ 1 e r (omega arith))
reply_worker-ended env result now (Worker.retrying id n end) c e (started, stopping, r) =
    absurd (excludes c _ 1 e r (omega arith))
reply_worker-ended env result now (Worker.publish_retrying s b n m end) c e (started, stopping, r) =
    absurd (excludes c _ 1 e r (omega arith))
reply_worker-ended env result now (Worker.waiting s n end) c e (started, stopping, r) =
    absurd (excludes c _ 1 e r (omega arith))
reply_worker-ended env result now (Worker.registering id n) c e (started, stopping, r) =
    absurd (excludes c _ 1 e r (omega arith))
reply_worker-ended env result now (Worker.publishing s b n m) c e (started, stopping, r) =
    absurd (excludes c _ 1 e r (omega arith))
reply_worker-ended env result now (Worker.writing s n) c e (started, stopping, r) =
    absurd (excludes c _ 1 e r (omega arith))

finish_stop-ended :
    (c : PilotClient) (w : Worker)
    → c.worker ≡ w
    → Closing 0 c
    → ((finish_stop c).started ≡ false) × ((finish_stop c).worker ≡ Worker.no_thread)
unfolding finish_stop is_joinable_now
finish_stop-ended c Worker.no_thread e (started, stopping, r) =
    (rw (started, stopping, e), rw (started, stopping, e))
finish_stop-ended c Worker.returned e (started, stopping, r) =
    (rw (started, stopping, e), rw (started, stopping, e))
finish_stop-ended c Worker.disconnecting e (started, stopping, r) =
    absurd (excludes c _ 0 e r (omega arith))
finish_stop-ended c Worker.terminated e (started, stopping, r) =
    absurd (excludes c _ 0 e r (omega arith))
finish_stop-ended c Worker.spawned e (started, stopping, r) =
    absurd (excludes c _ 0 e r (omega arith))
finish_stop-ended c (Worker.retrying id n end) e (started, stopping, r) =
    absurd (excludes c _ 0 e r (omega arith))
finish_stop-ended c (Worker.publish_retrying s b n m end) e (started, stopping, r) =
    absurd (excludes c _ 0 e r (omega arith))
finish_stop-ended c (Worker.waiting s n end) e (started, stopping, r) =
    absurd (excludes c _ 0 e r (omega arith))
finish_stop-ended c (Worker.registering id n) e (started, stopping, r) =
    absurd (excludes c _ 0 e r (omega arith))
finish_stop-ended c (Worker.publishing s b n m) e (started, stopping, r) =
    absurd (excludes c _ 0 e r (omega arith))
finish_stop-ended c (Worker.writing s n) e (started, stopping, r) =
    absurd (excludes c _ 0 e r (omega arith))

live_rank : (w : Worker) → w ≢ Worker.terminated → rank w ≤ 3
live_rank Worker.no_thread h = omega arith
live_rank Worker.returned h = omega arith
live_rank Worker.disconnecting h = omega arith
live_rank Worker.spawned h = omega arith
live_rank (Worker.retrying id n end) h = omega arith
live_rank (Worker.publish_retrying s b n m end) h = omega arith
live_rank (Worker.waiting s n end) h = omega arith
live_rank (Worker.registering id n) h = omega arith
live_rank (Worker.publishing s b n m) h = omega arith
live_rank (Worker.writing s n) h = omega arith
live_rank Worker.terminated h = absurd (h refl)

request_stop-Closing :
    (c : PilotClient) → c.started ≡ true → c.worker ≢ Worker.terminated → Closing 3 (request_stop c)
unfolding request_stop
request_stop-Closing c started live =
    subst (λ b. Closing 3 (if b then record c { stop_requested = true } else c)) (sym started)
      (started, refl, live_rank c.worker live)

-- `stopClient` ends: from every state of a started client whose worker has not been terminated, once
-- the flag is set, one wake-up and two results of the transport, whatever they are, make the worker
-- return, and the join leaves a client that is not started and has no thread.
pub run-stop_called :
    (env : Environment) (c : PilotClient) (now later end : ℕ) (first second : PilotHttpResult)
    → c.started ≡ true
    → c.worker ≢ Worker.terminated
    → ((run env
          (Event.stop_called
            ∷ Event.woken now
            ∷ Event.replied first later
            ∷ Event.replied second end
            ∷ Event.stop_joined
            ∷ [])
          c).started
        ≡ false)
      × ((run env
            (Event.stop_called
              ∷ Event.woken now
              ∷ Event.replied first later
              ∷ Event.replied second end
              ∷ Event.stop_joined
              ∷ [])
            c).worker
          ≡ Worker.no_thread)
unfolding run wake reply
run-stop_called env c now later end first second started live =
    let a : Closing 3 (request_stop c) = request_stop-Closing c started live in
    let b : Closing 2 (wake env now (request_stop c)) =
      wake_worker-Closing env now (request_stop c).worker (request_stop c) refl a in
    let d : Closing 1 (reply env first later (wake env now (request_stop c))) =
      reply_worker-Closing env first later _ (wake env now (request_stop c)) refl b in
    finish_stop-ended _ _ refl (
      reply_worker-ended env second end _ (reply env first later (wake env now (request_stop c)))
        refl d)
