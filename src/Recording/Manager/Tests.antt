-- ===== src/Recording/Manager/Tests.antt =====
-- The manager on concrete parts.
use nodus_vision.Prelude.{
  text_eq, ◌&&◌, not, inc_u64, if◌then◌else◌, ℕ, ◌+◌, ◌≡◌, ◌<◌, refl, true, false, Bool, none, some,
  [], ◌∷◌, ◌++◌, bytes, List, Text, length, arith,
}
use nodus_vision.Prelude.Result.{ok}
use nodus_vision.Camera.Samples.{frame_of}
use nodus_vision.Recording.Contracts.{
  RecordingState, serialize_recording_start_request, is_recording_request_id_valid,
  is_recording_id_valid,
}
use nodus_vision.Recording.Queue.{pop, push, is_full}
use nodus_vision.Recording.Queue.Fifo.{contents}
use nodus_vision.Recording.Sidecar.{open_sidecar, append, violates_order, finalize_sidecar}
use nodus_vision.Recording.Manager.Submit.{try_submit_frame}
use nodus_vision.Recording.Manager.Worker.{worker_step}
use nodus_vision.Recording.Manager.State.{
  Worker, Manager, returned, RecordingStartResult, RecordingStopResult,
}
use nodus_vision.Recording.Manager.Setup.{is_config_invalid, initial, construct}
use nodus_vision.Recording.Manager.Start.{start_or_replay}
use nodus_vision.Recording.Manager.Stop.{is_recording, begin_finalization, finalize_or_replay}
use nodus_vision.Recording.Manager.Invariant.{Inv, HasLines}
use nodus_vision.Recording.Manager.Invariant.Starting.{start_or_replay-Inv}
use nodus_vision.Recording.Manager.Outcomes.{Post}
use nodus_vision.Recording.Manager.Replay.{start_or_replay-again}
use nodus_vision.Recording.Manager.Replay.Stops.{finalize_or_replay-again}
use nodus_vision.Recording.Manager.Submit.Admission.{is_admitted, try_submit_frame_lem}
use nodus_vision.Recording.Manager.Lifecycle.{
  Event, starts, offers, stops, works, step, run, TakeStops, construct-Inv, run-reaches-Inv,
  run-closing_balance,
}
use nodus_vision.Recording.Manager.Samples.{parts, config, env, start_request, stop_request}

-- Two frames are recorded, a third finds the queue full, and the recording is stopped.
abbrev history : List Event
history =
    starts start_request env
    ∷ offers (some (frame_of 1 1)) true
    ∷ offers (some (frame_of 1 2)) true
    ∷ offers (some (frame_of 1 3)) true
    ∷ works env
    ∷ works env
    ∷ works env
    ∷ stops stop_request env
    ∷ works env
    ∷ works env
    ∷ works env
    ∷ works env
    ∷ works env
    ∷ []

abbrev made : Manager (parts (ok tt))
unfolding initial
made = initial config 0

made_lem : construct (parts (ok tt)) config ≡ ok made
unfolding construct is_config_invalid initial bytes nodus_vision.Prelude.text_eq
made_lem = refl

-- The whole recording ends finalized, with two lines and one drop.
finished :
    let n = run made history in
    (n.state ≡ RecordingState.finalized)
    × (n.submitted_frame_count ≡ 2)
    × (n.recording_drop_count ≡ 1)
    × (n.disk ≡ 4)
unfolding run step start_or_replay made serialize_recording_start_request
    is_recording_request_id_valid is_recording_id_valid bytes nodus_vision.Prelude.text_eq
    open_sidecar initial try_submit_frame worker_step append pop push finalize_or_replay
    finalize_sidecar violates_order nodus_vision.Recording.Manager.Setup.is_active
    nodus_vision.Recording.Queue.cleared nodus_vision.Recording.Manager.Stop.begin_finalization
    nodus_vision.Camera.Order.is_strictly_after
finished = (refl, refl, refl, refl)

-- A frame that waits when the recording is stopped is written before the worker leaves its loop.
abbrev stopping : List Event
stopping =
    starts start_request env
    ∷ offers (some (frame_of 1 1)) true
    ∷ works env
    ∷ stops stop_request env
    ∷ works env
    ∷ works env
    ∷ works env
    ∷ []

takes_stops : TakeStops made stopping
unfolding run step start_or_replay made serialize_recording_start_request
    is_recording_request_id_valid is_recording_id_valid bytes nodus_vision.Prelude.text_eq
    open_sidecar initial try_submit_frame worker_step append pop push finalize_or_replay
    finalize_sidecar violates_order nodus_vision.Recording.Manager.Setup.is_active
    nodus_vision.Recording.Queue.cleared nodus_vision.Recording.Manager.Stop.begin_finalization
    nodus_vision.Camera.Order.is_strictly_after
takes_stops = (
  tt,
  (
    tt,
    (
      (λ _ _. (omega arith, λ _. refl)),
      (
        (λ _. (omega arith, λ _. refl)),
        (
          (λ _ _. (omega arith, λ _. refl)),
          ((λ _ _. (omega arith, λ _. refl)), ((λ _ _. (omega arith, λ _. refl)), tt)),
        ),
      ),
    ),
  ),
)

run-reaches-Inv_example : Inv (run made stopping)
run-reaches-Inv_example = run-reaches-Inv config made stopping made_lem takes_stops

left_loop : (run made stopping).worker ≡ Worker.closing
unfolding run step start_or_replay made serialize_recording_start_request
    is_recording_request_id_valid is_recording_id_valid bytes nodus_vision.Prelude.text_eq
    open_sidecar initial try_submit_frame worker_step append pop push finalize_or_replay
    finalize_sidecar violates_order nodus_vision.Recording.Manager.Setup.is_active
    nodus_vision.Recording.Queue.cleared nodus_vision.Recording.Manager.Stop.begin_finalization
    nodus_vision.Camera.Order.is_strictly_after
left_loop = refl

run-closing_balance_example :
    (contents (run made stopping).queue ≡ [])
    × ((run made stopping).admitted_frame_count ≡ (run made stopping).submitted_frame_count)
    × HasLines (run made stopping).sidecar (run made stopping).submitted_frame_count
run-closing_balance_example =
    run-closing_balance config made stopping made_lem takes_stops left_loop

made-Inv : Inv made
made-Inv = construct-Inv (parts (ok tt)) config made made_lem

start_or_replay-Inv_example : Post (λ _. Inv) Inv (start_or_replay start_request env made)
start_or_replay-Inv_example = start_or_replay-Inv start_request env made made-Inv

has_started : (start_or_replay start_request env made).0 ≡ returned RecordingStartResult.started
unfolding run step start_or_replay made serialize_recording_start_request
    is_recording_request_id_valid is_recording_id_valid bytes nodus_vision.Prelude.text_eq
    open_sidecar initial try_submit_frame worker_step append pop push finalize_or_replay
    finalize_sidecar violates_order nodus_vision.Recording.Manager.Setup.is_active
    nodus_vision.Recording.Queue.cleared nodus_vision.Recording.Manager.Stop.begin_finalization
    nodus_vision.Camera.Order.is_strictly_after
has_started = refl

abbrev recording : Manager (parts (ok tt))
recording = (start_or_replay start_request env made).1

start_or_replay-again_example :
    start_or_replay start_request env recording
    ≡ (returned RecordingStartResult.replayed, recording)
start_or_replay-again_example = start_or_replay-again start_request env env made has_started

is_stopped :
    (finalize_or_replay stop_request env recording).0 ≡ returned RecordingStopResult.accepted
unfolding run step start_or_replay made serialize_recording_start_request
    is_recording_request_id_valid is_recording_id_valid bytes nodus_vision.Prelude.text_eq
    open_sidecar initial try_submit_frame worker_step append pop push finalize_or_replay
    finalize_sidecar violates_order nodus_vision.Recording.Manager.Setup.is_active
    nodus_vision.Recording.Queue.cleared nodus_vision.Recording.Manager.Stop.begin_finalization
    nodus_vision.Camera.Order.is_strictly_after
is_stopped = refl

finalize_or_replay-again_example :
    finalize_or_replay stop_request env (finalize_or_replay stop_request env recording).1
    ≡ (returned RecordingStopResult.accepted, (finalize_or_replay stop_request env recording).1)
finalize_or_replay-again_example =
    finalize_or_replay-again stop_request env env recording is_stopped

try_submit_frame_lem_example :
    let (accepted, n) = try_submit_frame (some (frame_of 1 1)) true made in
    (accepted ≡ is_admitted true made)
    × (contents n.queue ≡ (
        if accepted
        then contents made.queue ++ (some (frame_of 1 1) ∷ [])
        else contents made.queue))
    × (n.admitted_frame_count
        ≡ (if accepted then inc_u64 made.admitted_frame_count else made.admitted_frame_count))
    × (n.recording_drop_count ≡ (
        if true && (is_recording made.state && is_full made.queue)
        then inc_u64 made.recording_drop_count
        else made.recording_drop_count))
    × (n.contention_drop_count ≡ (
        if not true && made.admitting
        then inc_u64 made.contention_drop_count
        else made.contention_drop_count))
try_submit_frame_lem_example = try_submit_frame_lem (frame_of 1 1) true made made-Inv.ring
