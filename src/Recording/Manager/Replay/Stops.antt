-- ===== src/Recording/Manager/Replay/Stops.antt =====
-- A stop request that is sent twice.
use nodus_vision.Prelude.{
  ◌≡◌, refl, sym, Bool, true, false, not, ◌||◌, Text, text_eq_iff, arith, if◌then◌else◌,
}
use nodus_vision.Prelude.Result.{Exception}
use nodus_vision.Recording.Contracts.{
  RecordingStartRequest, is_recording_id_valid, is_recording_request_id_valid,
}
use nodus_vision.Recording.Manager.State.{
  Parts, Ambient, RecordingStopResult, Manager, Outcome, returned, thrown, blocked, undefined,
}
use nodus_vision.Recording.Manager.Stop.{canonical_stop, replay_stop, finalize_or_replay}
use nodus_vision.Recording.Manager.Replay.Accepted.{is_open, Takes, Stops, finalize_or_replay-Stops}

not_thrown :
    {P : Parts} (bad : Bool) (e : Exception) (m : Manager P)
    (x : Outcome RecordingStopResult × Manager P)
    → (if bad then (thrown e, m) else x).0 ≡ returned RecordingStopResult.accepted
    → bad ≡ false
not_thrown true e m x h = cc h
not_thrown false e m x h = refl

open_answer :
    {P : Parts} (m : Manager P) (canonical : Text)
    → m.stop_canonical ≡ canonical
    → is_open m.state ≡ true
    → replay_stop canonical m ≡ (returned RecordingStopResult.accepted, m)
unfolding replay_stop
open_answer m canonical h o = ground (arith, (text_eq_iff canonical m.stop_canonical).1 (sym h))

accepted_Takes :
    {P : Parts} (request : RecordingStartRequest) (canonical : Text)
    (r : Outcome RecordingStopResult × Manager P)
    → Stops request canonical r
    → r.0 ≡ returned RecordingStopResult.accepted
    → Takes request canonical r.1
accepted_Takes request canonical (returned RecordingStopResult.accepted, m) h e = h
accepted_Takes request canonical (returned RecordingStopResult.replayed, m) h e = cc e
accepted_Takes request canonical (thrown x, m) h e = cc e
accepted_Takes request canonical (blocked, m) h e = cc e
accepted_Takes request canonical (undefined, m) h e = cc e

repeat_stop :
    {P : Parts} (request : RecordingStartRequest) (env : Ambient) (m : Manager P)
    → (not (is_recording_request_id_valid request.request_id)
        || not (is_recording_id_valid request.recording_id))
      ≡ false
    → Takes request (canonical_stop request) m
    → finalize_or_replay request env m ≡ (returned RecordingStopResult.accepted, m)
unfolding finalize_or_replay
repeat_stop request env m safe (id, req, can, o) =
    rw
      (
        safe,
        (text_eq_iff request.recording_id m.recording_id).1 (sym id),
        (text_eq_iff request.request_id m.stop_request_id).1 (sym req),
      )
      (open_answer m (canonical_stop request) can o)

-- A stop request that was accepted, sent once more before the manager has changed, is accepted again
-- and changes nothing.
pub finalize_or_replay-again :
    {P : Parts} (request : RecordingStartRequest) (env again : Ambient) (m : Manager P)
    → (finalize_or_replay request env m).0 ≡ returned RecordingStopResult.accepted
    → let n = (finalize_or_replay request env m).1 in
      finalize_or_replay request again n ≡ (returned RecordingStopResult.accepted, n)
finalize_or_replay-again request env again m h =
    repeat_stop request again (finalize_or_replay request env m).1
      (unfold finalize_or_replay in not_thrown _ _ m _ h)
      (accepted_Takes request (canonical_stop request) (finalize_or_replay request env m)
        (finalize_or_replay-Stops request env m) h)
