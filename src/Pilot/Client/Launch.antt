-- ===== src/Pilot/Client/Launch.antt =====
-- `startClient` of src/pilot/pilot_integration_client.cpp on a configuration that was accepted.
use nodus_vision.Prelude.{
  ℕ, ◌≡◌, refl, Bool, true, false, ◌||◌, not, Option, List, Text, if_cases, arith,
}
use nodus_vision.Prelude.Int.{ℤ, pos, leb_ℤ}
use nodus_vision.Prelude.Result.{Result, ok, err, is_ok, ◌>>=◌, ◌>>◌, not_thrown}
use nodus_vision.Camera.Contracts.{ProviderState}
use nodus_vision.Config.{PilotConfig}
use nodus_vision.Config.Fields.Accepted.{Within}
use nodus_vision.Config.Accepted.{IsPilotConfig}
use nodus_vision.Config.Valid.{IsVisionConfig}
use nodus_vision.Pilot.Identifiers.{generate_instance_id}
use nodus_vision.Pilot.Transport.{parse_base_url, make_transport}
use nodus_vision.Pilot.Transport.BaseUrl.{parse_base_url-is_ok}
use nodus_vision.Geometry.Mounted.{IsRigid}
use nodus_vision.Pilot.{VisionEndpointCatalog}
use nodus_vision.Pilot.Catalog.{build_catalog}
use nodus_vision.Pilot.Catalog.Published.{build_catalog-is_ok}
use nodus_vision.Pilot.Client.{Environment, PilotClient}
use nodus_vision.Pilot.Client.Interface.{
  start_client, launch, identified, cataloged, min_ℤ, reset_client,
}

positive : (z maximum : ℤ) → Within (pos 1000) maximum z → leb_ℤ z (pos 0) ≡ false
positive z maximum h = ground arith

at_least_one : (z maximum : ℤ) → Within (pos 1) maximum z → leb_ℤ z (pos 0) ≡ false
at_least_one z maximum h = ground arith

smaller_positive :
    (a b m : ℤ) → Within (pos 1000) m a → Within (pos 1000) m b → leb_ℤ (min_ℤ a b) (pos 0) ≡ false
smaller_positive a b m h k = ground arith

bind_seq_ok :
    {A B : Type 0} (r : Result A) (check : Result (Unit {0})) (f : A → B)
    → is_ok r ≡ true
    → check ≡ ok tt
    → is_ok (r >>= (λ a. check >> ok (f a))) ≡ true
bind_seq_ok (ok a) check f h e = rw e
bind_seq_ok (err exception) check f h e = h

positive_bounds : (a b d : Bool) → a ≡ false → b ≡ false → d ≡ false → a || (b || d) ≡ false
positive_bounds a b d h k l = rw (h, k, l)

make_transport-is_ok :
    (url : Text) (a b d : ℤ)
    → is_ok (parse_base_url url) ≡ true
    → leb_ℤ a (pos 0) || (leb_ℤ b (pos 0) || leb_ℤ d (pos 0)) ≡ false
    → is_ok (make_transport url a b d) ≡ true
unfolding make_transport
make_transport-is_ok url a b d h k = bind_seq_ok (parse_base_url url) _ _ h (not_thrown _ _ k)

pilot-make_transport :
    (p : PilotConfig)
    → IsPilotConfig p
    → is_ok (
        make_transport p.base_url p.connect_timeout_ms
          (min_ℤ p.request_timeout_ms p.shutdown_timeout_ms)
          p.max_response_bytes)
      ≡ true
pilot-make_transport p (url, clock, connect, request, response, initial, maximum, shutdown, name) =
    make_transport-is_ok p.base_url _ _ _ (parse_base_url-is_ok p.base_url url) (
      positive_bounds _ _ _ (positive p.connect_timeout_ms (pos 60000) connect)
        (smaller_positive p.request_timeout_ms p.shutdown_timeout_ms (pos 60000) request shutdown)
        (at_least_one p.max_response_bytes (pos 10485760) response))

launch-is_ok :
    {A : Type 0} (r : Result A) (thread_start : Result (Unit {0})) (c : PilotClient)
    → is_ok r ≡ true
    → is_ok thread_start ≡ true
    → is_ok ((launch r thread_start c).0) ≡ true
unfolding launch
launch-is_ok (ok transport) (ok _) c h k = refl
launch-is_ok (ok transport) (err exception) c h k = k
launch-is_ok (err exception) thread_start c h k = h

identified-is_ok :
    (r : Result Text) (thread_start : Result (Unit {0})) (now : ℕ) (c : PilotClient)
    → is_ok r ≡ true
    → is_ok thread_start ≡ true
    → IsVisionConfig c.config
    → is_ok ((identified r thread_start now c).0) ≡ true
unfolding identified
identified-is_ok (ok id) thread_start now c h k valid =
    launch-is_ok _ thread_start
      (record c { instance_id = id; started_at_ns = now; stop_requested = false })
      (pilot-make_transport c.config.pilot (valid.5)) k
identified-is_ok (err exception) thread_start now c h k valid = h

cataloged-is_ok :
    (catalog : Result VisionEndpointCatalog) (r : Result Text) (thread_start : Result (Unit {0}))
    (now : ℕ) (c : PilotClient)
    → is_ok catalog ≡ true
    → is_ok r ≡ true
    → is_ok thread_start ≡ true
    → IsVisionConfig c.config
    → is_ok ((cataloged catalog r thread_start now c).0) ≡ true
unfolding cataloged
cataloged-is_ok (ok catalog) r thread_start now c g h k valid =
    identified-is_ok r thread_start now (record c { catalog = catalog }) h k valid
cataloged-is_ok (err exception) r thread_start now c g h k valid = g

-- A start of a client whose configuration the parser accepted returns, where the rounding of the mount
-- matrix stays within the tolerance of its check, the injected generator returns an id of the right
-- form or none is injected, and the thread's constructor returns.
pub start_client-is_ok :
    (env : Environment) (state : ProviderState) (generator : Option Text) (random : List ℕ)
    (now : ℕ) (c : PilotClient)
    → IsVisionConfig c.config
    → IsRigid env.arithmetic c.config.calibration
    → is_ok (generate_instance_id generator random) ≡ true
    → is_ok env.thread_start ≡ true
    → is_ok ((start_client env state generator random now c).0) ≡ true
unfolding start_client reset_client
start_client-is_ok env state generator random now c valid rigid h k =
    let Q : (Result (Unit {0}) × PilotClient) → Type 0 = λ r. is_ok (r.0) ≡ true in
    if_cases Q c.started _ _ (λ _. refl)
      (λ _.
        if_cases Q (not c.config.pilot.enabled) _ _ (λ _. refl)
          (λ _.
            cataloged-is_ok (build_catalog c.config env.arithmetic)
              (generate_instance_id generator random) env.thread_start now (reset_client state c)
              (build_catalog-is_ok c.config env.arithmetic valid rigid) h k valid))
