-- ===== src/Pilot/Responses/Registration.antt =====
-- What the readers of src/pilot/pilot_contract_codec.cpp ensure of the responses that they accept.
use nodus_vision.Prelude.{
  or-false, ℕ, ◌^◌, ◌≤◌, ◌<◌, ◌≡◌, ◌≢◌, refl, Bool, true, false, ◌||◌, not, not-false, Option, none,
  some, [], ◌∷◌, Text, bytes, is_empty, text_eq, text_eq_iff, length, ltb, leb, ◌==◌, arith,
}
use nodus_vision.Prelude.Int.{ℤ, pos, negsuc}
use nodus_vision.Prelude.Json.{
  Json, null, boolean, unsigned, signed, floating, string, array, object, Members, if_contains,
  size,
}
use nodus_vision.Prelude.Result.{
  Result, ok, Ensures, Ensures-throw_if, Ensures-bind, Ensures-call, Ensures-ok, ◌>>=◌,
}
use nodus_vision.Pilot.{PilotRegistrationResponse, PilotCatalogAcceptedResponse}
use nodus_vision.Pilot.Identifiers.{validate_identifier}
use nodus_vision.Pilot.Responses.{
  in_public_range, non_negative_integer, require_non_negative_integer, identifier,
  require_identifier, as_response_object, require_schema_versions, read_registration,
  parse_registration_response, is_accepted, to_uint64, read_catalog_accepted,
  parse_catalog_accepted_response,
}

abbrev pub IsIdentifier : Text → Type 0
IsIdentifier s = (s ≢ []) × (length s ≤ 128)

abbrev InRange : ℕ → Type 0
InRange n = n < 2 ^ 63

short-IsIdentifier : (s : Text) → is_empty s || ltb 128 (length s) ≡ false → IsIdentifier s
short-IsIdentifier [] h = ground arith
short-IsIdentifier (b ∷ bs) h = (λ e. cc, ground arith)

identifier-lem : (key : Text) (value : Option Json) → Ensures IsIdentifier (identifier key value)
unfolding identifier validate_identifier
identifier-lem key (some (string s)) =
    Ensures-throw_if IsIdentifier (is_empty s || ltb 128 (length s)) _ (ok s) (short-IsIdentifier s)
identifier-lem key none = tt
identifier-lem key (some null) = tt
identifier-lem key (some (boolean b)) = tt
identifier-lem key (some (unsigned n)) = tt
identifier-lem key (some (signed z)) = tt
identifier-lem key (some (floating n)) = tt
identifier-lem key (some (array values)) = tt
identifier-lem key (some (object fields)) = tt

pub require_identifier-lem :
    (fields : Members) (key : Text) → Ensures IsIdentifier (require_identifier fields key)
unfolding require_identifier
require_identifier-lem fields key = identifier-lem key (if_contains fields key)

non_negative_integer-lem :
    (key : Text) (value : Option Json) → Ensures InRange (non_negative_integer key value)
unfolding non_negative_integer in_public_range
non_negative_integer-lem key (some (signed (pos n))) = ground arith
non_negative_integer-lem key (some (unsigned n)) = ground arith
non_negative_integer-lem key (some (signed (negsuc n))) = tt
non_negative_integer-lem key none = tt
non_negative_integer-lem key (some null) = tt
non_negative_integer-lem key (some (boolean b)) = tt
non_negative_integer-lem key (some (floating n)) = tt
non_negative_integer-lem key (some (string s)) = tt
non_negative_integer-lem key (some (array values)) = tt
non_negative_integer-lem key (some (object fields)) = tt

require_non_negative_integer-lem :
    (fields : Members) (key : Text) → Ensures InRange (require_non_negative_integer fields key)
unfolding require_non_negative_integer
require_non_negative_integer-lem fields key = non_negative_integer-lem key (if_contains fields key)

integer_field :
    {B : Type 0} (Q : B → Type 0) (fields : Members) (key : Text) (rest : ℕ → Result B)
    → ((n : ℕ) → n < 2 ^ 63 → Ensures Q (rest n))
    → Ensures Q (require_non_negative_integer fields key >>= rest)
integer_field Q fields key rest =
    Ensures-bind InRange Q (require_non_negative_integer fields key) rest
      (require_non_negative_integer-lem fields key)

identifier_field :
    {B : Type 0} (Q : B → Type 0) (fields : Members) (key : Text) (rest : Text → Result B)
    → ((s : Text) → IsIdentifier s → Ensures Q (rest s))
    → Ensures Q (require_identifier fields key >>= rest)
identifier_field Q fields key rest =
    Ensures-bind IsIdentifier Q (require_identifier fields key) rest
      (require_identifier-lem fields key)

-- A registration on which a session can be kept: a heartbeat is due before the lease ends.
abbrev pub IsRegistration : PilotRegistrationResponse → Type 0
IsRegistration r =
    IsIdentifier r.session_id
    × IsIdentifier r.server_instance_id
    × (1 ≤ r.heartbeat_interval_ms)
    × (r.heartbeat_interval_ms < r.lease_timeout_ms)
    × (r.lease_timeout_ms < 2 ^ 63)
    × (r.server_time_ns < 2 ^ 63)

lease_ok :
    (one : Bool) (heartbeat lease : ℕ)
    → not one || ((heartbeat == 0) || ((lease == 0) || leb lease heartbeat)) ≡ false
    → (1 ≤ heartbeat) × (heartbeat < lease)
lease_ok true heartbeat lease h = ground arith
lease_ok false heartbeat lease h = cc

read_registration-lem : (fields : Members) → Ensures IsRegistration (read_registration fields)
unfolding read_registration
read_registration-lem fields =
    let Q : PilotRegistrationResponse → Type 0 = IsRegistration in
    Ensures-throw_if Q (not (size fields == 7)) _ _ (λ _. integer_field Q fields _ _ (λ protocol _.
      Ensures-throw_if Q (not (protocol == 1)) _ _ (λ _.
        Ensures-call Q (require_schema_versions fields) _ (λ one _.
          identifier_field Q fields _ _ (λ session session_ok.
            identifier_field Q fields _ _ (λ server server_ok.
              integer_field Q fields _ _ (λ heartbeat _.
                integer_field Q fields _ _ (λ lease lease_fits.
                  integer_field Q fields _ _ (λ time time_fits.
                    Ensures-throw_if Q
                      (not one || ((heartbeat == 0) || ((lease == 0) || leb lease heartbeat))) _
                      (ok _)
                      (λ h.
                        let l : (1 ≤ heartbeat) × (heartbeat < lease) =
                          lease_ok one heartbeat lease h in
                        (session_ok, server_ok, l.0, l.1, lease_fits, time_fits)))))))))))

-- A registration response that is accepted names a session and a server by identifiers, and its
-- heartbeat interval is at least 1 ms and less than its lease, all numbers within `int64`.
pub parse_registration_response-IsRegistration :
    (parse : Text → Option Json) (body : Text) (response : PilotRegistrationResponse)
    → parse_registration_response parse body ≡ ok response
    → IsRegistration response
unfolding parse_registration_response
parse_registration_response-IsRegistration parse body response =
    Ensures-ok IsRegistration
      (as_response_object (bytes "Pilot registration response must be a JSON object.") (parse body)
        >>= read_registration)
      (Ensures-call IsRegistration (as_response_object _ (parse body)) read_registration
        (λ fields _. read_registration-lem fields))

-- What the client goes on with after a publication.
abbrev pub IsPublished : Text → ℤ → PilotCatalogAcceptedResponse → Type 0
IsPublished server count r =
    (r.server_instance_id ≡ server) × (1 ≤ r.catalog_generation) × (r.descriptor_count ≡ count)

published_ok :
    (a b s t : Text) (g n m : ℕ) (differs : Bool)
    → not (text_eq a b) || (not (text_eq s t) || ((g == 0) || ((n == 0) || ((m == 0) || differs))))
      ≡ false
    → (s ≡ t) × (1 ≤ g)
published_ok a b s t g n m differs h =
    let h1 : ((not (text_eq a b) ≡ false)
        × (not (text_eq s t) || ((g == 0) || ((n == 0) || ((m == 0) || differs))) ≡ false)) =
      or-false _ _ h in
    let h2 : ((not (text_eq s t) ≡ false)
        × ((g == 0) || ((n == 0) || ((m == 0) || differs)) ≡ false)) =
      or-false _ _ h1.1 in
    let h3 : ((g == 0 ≡ false) × ((n == 0) || ((m == 0) || differs) ≡ false)) = or-false _ _ h2.1 in
    ((text_eq_iff s t).0 (not-false _ h2.0), ground (arith, h3.0))

read_catalog_accepted-lem :
    (fields : Members) (component server : Text) (count : ℤ)
    → Ensures (IsPublished server count) (read_catalog_accepted fields component server count)
unfolding read_catalog_accepted
read_catalog_accepted-lem fields component server count =
    let Q : PilotCatalogAcceptedResponse → Type 0 = IsPublished server count in
    Ensures-throw_if Q
      (not (size fields == 7) || not (is_accepted (if_contains fields (bytes "status")))) _ _
      (λ _. identifier_field Q fields _ _ (λ parsed_server _.
        identifier_field Q fields _ _ (λ parsed_component _.
          integer_field Q fields _ _ (λ generation _. integer_field Q fields _ _ (λ parsed_count _.
            integer_field Q fields _ _ (λ session_generation _.
              integer_field Q fields _ _ (λ revision _.
                Ensures-throw_if Q
                  (not (text_eq parsed_component component)
                    || (not (text_eq parsed_server server)
                        || ((generation == 0)
                            || ((session_generation == 0)
                                || ((revision == 0) || not (parsed_count == to_uint64 count))))))
                  _ (ok _)
                  (λ h.
                    let l : (parsed_server ≡ server) × (1 ≤ generation) =
                      published_ok parsed_component component parsed_server server generation
                        session_generation revision _ h in
                    (l.0, l.1, refl)))))))))

pub parse_catalog_accepted_response-lem :
    (parse : Text → Option Json) (body component server : Text) (count : ℤ)
    → Ensures
        (IsPublished server count)
        (parse_catalog_accepted_response parse body component server count)
unfolding parse_catalog_accepted_response
parse_catalog_accepted_response-lem parse body component server count =
    Ensures-call (IsPublished server count) (as_response_object _ (parse body)) _
      (λ fields _. read_catalog_accepted-lem fields component server count)

pub parse_registration_response-lem :
    (parse : Text → Option Json) (body : Text)
    → Ensures IsRegistration (parse_registration_response parse body)
unfolding parse_registration_response
parse_registration_response-lem parse body =
    Ensures-call IsRegistration (as_response_object _ (parse body)) read_registration
      (λ fields _. read_registration-lem fields)
