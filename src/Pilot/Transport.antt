-- ===== src/Pilot/Transport.antt =====
-- The base URL of src/pilot/pilot_http_transport.cpp, and the checks of its constructor and of a
-- response.
pub mod BaseUrl
use nodus_vision.Prelude.{
  ℕ, ◌+◌, ◌-◌, Bool, true, false, ◌||◌, ◌&&◌, not, Option, none, some, List, [], ◌∷◌, Text, bytes,
  is_empty, any, length, take, drop, get_elem?, ◌==◌, if◌then◌else◌,
}
use nodus_vision.Prelude.Int.{ℤ, pos, leb_ℤ, ltb_ℤ}
use nodus_vision.Prelude.Result.{Result, ok, err, invalid_argument, throw_if, ◌>>=◌, ◌>>◌}
use nodus_vision.Prelude.Strings.{starts_with, contains, find_byte, rfind_byte, is_digit, stoi}
use nodus_vision.Config.Urls.{authority_of}
use nodus_vision.Pilot.{PilotHttpResult}

pub record ParsedBaseUrl : Type 0 where
  pub host : Text
  pub port : Text
  pub base_path : Text

-- `path_start == npos ? "" : base_url.substr(path_start)`
abbrev pub base_path_of : Text → Text
base_path_of base_url = elim (find_byte (drop 7 base_url) 47) [
  | none ↦ []
  | some path_start ↦ drop (7 + path_start) base_url
]

unfoldable pub check_base_port : Text → Text → Text → ℤ → Result ParsedBaseUrl
check_base_port host port_text base_path port =
    if ltb_ℤ port (pos 1) || ltb_ℤ (pos 65535) port
    then err (invalid_argument (bytes "Pilot base URL port is outside the valid range."))
    else ok (record { host = host; port = port_text; base_path = base_path })

-- The host and port around the separator.
unfoldable pub parse_authority : Text → Text → Option ℕ → Result ParsedBaseUrl
unfolding stoi check_base_port
parse_authority base_path authority none =
    err (invalid_argument (bytes "Pilot base URL must contain a host and explicit port."))
parse_authority base_path authority (some separator) =
    if (separator == 0) || (separator == length authority - 1)
    then err (invalid_argument (bytes "Pilot base URL must contain a host and explicit port."))
    else if any (λ b. not (is_digit b)) (drop (separator + 1) authority)
    then err (invalid_argument (bytes "Pilot base URL port is invalid."))
    else (stoi (drop (separator + 1) authority)
        >>= check_base_port (take separator authority) (drop (separator + 1) authority) base_path)

unfoldable pub parse_base_url : Text → Result ParsedBaseUrl
unfolding starts_with contains find_byte rfind_byte authority_of parse_authority
parse_base_url base_url =
    if not (starts_with base_url (bytes "http://"))
      || (contains base_url (bytes "@")
          || (contains base_url (bytes "?") || contains base_url (bytes "#")))
    then err (invalid_argument (bytes "Pilot base URL must be an absolute HTTP URL."))
    else parse_authority (base_path_of base_url) (authority_of base_url)
        (rfind_byte (authority_of base_url) 58)

-- What the constructor keeps.
pub record TransportBounds : Type 0 where
  pub base_url : ParsedBaseUrl
  pub connect_timeout_ms : ℤ
  pub request_timeout_ms : ℤ
  pub max_response_bytes : ℤ

unfoldable pub make_transport : Text → ℤ → ℤ → ℤ → Result TransportBounds
unfolding parse_base_url
make_transport base_url connect_timeout_ms request_timeout_ms max_response_bytes = do
  parsed ← parse_base_url base_url
  throw_if
      (leb_ℤ connect_timeout_ms (pos 0)
        || (leb_ℤ request_timeout_ms (pos 0) || leb_ℤ max_response_bytes (pos 0)))
      (invalid_argument (bytes "Pilot transport bounds must be positive."))
  ok (record {
    base_url = parsed;
    connect_timeout_ms = connect_timeout_ms;
    request_timeout_ms = request_timeout_ms;
    max_response_bytes = max_response_bytes;
  })

unfoldable pub is_json_content_type : Text → Bool
unfolding starts_with
is_json_content_type content_type =
    starts_with content_type (bytes "application/json")
    && ((length content_type == 16)
        || (elim (get_elem? content_type 16) [ none ↦ false | some b ↦ b == 59 ]))

-- `handleRead` of a response with this status, content type and body.
unfoldable pub read_result : ℤ → Text → Text → PilotHttpResult
unfolding is_json_content_type
read_result status content_type body =
    if is_json_content_type content_type
    then record { status = status; content_type = content_type; body = body; error = [] }
    else record {
      status = pos 0;
      content_type = content_type;
      body = [];
      error = bytes "Pilot response content type is not application/json";
    }

unfoldable pub has_response : PilotHttpResult → Bool
has_response result = ltb_ℤ (pos 0) result.status && is_empty result.error
