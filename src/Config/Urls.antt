-- ===== src/Config/Urls.antt =====
-- The URLs and the allowed origins of src/config/vision_config.cpp.
pub mod Origins
use nodus_vision.Prelude.{
  ℕ, ◌+◌, ◌-◌, Bool, true, false, ◌||◌, ◌&&◌, not, Option, none, some, List, [], ◌∷◌, ◌++◌, Text,
  bytes, text_eq, is_empty, any, length, take, drop, ltb, ◌==◌, if◌then◌else◌,
}
use nodus_vision.Prelude.Int.{ℤ, pos, leb_ℤ}
use nodus_vision.Prelude.Json.{Json, string, array, Items, no_items, item, Members}
use nodus_vision.Prelude.Result.{Result, ok, err, invalid_argument, ◌>>=◌}
use nodus_vision.Prelude.Strings.{starts_with, contains, find_byte, rfind_byte, is_digit, stoi}
use nodus_vision.Config.Fields.{require_field, is_control}

-- `authority`: what stands after the scheme up to the next slash.
unfoldable pub authority_of : Text → Text
unfolding find_byte
authority_of url = elim (find_byte (drop 7 url) 47) [
  | none ↦ drop 7 url
  | some path_start ↦ take path_start (drop 7 url)
]

unfoldable pub port_in_range : ℤ → Result Bool
port_in_range port = ok (leb_ℤ (pos 1) port && leb_ℤ port (pos 65535))

-- What follows the test of the separator's place.
unfoldable pub is_port_valid : Text → Option ℕ → Result Bool
unfolding stoi port_in_range
is_port_valid authority none = ok false
is_port_valid authority (some separator) =
    if is_empty authority || ((separator == 0) || (separator == length authority - 1))
    then ok false
    else if any (λ b. not (is_digit b)) (drop (separator + 1) authority)
    then ok false
    else (stoi (drop (separator + 1) authority) >>= port_in_range)

-- `std::stoi` may throw here.
unfoldable pub is_advertised_url_valid : Text → Result Bool
unfolding starts_with contains rfind_byte authority_of is_port_valid
is_advertised_url_valid url =
    if not (starts_with url (bytes "http://"))
      || (contains url (bytes "0.0.0.0")
          || (contains url (bytes "*")
              || (contains url (bytes "@")
                  || (contains url (bytes "?") || contains url (bytes "#")))))
    then ok false
    else is_port_valid (authority_of url) (rfind_byte (authority_of url) 58)

-- `npos + 1` is 0.
unfoldable pub get_url_port : Text → Result ℤ
unfolding authority_of rfind_byte stoi
get_url_port url = elim (rfind_byte (authority_of url) 58) [
  | none ↦ stoi (authority_of url)
  | some separator ↦ stoi (drop (separator + 1) (authority_of url))
]

-- `origin.find('/', 7) != npos`
unfoldable pub has_path : Text → Bool
unfolding find_byte
has_path origin = elim (find_byte (drop 7 origin) 47) [ none ↦ false | some i ↦ true ]

checked_origin : Text → List Text → Text → Bool → Result Text
checked_origin path seen origin is_valid =
    if not is_valid || has_path origin
    then err (
        invalid_argument (
          path ++ bytes ": entries must be exact non-wildcard HTTP origins with an explicit port."))
    else if any (text_eq origin) seen
    then err (invalid_argument (path ++ bytes ": duplicate origin is not allowed."))
    else ok origin

-- One entry, with the origins read before it.
unfoldable pub require_origin : Text → List Text → Json → Result Text
unfolding is_control is_advertised_url_valid checked_origin
require_origin path seen (string origin) =
    if is_empty origin || ltb 128 (length origin)
    then err (invalid_argument (path ++ bytes ": entries must be non-empty bounded strings."))
    else if any is_control origin
    then err (invalid_argument (path ++ bytes ": entries must not contain control characters."))
    else (is_advertised_url_valid origin >>= checked_origin path seen origin)
require_origin path seen _ =
    err (invalid_argument (path ++ bytes ": entries must be non-empty bounded strings."))

-- `origins` and `seen_origins` hold the same values.
unfoldable pub require_origins : Text → List Text → Items → Result (List Text)
unfolding require_origin
require_origins path seen no_items = ok seen
require_origins path seen (item value rest) = do
  origin ← require_origin path seen value
  require_origins path (seen ++ (origin ∷ [])) rest

abbrev count : Items → ℕ
count no_items = 0
count (item value rest) = count rest + 1

as_origins : Text → Json → Result (List Text)
unfolding require_origins
as_origins path (array values) =
    if ltb 16 (count values)
    then err (invalid_argument (path ++ bytes ": must be a bounded array."))
    else require_origins path [] values
as_origins path _ = err (invalid_argument (path ++ bytes ": must be a bounded array."))

unfoldable pub require_allowed_origins : Members → Text → Text → Result (List Text)
unfolding require_field as_origins
require_allowed_origins fields key path = require_field fields key path >>= as_origins path
