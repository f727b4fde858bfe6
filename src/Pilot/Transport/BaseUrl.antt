-- ===== src/Pilot/Transport/BaseUrl.antt =====
-- A URL that the configuration accepts is one that `parseBaseUrl` of
-- src/pilot/pilot_http_transport.cpp takes apart.
use nodus_vision.Prelude.{
  ℕ, ◌+◌, ◌-◌, ◌≡◌, ap, Bool, true, false, ◌||◌, ◌&&◌, not, Option, none, some, Text, bytes,
  is_empty, any, length, take, drop, ◌==◌, if◌then◌else◌, arith,
}
use nodus_vision.Prelude.Int.{ℤ, pos, negsuc, leb_ℤ, ltb_ℤ}
use nodus_vision.Prelude.Result.{Result, Exception, ok, err, is_ok, ◌>>=◌}
use nodus_vision.Prelude.Strings.{starts_with, contains, rfind_byte, is_digit, stoi}
use nodus_vision.Config.Urls.{authority_of, is_port_valid, port_in_range, is_advertised_url_valid}
use nodus_vision.Pilot.Transport.{check_base_port, parse_authority, base_path_of, parse_base_url}

value : Result Bool → Bool
value (ok b) = b
value (err e) = false

-- A test that has passed, without the constructor.
passed : {r : Result Bool} → r ≡ ok true → value r ≡ true
unfolding value
passed h = ap value h

in_range :
    (port : ℤ)
    → leb_ℤ (pos 1) port && leb_ℤ port (pos 65535) ≡ true
    → ltb_ℤ port (pos 1) || ltb_ℤ (pos 65535) port ≡ false
in_range (pos n) h = ground arith
in_range (negsuc n) h = ground arith

port_ok :
    (host port_text base : Text) (r : Result ℤ)
    → (r >>= port_in_range) ≡ ok true
    → is_ok (r >>= check_base_port host port_text base) ≡ true
unfolding port_in_range check_base_port value
port_ok host port_text base (err e) h = cc
port_ok host port_text base (ok port) h = rw (in_range port (passed h))

chain_ok :
    {A : Type 0} (empty at_end letters : Bool) (x : Result Bool) (y : Result A) (e f : Exception)
    → (if empty || at_end then ok false else if letters then ok false else x) ≡ ok true
    → (x ≡ ok true → is_ok y ≡ true)
    → is_ok (if at_end then err e else if letters then err f else y) ≡ true
chain_ok true at_end letters x y e f h k = cc
chain_ok false true letters x y e f h k = cc
chain_ok false false true x y e f h k = cc
chain_ok false false false x y e f h k = k h

parse_authority-is_ok :
    (base authority : Text) (separator : Option ℕ)
    → is_port_valid authority separator ≡ ok true
    → is_ok (parse_authority base authority separator) ≡ true
unfolding is_port_valid parse_authority
parse_authority-is_ok base authority none h = cc
parse_authority-is_ok base authority (some separator) h =
    chain_ok (is_empty authority) ((separator == 0) || (separator == length authority - 1))
      (any (λ b. not (is_digit b)) (drop (separator + 1) authority)) _ _ _ _ h
      (port_ok (take separator authority) (drop (separator + 1) authority) base
        (stoi (drop (separator + 1) authority)))

refused_ok :
    {A : Type 0} (scheme zeros star user query fragment : Bool) (x : Result Bool) (y : Result A)
    (e : Exception)
    → (if scheme || (zeros || (star || (user || (query || fragment)))) then ok false else x)
      ≡ ok true
    → (x ≡ ok true → is_ok y ≡ true)
    → is_ok (if scheme || (user || (query || fragment)) then err e else y) ≡ true
refused_ok true zeros star user query fragment x y e h k = cc
refused_ok false true star user query fragment x y e h k = cc
refused_ok false false true user query fragment x y e h k = cc
refused_ok false false false true query fragment x y e h k = cc
refused_ok false false false false true fragment x y e h k = cc
refused_ok false false false false false true x y e h k = cc
refused_ok false false false false false false x y e h k = k h

-- Every URL that the configuration accepts is one that the transport takes apart.
pub parse_base_url-is_ok :
    (url : Text) → is_advertised_url_valid url ≡ ok true → is_ok (parse_base_url url) ≡ true
unfolding is_advertised_url_valid parse_base_url
parse_base_url-is_ok url h =
    refused_ok (not (starts_with url (bytes "http://"))) (contains url (bytes "0.0.0.0"))
      (contains url (bytes "*")) (contains url (bytes "@")) (contains url (bytes "?"))
      (contains url (bytes "#")) _ _ _ h
      (parse_authority-is_ok (base_path_of url) (authority_of url)
        (rfind_byte (authority_of url) 58))
