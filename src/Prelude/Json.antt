-- ===== src/Prelude/Json.antt =====
-- `boost::json::value`: an object keeps the order of its members, an `unsigned` is a number held
-- as `std::uint64_t` and a `signed` one held as `std::int64_t`, and a `floating` number is given by
-- the bits of the double.
use nodus_vision.Prelude.Bytes.{Text, text_eq}
use nodus_vision.Prelude.Int.{ℤ, pos, negsuc}
use nodus_vision.Prelude.Tests.{ltb, if◌then◌else◌}
use Prim.Native.Nat.{ℕ, suc, ◌-◌, ◌^◌}
use mathlib.Core.Bool.{Bool, true, false}
use mathlib.Core.Option.{Option, none, some}

mutual
  pub data Json : Type 0 where
    null : Json
    boolean : Bool → Json
    unsigned : ℕ → Json
    signed : ℤ → Json
    floating : ℕ → Json
    string : Text → Json
    array : Items → Json
    object : Members → Json

  pub data Items : Type 0 where
    no_items : Items
    item : Json → Items → Items

  pub data Members : Type 0 where
    no_members : Members
    member : Text → Json → Members → Members

-- `object::if_contains`
unfoldable pub if_contains : Members → Text → Option Json
if_contains no_members key = none
if_contains (member name value rest) key =
    let found = if_contains rest key in if text_eq name key then some value else found

-- `object.if_contains(key) != nullptr`
unfoldable pub has_member : Members → Text → Bool
unfolding if_contains
has_member fields key = elim (if_contains fields key) [ none ↦ false | some value ↦ true ]

-- `object::size`
unfoldable pub size : Members → ℕ
size no_members = 0
size (member name value rest) = suc (size rest)

-- `as_int64` where `is_int64`, and the conversion of `as_uint64` where `is_uint64`: two's complement.
abbrev pub as_int64 : Json → Option ℤ
as_int64 (signed z) = some z
as_int64 (unsigned n) = some (if ltb n (2 ^ 63) then pos n else negsuc (2 ^ 64 - 1 - n))
as_int64 _ = none

abbrev pub is_string : Json → Bool
is_string (string s) = true
is_string _ = false

abbrev pub is_bool : Json → Bool
is_bool (boolean b) = true
is_bool _ = false

abbrev pub is_object : Json → Bool
is_object (object fields) = true
is_object _ = false
