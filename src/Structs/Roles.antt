-- ===== src/Structs/Roles.antt =====
-- `AddressRole` of src/structs/wallet.rs and its text.
use emerald_rs.Prelude.{◌≡◌, refl, String, str_eq, if◌then◌else◌, Result, ok, err}
use emerald_rs.Structs.{ConversionError, unsupported_value}

pub data AddressRole : Type 0 where
  receive change default : AddressRole

unfoldable pub role_to_string : AddressRole → String
role_to_string AddressRole.default = "default"
role_to_string AddressRole.change = "change"
role_to_string AddressRole.receive = "receive"

unfoldable pub role_from_str : String → Result ConversionError AddressRole
role_from_str s =
    if str_eq s "default"
    then ok AddressRole.default
    else if str_eq s "change"
    then ok AddressRole.change
    else if str_eq s "receive"
    then ok AddressRole.receive
    else err (unsupported_value s)

-- The text of a role reads back as that role.
pub role_from_str-role_to_string : (r : AddressRole) → role_from_str (role_to_string r) ≡ ok r
unfolding role_from_str role_to_string
role_from_str-role_to_string AddressRole.default = refl
role_from_str-role_to_string AddressRole.change = refl
role_from_str-role_to_string AddressRole.receive = refl
