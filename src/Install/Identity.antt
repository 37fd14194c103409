-- ===== src/Install/Identity.antt =====
-- The identity of the device that a session has reached: `verified_signing_identity` and
-- `validate_rsd_identity` of wireless_pairing.rs, with `SigningDeviceIdentity` of
-- crates/iphoneloadly-api/src/signing.rs. A value of the property lists is none where it is no string.
use i_phone_loadly.Common.{
  ℕ, ◌+◌, Text, Bool, true, false, not, ◌&&◌, ◌||◌, any, Option, none, some, [], ◌∷◌, codes, ltb,
  leb, is_empty, trim, text_eq, to_ascii_lowercase, is_control, Result, ok, err, ◌>>=◌,
  if◌then◌else◌,
}

-- `str::len`: the number of bytes in UTF-8
abbrev byte_len : Text → ℕ
byte_len [] = 0
byte_len (c ∷ text) =
    (if ltb c 0x80 then 1 else if ltb c 0x800 then 2 else if ltb c 0x10000 then 3 else 4)
    + byte_len text

pub record SigningDeviceIdentity : Type 0 where
  pub name : Text
  pub udid : Text
  pub apple_tv : Bool
  pub product_type : Option Text
  pub ios_version : Option Text

pub data RsdIdentityFailure : Type 0 where
  handshake_identity service_lookup service_connect client_init : RsdIdentityFailure
  lockdown_identity device_name identity_mismatch : RsdIdentityFailure

unfoldable pub identity_failure_kind : RsdIdentityFailure → Text
identity_failure_kind handshake_identity = codes "handshake_identity"
identity_failure_kind service_lookup = codes "lockdown_service_lookup"
identity_failure_kind service_connect = codes "lockdown_service_connect"
identity_failure_kind client_init = codes "lockdown_client_init"
identity_failure_kind lockdown_identity = codes "lockdown_identity"
identity_failure_kind device_name = codes "device_name"
identity_failure_kind identity_mismatch = codes "identity_mismatch"

-- `DeviceInfoFailed` is the only error.
unfoldable pub new_identity : Text → Text → Option SigningDeviceIdentity
new_identity name udid =
    if is_empty (trim name)
      || is_empty (trim udid)
      || ltb 256 (byte_len name)
      || ltb 256 (byte_len udid)
    then none
    else some (record {
      name = name;
      udid = udid;
      apple_tv = false;
      product_type = none;
      ios_version = none;
    })

unfoldable pub with_device_class : Option Text → SigningDeviceIdentity → SigningDeviceIdentity
with_device_class none identity = record identity { apple_tv = false }
with_device_class (some class) identity = record identity {
  apple_tv = text_eq (to_ascii_lowercase class) (to_ascii_lowercase (codes "AppleTV"));
}

unfoldable pub bounded : Option Text → Option Text
bounded none = none
bounded (some value) =
    if not (is_empty (trim value)) && leb (byte_len value) 128 && not (any is_control value)
    then some value
    else none

unfoldable pub with_device_metadata :
    Option Text → Option Text → SigningDeviceIdentity → SigningDeviceIdentity
unfolding bounded
with_device_metadata product_type ios_version identity = record identity {
  product_type = bounded product_type;
  ios_version = bounded ios_version;
}

-- `.as_string().filter(…).ok_or(failure)`
abbrev usable : RsdIdentityFailure → Option Text → Result RsdIdentityFailure Text
usable failure none = err failure
usable failure (some value) =
    if not (is_empty (trim value)) && leb (byte_len value) 256 then ok value else err failure

abbrev or_device_name :
    Option SigningDeviceIdentity → Result RsdIdentityFailure SigningDeviceIdentity
or_device_name none = err device_name
or_device_name (some identity) = ok identity

abbrev required : Bool → RsdIdentityFailure → Result RsdIdentityFailure (Unit {0})
required true failure = ok tt
required false failure = err failure

unfoldable pub validate_rsd_identity :
    Option Text → Option Text → Option Text → Result RsdIdentityFailure SigningDeviceIdentity
unfolding new_identity
validate_rsd_identity from_handshake from_lockdown name = do
  shaken ← usable handshake_identity from_handshake
  locked ← usable lockdown_identity from_lockdown
  _ ← required (text_eq shaken locked) identity_mismatch
  called ← usable device_name name
  or_device_name (new_identity called locked)

-- The properties of the handshake; `os_version` is none where there is no such property.
pub record Handshake : Type 0 where
  pub unique_device_id : Option Text
  pub device_class : Option Text
  pub product_type : Option Text
  pub os_version : Option (Option Text)
  pub product_version : Option Text
  pub has_lockdown : Bool

-- What the lockdown service answers; its values are none where the request fails.
pub record Lockdown : Type 0 where
  pub connects : Bool
  pub starts : Bool
  pub unique_device_id : Option (Option Text)
  pub name : Option (Option Text)

abbrev version_of : Handshake → Option Text
version_of h = elim h.os_version [ none ↦ h.product_version | some version ↦ version ]

abbrev answered :
    RsdIdentityFailure → Option (Option Text) → Result RsdIdentityFailure (Option Text)
answered failure none = err failure
answered failure (some value) = ok value

unfoldable pub verified_signing_identity :
    Handshake → Lockdown → Result RsdIdentityFailure SigningDeviceIdentity
unfolding validate_rsd_identity with_device_class with_device_metadata
verified_signing_identity h l = do
  _ ← required h.has_lockdown service_lookup
  _ ← required l.connects service_connect
  _ ← required l.starts client_init
  from_lockdown ← answered lockdown_identity l.unique_device_id
  name ← answered device_name l.name
  identity ← validate_rsd_identity h.unique_device_id from_lockdown name
  ok (
      with_device_metadata h.product_type (version_of h)
        (with_device_class h.device_class identity))

abbrev same_text : Option Text → Option Text → Bool
same_text none none = true
same_text (some a) (some b) = text_eq a b
same_text _ _ = false

abbrev same_flag : Bool → Bool → Bool
same_flag true b = b
same_flag false b = not b

-- `==` of two identities
abbrev pub same_device : SigningDeviceIdentity → SigningDeviceIdentity → Bool
same_device a b =
    text_eq a.name b.name
    && text_eq a.udid b.udid
    && same_flag a.apple_tv b.apple_tv
    && same_text a.product_type b.product_type
    && same_text a.ios_version b.ios_version
