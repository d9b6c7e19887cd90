-- ===== src/Auth/Properties.antt =====
-- The properties that lib/src/auth/auth.c reads, without DBUS_PROPERTY_CACHE.
use lingmo_authenticate.Common.{
  ℕ, ◌+◌, ◌||◌, ℤ, pos, ltb_ℤ, Bool, not, Option, none, some, List, [], ◌∷◌, String, Bytes, length,
  set, replicate, ltb, if◌then◌else◌,
}
use lingmo_authenticate.Auth.Calls.{
  DaFactorInfo, Service, Client, get_property, has_valid_authenticate_proxy,
  has_valid_session_proxy, strlcpy,
}

abbrev pub session_interface : String
session_interface = "com.deepin.daemon.Authenticate.Session"

abbrev pub auth_interface : String
auth_interface = "com.deepin.daemon.Authenticate"

-- The loop over the iterator: each factor is written at `cur_index`; a write past the array is
-- undefined.
unfoldable pub fill_factors :
    List DaFactorInfo → ℕ → List (Option DaFactorInfo) → Option (List (Option DaFactorInfo))
fill_factors [] cur_index result = some result
fill_factors (f ∷ iter) cur_index result =
    if ltb cur_index (length result)
    then fill_factors iter (cur_index + 1) (set result cur_index (some f))
    else none

module _ (service : Service) where
  -- The properties; the pointers that these functions test are not null.
  unfoldable pub da_dbus_prop_get_string : String → String → Option Bytes
  da_dbus_prop_get_string interface name =
      let r = get_property interface name in
      elim (service.fails r) [ some e ↦ none | none ↦ some (service.string r) ]

  unfoldable pub da_dbus_prop_get_gvariant : String → String → Option (List DaFactorInfo)
  da_dbus_prop_get_gvariant interface name =
      let r = get_property interface name in
      elim (service.fails r) [ some e ↦ none | none ↦ some (service.factors r) ]

  unfoldable pub da_dbus_prop_get_int : String → String → Option ℤ
  da_dbus_prop_get_int interface name =
      let r = get_property interface name in
      elim (service.fails r) [ some e ↦ none | none ↦ some (service.number r) ]

  unfoldable pub da_dbus_prop_get_bool : String → String → Option Bool
  da_dbus_prop_get_bool interface name =
      let r = get_property interface name in
      elim (service.fails r) [ some e ↦ none | none ↦ some (service.truth r) ]

  -- -1 is `none`; else what is written to the result.
  abbrev string_prop : Bool → String → String → Bool → ℤ → Option Bytes
  string_prop valid interface name result result_len =
      if not valid
      then none
      else if not result || not (ltb_ℤ (pos 0) result_len)
      then none
      else elim (da_dbus_prop_get_string interface name) [
        | none ↦ none
        | some value ↦ some (strlcpy result_len value)
      ]

  abbrev int_prop : Bool → String → String → Bool → Option ℤ
  int_prop valid interface name result =
      if not valid then none else if not result then none else da_dbus_prop_get_int interface name

  unfoldable pub da_prop_get_support_encrypts : Option Client → Bool → ℤ → Option Bytes
  da_prop_get_support_encrypts proxy =
      string_prop (has_valid_authenticate_proxy proxy) auth_interface "SupportEncrypts"

  unfoldable pub da_prop_get_framework_state : Option Client → Bool → Option ℤ
  da_prop_get_framework_state proxy =
      int_prop (has_valid_authenticate_proxy proxy) auth_interface "FrameworkState"

  unfoldable pub da_prop_get_supported_flags : Option Client → Bool → Option ℤ
  da_prop_get_supported_flags proxy =
      int_prop (has_valid_authenticate_proxy proxy) auth_interface "SupportedFlags"

  unfoldable pub da_prop_get_is_mfa : Option Client → Bool → Option Bool
  da_prop_get_is_mfa proxy result =
      if not (has_valid_session_proxy proxy)
      then none
      else if not result
      then none
      else da_dbus_prop_get_bool session_interface "IsMFA"

  unfoldable pub da_prop_get_prompt : Option Client → Bool → ℤ → Option Bytes
  da_prop_get_prompt proxy = string_prop (has_valid_session_proxy proxy) session_interface "Prompt"

  unfoldable pub da_prop_get_username : Option Client → Bool → ℤ → Option Bytes
  da_prop_get_username proxy =
      string_prop (has_valid_session_proxy proxy) session_interface "Username"

  unfoldable pub da_prop_get_pin_len : Option Client → Bool → Option ℤ
  da_prop_get_pin_len proxy = int_prop (has_valid_session_proxy proxy) session_interface "PINLen"

  unfoldable pub da_prop_get_prg_path : Option Client → Bool → ℤ → Option Bytes
  da_prop_get_prg_path proxy =
      string_prop (has_valid_session_proxy proxy) session_interface "PrgPath"

  -- The outer `none` is undefined behaviour, the inner one -1; `*factor_info_len` is the length of the
  -- array, and its pointer may not be null.
  unfoldable pub da_prop_get_factors_info :
      Option Client → Bool → Bool → Option (Option (List (Option DaFactorInfo)))
  da_prop_get_factors_info proxy result factor_info_len =
      if not (has_valid_session_proxy proxy)
      then some none
      else if not result
      then some none
      else elim (da_dbus_prop_get_gvariant session_interface "FactorsInfo") [
        | none ↦ some none
        | some iter ↦
            if not (ltb 0 (length iter))
            then some none
            else if not factor_info_len
            then none
            else elim (fill_factors iter 0 (replicate (length iter) none)) [
              | none ↦ none
              | some filled ↦ some (some filled)
            ]
      ]
