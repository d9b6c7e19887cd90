-- ===== src/Examples/Answers.antt =====
-- What the service answers to misc/pam-module/auth, at concrete inputs.
use lingmo_authenticate.Common.{
  ℕ, ◌<◌, ◌≤◌, ◌≡◌, ◌≢◌, ◌↔◌, refl, pos, false, bit, some, ◌∷◌, codes, get_elem?, set,
}
use lingmo_authenticate.Pam.State.{Call, Limit, UserData, emit, copy_into}
use lingmo_authenticate.Pam.Types.{type_to_index, first_bit}
use lingmo_authenticate.Pam.Types.Index.{type_to_index-lowest, IsLowestBit}
use lingmo_authenticate.Pam.Limits.{
  limit_of_json, set_limit, store_limit, store_limits, get_limits_info, dbus_method_get_limits,
}
use lingmo_authenticate.Pam.Limits.Store.{store_limit_lem}
use lingmo_authenticate.Examples.Session.{quiet_env, user}

abbrev finger_limit : Limit
finger_limit = record {
  max_tries = pos 2;
  num_failures = pos 2;
  locked = false;
  unlock_time = codes "2024-01-01T00:00:00Z";
}

abbrev stored : UserData
stored = record user { limits = set user.limits 1 finger_limit }

finger_index : type_to_index (pos 2) ≡ some 1
unfolding type_to_index first_bit bit
finger_index = refl

stores : store_limit quiet_env 2 user ≡ some (tt, stored)
unfolding store_limit type_to_index first_bit limit_of_json set_limit copy_into bit
stores = refl

store_limit_lem_example :
    (7 ≤ 1 → stored ≡ user)
    × (1 < 7
        → (l : Limit) × (limit_of_json quiet_env 2 user ≡ some (l, user))
          × (get_elem? stored.limits 1 ≡ some l)
          × ((j : ℕ) → 1 ≢ j → get_elem? stored.limits j ≡ get_elem? user.limits j))
store_limit_lem_example = store_limit_lem quiet_env 2 user stored 1 finger_index stores

abbrev asked : UserData
asked = record stored { calls = Call.get_limits (codes "uos") ∷ user.calls }

gets : get_limits_info quiet_env user ≡ some (tt, asked)
unfolding get_limits_info dbus_method_get_limits emit store_limits store_limit type_to_index
    first_bit limit_of_json set_limit copy_into bit
gets = refl

type_to_index-lowest_example : (type_to_index (pos 6) ≡ some 1) ↔ IsLowestBit (pos 6) 1
type_to_index-lowest_example = type_to_index-lowest (pos 6) 1
