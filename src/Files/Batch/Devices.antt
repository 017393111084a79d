-- ===== src/Files/Batch/Devices.antt =====
-- The ids of the devices that a batch goes to.
use mathlib.Core.Option.{some-injective}
use ms_robot.Control.Send.{includes}
use ms_robot.Files.Batch.{
  to_api_udid, device_slot_id, ℤ, pos, negsuc, ListDevice, get_selected_android_devices,
  get_android_devices, chosen,
}
use ms_robot.Base.{
  refl, Option, List, Bool, ◌≡◌, ◌∷◌, arith, false, true, some, [], none, if◌then◌else◌, Str,
  str_eq, codes, sym, ◌&&◌, ◌∙◌,
}

abbrev pub is_negative : Option ℤ → Bool
is_negative none = false
is_negative (some (pos n)) = false
is_negative (some (negsuc n)) = true

-- The devices that are online and selected, by their API udids.
abbrev pub online_selected : List Str → List ListDevice → List Str
online_selected slots [] = []
online_selected slots (d ∷ ds) =
    let rest = online_selected slots ds in
    if str_eq d.device.status (codes "online") && includes slots (device_slot_id d)
    then to_api_udid d ∷ rest
    else rest

abbrev pub in_reply : List Str → Option (List ListDevice) → List Str
in_reply slots none = []
in_reply slots (some ds) = online_selected slots ds

chosen-online :
    (slots : List Str) (ds : List ListDevice)
    → chosen slots (get_android_devices (some ds)) ≡ online_selected slots ds
unfolding get_android_devices
chosen-online slots [] = refl
chosen-online slots (d ∷ ds) = ground (arith, chosen-online slots ds)

chosen-in_reply :
    (slots : List Str) (reply : Option (List ListDevice))
    → chosen slots (get_android_devices reply) ≡ in_reply slots reply
unfolding get_android_devices
chosen-in_reply slots none = refl
chosen-in_reply slots (some ds) = chosen-online slots ds

some-if : (b : Bool) (l udids : List Str) → (if b then none else some l) ≡ some udids → l ≡ udids
some-if true l udids h = absurd (ground (arith, h))
some-if false l udids h = some-injective l udids h

-- The devices that are found are those online and selected.
pub get_selected_android_devices-online :
    (slots : List Str) (reply : Option (List ListDevice)) (udids : List Str)
    → get_selected_android_devices slots reply ≡ some udids
    → udids ≡ in_reply slots reply
unfolding get_selected_android_devices
get_selected_android_devices-online slots reply udids h =
    sym (some-if _ _ udids h) ∙ chosen-in_reply slots reply
