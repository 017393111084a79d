-- ===== src/Identity.antt =====
-- The ids of devices (assets/web/static/js/app.js): the serial, the deviceId `serial@endpoint`
-- that names a card for good, and the apiUdid `serial:transport@endpoint` that requests use.
pub mod Decimal
pub mod Registry
use ms_robot.Base.{
  ℕ, zero, suc, ◌+◌, ◌/◌, ◌%◌, List, [], ◌∷◌, ◌++◌, Bool, true, false, not, ◌&&◌, ◌||◌, Option,
  none, some, map, Str, codes, str_eq, truthy, or_else, starts_with, contains_unit, ltb, ◌==◌,
  if◌then◌else◌,
}
use ms_robot.Base.Int.{ℤ, pos, negsuc}
use ms_robot.Base.Maps.{Map, get}
use ms_robot.Session.{Card, Page}

-- A device as the back end sends it; a missing text is empty.
pub record Device : Type 0 where
  pub udid : Str
  pub name : Str
  pub transport_id : Option ℤ
  pub endpoint_id : Str
  pub status : Str

abbrev at_sign : ℕ
at_sign = b'@'

abbrev pub colon : ℕ
colon = b':'

-- A number in decimal, as string concatenation writes it. Each round takes a digit away.
decimal_loop : ℕ → ℕ → Str
decimal_loop zero n = []
decimal_loop (suc fuel) n =
    let rest = decimal_loop fuel (n / 10) in
    if ltb n 10 then (48 + n) ∷ [] else rest ++ (48 + n % 10) ∷ []

unfoldable pub decimal : ℕ → Str
unfolding decimal_loop
decimal n = decimal_loop (suc n) n

-- The transport id, if it is positive.
abbrev pub transport : Option ℤ → ℕ
transport none = 0
transport (some (pos n)) = n
transport (some (negsuc n)) = 0

-- `tid ? ':' + tid : ''`
transport_part : ℕ → Str
transport_part tid = if tid == 0 then [] else colon ∷ decimal tid

-- `eid ? '@' + eid : ''`
abbrev endpoint_part : Str → Str
endpoint_part eid = if truthy eid then at_sign ∷ eid else []

unfoldable pub get_device_api_udid : Device → Str
unfolding transport_part
get_device_api_udid device =
    device.udid
    ++ (transport_part (transport device.transport_id) ++ endpoint_part device.endpoint_id)

unfoldable pub get_device_id : Device → Str
get_device_id device = device.udid ++ endpoint_part device.endpoint_id

-- The part of a text from its first `@` on; empty if it has none.
from_at : Str → Str
from_at [] = []
from_at (c ∷ s) = if c == at_sign then c ∷ s else from_at s

-- The apiUdid for new data of a device whose card is known: the endpoint is taken from the card.
unfoldable pub build_api_udid_from_device_data : Device → Str → Str
unfolding transport_part from_at
build_api_udid_from_device_data device existing_card_udid =
    (device.udid ++ transport_part (transport device.transport_id)) ++ from_at existing_card_udid

-- `replace(/[:@]/g, '_')`
abbrev pub safe_id_from_udid : Str → Str
safe_id_from_udid = map (λ c. if c == colon || c == at_sign then b'_' else c)

-- `(entry && entry.apiUdid) || deviceId`
abbrev pub registered : Option Str → Str → Str
registered none device_id = device_id
registered (some api_udid) device_id = or_else api_udid device_id

unfoldable pub get_api_udid : Map Str → Str → Str
get_api_udid registry device_id = registered (get registry device_id) device_id

-- A wrapper without deviceId falls back on its `data-udid`, and looks up nothing if it has neither.
abbrev card_key : Card → Str
card_key w = or_else w.device_id w.udid

unfoldable pub get_api_udid_for_card : Map Str → Card → Str
unfolding get_api_udid
get_api_udid_for_card registry w =
    if truthy (card_key w) then get_api_udid registry (card_key w) else []

-- The cards of a serial: its own, and those of the serial on some endpoint.
abbrev pub matches_serial : Str → Card → Bool
matches_serial serial w =
    str_eq w.device_id serial || starts_with w.device_id (serial ++ at_sign ∷ [])

abbrev pub find_all : (Card → Bool) → List Card → List Card
find_all p [] = []
find_all p (w ∷ ws) = if p w then w ∷ find_all p ws else find_all p ws

abbrev pub find_first : (Card → Bool) → List Card → Option Card
find_first p [] = none
find_first p (w ∷ ws) = if p w then some w else find_first p ws

unfoldable pub find_wrappers_by_serial : List Card → Str → List Card
find_wrappers_by_serial cards serial =
    if truthy serial then find_all (matches_serial serial) cards else []

unfoldable pub find_wrapper_by_api_udid : Page → Str → Option Card
find_wrapper_by_api_udid page api_udid =
    if truthy api_udid
    then find_first (λ w. str_eq (get_api_udid_for_card page.registry w) api_udid) page.cards
    else none

abbrev pub find_wrapper_by_device_id : Page → Str → Option Card
find_wrapper_by_device_id page device_id =
    if truthy device_id then find_first (λ w. str_eq w.device_id device_id) page.cards else none

unfoldable pub get_device_id_for_api_udid : Page → Str → Str
get_device_id_for_api_udid page api_udid = elim (find_wrapper_by_api_udid page api_udid) [
  | none ↦ api_udid
  | some w ↦ or_else w.device_id api_udid
]

-- A text with neither `@` nor `:` is a serial, and stands for all its cards; any other is an exact id.
abbrev pub find_cards_by_udid : List Card → Str → List Card
unfolding find_wrappers_by_serial
find_cards_by_udid cards udid =
    if not (truthy udid)
    then []
    else if not (contains_unit udid at_sign) && not (contains_unit udid colon)
    then find_wrappers_by_serial cards udid
    else find_all (λ w. str_eq (card_key w) udid) cards

-- The status of the first card; `unknown` where it has none.
abbrev pub get_device_status : List Card → Str → Str
get_device_status cards udid = elim (find_cards_by_udid cards udid) [
  | [] ↦ codes "unknown"
  | w ∷ _ ↦ or_else w.status (codes "unknown")
]
