-- ===== src/DeviceList.antt =====
-- The grouping of devices by endpoint in `loadDevices` and the order in which `renderDevicesList`
-- shows them (assets/web/static/js/app.js). `Object.keys` gives the keys as they were put in, which
-- holds of endpoint ids: none of them is a number.
pub mod Sorted
pub mod Grouping
pub mod Render
use ms_robot.Control.Send.{includes}
use ms_robot.Base.{
  Str, List, or_else, ◌∷◌, [], ◌++◌, if◌then◌else◌, truthy, ◌&&◌, true, false, refl, inl, inr, zero,
  suc, arith,
}
use mathlib.Core.Option.{Option, none, some}
use ms_robot.Identity.{Device, colon}
use ms_robot.Base.Maps.{Map, get, put}

-- An entry of the list of endpoints: a text, or an object whose host and port may be missing.
pub data Endpoint : Type 0 where
  text : Str → Endpoint
  object : (id : Str) (host port : Option Str) (display : Str) → Endpoint

-- `host:port`, if both are there.
host_port : Option Str → Option Str → Str
host_port (some host) (some port) = host ++ colon ∷ port
host_port _ _ = []

-- The id of an endpoint: its own, or made of host and port.
endpoint_key : Endpoint → Str
unfolding host_port
endpoint_key (text id) = id
endpoint_key (object id host port display) = or_else id (host_port host port)

-- Endpoints without an id are left out.
abbrev pub endpoint_order : List Endpoint → List Str
unfolding endpoint_key
endpoint_order [] = []
endpoint_order (ep ∷ eps) =
    let rest = endpoint_order eps in
    if truthy (endpoint_key ep) then endpoint_key ep ∷ rest else rest

abbrev pub devices_at : Map (List Device) → Str → List Device
devices_at groups key = elim (get groups key) [ none ↦ [] | some devices ↦ devices ]

-- `byEndpoint`: each device joins the group of its endpoint.
group_from : Map (List Device) → List Device → Map (List Device)
group_from groups [] = groups
group_from groups (d ∷ ds) =
    group_from (put groups d.endpoint_id (devices_at groups d.endpoint_id ++ d ∷ [])) ds

pub by_endpoint : List Device → Map (List Device)
unfolding group_from
by_endpoint = group_from []

-- The keys that are not among the endpoints known.
other_keys : List Str → Map (List Device) → List Str
other_keys order [] = []
other_keys order ((key, devices) ∷ groups) =
    let rest = other_keys order groups in if includes order key then rest else key ∷ rest

pub ordered_endpoint_keys : List Endpoint → List Device → List Str
unfolding other_keys
ordered_endpoint_keys eps ds =
    endpoint_order eps ++ other_keys (endpoint_order eps) (by_endpoint ds)
