-- ===== src/Stream/Servers.antt =====
-- The ICE servers of a peer connection (assets/web/static/js/app.js): `fetchIceServers` and
-- `parseTurnServerConfig`.
pub mod Configured
use ms_robot.Identity.{colon}
use ms_robot.Base.{
  Str, Option, List, some, codes, ◌∷◌, [], none, if◌then◌else◌, map, ◌++◌, starts_with,
  contains_unit, truthy, drop, ◌==◌, or_else,
}

-- What `new URL` finds in a text: the host, the port (empty if it is the scheme's own) and a parameter
-- of the query by its name.
pub record Url : Type 0 where
  pub hostname : Str
  pub port : Str
  pub param : Str → Option Str

pub record Server : Type 0 where
  pub urls : Str
  pub username : Option Str
  pub credential : Option Str

abbrev given : Option Str → Option Str
given none = none
given (some s) = if truthy s then some s else none

abbrev plain_server : Str → Server
plain_server urls = record { urls = urls; username = none; credential = none }

-- `turnUrl.split('?')[0]`
abbrev before_query : Str → Str
before_query [] = []
before_query (c ∷ s) = let rest = before_query s in if c == b'?' then [] else c ∷ rest

-- `turnUrl.replace(/^turn:/, 'http:')`
abbrev as_http : Str → Str
as_http s = if starts_with s (codes "turn:") then codes "http:" ++ drop 5 s else s

abbrev turn_urls : Url → Str
turn_urls u = codes "turn:" ++ (u.hostname ++ colon ∷ or_else u.port (codes "3478"))

-- With `new URL` as `parse_url`, none where it raises an error.
unfoldable pub parse_turn_server_config : (Str → Option Url) → Str → Server
parse_turn_server_config parse_url turn_url =
    if contains_unit turn_url b'?'
    then (elim (parse_url (as_http turn_url)) [
      | none ↦ plain_server (before_query turn_url)
      | some u ↦ record {
        urls = turn_urls u;
        username = given (u.param (codes "username"));
        credential = given (u.param (codes "credential"));
      }
    ])
    else plain_server turn_url

-- The answer of `/api/webrtc/ice-servers`: none or one that cannot be read, one without success, or
-- the two lists; a list that is not an array is none.
pub data IceReply : Type 0 where
  ice_failed ice_not_ok : IceReply
  ice_config : Option (List Str) → Option (List Str) → IceReply

abbrev pub listed : Option (List Str) → List Str
listed none = []
listed (some l) = l

abbrev pub default_ice_servers : List Server
default_ice_servers = plain_server (codes "stun:stun.l.google.com:19302") ∷ []

abbrev or_default : List Server → List Server
or_default [] = default_ice_servers
or_default (s ∷ servers) = s ∷ servers

unfoldable pub fetch_ice_servers : (Str → Option Url) → IceReply → List Server
fetch_ice_servers parse_url ice_failed = default_ice_servers
fetch_ice_servers parse_url ice_not_ok = default_ice_servers
fetch_ice_servers parse_url (ice_config stun turn) =
    or_default
      (map plain_server (listed stun) ++ map (parse_turn_server_config parse_url) (listed turn))
