-- ===== src/Stream/Servers/Configured.antt =====
-- The servers that a peer connection gets.
use ms_robot.Stream.Servers.{
  fetch_ice_servers, Server, or_default, Url, ice_config, listed, ice_failed, default_ice_servers,
  ice_not_ok, plain_server, parse_turn_server_config,
}
use ms_robot.Base.{
  refl, List, Str, length, ◌≡◌, Option, if◌then◌else◌, ◌+◌, ◌==◌, ◌∷◌, map, arith, [], ◌++◌,
  length-append, length-map, ◌∙◌, ap, ℕ,
}

or_default-length :
    (l : List Server) → length (or_default l) ≡ (if length l == 0 then 1 else length l)
or_default-length [] = refl
or_default-length (s ∷ l) = ground arith

-- The default alone without a usable answer; else one server for each configured address, or the
-- default where none is configured: there is always a server.
fetch_ice_servers-length :
    (parse_url : Str → Option Url) (stun turn : Option (List Str))
    → (length (fetch_ice_servers parse_url (ice_config stun turn)) ≡ (
        if length (listed stun) + length (listed turn) == 0
        then 1
        else length (listed stun) + length (listed turn)))
      × (fetch_ice_servers parse_url ice_failed ≡ default_ice_servers)
      × (fetch_ice_servers parse_url ice_not_ok ≡ default_ice_servers)
unfolding fetch_ice_servers
fetch_ice_servers-length parse_url stun turn =
    let servers =
      map plain_server (listed stun) ++ map (parse_turn_server_config parse_url) (listed turn) in
    let n : length servers ≡ length (listed stun) + length (listed turn) = omega (
      arith,
      length-append (map plain_server (listed stun))
          (map (parse_turn_server_config parse_url) (listed turn)),
      length-map plain_server (listed stun),
      length-map (parse_turn_server_config parse_url) (listed turn),
    ) in
    (or_default-length servers ∙ ap (λ (k : ℕ). if k == 0 then 1 else k) n, refl, refl)
