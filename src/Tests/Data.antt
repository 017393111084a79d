-- ===== src/Tests/Data.antt =====
-- A page with two devices of the endpoint `e`, both selected and connected, in synchronous operation.
use ms_robot.Base.{some, codes, ◌∷◌, false, true, []}
use ms_robot.Session.{Page, Card, Connection, ReadyState, ConnectionState}

abbrev pub open_connection : Connection
open_connection = record {
  peer = 0;
  session_id = codes "s";
  data_channel = some (record { peer = 0; ready_state = ReadyState.open_; send_throws = false });
  video = some (record { width = 720; height = 1600 });
}

abbrev pub phone : Card
phone = record {
  device_id = codes "p@e";
  udid = codes "p:1@e";
  selected = true;
  status = codes "online";
}

abbrev tablet : Card
tablet = record {
  device_id = codes "t@e";
  udid = codes "t:2@e";
  selected = true;
  status = codes "online";
}

abbrev pub page : Page
page = record {
  cards = phone ∷ tablet ∷ [];
  registry = (codes "p@e", codes "p:1@e") ∷ (codes "t@e", codes "t:2@e") ∷ [];
  connections = (codes "p:1@e", open_connection) ∷ (codes "t:2@e", open_connection) ∷ [];
  states =
      (codes "p:1@e", ConnectionState.connected) ∷ (codes "t:2@e", ConnectionState.connected) ∷ [];
  sync_enabled = true;
}

-- The same page without synchronous operation.
abbrev pub plain_page : Page
plain_page = record page { sync_enabled = false }
