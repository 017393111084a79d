-- ===== src/Session.antt =====
-- The state of the page that the modules share (assets/web/static/js/app.js): the device cards of
-- the document, the registry of API ids, the WebRTC connections and the connection states.
use ms_robot.Base.{ℕ, Str, Bool, Option, List, ltb, ◌&&◌, none, some, if◌then◌else◌}
use ms_robot.Base.Maps.{Map, get}

-- `RTCDataChannel.readyState`
pub data ReadyState : Type 0 where
  opening open_ closing closed : ReadyState

-- `peer` numbers the `RTCPeerConnection` of a channel or of a connection; `send_throws`: whether the
-- browser's `send` raises in this state of the channel.
pub record Channel : Type 0 where
  pub peer : ℕ
  pub ready_state : ReadyState
  pub send_throws : Bool

pub record ScreenSize : Type 0 where
  pub width : ℕ
  pub height : ℕ

-- An entry of `activeWebRTCConnections`; `video` holds `videoWidth` and `videoHeight`.
pub record Connection : Type 0 where
  pub peer : ℕ
  pub session_id : Str
  pub data_channel : Option Channel
  pub video : Option ScreenSize

-- `DeviceConnectionState`
pub data ConnectionState : Type 0 where
  disconnected connecting connected : ConnectionState

-- A `.device-card-wrapper` with its card: `data-device-id`, `data-udid`, the class `selected` and
-- the card's `data-status`.
pub record Card : Type 0 where
  pub device_id : Str
  pub udid : Str
  pub selected : Bool
  pub status : Str

-- `registry` is `deviceRegistry` (deviceId to apiUdid); the other maps have the apiUdid as key.
pub record Page : Type 0 where
  pub cards : List Card
  pub registry : Map Str
  pub connections : Map Connection
  pub states : Map ConnectionState
  pub sync_enabled : Bool

abbrev default_size : ScreenSize
default_size = record { width = 1080; height = 1920 }

-- The size of the video, where it has one.
video_size : Option ScreenSize → ScreenSize
video_size none = default_size
video_size (some v) = if ltb 0 v.width && ltb 0 v.height then v else default_size

screen_size : Option Connection → ScreenSize
unfolding video_size
screen_size none = default_size
screen_size (some conn) = video_size conn.video

unfoldable pub get_device_screen_size : Page → Str → ScreenSize
unfolding screen_size
get_device_screen_size page device_udid = screen_size (get page.connections device_udid)

unfoldable pub get_device_connection_state : Page → Str → ConnectionState
get_device_connection_state page device_udid = elim (get page.states device_udid) [
  | none ↦ ConnectionState.disconnected
  | some s ↦ s
]
