-- ===== src/Panel.antt =====
-- The buttons of a device's control panels (assets/web/static/js/app.js): they are shut off without a
-- connection, show the state of the connection, and switch the device's sound. A device's panels are
-- taken together, as the list of their buttons.
pub mod Titles
pub mod Toggle
use ms_robot.Session.{ConnectionState}
use ms_robot.Base.{
  none, some, true, false, refl, inl, inr, [], ◌∷◌, zero, suc, arith, codes, Str, or_else, Option,
  Bool, List, ◌++◌, not, if◌then◌else◌, starts_with, truthy, drop, length, ℕ, ◌&&◌, map, ◌||◌,
}

-- `exempt`: the buttons for information, connection, full screen and shell, which work at any time.
pub data Kind : Type 0 where
  exempt audio plain : Kind

-- `original_title` is `data-original-title`, empty if it is not set; `audio_enabled` is
-- `data-audio-enabled`.
pub record Button : Type 0 where
  pub kind : Kind
  pub text : Str
  pub title : Str
  pub original_title : Str
  pub disabled : Bool
  pub audio_enabled : Bool

-- `（需要连接）`
abbrev pub needs_connection : Str
needs_connection = codes "（需要连接）"

-- `s.includes(t)`
unfoldable pub includes_text : Str → Str → Bool
includes_text [] t = starts_with [] t
includes_text (c ∷ s) t = starts_with (c ∷ s) t || includes_text s t

-- `s.replace(t, '')`: the first place of `t` is cut out.
unfoldable pub cut_first : Str → Str → Str
cut_first [] t = []
cut_first (c ∷ s) t =
    let rest = cut_first s t in if starts_with (c ∷ s) t then drop (length t) (c ∷ s) else c ∷ rest

enabled_title : Str → Str → Str
enabled_title original title =
    if truthy original && not (includes_text original needs_connection)
    then original
    else cut_first title needs_connection

enable : Button → Button
unfolding enabled_title
enable b = record b {
  disabled = false;
  title = enabled_title (or_else b.original_title b.title) b.title;
}

disable : Button → Button
disable b = record b {
  disabled = true;
  original_title = if truthy b.original_title then b.original_title else b.title;
  title = if includes_text b.title needs_connection then b.title else b.title ++ needs_connection;
}

apply_by_kind : Kind → Bool → Button → Button
apply_by_kind exempt enabled b = b
apply_by_kind audio enabled b = if enabled then enable b else disable b
apply_by_kind plain enabled b = if enabled then enable b else disable b

pub apply_to_button : Bool → Button → Button
apply_to_button enabled b = apply_by_kind b.kind enabled b

pub apply_control_buttons : Bool → List Button → List Button
apply_control_buttons enabled = map (apply_to_button enabled)

-- `updateDisconnectButton`: the text and the title of the button that connects.
pub update_disconnect_button : ConnectionState → Button → Button
update_disconnect_button ConnectionState.connected b = record b {
  text = 0x26D3 ∷ 0xFE0F ∷ 0x200D ∷ 0xD83D ∷ 0xDCA5 ∷ [];
  title = codes "断开连接";
}
update_disconnect_button ConnectionState.connecting b = record b {
  text = 0xD83D ∷ 0xDD17 ∷ [];
  title = codes "断开连接";
}
update_disconnect_button ConnectionState.disconnected b = record b {
  text = 0xD83D ∷ 0xDD17 ∷ [];
  title = codes "连接";
}

-- `syncAudioToggleButtons`, on one button
abbrev pub audio_title : Bool → Str
audio_title true = codes "网页播放设备声音（已开）"
audio_title false = codes "网页播放设备声音（需先投屏）"

sync_by_kind : Kind → Bool → Button → Button
sync_by_kind audio enabled b = record b {
  audio_enabled = enabled;
  text = if enabled then 0xD83C ∷ 0xDFA7 ∷ [] else 0xD83D ∷ 0xDC42 ∷ [];
  title = audio_title enabled;
}
sync_by_kind plain enabled b = b
sync_by_kind exempt enabled b = b

pub sync_button : Bool → Button → Button
sync_button enabled b = sync_by_kind b.kind enabled b

pub sync_audio_toggle_buttons : Bool → List Button → List Button
sync_audio_toggle_buttons enabled = map (sync_button enabled)

-- The first button that switches the sound.
abbrev pub or_first : Kind → Button → Option Button → Option Button
or_first audio b rest = some b
or_first plain b rest = rest
or_first exempt b rest = rest

unfoldable pub first_audio : List Button → Option Button
first_audio [] = none
first_audio (b ∷ bs) = or_first b.kind b (first_audio bs)

-- The videos of a device: whether they are muted, and how often they were told to play; the second is
-- the full screen's, if it shows the device with a video.
pub record Video : Type 0 where
  pub muted : Bool
  pub plays : ℕ

pub record Sound : Type 0 where
  pub buttons : List Button
  pub video : Option Video
  pub full_screen : Option Video
  pub notices : List Str

-- The answer to the request: accepted; refused, with the text of the status and the error that the body
-- holds; or no answer, with its message.
pub data Response : Type 0 where
  accepted : Response
  refused : Str → Str → Response
  failed : Str → Response

notice : Sound → Str → Sound
notice s message = record s { notices = s.notices ++ message ∷ [] }

pub is_on : Option Button → Bool
is_on none = false
is_on (some b) = b.audio_enabled

-- A video is unmuted and told to play, or muted.
pub switch : Bool → Video → Video
switch next v =
    if next then record v { muted = false; plays = suc v.plays } else record v { muted = true }

switch_if : Bool → Option Video → Option Video
switch_if next none = none
switch_if next (some v) = some (switch next v)

-- What the answer does; the body of a refusal is not read.
toggle_answered : Sound → Bool → Response → Sound
unfolding notice
toggle_answered s next accepted =
    notice
      (record s {
        buttons = sync_audio_toggle_buttons next s.buttons;
        video = switch_if next s.video;
        full_screen = switch_if next s.full_screen;
      })
      (if next then codes "声音已切到网页" else codes "声音已切到设备")
toggle_answered s next (refused status_text body_error) = notice s (
    codes "音频 "
    ++ ((if next then codes "开启" else codes "关闭")
        ++ (codes " 失败: " ++ or_else status_text (codes "请求失败"))))
toggle_answered s next (failed message) = notice s (codes "音频切换失败: " ++ message)

toggle_on : Sound → Response → Option Video → Sound
toggle_on s response none = notice s (codes "请先建立投屏连接")
toggle_on s response (some v) = toggle_answered s (not (is_on (first_audio s.buttons))) response

-- `handleAudioToggleClick`, up to the answer; the later call of `play` after 300 ms is left out.
pub handle_audio_toggle_click : Sound → Response → Sound
handle_audio_toggle_click s response = toggle_on s response s.video
