-- ===== src/Control/Actions/Sends.antt =====
-- What the buttons send.
use ms_robot.Control.Event.{parse_control_message-key}
use mathlib.Core.Option.{some-injective}
use ms_robot.Wire.Bytes.{uint8_array, to_big_endian_bytes}
use ms_robot.Control.Event.{parse_control_message}
use ms_robot.Wire.Message.{inject_keycode}
use mathlib.Core.List.{append-nil}
use ms_robot.Control.Send.Targets.{
  targets, filter_str, devices, accepts, devices-send_control_message, can_send, page-send,
  is_synced, selected_targets, send-switch_off, targets-is_synced, each, sent-raw,
}
use ms_robot.Base.{
  List, ◌≡◌, Bool, ◌∷◌, true, [], ◌++◌, map, ◌&&◌, arith, refl, some, false, ℕ, ◌∙◌, ap, none,
  Option,
}
use ms_robot.Control.Actions.{
  send_all, Number, Str, Page, Command, handle_control_action, at_once, after_50_ms, inject_keycode,
  Action, KeyCode, action_key, press, release, target_devices, key_code,
}

-- A test holds of every text.
abbrev pub all_str : (Str → Bool) → List Str → Bool
all_str p [] = true
all_str p (s ∷ ss) = p s && all_str p ss

-- The devices that each of some commands is meant for, one command after the other.
abbrev pub all_targets : Page → List Str → List Str
all_targets page [] = []
all_targets page (t ∷ ts) = targets page t ++ all_targets page ts

filter-append :
    (p : Str → Bool) (xs ys : List Str)
    → filter_str p (xs ++ ys) ≡ filter_str p xs ++ filter_str p ys
filter-append p [] ys = refl
filter-append p (x ∷ xs) ys = ground (arith, filter-append p xs ys)

each-append :
    (message : List ℕ) (xs ys : List Str)
    → each message (xs ++ ys) ≡ each message xs ++ each message ys
each-append message [] ys = refl
each-append message (x ∷ xs) ys = ap (λ l. (x, message) ∷ l) (each-append message xs ys)

-- The message of a key: its type, whether the key goes down (0) or up (1), the code of the key in
-- four bytes, and eight bytes of 0.
abbrev pub key_message : KeyCode → ℕ → List ℕ
key_message k action = 0 ∷ action ∷ 0 ∷ 0 ∷ 0 ∷ key_code k ∷ 0 ∷ 0 ∷ 0 ∷ 0 ∷ 0 ∷ 0 ∷ 0 ∷ 0 ∷ []

-- The command of a press or a release, as the bytes that are sent.
abbrev key_bytes : Command → List ℕ
key_bytes c = uint8_array (c.message_type ∷ c.payload)

bytes-press : (k : KeyCode) (t : Str) → key_bytes (press k t) ≡ key_message k 0
unfolding uint8_array to_big_endian_bytes inject_keycode
bytes-press KeyCode.back t = refl
bytes-press KeyCode.home t = refl
bytes-press KeyCode.menu t = refl
bytes-press KeyCode.app_switch t = refl
bytes-press KeyCode.volume_up t = refl
bytes-press KeyCode.volume_down t = refl
bytes-press KeyCode.volume_mute t = refl
bytes-press KeyCode.power t = refl
bytes-press KeyCode.enter t = refl
bytes-press KeyCode.del t = refl
bytes-press KeyCode.space t = refl
bytes-press KeyCode.tab t = refl

bytes-release : (k : KeyCode) (t : Str) → key_bytes (release k t) ≡ key_message k 1
unfolding uint8_array to_big_endian_bytes inject_keycode
bytes-release KeyCode.back t = refl
bytes-release KeyCode.home t = refl
bytes-release KeyCode.menu t = refl
bytes-release KeyCode.app_switch t = refl
bytes-release KeyCode.volume_up t = refl
bytes-release KeyCode.volume_down t = refl
bytes-release KeyCode.volume_mute t = refl
bytes-release KeyCode.power t = refl
bytes-release KeyCode.enter t = refl
bytes-release KeyCode.del t = refl
bytes-release KeyCode.space t = refl
bytes-release KeyCode.tab t = refl

module _ (F : Number) (page : Page) (can : can_send page ≡ true) where
  page-send_all : (cs : List Command) → (send_all F page cs).0 ≡ page
  unfolding send_all
  page-send_all [] = refl
  page-send_all (c ∷ cs) = rw (page-send F page c can) (page-send_all cs)

  send_all-each :
      (make : Str → Command) (message : List ℕ)
      → ((t : Str) → (make t).device_udid ≡ t)
      → ((t : Str) → key_bytes (make t) ≡ message)
      → ((t : Str) → parse_control_message F (make t).message_type (make t).payload ≡ none)
      → (ts : List Str)
      → (send_all F page (map make ts)).1
        ≡ each message (filter_str (accepts page) (all_targets page ts))
  unfolding send_all
  send_all-each make message same bytes raw [] = refl
  send_all-each make message same bytes raw (t ∷ ts) =
      rw
        (
          page-send F page (make t) can,
          sent-raw F page (make t) (raw t),
          same t,
          bytes t,
          send_all-each make message same bytes raw ts,
          filter-append,
          each-append,
        )
        refl

-- A button with a key sends its presses and its releases.
at_once-key :
    (page : Page) (udid : Str) (action : Action) (k : KeyCode) (ts : List Str)
    → action_key page udid action ≡ some (k, ts)
    → (at_once page udid action ≡ map (press k) ts)
      × (after_50_ms page udid action ≡ map (release k) ts)
unfolding at_once after_50_ms
at_once-key page udid action k ts h = (rw (at_once, h) refl, rw (after_50_ms, h) refl)

-- A key button that is clicked while commands can be sent sends the press of its key, and later its
-- release, as bytes with the code of the key, to the same devices: those that its commands are meant
-- for and that take a message.
pub handle_control_action-devices :
    (F : Number) (page : Page) (udid : Str) (action : Action) (k : KeyCode) (ts : List Str)
    → can_send page ≡ true
    → action_key page udid action ≡ some (k, ts)
    → ((handle_control_action F page udid action).0
        ≡ each (key_message k 0) (filter_str (accepts page) (all_targets page ts)))
      × ((handle_control_action F page udid action).1
          ≡ each (key_message k 1) (filter_str (accepts page) (all_targets page ts)))
unfolding handle_control_action inject_keycode
handle_control_action-devices F page udid action k ts can h =
    let keys = at_once-key page udid action k ts h in
    rw (keys.0, keys.1)
      (rw (page-send_all F page can (map (press k) ts)) (
        send_all-each F page can (press k) (key_message k 0) (λ t. refl) (bytes-press k)
            (λ t. parse_control_message-key F _) ts,
        send_all-each F page can (release k) (key_message k 1) (λ t. refl) (bytes-release k)
            (λ t. parse_control_message-key F _) ts,
      ))

-- In synchronous operation with no selected device left, a button of one key loses the press: the
-- release goes to the device of the button alone, since the press has switched the operation off.
handle_control_action-lost_press :
    (F : Number) (page : Page) (udid : Str) (action : Action) (k : KeyCode)
    → can_send page ≡ false
    → action_key page udid action ≡ some (k, udid ∷ [])
    → ((handle_control_action F page udid action).0 ≡ [])
      × (devices (handle_control_action F page udid action).1
          ≡ filter_str (accepts page) (udid ∷ []))
unfolding handle_control_action send_all inject_keycode
handle_control_action-lost_press F page udid action k can h =
    let keys = at_once-key page udid action k (udid ∷ []) h in
    let off = send-switch_off F page (press k udid) can in
    let rest =
      devices-send_control_message F (record page { sync_enabled = false }) (release k udid) in
    rw (keys.0, keys.1, off.0, off.1) (refl, rw (append-nil) rest)

-- A list, as often as another has members.
abbrev pub repeated : List Str → List Str → List Str
repeated [] xs = []
repeated (t ∷ ts) xs = xs ++ repeated ts xs

all_targets-repeated :
    (page : Page) (ts : List Str)
    → all_str (is_synced page) ts ≡ true
    → filter_str (accepts page) (all_targets page ts)
      ≡ repeated ts (filter_str (accepts page) (selected_targets page))
all_targets-repeated page [] h = refl
all_targets-repeated page (t ∷ ts) h =
    filter-append (accepts page) (targets page t) (all_targets page ts)
    ∙ ap (λ l. filter_str (accepts page) l ++ filter_str (accepts page) (all_targets page ts))
        (targets-is_synced page t (ground (arith, h))).0
    ∙ ap (λ l. filter_str (accepts page) (selected_targets page) ++ l)
        (all_targets-repeated page ts (ground (arith, h)))

-- The keys of the volume buttons and of the button that mutes.
abbrev pub volume_key : Action → Option KeyCode
volume_key Action.volume_up = some KeyCode.volume_up
volume_key Action.volume_down = some KeyCode.volume_down
volume_key Action.mute = some KeyCode.volume_mute
volume_key _ = none

target_devices-is_synced :
    (page : Page) (udid : Str)
    → is_synced page udid ≡ true
    → target_devices page udid ≡ selected_targets page
unfolding target_devices
target_devices-is_synced page udid h = rw h refl

action_key-volume :
    (page : Page) (udid : Str) (action : Action) (k : KeyCode)
    → volume_key action ≡ some k
    → action_key page udid action ≡ some (k, target_devices page udid)
unfolding action_key
action_key-volume page udid Action.volume_up k h =
    ap (λ j. some (j, target_devices page udid)) (some-injective _ k h)
action_key-volume page udid Action.volume_down k h =
    ap (λ j. some (j, target_devices page udid)) (some-injective _ k h)
action_key-volume page udid Action.mute k h =
    ap (λ j. some (j, target_devices page udid)) (some-injective _ k h)
action_key-volume page udid Action.back k h = absurd (ground (arith, h))
action_key-volume page udid Action.home k h = absurd (ground (arith, h))
action_key-volume page udid Action.menu k h = absurd (ground (arith, h))
action_key-volume page udid Action.power k h = absurd (ground (arith, h))
action_key-volume page udid Action.rotate k h = absurd (ground (arith, h))
action_key-volume page udid Action.reset_video k h = absurd (ground (arith, h))
action_key-volume page udid Action.notification_panel k h = absurd (ground (arith, h))
action_key-volume page udid Action.settings_panel k h = absurd (ground (arith, h))
action_key-volume page udid Action.collapse k h = absurd (ground (arith, h))
action_key-volume page udid Action.screen_off k h = absurd (ground (arith, h))
action_key-volume page udid Action.screen_on k h = absurd (ground (arith, h))
action_key-volume page udid Action.rotate_view k h = absurd (ground (arith, h))
action_key-volume page udid Action.audio_toggle k h = absurd (ground (arith, h))
action_key-volume page udid Action.text_input_panel k h = absurd (ground (arith, h))

-- In synchronous operation, when the button for more or less volume or the button that mutes is
-- clicked on a selected device and each target is itself the apiUdid of a selected device, every
-- target's command is sent to all targets again: with n targets, each of those that take messages
-- gets the press of the key n times, and later its release n times.
pub handle_control_action-volume :
    (F : Number) (page : Page) (udid : Str) (action : Action) (k : KeyCode)
    → volume_key action ≡ some k
    → is_synced page udid ≡ true
    → all_str (is_synced page) (selected_targets page) ≡ true
    → ((handle_control_action F page udid action).0
        ≡ each
            (key_message k 0)
            (repeated (selected_targets page) (filter_str (accepts page) (selected_targets page))))
      × ((handle_control_action F page udid action).1
          ≡ each (key_message k 1) (
              repeated (selected_targets page) (filter_str (accepts page) (selected_targets page))))
handle_control_action-volume F page udid action k is_key on all =
    let ts = selected_targets page in
    let key : action_key page udid action ≡ some (k, ts) =
      action_key-volume page udid action k is_key
      ∙ ap (λ l. some (k, l)) (target_devices-is_synced page udid on) in
    let reached =
      handle_control_action-devices F page udid action k ts (targets-is_synced page udid on).1
        key in
    let same = all_targets-repeated page ts all in
    (reached.0 ∙ ap (each (key_message k 0)) same, reached.1 ∙ ap (each (key_message k 1)) same)
