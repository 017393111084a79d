-- ===== src/Keyboard/Routing.antt =====
-- Keys reach the shell or the device, never both.
use ms_robot.Keyboard.{
  Focus, on_key, on_click, to_device, Page, on_blur, Key, Connection, Click, KeyAction, key_up,
  key_event_to_shell_data, shell_route, ignored, Shell, get, is_connected, key_down,
  handle_global_keyboard_event, inject_keycode, key_press, inject_text,
}
use ms_robot.Base.{
  truthy, ◌≡◌, arith, true, some, none, ◌⊎◌, [], codes, false, if◌then◌else◌, ◌||◌, not, ◌&&◌,
}

-- A shell and a device are not chosen at once.
abbrev pub Exclusive : Focus → Type 0
Exclusive focus = (focus.active_shell ≡ none) ⊎ (focus.active_device ≡ [])

-- From a focus where not both are chosen, no click and no loss of the window's focus lets a shell and a device be chosen at once.
on_click-Exclusive :
    (focus : Focus) (c : Click)
    → Exclusive focus
    → Exclusive (on_click focus c) × Exclusive (on_blur focus)
unfolding on_click on_blur
on_click-Exclusive focus c h = ground arith

-- While a shell is chosen and no device with it, a key outside text fields and shell windows goes to
-- that shell, if it has its terminal and an open socket, exactly as `keyEventToShellData` translates
-- it; in all other cases it goes nowhere.
on_key-shell :
    (page : Page) (focus : Focus) (e : Key) (action : KeyAction) (shell : Shell)
    → focus.active_shell ≡ some shell
    → Exclusive focus
    → on_key page focus e action ≡ (
        if (e.in_shell || e.editable) || not (shell.has_terminal && shell.socket_open)
        then ignored
        else shell_route shell (key_event_to_shell_data e action))
unfolding on_key key_event_to_shell_data shell_route
on_key-shell page focus e key_down shell hs h = ground arith
on_key-shell page focus e key_up shell hs h = ground arith
on_key-shell page focus e key_press shell hs h = ground arith

abbrev pub space_bar : Key
space_bar = record { key = codes " "; ctrl_key = false; in_shell = false; editable = false }

-- A press of the space bar on a chosen, connected device sends the space twice: as the key code SPACE
-- when the key goes down, and as a text when it is pressed.
on_key-space :
    (page : Page) (focus : Focus) (conn : Connection)
    → truthy focus.active_device ≡ true
    → focus.active_shell ≡ none
    → get page.connections focus.active_device ≡ some conn
    → is_connected conn ≡ true
    → (on_key page focus space_bar key_down ≡ to_device (inject_keycode focus.active_device 62 0))
      × (on_key page focus space_bar key_press
          ≡ to_device (inject_text focus.active_device (codes " ")))
      × (on_key page focus space_bar key_up ≡ to_device (inject_keycode focus.active_device 62 1))
unfolding on_key handle_global_keyboard_event
on_key-space page focus conn hd hs hc ho = ground arith
