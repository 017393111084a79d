-- ===== src/Status/Offline.antt =====
-- A device that went away keeps no session.
use ms_robot.Identity.{find_all, find_wrappers_by_serial}
use mathlib.Core.List.{Memᴰ, ◌∷◌}
use mathlib.Core.List.Memᴰ.{head, tail}
use ms_robot.Base.Maps.{get-delete, get-put, delete, put}
use ms_robot.Base.{
  ◌≡◌, true, str_eq, arith, if◌then◌else◌, Option, str_eq_iff, some, Bool, none, refl, truthy, List,
  [], sym, Bool-cases, inl, inr,
}
use ms_robot.Status.{
  update_maps, new_api_udid, is_offline, drop_session, move_state, rename, Str, Map,
  cleanup_connection, Device, set_device_connection_state, get, old_api_udid, update_device_status,
  update_all, matches_serial,
}
use ms_robot.Session.{Page, Card, ConnectionState, get_device_connection_state}

abbrev pub IsDisconnected : Page → Str → Type 0
IsDisconnected page udid = get_device_connection_state page udid ≡ ConnectionState.disconnected

-- What the moved map holds.
abbrev moved :
    Option ConnectionState → Bool → Bool → Bool → Option ConnectionState → Option ConnectionState
moved none same is_old is_new before = before
moved (some s) same is_old is_new before =
    if same then before else if is_old then none else if is_new then some s else before

move_state-get :
    (states : Map ConnectionState) (old new j : Str)
    → get (move_state states old new) j
      ≡ moved (get states old) (str_eq old new) (str_eq old j) (str_eq new j) (get states j)
unfolding move_state
move_state-get states old new j =
    elim (get states old)
        as (λ o.
          (e : get states old ≡ o)
          → get
              (elim o as (λ x. Map ConnectionState) [
                | none ↦ states
                | some s ↦ if str_eq old new then states else delete (put states new s) old
              ])
              j
            ≡ moved o (str_eq old new) (str_eq old j) (str_eq new j) (get states j)) [
              | none ↦ λ e. refl
              | some s ↦
                  λ e. ground (arith, get-delete (put states new s) old j, get-put states new j s)
            ]
      refl

drop_session-get :
    (page : Page) (udid j : Str)
    → get (drop_session page udid).states j
      ≡ (if str_eq udid j then some ConnectionState.disconnected else get page.states j)
unfolding drop_session cleanup_connection set_device_connection_state
drop_session-get page udid j =
    ground (arith, get-put page.states udid j ConnectionState.disconnected)

update_maps-keeps :
    (page : Page) (udid : Str) (device : Device) (w : Card) (j : Str)
    → is_offline device ≡ true
    → IsDisconnected page j
    → IsDisconnected (update_maps page udid device w) j
unfolding update_maps get_device_connection_state rename
update_maps-keeps page udid device w j off h =
    let old = old_api_udid page udid w in
    let new = new_api_udid device w in
    ground (
      arith,
      drop_session-get (rename page udid device w) new j,
      move_state-get page.states old new j,
      str_eq_iff old new,
      str_eq_iff old j,
      str_eq_iff new j,
    )

update_maps-offline :
    (page : Page) (udid : Str) (device : Device) (w : Card)
    → is_offline device ≡ true
    → IsDisconnected (update_maps page udid device w) (new_api_udid device w)
unfolding update_maps get_device_connection_state rename
update_maps-offline page udid device w off =
    let old = old_api_udid page udid w in
    let new = new_api_udid device w in
    ground (
      arith,
      drop_session-get (rename page udid device w) new new,
      move_state-get page.states old new new,
      str_eq_iff old new,
      str_eq_iff new new,
    )

update_all-keeps :
    (page : Page) (udid : Str) (device : Device) (ws : List Card) (j : Str)
    → is_offline device ≡ true
    → IsDisconnected page j
    → IsDisconnected (update_all page udid device ws) j
unfolding update_all
update_all-keeps page udid device [] j off h = h
update_all-keeps page udid device (w ∷ ws) j off h =
    update_all-keeps (update_maps page udid device w) udid device ws j off
      (update_maps-keeps page udid device w j off h)

update_all-offline :
    (page : Page) (udid : Str) (device : Device) (ws : List Card) (w : Card)
    → is_offline device ≡ true
    → Memᴰ w ws
    → IsDisconnected (update_all page udid device ws) (new_api_udid device w)
unfolding update_all
update_all-offline page udid device [] w off m = elim m [ ]
update_all-offline page udid device (v ∷ ws) w off (head e) = rw e (
    update_all-keeps (update_maps page udid device v) udid device ws (new_api_udid device v) off
      (update_maps-offline page udid device v off))
update_all-offline page udid device (v ∷ ws) w off (tail m) =
    update_all-offline (update_maps page udid device v) udid device ws w off m

mem-find_all :
    (p : Card → Bool) (ws : List Card) (w : Card) → p w ≡ true → Memᴰ w ws → Memᴰ w (find_all p ws)
mem-find_all p [] w h m = elim m [ ]
mem-find_all p (v ∷ ws) w h (head e) = rw (sym e, h) (head refl)
mem-find_all p (v ∷ ws) w h (tail m) = elim (Bool-cases (p v)) [
  | inl e ↦ rw e (tail (mem-find_all p ws w h m))
  | inr e ↦ rw e (mem-find_all p ws w h m)
]

found-offline :
    (page : Page) (udid : Str) (device : Device) (w : Card) (ws : List Card)
    → is_offline device ≡ true
    → find_wrappers_by_serial page.cards udid ≡ ws
    → Memᴰ w ws
    → IsDisconnected (update_device_status page udid device).0 (new_api_udid device w)
unfolding update_device_status get_device_connection_state
found-offline page udid device w [] off e m = elim m [ ]
found-offline page udid device w (v ∷ ws) off e m =
    rw (update_device_status, e) (update_all-offline page udid device (v ∷ ws) w off m)

mem-find_wrappers :
    (cards : List Card) (udid : Str) (w : Card)
    → truthy udid ≡ true
    → matches_serial udid w ≡ true
    → Memᴰ w cards
    → Memᴰ w (find_wrappers_by_serial cards udid)
unfolding find_wrappers_by_serial
mem-find_wrappers cards udid w some_udid h m =
    rw some_udid (mem-find_all (matches_serial udid) cards w h m)

-- After a message that a serial is offline, every card of the serial is disconnected under the
-- apiUdid that the message gives it.
pub update_device_status-offline :
    (page : Page) (udid : Str) (device : Device) (w : Card)
    → is_offline device ≡ true
    → truthy udid ≡ true
    → matches_serial udid w ≡ true
    → Memᴰ w page.cards
    → IsDisconnected (update_device_status page udid device).0 (new_api_udid device w)
unfolding update_device_status get_device_connection_state
update_device_status-offline page udid device w off some_udid h m =
    found-offline page udid device w (find_wrappers_by_serial page.cards udid) off refl
      (mem-find_wrappers page.cards udid w some_udid h m)
