-- ===== src/Panel/Toggle.antt =====
-- The switch of a device's sound.
use ms_robot.Base.{
  none, some, true, false, refl, [], ◌∷◌, arith, List, Bool, Option, ◌≡◌, map, not, ap, ◌∙◌,
}
use ms_robot.Panel.{
  sync_by_kind, toggle_answered, switch_if, toggle_on, notice, switch, first_audio,
  handle_audio_toggle_click, sync_button, sync_audio_toggle_buttons, apply_to_button, Sound,
  apply_by_kind, Button, Video, enable, disable, enabled_title, includes_text, audio_title, is_on,
  accepted, or_first,
}
use ms_robot.Panel.{Kind, audio, plain, exempt}

sync_kind : (k : Kind) (n : Bool) (b : Button) → b.kind ≡ k → (sync_by_kind k n b).kind ≡ k
unfolding sync_by_kind
sync_kind audio n b e = e
sync_kind plain n b e = e
sync_kind exempt n b e = e

synced-kind : (n : Bool) (b : Button) → (sync_button n b).kind ≡ b.kind
unfolding sync_button
synced-kind n b = sync_kind b.kind n b refl

-- The first button for the sound takes the new state.
or_first-on :
    (k : Kind) (n : Bool) (b c : Button) (x y : Option Button)
    → or_first k b x ≡ some c
    → ((d : Button) → x ≡ some d → is_on y ≡ n)
    → is_on (or_first k (sync_by_kind k n b) y) ≡ n
unfolding sync_by_kind is_on
or_first-on audio n b c x y e h = refl
or_first-on plain n b c x y e h = h c e
or_first-on exempt n b c x y e h = h c e

sync-is_on :
    (bs : List Button) (n : Bool) (b : Button)
    → first_audio bs ≡ some b
    → is_on (first_audio (sync_audio_toggle_buttons n bs)) ≡ n
unfolding first_audio sync_audio_toggle_buttons sync_button sync_by_kind is_on
sync-is_on [] n b e = absurd (ground arith)
sync-is_on (c ∷ bs) n b e = rw (synced-kind n c) (
    or_first-on c.kind n c b (first_audio bs) (first_audio (map (sync_button n) bs)) e
      (λ d f. sync-is_on bs n d f))

abbrev pub muted_of : Option Video → Option Bool
muted_of none = none
muted_of (some v) = some v.muted

switch-muted : (n : Bool) (v : Video) → muted_of (switch_if n (some v)) ≡ some (not n)
unfolding switch_if switch
switch-muted true v = refl
switch-muted false v = refl

not-not : (b : Bool) → not (not b) ≡ b
not-not true = refl
not-not false = refl

-- An accepted click on the switch of a connected device turns the state of its first button round, and
-- the device's video is muted exactly if the new state is off, as is the full screen's if there is one.
handle_audio_toggle_click-accepted :
    (s : Sound) (b : Button) (v w : Video)
    → first_audio s.buttons ≡ some b
    → s.video ≡ some v
    → s.full_screen ≡ some w
    → (is_on (first_audio (handle_audio_toggle_click s accepted).buttons) ≡ not b.audio_enabled)
      × (muted_of (handle_audio_toggle_click s accepted).video ≡ some b.audio_enabled)
      × (muted_of (handle_audio_toggle_click s accepted).full_screen ≡ some b.audio_enabled)
unfolding handle_audio_toggle_click toggle_on toggle_answered notice is_on
handle_audio_toggle_click-accepted s b v w eb ev ew =
    let first : is_on (first_audio s.buttons) ≡ b.audio_enabled = ap is_on eb in
    let n = not (is_on (first_audio s.buttons)) in
    let heard : some (not n) ≡ some b.audio_enabled =
      ap (λ x. some (not (not x))) first ∙ ap some (not-not b.audio_enabled) in
    (
      ap (λ o. is_on (first_audio (toggle_on s accepted o).buttons)) ev
          ∙ (sync-is_on s.buttons n b eb ∙ ap not first),
      ap (λ o. muted_of (toggle_on s accepted o).video) ev
          ∙ (ap (λ o. muted_of (switch_if n o)) ev ∙ (switch-muted n v ∙ heard)),
      ap (λ o. muted_of (toggle_on s accepted o).full_screen) ev
          ∙ (ap (λ o. muted_of (switch_if n o)) ew ∙ (switch-muted n w ∙ heard)),
    )

-- A button for the sound that was shut off before under the title that it has without sound, and is
-- shut off and freed again while the sound is on, bears that title, though its data says that it is on.
pub audio_title-stale :
    (b : Button)
    → b.kind ≡ audio
    → b.original_title ≡ audio_title false
    → ((apply_to_button true (apply_to_button false (sync_button true b))).title
        ≡ audio_title false)
      × ((apply_to_button true (apply_to_button false (sync_button true b))).audio_enabled ≡ true)
unfolding sync_button sync_by_kind apply_to_button apply_by_kind enable disable enabled_title
    includes_text
audio_title-stale b k o = rw (k, o) (refl, refl)
