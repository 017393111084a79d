-- ===== src/Tests/Panel.antt =====
-- The buttons of a control panel at concrete inputs.
use ms_robot.Panel.Toggle.{audio_title-stale}
use ms_robot.Base.{some, true, false, refl, inl, [], ◌∷◌, codes, ◌≡◌, ◌++◌}
use ms_robot.Panel.{
  Button, Sound, sync_button, apply_to_button, audio_title, audio, plain, needs_connection,
  includes_text,
}
use ms_robot.Panel.Titles.{run, run-title}

abbrev home_button : Button
home_button = record {
  kind = plain;
  text = codes "H";
  title = codes "Home";
  original_title = [];
  disabled = true;
  audio_enabled = false;
}

-- The button for the sound, which was shut off before the first connection.
abbrev sound_button : Button
sound_button = record {
  kind = audio;
  text = codes "S";
  title = audio_title false;
  original_title = audio_title false;
  disabled = false;
  audio_enabled = false;
}

abbrev sound : Sound
sound = record {
  buttons = home_button ∷ sound_button ∷ [];
  video = some (record { muted = true; plays = 1 });
  full_screen = some (record { muted = true; plays = 1 });
  notices = [];
}

run-title_example :
    ((run home_button (false ∷ false ∷ true ∷ false ∷ [])).title ≡ codes "Home" ++ needs_connection)
    × ((run home_button (false ∷ false ∷ true ∷ false ∷ [])).disabled ≡ true)
unfolding includes_text
run-title_example =
    run-title (codes "Home") refl refl (false ∷ false ∷ true ∷ []) false home_button refl
      (inl (refl, inl refl))

audio_title-stale_example :
    ((apply_to_button true (apply_to_button false (sync_button true sound_button))).title
      ≡ audio_title false)
    × ((apply_to_button true (apply_to_button false (sync_button true sound_button))).audio_enabled
        ≡ true)
audio_title-stale_example = audio_title-stale sound_button refl refl
