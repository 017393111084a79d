-- ===== src/Panel/Titles.antt =====
-- The titles of buttons that are shut off and freed again.
use ms_robot.Base.{
  true, refl, [], ◌∷◌, arith, Str, starts_with, ◌≡◌, ◌++◌, false, inl, inr, truthy, ◌⊎◌, ap, List,
  Bool, or_else, ◌∙◌, or_else-truthy, if◌then◌else◌, not,
}
use ms_robot.Panel.{
  includes_text, Button, needs_connection, disable, enable, enabled_title, apply_to_button, Kind,
  exempt, apply_by_kind, audio, plain,
}

includes-append : (s t : Str) → starts_with t t ≡ true → includes_text (s ++ t) t ≡ true
unfolding includes_text
includes-append [] [] h = refl
includes-append [] (c ∷ t) h = ground (arith, h)
includes-append (d ∷ s) t h = ground (arith, includes-append s t h)

-- A button named `t`: under that title, as it is drawn first and while it works, or under the longer one
-- while it is shut off.
abbrev pub IsTitled : Str → Button → Type 0
IsTitled t b =
    ((b.title ≡ t) × ((b.original_title ≡ []) ⊎ (b.original_title ≡ t)))
    ⊎ ((b.disabled ≡ true) × (b.title ≡ t ++ needs_connection) × (b.original_title ≡ t))

-- The buttons that the connection matters to.
abbrev pub is_exempt : Kind → Bool
is_exempt exempt = true
is_exempt _ = false

-- A button that is told again and again whether it works.
pub run : Button → List Bool → Button
run b [] = b
run b (e ∷ es) = run (apply_to_button e b) es

module _ (t : Str) (named : truthy t ≡ true)
    (simple : includes_text t needs_connection ≡ false) where
  enabled_title_self : (s : Str) → enabled_title t s ≡ t
  unfolding enabled_title
  enabled_title_self s = ground (arith, named, simple)

  enable-IsTitled :
      (b : Button)
      → IsTitled t b
      → ((enable b).title ≡ t)
        × (((enable b).original_title ≡ []) ⊎ ((enable b).original_title ≡ t))
  unfolding enable
  enable-IsTitled b (inl (same, inl none_)) = (
    ap (λ o. enabled_title (or_else o b.title) b.title) none_
        ∙ (ap (λ s. enabled_title s b.title) same ∙ enabled_title_self b.title),
    inl none_,
  )
  enable-IsTitled b (inl (same, inr kept)) = (
    ap (λ o. enabled_title (or_else o b.title) b.title) kept
        ∙ (ap (λ s. enabled_title s b.title) (or_else-truthy t b.title named)
            ∙ enabled_title_self b.title),
    inr kept,
  )
  enable-IsTitled b (inr (shut, long, kept)) = (
    ap (λ o. enabled_title (or_else o b.title) b.title) kept
        ∙ (ap (λ s. enabled_title s b.title) (or_else-truthy t b.title named)
            ∙ enabled_title_self b.title),
    inr kept,
  )

  disable-IsTitled :
      (b : Button)
      → IsTitled t b
      → ((disable b).title ≡ t ++ needs_connection) × ((disable b).original_title ≡ t)
  unfolding disable
  disable-IsTitled b (inl (same, kept)) =
      (rw (same, simple) refl, elim kept [ inl e ↦ rw e same | inr e ↦ rw (e, named) refl ])
  disable-IsTitled b (inr (shut, long, kept)) =
      (rw (long, includes-append t needs_connection refl) refl, rw (kept, named) refl)

  -- What one update leaves of such a button.
  abbrev Updated : Bool → Button → Button → Type 0
  Updated e b c =
      IsTitled t c
      × (c.kind ≡ b.kind)
      × (c.title ≡ (if e then t else t ++ needs_connection))
      × (c.disabled ≡ not e)

  change-lem :
      (e : Bool) (b : Button) → IsTitled t b → Updated e b (if e then enable b else disable b)
  unfolding enable disable
  change-lem true b ok = let n = enable-IsTitled b ok in (inl (n.0, n.1), refl, n.0, refl)
  change-lem false b ok = let n = disable-IsTitled b ok in (inr (refl, n.0, n.1), refl, n.0, refl)

  kind-lem :
      (k : Kind) (e : Bool) (b : Button)
      → is_exempt k ≡ false
      → IsTitled t b
      → Updated e b (apply_by_kind k e b)
  unfolding apply_by_kind
  kind-lem exempt e b h ok = absurd (ground arith)
  kind-lem audio e b h ok = change-lem e b ok
  kind-lem plain e b h ok = change-lem e b ok

  step-lem :
      (e : Bool) (b : Button)
      → is_exempt b.kind ≡ false
      → IsTitled t b
      → Updated e b (apply_to_button e b)
  unfolding apply_to_button
  step-lem e b h ok = kind-lem b.kind e b h ok

  -- A button that depends on the connection, with a title `t` that is not empty and does not ask for one,
  -- drawn under `t` with no other title kept, or shut off with `t` kept: after any updates of which the
  -- last frees it, it bears `t` and works; if the last shuts it off, it bears `t` with the request behind
  -- it, once, and does not work.
  pub run-title :
      (es : List Bool) (e : Bool) (b : Button)
      → is_exempt b.kind ≡ false
      → IsTitled t b
      → ((run b (es ++ e ∷ [])).title ≡ (if e then t else t ++ needs_connection))
        × ((run b (es ++ e ∷ [])).disabled ≡ not e)
  unfolding run
  run-title [] e b h ok = let n = step-lem e b h ok in (n.2, n.3)
  run-title (d ∷ es) e b h ok =
      let n = step-lem d b h ok in run-title es e (apply_to_button d b) (ap is_exempt n.1 ∙ h) n.0
