-- ===== src/Terminal/Characters.antt =====
-- The characters of the token of the terminal.
use mini_sub2api.Base.{
  ℕ, ◌≡◌, refl, String, Bool, true, false, Option, none, some, List, [], ◌∷◌, all, codes,
  if◌then◌else◌, Bool-cases, inl, inr, All, All-append, All-of_all, ◌||◌, same_codes,
}
use mini_sub2api.Terminal.{
  is_safe, sanitize, named_with_version, is_some_text, non_empty, is_set, holds, program,
  with_version, detect_other, detect, contains,
}

abbrev pub Safe : ℕ → Type 0
Safe c = is_safe c ≡ true

-- A text, where there is one, has safe characters only.
abbrev pub AreSafe : Option (List ℕ) → Type 0
AreSafe none = Unit
AreSafe (some v) = All Safe v

sanitize-Safe : (v : List ℕ) → All Safe (sanitize v)
unfolding sanitize is_safe
sanitize-Safe [] = tt
sanitize-Safe (c ∷ cs) = elim (Bool-cases (is_safe c)) [
  | inl safe ↦ rw safe (safe, sanitize-Safe cs)
  | inr other ↦ rw other (underscore, sanitize-Safe cs)
]
  where
    underscore : Safe 95
    underscore = refl

named-Safe :
    (name : String) (version : Option (List ℕ))
    → All Safe (codes name)
    → AreSafe version
    → All Safe (named_with_version name version)
unfolding is_safe
named-Safe name none h k = h
named-Safe name (some v) h k = All-append Safe (codes name) (47 ∷ v) h (refl, k)

module _ (is_blank : List ℕ → Bool) (get : String → Option (List ℕ)) where
  non_empty-Safe : (name : String) → AreSafe (get name) → AreSafe (non_empty is_blank get name)
  unfolding non_empty
  non_empty-Safe name h = from (get name) h
    where
      from :
          (o : Option (List ℕ))
          → AreSafe o
          → AreSafe (elim o [ none ↦ none | some v ↦ if is_blank v then none else some v ])
      from none h = tt
      from (some v) h = elim (Bool-cases (is_blank v)) [
        | inl blank ↦ rw blank tt
        | inr full ↦ rw full h
      ]

  detect_other-Safe :
      AreSafe (get "WEZTERM_VERSION")
      → AreSafe (get "KONSOLE_VERSION")
      → AreSafe (get "VTE_VERSION")
      → All Safe (detect_other is_blank get)
  unfolding detect_other is_safe
  detect_other-Safe wezterm konsole vte =
      pick (is_some_text (non_empty is_blank get "GHOSTTY_RESOURCES_DIR")) _ _
        (literal "Ghostty" refl)
        (pick (is_set is_blank get "WEZTERM_VERSION") _ _
          (named-Safe "WezTerm" _ (literal "WezTerm" refl)
            (non_empty-Safe "WEZTERM_VERSION" wezterm))
          (pick
            (is_set is_blank get "ITERM_SESSION_ID"
              || (is_set is_blank get "ITERM_PROFILE" || is_set is_blank get "ITERM_PROFILE_NAME"))
            _ _ (literal "iTerm.app" refl)
            (pick (is_set is_blank get "TERM_SESSION_ID") _ _ (literal "Apple_Terminal" refl) (
              pick
                (is_set is_blank get "KITTY_WINDOW_ID"
                  || holds is_blank get "TERM" (contains (codes "kitty")))
                _ _ (literal "kitty" refl)
                (pick
                  (is_set is_blank get "ALACRITTY_SOCKET"
                    || holds is_blank get "TERM" (same_codes (codes "alacritty")))
                  _ _ (literal "Alacritty" refl)
                  (pick (is_set is_blank get "KONSOLE_VERSION") _ _
                    (named-Safe "Konsole" _ (literal "Konsole" refl)
                      (non_empty-Safe "KONSOLE_VERSION" konsole))
                    (pick (is_set is_blank get "GNOME_TERMINAL_SCREEN") _ _
                      (literal "gnome-terminal" refl)
                      (pick (is_set is_blank get "VTE_VERSION") _ _
                        (named-Safe "VTE" _ (literal "VTE" refl) (non_empty-Safe "VTE_VERSION" vte))
                        (pick (is_set is_blank get "WT_SESSION") _ _
                          (literal "WindowsTerminal" refl)
                          (term_token (non_empty is_blank get "TERM")))))))))))
    where
      pick : (b : Bool) (v w : List ℕ) → All Safe v → All Safe w → All Safe (if b then v else w)
      pick true v w h k = h
      pick false v w h k = k

      literal : (s : String) → all is_safe (codes s) ≡ true → All Safe (codes s)
      literal s h = All-of_all is_safe (codes s) h

      term_token :
          (o : Option (List ℕ))
          → All Safe (elim o [ none ↦ codes "unknown" | some term ↦ sanitize term ])
      term_token none = literal "unknown" refl
      term_token (some term) = sanitize-Safe term

  -- If the versions that WezTerm, Konsole and VTE report have safe characters only, so has the
  -- token, whatever else the environment holds: letters, digits, `-`, `_`, `.` and `/`.
  pub detect-Safe :
      AreSafe (get "WEZTERM_VERSION")
      → AreSafe (get "KONSOLE_VERSION")
      → AreSafe (get "VTE_VERSION")
      → All Safe (detect is_blank get)
  unfolding detect
  detect-Safe wezterm konsole vte = from (program is_blank get)
    where
      from :
          (o : Option (List ℕ))
          → All Safe (elim o [
            | none ↦ detect_other is_blank get
            | some name ↦
                sanitize
                  (with_version is_blank get name (non_empty is_blank get "TERM_PROGRAM_VERSION"))
          ])
      from none = detect_other-Safe wezterm konsole vte
      from (some name) = sanitize-Safe _
