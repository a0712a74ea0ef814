-- ===== src/Terminal.antt =====
-- src/core/codex/src/terminal_detection.rs: the token of the terminal in the user agent. Texts are
-- lists of code points, the environment is a function, and whether a text is blank is a parameter.
pub mod Characters
use mini_sub2api.Base.{
  ℕ, String, Bool, true, false, not, ◌&&◌, ◌||◌, Option, none, some, List, [], ◌∷◌, ◌++◌, map, any,
  codes, to_ascii_lowercase, same_codes, leb, ◌==◌, if◌then◌else◌,
}

abbrev pub is_ascii_alphanumeric : ℕ → Bool
is_ascii_alphanumeric c =
    (leb 48 c && leb c 57) || ((leb 65 c && leb c 90) || (leb 97 c && leb c 122))

-- A letter, a digit, or one of `-`, `_`, `.` and `/`.
unfoldable pub is_safe : ℕ → Bool
is_safe c = is_ascii_alphanumeric c || any (λ d. c == d) (45 ∷ 95 ∷ 46 ∷ 47 ∷ [])

unfoldable pub sanitize : List ℕ → List ℕ
sanitize value = map (λ c. if is_safe c then c else 95) value

abbrev pub named_with_version : String → Option (List ℕ) → List ℕ
named_with_version name none = codes name
named_with_version name (some version) = codes name ++ 47 ∷ version

abbrev pub starts_with : List ℕ → List ℕ → Bool
starts_with [] cs = true
starts_with (p ∷ ps) [] = false
starts_with (p ∷ ps) (c ∷ cs) = (p == c) && starts_with ps cs

-- `str::contains`
abbrev pub contains : List ℕ → List ℕ → Bool
contains part [] = starts_with part []
contains part (c ∷ cs) = starts_with part (c ∷ cs) || contains part cs

abbrev pub is_some_text : Option (List ℕ) → Bool
is_some_text none = false
is_some_text (some _) = true

module _ (is_blank : List ℕ → Bool) (get : String → Option (List ℕ)) where
  unfoldable pub non_empty : String → Option (List ℕ)
  non_empty name = elim (get name) [ none ↦ none | some v ↦ if is_blank v then none else some v ]

  abbrev pub is_set : String → Bool
  is_set name = elim (get name) [ none ↦ false | some _ ↦ true ]

  abbrev pub holds : String → (List ℕ → Bool) → Bool
  holds name test = elim (get name) [ none ↦ false | some v ↦ test v ]

  -- `TERM_PROGRAM`, unless it is `tmux` in any case.
  unfoldable pub program : Option (List ℕ)
  program = elim (non_empty "TERM_PROGRAM") [
    | none ↦ none
    | some v ↦ if same_codes (map to_ascii_lowercase v) (codes "tmux") then none else some v
  ]

  -- `format!("{program}/{version}")`, without a version just the program.
  abbrev pub with_version : List ℕ → Option (List ℕ) → List ℕ
  with_version name none = name
  with_version name (some version) = name ++ 47 ∷ version

  -- The tests behind the one for `TERM_PROGRAM`.
  unfoldable pub detect_other : List ℕ
  detect_other =
      if is_some_text (non_empty "GHOSTTY_RESOURCES_DIR")
      then codes "Ghostty"
      else if is_set "WEZTERM_VERSION"
      then named_with_version "WezTerm" (non_empty "WEZTERM_VERSION")
      else if is_set "ITERM_SESSION_ID" || (is_set "ITERM_PROFILE" || is_set "ITERM_PROFILE_NAME")
      then codes "iTerm.app"
      else if is_set "TERM_SESSION_ID"
      then codes "Apple_Terminal"
      else if is_set "KITTY_WINDOW_ID" || holds "TERM" (contains (codes "kitty"))
      then codes "kitty"
      else if is_set "ALACRITTY_SOCKET" || holds "TERM" (same_codes (codes "alacritty"))
      then codes "Alacritty"
      else if is_set "KONSOLE_VERSION"
      then named_with_version "Konsole" (non_empty "KONSOLE_VERSION")
      else if is_set "GNOME_TERMINAL_SCREEN"
      then codes "gnome-terminal"
      else if is_set "VTE_VERSION"
      then named_with_version "VTE" (non_empty "VTE_VERSION")
      else if is_set "WT_SESSION"
      then codes "WindowsTerminal"
      else elim (non_empty "TERM") [ none ↦ codes "unknown" | some term ↦ sanitize term ]

  unfoldable pub detect : List ℕ
  unfolding program detect_other
  detect = elim program [
    | none ↦ detect_other
    | some name ↦ sanitize (with_version name (non_empty "TERM_PROGRAM_VERSION"))
  ]
