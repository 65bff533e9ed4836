-- ===== src/MediaHelp.antt =====
-- static/media-help.js: what to tell someone whose browser refused the camera or microphone. A key of
-- a text, such as `mediaHelp.step.site`, is a constructor, its last part that varies an argument.
pub mod Blocked
pub mod Tests
use sozvon.Base.{
  Bool, true, false, ◌||◌, ◌&&◌, not, Option, none, some, List, [], ◌∷◌, ◌++◌, if◌then◌else◌,
}

pub data Kind : Type 0 where
  audio video both : Kind

pub data Os : Type 0 where
  android ios windows mac other : Os

pub data App : Type 0 where
  android_app desktop_app : App

pub record Platform : Type 0 where
  pub os : Os
  pub app : Option App

-- `PermissionStatus.state`
pub data State : Type 0 where
  denied granted prompt : State

abbrev pub is_denied : Option State → Bool
is_denied (some denied) = true
is_denied _ = false

abbrev pub is_granted : Option State → Bool
is_granted (some granted) = true
is_granted _ = false

unfoldable pub some_denied : List (Option State) → Bool
some_denied [] = false
some_denied (s ∷ states) = is_denied s || some_denied states

unfoldable pub every_granted : List (Option State) → Bool
every_granted [] = true
every_granted (s ∷ states) = is_granted s && every_granted states

abbrev pub is_empty : List (Option State) → Bool
is_empty [] = true
is_empty _ = false

unfoldable pub combine_states : List (Option State) → Option State
combine_states states =
    if some_denied states
    then some denied
    else if not (is_empty states) && every_granted states
    then some granted
    else none

pub data SettingPath : Type 0 where
  path_android path_ios path_desktop : SettingPath

pub data Key : Type 0 where
  reason_app reason_system_app reason_blocked reason_system reason_dismissed : Key
  step_retry_allow step_app_settings step_site step_overlay step_or_site : Key
  step_system : Os → Key

-- The parameters of a line; the device and the section are those of a kind.
pub record Line : Type 0 where
  pub key : Key
  pub device : Option Kind
  pub section : Option Kind
  pub path : Option SettingPath

abbrev pub line : Key → Line
line key = record { key = key; device = none; section = none; path = none }

abbrev pub in_section : Key → Kind → Line
in_section key kind = record { key = key; device = none; section = some kind; path = none }

abbrev pub on_site : Key → Kind → SettingPath → Line
on_site key kind path = record { key = key; device = some kind; section = none; path = some path }

pub record Advice : Type 0 where
  pub title : Kind
  pub reason : Line
  pub steps : List Line

abbrev pub system_step : Os → Kind → Line
system_step os section = in_section (step_system os) section

abbrev pub path_of : Os → SettingPath
path_of android = path_android
path_of ios = path_ios
path_of _ = path_desktop

abbrev pub is_android : Os → Bool
is_android android = true
is_android _ = false

-- `advice`, in a browser.
unfoldable pub browser_advice : Kind → Option State → Os → Advice
browser_advice kind (some denied) os = record {
  title = kind;
  reason = line reason_blocked;
  steps = on_site step_site kind (path_of os) ∷ [];
}
browser_advice kind (some granted) os = record {
  title = kind;
  reason = line reason_system;
  steps = system_step os kind ∷ [];
}
browser_advice kind _ os = record {
  title = kind;
  reason = line reason_dismissed;
  steps =
      line step_retry_allow ∷ (if is_android os then line step_overlay ∷ [] else [])
      ++ on_site step_or_site kind (path_of os) ∷ [];
}

unfoldable pub advice : Kind → Option State → Platform → Advice
unfolding browser_advice
advice kind state platform = elim platform.app [
  | none ↦ browser_advice kind state platform.os
  | some android_app ↦ record {
    title = kind;
    reason = line reason_app;
    steps = line step_retry_allow ∷ in_section step_app_settings kind ∷ [];
  }
  | some desktop_app ↦ record {
    title = kind;
    reason = line reason_system_app;
    steps = system_step platform.os kind ∷ [];
  }
]
