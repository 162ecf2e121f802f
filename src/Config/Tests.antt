-- ===== src/Config/Tests.antt =====
-- A file system with one configuration file, two directories above the working directory.
use nea.Base.{◌≡◌, refl, Option, none, some, [], ◌∷◌, ◌++◌, ok, ◌&&◌, if◌then◌else◌}
use nea.Text.{Text, codes, same}
use nea.Config.{Config, Directory, default_config, config_file, load}
use nea.Config.Search.{stored, load_nearest}

abbrev home : Directory
home = codes "home" ∷ []

abbrev below : Directory
below = codes "src" ∷ codes "nea" ∷ []

abbrev files : Directory → Option Text
files [] = none
files (name ∷ []) = none
files (name ∷ dir ∷ []) =
    if same name (codes "config.toml") && same dir (codes "home")
    then some (codes "port = 80")
    else none
files (name ∷ dir ∷ up ∷ dirs) = none

abbrev toml : Text → Option Config
toml content = some (record default_config { port = 80 })

load_nearest_example :
    ((content : Text)
      → files (config_file home) ≡ some content
      → load files toml (some (below ++ home)) ≡ stored files toml (toml content))
    × (home ≡ []
        → files (config_file []) ≡ none
        → load files toml (some (below ++ home)) ≡ ok default_config)
load_nearest_example = load_nearest files toml below home (refl, (refl, tt))
