-- ===== src/Config/Search.antt =====
-- nea/src/config.rs: which file is read.
use nea.Base.{◌≡◌, refl, Option, none, some, [], ◌∷◌, ◌++◌, Result, ok, panic, ◌>>=◌, unwrap_failed}
use nea.Text.{Text}
use nea.Config.{
  Config, Directory, default_config, config_file, expect, search, or_default, load_config, load,
}

module _ (read_to_string : Directory → Option Text) (from_str : Text → Option Config) where
  -- No file is in the directories from `below ++ above` up to, but without, `above`.
  abbrev pub NoFile : Directory → Directory → Type 0
  NoFile [] above = Unit
  NoFile (name ∷ below) above =
      (read_to_string (config_file ((name ∷ below) ++ above)) ≡ none) × NoFile below above

  -- What comes of the content of a file.
  abbrev pub stored : Option Config → Result Config
  stored none = panic unwrap_failed
  stored (some config) = ok config

  search_above :
      (below above : Directory)
      → NoFile below above
      → search read_to_string from_str (below ++ above) ≡ search read_to_string from_str above
  unfolding search
  search_above [] above h = refl
  search_above (name ∷ below) above (here, h) = rw here (search_above below above h)

  search_here :
      (dir : Directory) (content : Text)
      → read_to_string (config_file dir) ≡ some content
      → search read_to_string from_str dir ≡ expect (from_str content)
  unfolding search
  search_here [] content e = rw e refl
  search_here (name ∷ dir) content e = rw e refl

  search_nowhere :
      read_to_string (config_file []) ≡ none → search read_to_string from_str [] ≡ ok none
  unfolding search
  search_nowhere e = rw e refl

  stored-expect : (o : Option Config) → (expect o >>= λ found. ok (or_default found)) ≡ stored o
  stored-expect none = refl
  stored-expect (some config) = refl

  -- When no directory from the working directory up to one above it has a configuration file, the
  -- file of that one is read if it has one, and its configuration is stored, or the program panics
  -- if it is none; if that one is the root and has none, the default is stored.
  pub load_nearest :
      (below above : Directory)
      → NoFile below above
      → ((content : Text)
          → read_to_string (config_file above) ≡ some content
          → load read_to_string from_str (some (below ++ above)) ≡ stored (from_str content))
        × (above ≡ []
            → read_to_string (config_file []) ≡ none
            → load read_to_string from_str (some (below ++ above)) ≡ ok default_config)
  unfolding load load_config
  load_nearest below above h = (
    λ content e.
        rw (search_above below above h)
          (rw (search_here above content e) (stored-expect (from_str content))),
    λ root e. rw (search_above below above h) (rw root (rw (search_nowhere e) refl)),
  )
