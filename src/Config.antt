-- ===== src/Config.antt =====
-- nea/src/config.rs: the search for the configuration file, upwards from the working directory. The
-- files that can be read, the parser of TOML and the working directory are parameters.
pub mod Search
mod Tests
use nea.Base.{ℕ, Option, none, some, List, [], ◌∷◌, Result, ok, panic, ◌>>=◌, unwrap_failed}
use nea.Text.{Text, codes}
use nea.Index.{IoResources, default_resources}

-- A path as its components, the last one first; the root has none.
abbrev pub Directory : Type 0
Directory = List Text

pub record Config : Type 0 where
  pub host : Text
  pub port : ℕ
  pub bucket_count : ℕ
  pub io_resources : IoResources

abbrev pub default_config : Config
default_config = record {
  host = codes "127.0.0.1";
  port = 8080;
  bucket_count = 64;
  io_resources = default_resources;
}

abbrev pub config_file : Directory → Directory
config_file dir = codes "config.toml" ∷ dir

-- A file that is no configuration is a panic.
abbrev pub expect : Option Config → Result (Option Config)
expect none = panic unwrap_failed
expect (some config) = ok (some config)

abbrev pub or_default : Option Config → Config
or_default none = default_config
or_default (some config) = config

module _ (read_to_string : Directory → Option Text) (from_str : Text → Option Config) where
  abbrev pub or_above : Option Text → Result (Option Config) → Result (Option Config)
  or_above none above = above
  or_above (some content) above = expect (from_str content)

  -- The loop of `load_config`, from a directory on.
  pub search : Directory → Result (Option Config)
  search [] = or_above (read_to_string (config_file [])) (ok none)
  search (name ∷ parent) = or_above (read_to_string (config_file (name ∷ parent))) (search parent)

  pub load_config : Option Directory → Result (Option Config)
  load_config none = ok none
  load_config (some working_dir) = search working_dir

  -- What `load` stores on its first call.
  pub load : Option Directory → Result Config
  load current_dir = load_config current_dir >>= λ found. ok (or_default found)
