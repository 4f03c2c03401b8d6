-- ===== src/Config.antt =====
-- The settings of coilmq/config/__init__.py: `config`, init_config and init_logging. Names is
-- resolve_name, Resolved what it finds.
pub mod Names
pub mod Resolved
use coilmq.Prelude.{
  ℕ, String, Bool, true, false, not, ◌&&◌, Option, none, some, Exec, Result, pure, raise, raise_if,
  modify, ◌>>=◌, ◌>>◌, if◌then◌else◌,
}
use coilmq.Dict.{or_else}
use coilmq.Text.{is_truthy}
use coilmq.Frame.{Error, value_error}

-- `configparser.ConfigParser`, and os.path.exists of the paths of files. `read` tells whether the
-- file could be opened; it raises for one that is no configuration. `fresh` is ConfigParser().
pub record Parser : Type 1 where
  pub Settings : Type 0
  pub Integer : Type 0
  pub exists : String → Bool
  pub fresh : Settings
  pub read : String → Exec Error Settings Bool
  pub has_section : Settings → String → Bool
  pub has_option : Settings → String → String → Bool
  pub get : Settings → String → String → Result Error String
  pub getint : Settings → String → String → Result Error Integer
  pub set : String → String → String → Exec Error Settings (Unit {0})

-- The calls of `logging` that set it up, or warn.
pub data LogCall : Type 0 where
  file_config : String → LogCall
  basic_config : Option String → ℕ → LogCall
  warn_conflict : LogCall

module _ (π : Parser) where
  -- path and os.path.exists(path)
  abbrev pub is_file : Option String → Bool
  is_file path = is_truthy path && π.exists (or_else path "")

  unfoldable pub init_config : Option String → Exec Error π.Settings (Unit {0})
  init_config config_file =
      if is_file config_file
      then (do read ← π.read (or_else config_file ""); raise_if (not read) value_error)
      else pure tt

  -- read and testcfg.has_section('loggers')
  abbrev pub has_loggers : Result Error Bool × π.Settings → Result Error Bool
  has_loggers (Result.ok read, testcfg) = Result.ok (read && π.has_section testcfg "loggers")
  has_loggers (Result.err e, testcfg) = Result.err e

  -- `use_configfile`
  abbrev pub configures_logging : Option String → Result Error Bool
  configures_logging configfile =
      if is_file configfile
      then has_loggers (π.read (or_else configfile "") π.fresh)
      else Result.ok false

module _ (π : Parser) {S : Type 0} (logging : LogCall → Exec Error S (Unit {0})) where
  -- The branches behind the test; `logging` makes a call.
  abbrev pub set_up :
      Result Error Bool → Option String → ℕ → Option String → Exec Error S (Unit {0})
  set_up (Result.err e) logfile loglevel configfile = raise e
  set_up (Result.ok true) logfile loglevel configfile = do
    logging (file_config (or_else configfile ""))
    if is_truthy logfile then logging warn_conflict else pure tt
  set_up (Result.ok false) logfile loglevel configfile =
      if is_truthy logfile
      then logging (basic_config logfile loglevel)
      else logging (basic_config none loglevel)

  unfoldable pub init_logging : Option String → ℕ → Option String → Exec Error S (Unit {0})
  init_logging logfile loglevel configfile =
      set_up (configures_logging π configfile) logfile loglevel configfile
