-- ===== src/Store/Dbm/Make.antt =====
-- make_dbm of coilmq/store/dbm.py.
use coilmq.Prelude.{
  false, ◌&&◌, arith, String, ◌≡◌, refl, Bool, not, Result, ok, err, if◌then◌else◌,
}
use coilmq.Frame.{Error, attribute_error, config_error}
use coilmq.Config.{Parser}

-- What a DbmQueue is made with.
pub record Arguments (N : Type 0) : Type 0 where
  pub data_dir : String
  pub checkpoint_operations : N
  pub checkpoint_timeout : N

-- `accessible` is os.access(path, os.W_OK | os.R_OK).
module _ (π : Parser) (accessible : String → Bool) where
  -- The lines of the `try`. Its `except` asks the class ConfigParser for NoOptionError, which it does
  -- not have, whatever was raised.
  abbrev pub or_no_attribute :
      {A B : Type 0} → Result Error A → (A → Result Error B) → Result Error B
  or_no_attribute (ok a) f = f a
  or_no_attribute (err e) f = err (attribute_error "NoOptionError")

  abbrev pub checked : Arguments π.Integer → Result Error (Arguments π.Integer)
  checked arguments =
      if not (π.exists arguments.data_dir)
      then err config_error
      else if not (accessible arguments.data_dir)
      then err config_error
      else ok arguments

  unfoldable pub make_dbm : π.Settings → Result Error (Arguments π.Integer)
  make_dbm config = or_no_attribute (π.get config "coilmq" "qstore.dbm.data_dir") (λ data_dir.
      or_no_attribute (π.getint config "coilmq" "qstore.dbm.checkpoint_operations") (λ cp_ops.
        or_no_attribute (π.getint config "coilmq" "qstore.dbm.checkpoint_timeout") (λ cp_timeout.
          checked (record {
            data_dir = data_dir;
            checkpoint_operations = cp_ops;
            checkpoint_timeout = cp_timeout;
          }))))

  or_no_attribute-config_error :
      {A B : Type 0} (r : Result Error A) (f : A → Result Error B)
      → or_no_attribute r f ≡ err config_error
      → (a : A) × (r ≡ ok a) × (f a ≡ err config_error)
  or_no_attribute-config_error (ok a) f e = (a, refl, e)
  or_no_attribute-config_error (err x) f e = absurd (ground arith)

  -- make_dbm raises its ConfigError for the directory alone: all three options were there.
  pub make_dbm-config_error :
      (config : π.Settings)
      → make_dbm config ≡ err config_error
      → (arguments : Arguments π.Integer) × (π.get config "coilmq" "qstore.dbm.data_dir"
          ≡ ok arguments.data_dir)
        × (π.getint config "coilmq" "qstore.dbm.checkpoint_operations"
            ≡ ok arguments.checkpoint_operations)
        × (π.getint config "coilmq" "qstore.dbm.checkpoint_timeout"
            ≡ ok arguments.checkpoint_timeout)
        × ((π.exists arguments.data_dir && accessible arguments.data_dir) ≡ false)
  unfolding make_dbm
  make_dbm-config_error config e =
      let (data_dir, at_dir, e1) =
        or_no_attribute-config_error (π.get config "coilmq" "qstore.dbm.data_dir") _ e in
      let (ops, at_ops, e2) =
        or_no_attribute-config_error (π.getint config "coilmq" "qstore.dbm.checkpoint_operations") _
          e1 in
      let (timeout, at_timeout, e3) =
        or_no_attribute-config_error (π.getint config "coilmq" "qstore.dbm.checkpoint_timeout") _
          e2 in
      (
        record { data_dir = data_dir; checkpoint_operations = ops; checkpoint_timeout = timeout },
        at_dir,
        at_ops,
        at_timeout,
        ground arith,
      )
