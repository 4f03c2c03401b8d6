-- ===== src/Auth/File.antt =====
-- make_simple and from_configfile of coilmq/auth/simple.py.
use coilmq.Prelude.{
  String, ◌≡◌, refl, sym, ap, ◌∙◌, Bool, true, false, not, Option, none, some, List, [], ◌∷◌, Exec,
  Result, err, ok, raise, modify, raise_if, ◌>>◌, ◌==◌, string_equality, if◌then◌else◌, ◌↔◌,
}
use coilmq.Dict.{Dict, get, put}
use coilmq.Dict.Laws.{get-put}
use coilmq.Text.{is_truthy}
use coilmq.Frame.{Error, value_error, config_error}
use coilmq.Auth.{authenticate, IsKnown, authenticate_lem}

-- `configparser.ConfigParser`: `read` is none for a file that it cannot open, and raises for one that
-- is no configuration. `items` are the options of the section, with the parser's own spelling and the
-- options of [DEFAULT]; it raises for a value whose references it cannot resolve.
pub record Parser : Type 1 where
  pub Config : Type 0
  pub read : String → Result Error (Option Config)
  pub has_section : Config → String → Bool
  pub items : Config → String → Result Error (List (String × String))

-- dict(pairs), put behind what `store` holds
unfoldable pub dict_of : Dict String String → List (String × String) → Dict String String
dict_of store [] = store
dict_of store ((key, value) ∷ pairs) = dict_of (put store key value) pairs

module _ (π : Parser) where
  -- self.store = dict(cfg.items('auth'))
  abbrev pub with_items :
      Result Error (List (String × String)) → Exec Error (Dict String String) (Unit {0})
  with_items (err e) = raise e
  with_items (ok pairs) = modify (λ store. dict_of [] pairs)

  -- What follows the reading of the file.
  abbrev pub with_config :
      Result Error (Option π.Config) → Exec Error (Dict String String) (Unit {0})
  with_config (err e) = raise e
  with_config (ok none) = raise value_error
  with_config (ok (some config)) = do
    raise_if (not (π.has_section config "auth")) value_error
    with_items (π.items config "auth")

  -- from_configfile, for the path of a file
  unfoldable pub from_configfile : String → Exec Error (Dict String String) (Unit {0})
  from_configfile path = with_config (π.read path)

  -- `authfile` is what config.get gives for auth.simple.file, which raises if the option is missing.
  abbrev pub with_authfile : Result Error String → Exec Error (Dict String String) (Unit {0})
  with_authfile (err e) = raise e
  with_authfile (ok authfile) = do
    raise_if (not (is_truthy (some authfile))) config_error
    from_configfile authfile

  -- The new authenticator's store.
  unfoldable pub make_simple : Result Error String → Exec Error (Dict String String) (Unit {0})
  make_simple authfile = with_authfile authfile

-- The value that stands last for a key.
abbrev pub last_of : List (String × String) → String → Option String
last_of [] key = none
last_of ((other, value) ∷ pairs) key =
    let later = last_of pairs key in
    elim later [ none ↦ if other == key then some value else none | some v ↦ some v ]

abbrev or_option : Option String → Option String → Option String
or_option none o = o
or_option (some v) o = some v

or_option-none : (o : Option String) → or_option o none ≡ o
or_option-none none = refl
or_option-none (some v) = refl

or_option-later :
    (o : Option String) (same : Bool) (value : String) (first : Option String)
    → or_option o (if same then some value else first)
      ≡ or_option (elim o [ none ↦ if same then some value else none | some v ↦ some v ]) first
or_option-later none true value first = refl
or_option-later none false value first = refl
or_option-later (some v) same value first = refl

get-dict_of_from :
    (store : Dict String String) (pairs : List (String × String)) (key : String)
    → get (dict_of store pairs) key ≡ or_option (last_of pairs key) (get store key)
unfolding dict_of
get-dict_of_from store [] key = refl
get-dict_of_from store ((other, value) ∷ pairs) key =
    get-dict_of_from (put store other value) pairs key
    ∙ (ap (or_option (last_of pairs key)) (get-put store other key value)
        ∙ or_option-later (last_of pairs key) (other == key) value (get store key))

get-dict_of :
    (pairs : List (String × String)) (key : String) → get (dict_of [] pairs) key ≡ last_of pairs key
unfolding get
get-dict_of pairs key = get-dict_of_from [] pairs key ∙ or_option-none (last_of pairs key)

-- The login's last entry is the passcode.
abbrev pub IsListed : List (String × String) → Option String → Option String → Type 0
IsListed pairs login passcode =
    (l : String) × (p : String) × (login ≡ some l)
    × (passcode ≡ some p)
    × (last_of pairs l ≡ some p)

IsKnown-IsListed :
    (pairs : List (String × String)) (login passcode : Option String)
    → IsKnown (dict_of [] pairs) login passcode ↔ IsListed pairs login passcode
IsKnown-IsListed pairs login passcode = (
  λ (l, p, at, given, found). (l, p, at, given, sym (get-dict_of pairs l) ∙ found),
  λ (l, p, at, given, found). (l, p, at, given, get-dict_of pairs l ∙ found),
)

-- If ConfigParser reads the file, which has a section [auth], and gives the options of this section,
-- then `make_simple` makes an authenticator that accepts exactly these options as logins, as the parser
-- spells them, each with the value that stands last for it as the passcode; neither the login nor the
-- passcode may be missing. If the parser raises instead for the file or for the section, so does
-- `make_simple`, and the store stays as it is.
pub make_simple-authenticate :
    (π : Parser) (file : String) (login passcode : Option String) (store : Dict String String)
    → is_truthy (some file) ≡ true
    → ((config : π.Config) (pairs : List (String × String))
        → π.read file ≡ ok (some config)
        → π.has_section config "auth" ≡ true
        → π.items config "auth" ≡ ok pairs
        → (store' : Dict String String) × (make_simple π (ok file) store ≡ (ok tt, store'))
          × ((authenticate store' login passcode ≡ true) ↔ IsListed pairs login passcode))
      × ((e : Error) → π.read file ≡ err e → make_simple π (ok file) store ≡ (err e, store))
      × ((config : π.Config) (e : Error)
          → π.read file ≡ ok (some config)
          → π.has_section config "auth" ≡ true
          → π.items config "auth" ≡ err e
          → make_simple π (ok file) store ≡ (err e, store))
unfolding make_simple from_configfile
make_simple-authenticate π file login passcode store named = (
  λ config pairs found within listed.
      let accepted = authenticate_lem (dict_of [] pairs) login passcode in
      let known = IsKnown-IsListed pairs login passcode in
      (
        dict_of [] pairs,
        rw (named, found, within, listed) refl,
        (λ e. known.0 (accepted.0 e), λ u. accepted.1 (known.1 u)),
      ),
  λ e bad. rw (named, bad) refl,
  λ config e found within bad. rw (named, found, within, bad) refl,
)
