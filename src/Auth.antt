-- ===== src/Auth.antt =====
-- SimpleAuthenticator of coilmq/auth/simple.py; its store is the section [auth] of a file. The ConfigParser
-- that reads the file is a parameter.

pub mod File
use coilmq.Prelude.{
  String, ◌≡◌, refl, Bool, true, false, ◌&&◌, Option, none, some, string_equality, ◌==◌, arith,
  eq_iff, ◌↔◌,
}
use coilmq.Dict.{Dict, get, has, or_else}
use coilmq.Dict.Laws.{beq_self}

-- `a == b`, where `b` may be None
abbrev equals : String → Option String → Bool
equals a none = false
equals a (some b) = a == b

-- `login in self.store and self.store[login] == passcode`; None is no key of the store.
unfoldable pub authenticate : Dict String String → Option String → Option String → Bool
authenticate store none passcode = false
authenticate store (some login) passcode =
    has store login && equals (or_else (get store login) "") passcode

module _ (store : Dict String String) where
  -- The login and the passcode are those of an entry of the store.
  abbrev pub IsKnown : Option String → Option String → Type 0
  IsKnown login passcode =
      (l : String) × (p : String) × (login ≡ some l) × (passcode ≡ some p) × (get store l ≡ some p)

  authenticate-IsKnown :
      (login passcode : Option String)
      → authenticate store login passcode ≡ true
      → IsKnown login passcode
  unfolding authenticate
  authenticate-IsKnown none passcode e = absurd (ground arith)
  authenticate-IsKnown (some l) none e = absurd (ground arith)
  authenticate-IsKnown (some l) (some p) e =
      (l, p, refl, refl, ground (arith, eq_iff (or_else (get store l) "") p))

  IsKnown-authenticate :
      (login passcode : Option String)
      → IsKnown login passcode
      → authenticate store login passcode ≡ true
  unfolding authenticate
  IsKnown-authenticate login passcode (l, p, at, given, found) = rw (at, given, found) (beq_self p)

  -- Exactly the logins of the store are accepted, each with its own passcode; neither the login nor
  -- the passcode may be missing.
  pub authenticate_lem :
      (login passcode : Option String)
      → (authenticate store login passcode ≡ true) ↔ IsKnown login passcode
  authenticate_lem login passcode =
      (authenticate-IsKnown login passcode, IsKnown-authenticate login passcode)
