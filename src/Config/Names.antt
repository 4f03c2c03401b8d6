-- ===== src/Config/Names.antt =====
-- resolve_name of coilmq/config/__init__.py. The import system of Python is a parameter.
use Prim.Native.Char.{Char, code}
use Prim.Native.String as Str
use Prim.Native.String.{◌∷◌}
use coilmq.Prelude.{
  ℕ, String, Bool, false, ◌||◌, Option, none, some, List, Exec, pure, raise, ◌>>=◌, ◌>>◌, nat_beq,
  if◌then◌else◌,
}
use coilmq.Text.{◌+s◌}
use coilmq.Frame.{Error, attribute_error, type_error}

-- `__import__(name)` may load modules and run their code; it gives the top-level package of the
-- name. `attribute` is getattr, none for an AttributeError.
pub record Importer : Type 1 where
  pub Modules : Type 0
  pub Object : Type 0
  pub load : String → Exec Error Modules Object
  pub attribute : Modules → Object → String → Option Object

-- separator in name
abbrev pub mentions : ℕ → String → Bool
mentions separator Str.[] = false
mentions separator (c ∷ name) = nat_beq (code c) separator || mentions separator name

abbrev pub longer : Char → List String → List String
longer c List.[] = List.◌∷◌ (c ∷ Str.[]) List.[]
longer c (List.◌∷◌ word words) = List.◌∷◌ (c ∷ word) words

-- name.split(separator)
unfoldable pub split : ℕ → String → List String
split separator Str.[] = List.◌∷◌ Str.[] List.[]
split separator (c ∷ name) =
    let words = split separator name in
    if nat_beq (code c) separator then List.◌∷◌ Str.[] words else longer c words

abbrev pub colon : ℕ
colon = 58

abbrev pub dot : ℕ
dot = 46

-- `'%s.%s' % tuple(words)`
abbrev pub two_words : {S : Type 0} → List String → Exec Error S String
two_words (List.◌∷◌ path (List.◌∷◌ method List.[])) = pure (path +s ("." +s method))
two_words words = raise type_error

-- Only a name with a colon is rewritten.
abbrev pub dotted : {S : Type 0} → String → Exec Error S String
dotted name = if mentions colon name then two_words (split colon name) else pure name

module _ (ι : Importer) where
  abbrev pub Lookup : Type 0
  Lookup = Exec Error ι.Modules ι.Object

  abbrev pub or_missing : Option ι.Object → String → Lookup
  or_missing none n = raise (attribute_error n)
  or_missing (some found) n = pure found

  -- getattr(found, n)
  abbrev pub get_attribute : ι.Object → String → Lookup
  get_attribute found n s = or_missing (ι.attribute s found n) n s

  -- The `except AttributeError`: the module may not have been loaded yet.
  abbrev pub or_load : Option ι.Object → ι.Object → String → String → Lookup
  or_load none found used n = do ι.load used; get_attribute found n
  or_load (some inner) found used n = pure inner

  -- One round of the loop, for the path `used` up to `n`.
  unfoldable pub member : ι.Object → String → String → Lookup
  member found used n s = or_load (ι.attribute s found n) found used n s

  -- `for n in name`
  unfoldable pub members : String → ι.Object → List String → Lookup
  unfolding member
  members used found List.[] = pure found
  members used found (List.◌∷◌ n names) = do
    inner ← member found (used +s ("." +s n)) n
    members (used +s ("." +s n)) inner names

  -- `used = name.pop(0)` and the lines after it; a split has a word at least.
  abbrev pub from_root : List String → Lookup
  from_root List.[] = raise type_error
  from_root (List.◌∷◌ used names) = do found ← ι.load used; members used found names

  abbrev pub resolve_dotted : String → Lookup
  resolve_dotted name = from_root (split dot name)

  unfoldable pub resolve_name : String → Lookup
  unfolding split
  resolve_name name = do path ← dotted name; resolve_dotted path
