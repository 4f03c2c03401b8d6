-- ===== src/Wire/Head.antt =====
-- The head of a frame, written and read again (coilmq/util/frames.py, pack and parse_headers).
use mathlib.Core.List.{append_assoc, append-nil}
use coilmq.Prelude.{
  suc, ◌<◌, ◌≡◌, refl, sym, ap, ◌∙◌, arith, none, some, List, [], ◌∷◌, ◌++◌, map, ok, length,
  length-append, bind-continue, ◌==◌, Bool-cases, inl, inr,
}
use coilmq.Dict.{Dict, get, put}
use coilmq.Dict.Laws.{IsDict, beq_self}
use coilmq.Wire.Bytes.{Bytes, Text, text_equality, split, split_from}
use coilmq.Wire.Stream.{Stream, remaining}
use coilmq.Wire.Lines.{Avoids, IsLine, AreLines, lines_text, preamble-lines}
use coilmq.Wire.Parse.{
  preamble, pair_of, add_pair, header_pairs, ordered_dict, command_and_headers, parse_headers,
}
use coilmq.Wire.Pack.{header_lines}

-- `key:value`
abbrev pub header_line : Text × Text → Text
header_line (key, value) = key ++ (58 ∷ value)

-- A header that is read as it was written: one line with one colon.
pub record IsHeader (h : Text × Text) : Type 0 where
  pub line : IsLine (header_line h)
  pub key_plain : Avoids 58 h.0
  pub value_plain : Avoids 58 h.1

abbrev pub AreHeaders : Dict Text Text → Type 0
AreHeaders [] = Unit {0}
AreHeaders (h ∷ headers) = IsHeader h × AreHeaders headers

split_from-plain : (piece s : Text) → Avoids 58 s → split_from 58 piece s ≡ (piece ++ s) ∷ []
unfolding split_from
split_from-plain piece [] u = ap (λ t. t ∷ []) (sym (append-nil piece))
split_from-plain piece (c ∷ s) (u, us) =
    rw u
      (split_from-plain (piece ++ (c ∷ [])) s us ∙ ap (λ t. t ∷ []) (append_assoc piece (c ∷ []) s))

split_from-pair :
    (piece s t : Text)
    → Avoids 58 s
    → split_from 58 piece (s ++ (58 ∷ t)) ≡ (piece ++ s) ∷ split_from 58 [] t
unfolding split_from
split_from-pair piece [] t u = ap (λ p. p ∷ split_from 58 [] t) (sym (append-nil piece))
split_from-pair piece (c ∷ s) t (u, us) = rw u (
    split_from-pair (piece ++ (c ∷ [])) s t us
    ∙ ap (λ p. p ∷ split_from 58 [] t) (append_assoc piece (c ∷ []) s))

pair_of-split : (h : Text × Text) → IsHeader h → pair_of (split 58 (header_line h)) ≡ some h
pair_of-split (key, value) header = ap pair_of (
    split_from-pair [] key value header.key_plain
    ∙ ap (λ l. key ∷ l) (split_from-plain [] value header.value_plain))

header_pairs-lines :
    (headers : Dict Text Text)
    → AreHeaders headers
    → header_pairs (map header_line headers) ≡ some headers
unfolding header_pairs
header_pairs-lines [] u = refl
header_pairs-lines (h ∷ headers) (u, us) =
    ap (λ p. add_pair p (header_pairs (map header_line headers))) (pair_of-split h u)
    ∙ ap (add_pair (some h)) (header_pairs-lines headers us)

get-append_ne : (d e : Dict Text Text) (k v : Text) → get (d ++ ((k, v) ∷ e)) k ≡ none → ⊥
unfolding get
get-append_ne [] e k v h = ground (arith, beq_self k)
get-append_ne ((i, w) ∷ d) e k v h = ground (arith, get-append_ne d e k v)

put_new :
    (d e : Dict Text Text) (k v : Text)
    → IsDict (d ++ ((k, v) ∷ e))
    → put d k v ≡ d ++ ((k, v) ∷ [])
unfolding put get
put_new [] e k v u = refl
put_new ((j, w) ∷ d) e k v (u, us) = elim (Bool-cases (j == k)) [
  | inl same ↦ absurd (
      get-append_ne d e k v
        (ap (get (d ++ ((k, v) ∷ e))) (sym ((text_equality.test_iff j k).1 same)) ∙ u))
  | inr other ↦ rw other (ap (λ l. (j, w) ∷ l) (put_new d e k v us))
]

ordered_dict-append :
    (d headers : Dict Text Text) → IsDict (d ++ headers) → ordered_dict d headers ≡ d ++ headers
unfolding ordered_dict
ordered_dict-append d [] u = sym (append-nil d)
ordered_dict-append d ((k, v) ∷ headers) u =
    let whole : (d ++ ((k, v) ∷ [])) ++ headers ≡ d ++ ((k, v) ∷ headers) =
      append_assoc d ((k, v) ∷ []) headers in
    ap (λ e. ordered_dict e headers) (put_new d headers k v u)
    ∙ (ordered_dict-append (d ++ ((k, v) ∷ [])) headers (rw whole u) ∙ whole)

lines_text-header_lines :
    (headers : Dict Text Text) → lines_text (map header_line headers) ≡ header_lines headers
unfolding header_lines
lines_text-header_lines [] = refl
lines_text-header_lines ((key, value) ∷ headers) =
    append_assoc key (58 ∷ value) (10 ∷ lines_text (map header_line headers))
    ∙ ap (λ t. key ++ (58 ∷ value ++ (10 ∷ t))) (lines_text-header_lines headers)

AreLines-header_line :
    (headers : Dict Text Text) → AreHeaders headers → AreLines (map header_line headers)
AreLines-header_line [] u = tt
AreLines-header_line (h ∷ headers) (u, us) = (u.line, AreLines-header_line headers us)

-- Each line takes a byte at least.
pub length-lines_text :
    (ls : List Text) (rest : Bytes) → length ls < suc (length (lines_text ls ++ rest))
length-lines_text [] rest = omega arith
length-lines_text (l ∷ ls) rest =
    rw (append_assoc l (10 ∷ lines_text ls) rest, length-append l (10 ∷ (lines_text ls ++ rest)))
      (omega (arith, length-lines_text ls rest))

command_and_headers-lines :
    (cmd : Text) (headers : Dict Text Text) (b : Stream)
    → AreHeaders headers
    → IsDict headers
    → command_and_headers (cmd ∷ map header_line headers) b ≡ (ok (cmd, headers), b)
command_and_headers-lines cmd headers b plain unique =
    rw (header_pairs-lines headers plain)
      (ap (λ d. (ok (cmd, d), b)) (ordered_dict-append [] headers unique))

-- The head of a frame is parsed as it was written, whatever comes behind it.
pub parse_headers-head :
    (cmd : Text) (headers : Dict Text Text) (b : Stream) (rest : Bytes)
    → IsLine cmd
    → AreHeaders headers
    → IsDict headers
    → remaining b ≡ (cmd ++ (10 ∷ header_lines headers)) ++ (10 ∷ rest)
    → (b' : Stream) × (parse_headers b ≡ (ok (cmd, headers), b'))
      × (remaining b' ≡ rest)
      × (b'.contents ≡ b.contents)
unfolding parse_headers
parse_headers-head cmd headers b rest line plain unique e =
    let ls : List Text = cmd ∷ map header_line headers in
    let whole : remaining b ≡ lines_text ls ++ (10 ∷ rest) =
      e ∙ ap (λ t. (cmd ++ (10 ∷ t)) ++ (10 ∷ rest)) (sym (lines_text-header_lines headers)) in
    let (b', done, left, same) =
      preamble-lines (suc (length (remaining b))) ls b rest
        (rw whole (length-lines_text ls (10 ∷ rest))) (line, AreLines-header_line headers plain)
        whole in
    (
      b',
      bind-continue (preamble (suc (length (remaining b)))) command_and_headers b (ok ls, b') done
          ∙ command_and_headers-lines cmd headers b' plain unique,
      left,
      same,
    )
