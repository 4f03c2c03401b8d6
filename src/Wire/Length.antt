-- ===== src/Wire/Length.antt =====
-- The content-length header that a frame gets when it is packed (coilmq/util/frames.py, Frame.pack).
use mathlib.Core.List.{reverse, reverse-append, reverse-cons}
use coilmq.Prelude.{
  ℕ, ◌+◌, ◌≡◌, refl, arith, false, [], ◌∷◌, ◌++◌, is_empty, ◌==◌, Bool-cases, inl, inr,
}
use coilmq.Dict.{Dict, put}
use coilmq.Wire.Bytes.{Text, text_equality, decimal}
use coilmq.Wire.Lines.{Avoids, IsAscii, starts_with_space}
use coilmq.Wire.Number.{
  AreDigits, decimal_from-AreDigits, decimal-filled, reverse-AreDigits, is_empty-append,
}
use coilmq.Wire.Head.{IsHeader, AreHeaders}
use coilmq.Wire.Parse.{content_length}

pub IsAscii-append : (s t : Text) → IsAscii s → IsAscii t → IsAscii (s ++ t)
IsAscii-append [] t u v = v
IsAscii-append (c ∷ s) t (lo, u) v = (lo, IsAscii-append s t u v)

Avoids-append : (c : ℕ) (s t : Text) → Avoids c s → Avoids c t → Avoids c (s ++ t)
Avoids-append c [] t u v = v
Avoids-append c (x ∷ s) t (here, u) v = (here, Avoids-append c s t u v)

AreDigits-IsAscii : (s : Text) → AreDigits s → IsAscii s
AreDigits-IsAscii [] u = tt
AreDigits-IsAscii (c ∷ s) (lo, hi, u) = (omega (arith, hi), AreDigits-IsAscii s u)

AreDigits-Avoids_feed : (s : Text) → AreDigits s → Avoids 10 s
AreDigits-Avoids_feed [] u = tt
AreDigits-Avoids_feed (c ∷ s) (lo, hi, u) = (ground arith, AreDigits-Avoids_feed s u)

AreDigits-Avoids_colon : (s : Text) → AreDigits s → Avoids 58 s
AreDigits-Avoids_colon [] u = tt
AreDigits-Avoids_colon (c ∷ s) (lo, hi, u) = (ground arith, AreDigits-Avoids_colon s u)

starts_with_space-digits :
    (s t : Text) → AreDigits s → is_empty s ≡ false → starts_with_space (s ++ t) ≡ false
starts_with_space-digits [] t u filled = absurd (ground arith)
starts_with_space-digits (c ∷ s) t (lo, hi, u) filled = ground arith

reverse-filled : (s : Text) → is_empty s ≡ false → is_empty (reverse s) ≡ false
reverse-filled [] filled = filled
reverse-filled (c ∷ s) filled = rw (reverse-cons c s) (is_empty-append (reverse s) c)

-- A name and digits make a header that is read as it was written.
digits-IsHeader : (s : Text) → AreDigits s → is_empty s ≡ false → IsHeader (content_length, s)
digits-IsHeader s u filled =
    let name : Text = content_length ++ (58 ∷ []) in
    record {
      line = record {
        ascii = IsAscii-append name s (ground arith) (AreDigits-IsAscii s u);
        one_line = Avoids-append 10 name s (ground arith) (AreDigits-Avoids_feed s u);
        filled = refl;
        left = refl;
        right = rw (reverse-append name s) (
            starts_with_space-digits (reverse s) (reverse name) (reverse-AreDigits s u)
              (reverse-filled s filled));
      };
      key_plain = ground arith;
      value_plain = AreDigits-Avoids_colon s u;
    }

pub decimal-IsHeader : (n : ℕ) → IsHeader (content_length, decimal n)
decimal-IsHeader n =
    digits-IsHeader (decimal n) (decimal_from-AreDigits (n + 1) n)
      (decimal-filled (n + 1) n (omega arith))

pub put-AreHeaders :
    (headers : Dict Text Text) (key value : Text)
    → AreHeaders headers
    → IsHeader (key, value)
    → AreHeaders (put headers key value)
unfolding put
put-AreHeaders [] key value u v = (v, tt)
put-AreHeaders ((j, w) ∷ headers) key value (u, us) v = elim (Bool-cases (j == key)) [
  | inl same ↦ rw same (rw ((text_equality.test_iff j key).1 same) v, us)
  | inr other ↦ rw other (u, put-AreHeaders headers key value us v)
]
