-- ===== src/Wire/Stream.antt =====
-- `io.BytesIO` as coilmq/util/frames.py uses it.
use coilmq.Prelude.{
  ℕ, zero, suc, ◌+◌, ◌-◌, List, [], ◌∷◌, ◌++◌, Exec, ok, length, nat_beq, if◌then◌else◌,
}
use coilmq.Wire.Bytes.{Bytes}

abbrev pub take : {A : Type 0} → ℕ → List A → List A
take zero xs = []
take (suc n) [] = []
take (suc n) (x ∷ xs) = x ∷ take n xs

abbrev pub drop : {A : Type 0} → ℕ → List A → List A
drop zero xs = xs
drop (suc n) [] = []
drop (suc n) (x ∷ xs) = drop n xs

-- The contents, and the position of the next read or write.
pub record Stream : Type 0 where
  pub contents : Bytes
  pub position : ℕ

abbrev pub remaining : Stream → Bytes
remaining b = drop b.position b.contents

abbrev pub advance : ℕ → Stream → Stream
advance n b = record b { position = b.position + n }

-- The bytes up to the first line feed, which is included.
unfoldable pub first_line : Bytes → Bytes
first_line [] = []
first_line (c ∷ cs) = let rest = first_line cs in if nat_beq c 10 then c ∷ [] else c ∷ rest

module _ {X : Type 0} where
  -- buff.readline()
  unfoldable pub readline : Exec X Stream Bytes
  readline b = let line = first_line (remaining b) in (ok line, advance (length line) b)

  -- buff.read(n)
  unfoldable pub read : ℕ → Exec X Stream Bytes
  read n b = let got = take n (remaining b) in (ok got, advance (length got) b)

  -- buff.read(-1), and any other negative number
  unfoldable pub read_all : Exec X Stream Bytes
  read_all b = let got = remaining b in (ok got, advance (length got) b)

-- buff.seek(position, 0)
abbrev pub seek : ℕ → Stream → Stream
seek position b = record b { position = position }

-- buff.seek(-n, 2), for an `n` that is not longer than the contents
abbrev pub seek_end : ℕ → Stream → Stream
seek_end n b = record b { position = length b.contents - n }

abbrev pub zeros : ℕ → Bytes
zeros zero = []
zeros (suc n) = 0 ∷ zeros n

-- buff.write(data): what stands at the position is overwritten; a gap is filled with zeros.
unfoldable pub write : Bytes → Stream → Stream
write bytes b = record {
  contents =
      (take b.position b.contents ++ zeros (b.position - length b.contents))
      ++ (bytes ++ drop (b.position + length bytes) b.contents);
  position = b.position + length bytes;
}
