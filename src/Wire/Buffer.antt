-- ===== src/Wire/Buffer.antt =====
-- FrameBuffer of coilmq/util/frames.py.
use coilmq.Prelude.{
  ℕ, zero, suc, Option, none, some, List, [], ◌∷◌, Exec, Result, ok, err, pure, ◌>>=◌,
}
use coilmq.Wire.Bytes.{Bytes}
use coilmq.Wire.Stream.{Stream, seek, write}
use coilmq.Wire.Parse.{WireError, incomplete_frame, empty_buffer, WireFrame, from_buffer}

-- `pointer` is where the frames that were not yet extracted begin.
pub record FrameBuffer : Type 0 where
  pub buffer : Stream
  pub pointer : ℕ

abbrev pub new_buffer : FrameBuffer
new_buffer = record { buffer = record { contents = []; position = 0 }; pointer = 0 }

-- append
unfoldable pub append : Bytes → FrameBuffer → FrameBuffer
append bytes b = record b { buffer = write bytes b.buffer }

-- What follows from_buffer in `extract_frame`: two of the exceptions are caught.
abbrev pub extracted :
    FrameBuffer
    → Result WireError WireFrame × Stream
    → Result WireError (Option WireFrame) × FrameBuffer
extracted b (ok frame, s) = (ok (some frame), record { buffer = s; pointer = s.position })
extracted b (err incomplete_frame, s) = (ok none, record b { buffer = seek b.pointer s })
extracted b (err empty_buffer, s) = (ok none, record b { buffer = seek b.pointer s })
extracted b (err x, s) = (err x, record b { buffer = s })

unfoldable pub extract_frame : Exec WireError FrameBuffer (Option WireFrame)
extract_frame b = extracted b (from_buffer (seek b.pointer b.buffer))

-- What follows a call of __next__, which stops the iteration when there is no frame.
abbrev pub followed :
    Exec WireError FrameBuffer (List WireFrame)
    → Option WireFrame
    → Exec WireError FrameBuffer (List WireFrame)
followed others none = pure []
followed others (some frame) = do rest ← others; pure (frame ∷ rest)

-- `for frame in buffer` until StopIteration, with the frames of at most `fuel` rounds.
unfoldable pub frames : ℕ → Exec WireError FrameBuffer (List WireFrame)
frames zero = pure []
frames (suc fuel) = do next ← extract_frame; followed (frames fuel) next
