-- ===== src/Server/Bytes.antt =====
-- StompRequestHandler of coilmq/server/socket_server.py on what its socket receives: the bytes go into
-- a FrameBuffer, and its frames to the engine.
use coilmq.Prelude.{
  ℕ, zero, suc, Bool, Option, none, some, List, [], ◌∷◌, map, Exec, ok, err, Result, pure, raise,
  gets, modify, continue, ◌>>=◌, ◌>>◌, length, if◌then◌else◌, String,
}
use coilmq.Frame.{Frame, Error}
use coilmq.Engine.{Client}
use coilmq.Versions.{Network, Connection, Action}
use coilmq.Versions.Dispatch.{process_frame}
use coilmq.Server.{unbind_engine}
use coilmq.Wire.Bytes.{Bytes, Text}
use coilmq.Wire.Stream.{remaining, seek}
use coilmq.Wire.Parse.{WireError, WireFrame}
use coilmq.Wire.Buffer.{FrameBuffer, append, extract_frame}

-- What a round of the read loop meets: the shutdown event that is set, a recv that times out, or the
-- bytes that it returns, which are none at the end of the input.
pub data Event : Type 0 where
  shut_down timed_out : Event
  received : Bytes → Event

-- The exceptions that reach `handle`.
pub data Failure : Type 0 where
  client_disconnected : Failure
  session_error : Error → Failure
  frame_error : WireError → Failure

-- The handler's engine and buffer.
pub record Request (S : Type 0) : Type 0 where
  pub link : S
  pub buffer : FrameBuffer

-- An exception of one kind, as one that reaches `handle`.
abbrev pub wrap : {X A : Type 0} → (X → Failure) → Result X A → Result Failure A
wrap kind (ok a) = ok a
wrap kind (err x) = err (kind x)

-- `text` makes a str of its code points; `is_timeout` tells whether an exception is a socket.timeout,
-- which the connection's sendall may raise.
module _ (κ : Client) (net : Network) (text : Text → String) (is_timeout : Error → Bool) where
  abbrev pub Handler : Type 0
  Handler = Request (Connection κ net)

  abbrev pub Step : Type 0 → Type 0
  Step A = Exec Failure Handler A

  abbrev pub with_text : Text × Text → String × String
  with_text (key, value) = (text key, text value)

  abbrev pub decoded : WireFrame → Frame
  decoded f = record { cmd = text f.cmd; headers = map with_text f.headers; body = f.body }

  abbrev pub on_link : {A : Type 0} → Action κ net A → Step A
  on_link m h = let (r, l) = m h.link in (wrap session_error r, record h { link = l })

  abbrev pub on_buffer : {A : Type 0} → Exec WireError FrameBuffer A → Step A
  on_buffer m h = let (r, b) = m h.buffer in (wrap frame_error r, record h { buffer = b })

  -- The body of `for frame in self.buffer`, and what follows it.
  abbrev pub continue_if : Step (Unit {0}) → Bool → Step (Unit {0})
  continue_if others ready = if ready then others else raise client_disconnected

  abbrev pub with_frame : Step (Unit {0}) → Option WireFrame → Step (Unit {0})
  with_frame others none = pure tt
  with_frame others (some frame) = do
    on_link (process_frame κ net 2 (decoded frame))
    ready ← gets (λ h. h.link.session.connected)
    continue_if others ready

  -- `for frame in self.buffer`; each frame takes a byte at least, which bounds the fuel.
  unfoldable pub process_each : ℕ → Step (Unit {0})
  process_each zero = pure tt
  process_each (suc fuel) = do next ← on_buffer extract_frame; with_frame (process_each fuel) next

  -- `except socket.timeout: pass`
  abbrev pub timed : Result Failure (Unit {0}) × Handler → Result Failure (Unit {0}) × Handler
  timed (ok u, h) = (ok u, h)
  timed (err client_disconnected, h) = (err client_disconnected, h)
  timed (err (session_error e), h) = (if is_timeout e then ok tt else err (session_error e), h)
  timed (err (frame_error x), h) = (err (frame_error x), h)

  -- self.buffer.append(data), and the loop over the buffer
  abbrev pub process_data : Bytes → Step (Unit {0})
  process_data data_ = do
    modify (λ h. record h { buffer = append data_ h.buffer })
    fuel ← gets (λ h. suc (length (remaining (seek h.buffer.pointer h.buffer.buffer))))
    process_each fuel

  -- What follows recv, with the rounds after it: without data the loop is left.
  abbrev pub after_recv : Bytes → Step (Unit {0}) → Step (Unit {0})
  after_recv [] others h = (ok tt, h)
  after_recv (byte ∷ bytes) others h =
      continue (λ _. others) (timed (process_data (byte ∷ bytes) h))

  unfoldable pub read_events : List Event → Step (Unit {0})
  read_events [] = pure tt
  read_events (shut_down ∷ events) = pure tt
  read_events (timed_out ∷ events) = read_events events
  read_events (received data_ ∷ events) = after_recv data_ (read_events events)

  -- `except ClientDisconnected`, and `except Exception`, which unbinds and raises again
  unfoldable pub handled : Result Failure (Unit {0}) × Handler → Result Failure (Unit {0}) × Handler
  handled (ok u, h) = (ok tt, h)
  handled (err client_disconnected, h) = (ok tt, h)
  handled (err x, h) = (do on_link (unbind_engine κ net); raise x) h

  -- `handle`, and `finish` whether it returned or raised
  unfoldable pub handle : List Event → Step (Unit {0})
  handle events h = handled (read_events events h)

  abbrev pub finish : Result Failure (Unit {0}) × Handler → Result Failure (Unit {0}) × Handler
  finish (ok u, h) = on_link (unbind_engine κ net) h
  finish (err x, h) = (do on_link (unbind_engine κ net); raise x) h

  unfoldable pub serve : List Event → Step (Unit {0})
  serve events h = finish (handle events h)
