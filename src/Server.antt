-- ===== src/Server.antt =====
-- StompRequestHandler of coilmq/server/socket_server.py: the life of a session.
pub mod Release
pub mod Abort
pub mod Bytes
pub mod Chunks
pub mod Tcp
pub mod Threads
pub mod Sending
pub mod Closing
use coilmq.Prelude.{List, [], ◌∷◌, ok, err, Result, pure, raise, gets, ◌>>=◌, ◌>>◌, if◌then◌else◌}
use coilmq.Frame.{Frame, Error}
use coilmq.Engine.{Client, unbind}
use coilmq.Versions.{Network, Connection, Action, on_session}
use coilmq.Versions.Dispatch.{process_frame}

-- A link is the engine with its protocol object, STOMP10, STOMP11 or STOMP12.
module _ (κ : Client) (net : Network) where
  -- self.engine.unbind()
  abbrev pub unbind_engine : Action κ net (Unit {0})
  unbind_engine = on_session κ net (unbind κ)

  -- The read loop of `handle` on the frames that come in, up to the end of the input; it is left
  -- as soon as the engine is not connected (`raise ClientDisconnected()`).
  unfoldable pub read_loop : List Frame → Action κ net (Unit {0})
  read_loop [] = pure tt
  read_loop (frame ∷ frames) = do
    process_frame κ net 2 frame
    ready ← gets (λ l. l.session.connected)
    if ready then read_loop frames else pure tt

  -- `except Exception as e: self.engine.unbind(); raise`
  unfoldable pub handle : List Frame → Action κ net (Unit {0})
  handle frames l =
      let (r, l') = read_loop frames l in
      elim r [ ok _ ↦ (ok tt, l') | err e ↦ (do unbind_engine; raise e) l' ]

  -- `finish` unbinds, whether `handle` returned or raised.
  abbrev pub finish :
      Result Error (Unit {0}) × Connection κ net → Result Error (Unit {0}) × Connection κ net
  finish (ok _, l) = unbind_engine l
  finish (err e, l) = (do unbind_engine; raise e) l

  -- A request is handled and then finished.
  unfoldable pub serve : List Frame → Action κ net (Unit {0})
  serve frames l = finish (handle frames l)
