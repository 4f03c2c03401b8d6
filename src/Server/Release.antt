-- ===== src/Server/Release.antt =====
-- What is left of a session when it is over (coilmq/server/socket_server.py).
use coilmq.Prelude.{String, Bool, Result, ◌>>◌}
use coilmq.Frame.{Error}
use coilmq.Store.Interface.{FifoLaws}
use coilmq.Engine.{Client}
use coilmq.Protocol.Unbound.{IsReleased}
use coilmq.Wire.Bytes.{Text}
use coilmq.Versions.{Network}
use coilmq.Server.Bytes.{Failure, Handler}

module _ (κ : Client) (net : Network) (text : Text → String) (is_timeout : Error → Bool)
    (fifo : FifoLaws κ.setup.store) where
  abbrev Outcome : Type 0
  Outcome = Result Failure (Unit {0}) × Handler κ net text is_timeout

  abbrev pub IsFreed : Outcome → Type 0
  IsFreed o = IsReleased κ fifo o.1.link.session
