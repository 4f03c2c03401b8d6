-- ===== src/Protocol/Command.antt =====
-- The commands of VALID_COMMANDS (coilmq/protocol/__init__.py).
use coilmq.Prelude.{String, Bool, true, false, Option, [], ◌∷◌, string_equality}
use coilmq.Dict.{Dict, get}
use coilmq.Text.{lower}

pub data Command : Type 0 where
  message connect connected error send subscribe unsubscribe : Command
  begin commit abort ack disconnect nack stomp : Command

abbrev valid_commands : Dict String Command
valid_commands =
    ("message", message)
    ∷ ("connect", connect)
    ∷ ("connected", connected)
    ∷ ("error", error)
    ∷ ("send", send)
    ∷ ("subscribe", subscribe)
    ∷ ("unsubscribe", unsubscribe)
    ∷ ("begin", begin)
    ∷ ("commit", commit)
    ∷ ("abort", abort)
    ∷ ("ack", ack)
    ∷ ("disconnect", disconnect)
    ∷ ("nack", nack)
    ∷ ("stomp", stomp)
    ∷ []

-- frame.cmd.lower(), if it is a valid command
unfoldable pub command_of : String → Option Command
unfolding lower get
command_of cmd = get valid_commands (lower cmd)

-- method in (self.connect, self.stomp)
abbrev pub is_connect : Command → Bool
is_connect connect = true
is_connect stomp = true
is_connect _ = false

-- method in (self.begin, self.commit, self.abort)
abbrev pub is_transactional : Command → Bool
is_transactional begin = true
is_transactional commit = true
is_transactional abort = true
is_transactional _ = false

-- method != self.connect
abbrev pub is_not_connect : Command → Bool
is_not_connect connect = false
is_not_connect _ = true
