-- ===== src/Tests/Sessions.antt =====
-- The theorems on sessions (coilmq/protocol, coilmq/engine.py, coilmq/server, coilmq/auth) at concrete
-- inputs.
use coilmq.Prelude.{
  err, List, Bool-cases, inl, inr, ◌==◌, string_equality, if◌then◌else◌, suc, String, ◌≡◌, refl,
  inl, inr, true, none, some, [], ◌∷◌, ◌++◌, ok, ◌==◌, nat_equality, string_equality, if◌then◌else◌,
  ◌↔◌,
}
use coilmq.Dict.{Dict, get}
use coilmq.Text.{lower}
use coilmq.Frame.{value_error, Error, attribute_error}
use coilmq.Engine.{State}
use coilmq.Protocol.Command as Command
use coilmq.Protocol.Command.{command_of}
use coilmq.Protocol.Stomp10.{process_frame}
use coilmq.Protocol.Guards.{answers}
use coilmq.Protocol.Transactions.{ack_never_reaches, told}
use coilmq.Protocol.Depth.{depth_suffices}
use coilmq.Protocol.Preserves.{KeepsNoCommit}
use coilmq.Protocol.Invariant.{process_frame-KeepsNoCommit}
use coilmq.Versions.{v11, Network, Connection, new_handler}
use coilmq.Server.{read_loop}
use coilmq.Server.Bytes as Bytes
use coilmq.Server.Bytes.{Event, received, timed_out}
use coilmq.Server.Abort.{aborted_transaction}
use coilmq.Auth.{authenticate}
use coilmq.Auth.File.{Parser, make_simple, IsListed, make_simple-authenticate}
use coilmq.Tests.{client, session, in_transaction, ack_frame, in_t1, send_frame_in}

answers_example :
    (s' : State client) × (process_frame client (suc 1) ack_frame session ≡ (ok tt, s'))
unfolding get command_of lower
answers_example = answers client 1 ack_frame Command.ack session (λ n f. refl) (refl, inl refl)

ack_never_reaches_example :
    process_frame client (suc 1) ack_frame session
    ≡ (ok tt, told client (attribute_error "message_id") session)
unfolding get command_of lower
ack_never_reaches_example =
    ack_never_reaches client 1 ack_frame session (λ n f. refl) refl refl refl

depth_suffices_example :
    process_frame client (suc (suc 5)) ack_frame session ≡ process_frame client 2 ack_frame session
unfolding get
depth_suffices_example = depth_suffices client 5 ack_frame session (λ t. tt)

-- A new engine with the protocol STOMP11, as start.py makes it, on a session.
abbrev network : Network
network = record { now = λ n. n; fqdn = "broker"; joined = λ v. "1.1,1.0" }

abbrev link : Connection client network
link = record {
  session = session;
  objects = λ n. new_handler v11 0 1;
  made = 1;
  protocol = 0;
  reads = 2;
}

-- A client that is heard twice, with a timeout between, and then goes.
abbrev events : List Event
events = received (10 ∷ []) ∷ timed_out ∷ received (65 ∷ 0 ∷ []) ∷ received [] ∷ []

aborted_transaction_example :
    (s' : State client) × (read_loop client network
        ((in_t1 "BEGIN") ∷ (send_frame_in "t1" ∷ []) ++ ((in_t1 "ABORT") ∷ []))
        link
      ≡ read_loop client network [] (record link { session = s' }))
    × ((u : String)
        → get s'.transactions u ≡ (if "t1" == u then none else get session.transactions u))
    × (s'.connected ≡ true)
    × (s'.topics ≡ session.topics)
    × (s'.queue.messages ≡ session.queue.messages)
    × (s'.queue.queues ≡ session.queue.queues)
    × (s'.queue.pending ≡ session.queue.pending)
    × (s'.queue.host ≡ session.queue.host)
unfolding get command_of lower
aborted_transaction_example =
    aborted_transaction client network "t1" (in_t1 "BEGIN") (in_t1 "ABORT")
      (send_frame_in "t1" ∷ []) [] link refl (refl, refl, refl, refl)
      ((Command.send, (refl, refl, refl, refl), refl), tt) (refl, refl, refl, refl) refl

-- A parser for which every file but "broken" has the same section.
abbrev parser : Parser
parser = record {
  Config = List (String × String);
  read = λ file. if file == "broken" then err value_error else ok (some (("max", "secret") ∷ []));
  has_section = λ config name. name == "auth";
  items = λ config name. ok config;
}

make_simple-authenticate_example :
    ((config pairs : List (String × String))
      → parser.read "users.cfg" ≡ ok (some config)
      → parser.has_section config "auth" ≡ true
      → parser.items config "auth" ≡ ok pairs
      → (store : Dict String String) × (make_simple parser (ok "users.cfg") [] ≡ (ok tt, store))
        × ((authenticate store (some "max") (some "secret") ≡ true)
            ↔ IsListed pairs (some "max") (some "secret")))
    × ((e : Error)
        → parser.read "users.cfg" ≡ err e
        → make_simple parser (ok "users.cfg") [] ≡ (err e, []))
    × ((config : List (String × String)) (e : Error)
        → parser.read "users.cfg" ≡ ok (some config)
        → parser.has_section config "auth" ≡ true
        → parser.items config "auth" ≡ err e
        → make_simple parser (ok "users.cfg") [] ≡ (err e, []))
make_simple-authenticate_example =
    make_simple-authenticate parser "users.cfg" (some "max") (some "secret") [] refl

-- A transaction without frames keeps no COMMIT.
empty_transactions : KeepsNoCommit in_transaction.transactions
unfolding get
empty_transactions t = elim (Bool-cases ("t1" == t)) [ inl e ↦ rw e tt | inr e ↦ rw e tt ]

process_frame-KeepsNoCommit_example :
    KeepsNoCommit (process_frame client 2 (send_frame_in "t1") in_transaction).1.transactions
unfolding get
process_frame-KeepsNoCommit_example =
    process_frame-KeepsNoCommit client 2 (send_frame_in "t1") in_transaction empty_transactions
