-- ===== src/Tests.antt =====
-- Data for the tests: two worlds, a manager with its store, a client and its frames.
mod Managers
mod Sessions
mod Stores
mod Tables
mod Frames
mod Links
mod Commits
mod Programs
mod Threads
use coilmq.Prelude.{
  ℕ, suc, ◌%◌, String, ◌≡◌, ◌≢◌, refl, inl, inr, Bool, true, false, not, ◌&&◌, ◌||◌, Option, none,
  some, [], ◌∷◌, ◌++◌, map, keep, ok, err, ◌==◌, nat_equality, string_equality, if◌then◌else◌,
  arith, length, is_empty, ◌↔◌, List,
}
use coilmq.Dict.{get, put, has, get_or, contains}
use coilmq.Text.{lower}
use coilmq.Frame.{
  Frame, header, connection_error, has_pending_frame, attribute_error, protocol_error, auth_error,
}
use coilmq.Host.{Host, Environment, is_reliable}
use coilmq.Store.Interface.{head?, tail}
use coilmq.Store.Memory.{Messages, memory_queue, enqueue, dequeue, size, has_frames}
use coilmq.Store.Memory.Laws.{memory_fifo, memory_is_fifo}
use coilmq.Store.Memory.Laws as MemoryLaws
use coilmq.Scheduler.{favor_reliable, random_queue}
use coilmq.Scheduler.Laws.{
  favor_reliable-ChoosesSubscriber, favor_reliable-reliable, random_queue-ChoosesQueue,
}
use coilmq.Queue.State.{Setup, QueueState}
use coilmq.Queue.Contract.{IsLawful}
use coilmq.Queue.Leave.{is_member}
use coilmq.Queue.Methods.{subscribe, unsubscribe, disconnect, send, ack}
use coilmq.Queue.Subscribe.{subscribe_drains, subscribe_delivers_one, subscribe_while_pending}
use coilmq.Queue.Disconnect.{
  unsubscribe_leaves, disconnect_releases, failed_backlog_duplicates, with_returned,
}
use coilmq.Queue.Send.{send_enqueues, send_delivers, send_fails, stamped, IsFree}
use coilmq.Queue.Ack.{ack_advances, ack_mismatch, GetsNext}
use coilmq.Topic as TopicManager
use coilmq.Topic.{TopicState}
use coilmq.Topic.Laws as TopicLaws
use coilmq.Topic.Laws.{send_broadcasts}
use coilmq.Engine.{Session, Client, State, unbind}
use coilmq.Protocol.Command as Command
use coilmq.Protocol.Command.{command_of}
use coilmq.Protocol.Stomp10.{process_frame}
use coilmq.Protocol.Guards.{refuses, answers}
use coilmq.Protocol.Transactions.{ack_never_reaches, connect_rejected, transaction_keeps, told}
use coilmq.Protocol.Depth.{depth_suffices}
use coilmq.Auth.{authenticate, IsKnown, authenticate_lem}

abbrev pub world : Bool → Environment
world up = record {
  delivers = λ n c f. up;
  uuid = λ n. "id";
  draw = λ n. 0;
  render = λ e. "refused";
}

abbrev pub setup : Bool → Setup
setup up = record {
  env = world up;
  store = memory_queue;
  subscriber_scheduler = favor_reliable;
  queue_scheduler = random_queue;
}

abbrev pub lawful : (up : Bool) → IsLawful (setup up)
lawful up = record {
  fifo = memory_fifo;
  subscriber = favor_reliable-ChoosesSubscriber;
  queue = random_queue-ChoosesQueue;
}

abbrev pub queue_a : String
queue_a = "/queue/a"

abbrev pub queue_b : String
queue_b = "/queue/b"

abbrev pub message : String → Frame
message id = record {
  cmd = "message";
  headers = ("destination", "/queue/a") ∷ ("message-id", id) ∷ [];
  body = 1 ∷ 2 ∷ [];
}

-- Connection 1 is reliable, connection 2 is not.
abbrev pub host : Host
host = record { reliable = (1, true) ∷ []; sent = []; attempts = 0; uuids = 0; draws = 0 }

-- Two messages wait, the newer one on the left.
abbrev pub backlog : QueueState Messages
backlog = record {
  messages = ("/queue/a", message "m2" ∷ message "m1" ∷ []) ∷ [];
  queues = [];
  transaction_frames = [];
  pending = [];
  host = host;
}

-- Connection 1 subscribes and has not acknowledged a message; connection 2 subscribes elsewhere.
abbrev pub busy : QueueState Messages
busy = record backlog {
  queues = ("/queue/a", 1 ∷ []) ∷ ("/queue/b", 2 ∷ []) ∷ [];
  pending = (1, message "m0") ∷ [];
}

-- The queue is empty; connections 2 and 1 subscribe, and are free.
abbrev pub free : QueueState Messages
free = record backlog { messages = []; queues = ("/queue/a", 2 ∷ 1 ∷ []) ∷ [] }

abbrev pub topic_t : String
topic_t = "/topic/t"

-- Connections with an odd number accept, the others raise.
abbrev pub is_odd : ℕ → Bool
is_odd n = n % 2 == 1

abbrev pub odd_world : Environment
odd_world = record (world true) { delivers = λ n c f. is_odd c }

abbrev pub topics : TopicState
topics = record { topics = (topic_t, 1 ∷ 2 ∷ []) ∷ []; host = host }

abbrev pub news : Frame
news = record { cmd = "SEND"; headers = ("destination", topic_t) ∷ []; body = [] }

abbrev pub client : Client
client = record { setup = setup true; connection = 1; authenticator = none }

abbrev pub nobody : Option String → Option String → Bool
nobody login passcode = false

abbrev pub locked : Client
locked = record client { authenticator = some nobody }

abbrev pub session : Session Messages
session = record { connected = true; transactions = []; queue = busy; topics = topics.topics }

abbrev pub in_transaction : Session Messages
in_transaction = record session { transactions = ("t1", []) ∷ [] }

abbrev pub ack_frame : Frame
ack_frame = record { cmd = "ACK"; headers = ("message-id", "m0") ∷ []; body = [] }

abbrev pub connect_frame : Frame
connect_frame = record { cmd = "CONNECT"; headers = ("login", "max") ∷ []; body = [] }

abbrev pub in_t1 : String → Frame
in_t1 cmd = record { cmd = cmd; headers = ("transaction", "t1") ∷ []; body = [] }

abbrev pub send_frame_in : String → Frame
send_frame_in t = record {
  cmd = "SEND";
  headers = ("destination", queue_a) ∷ ("transaction", t) ∷ [];
  body = 7 ∷ [];
}
