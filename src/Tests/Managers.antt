-- ===== src/Tests/Managers.antt =====
-- The theorems on the managers, the store and the schedulers (coilmq/queue.py, coilmq/topic.py,
-- coilmq/store, coilmq/scheduler.py) at concrete inputs.
use coilmq.Queue.State as QueueManagerState
use coilmq.Queue.Filed.{Filed}
use coilmq.Queue.Reach.{new_manager, Reach-Filed, start, later, subscribes, sends, disconnects}
use coilmq.Prelude.{
  ℕ, String, ◌≡◌, ◌≢◌, refl, true, false, not, ◌&&◌, ◌||◌, none, some, [], ◌∷◌, ◌++◌, map, keep, ok,
  err, ◌==◌, nat_equality, string_equality, if◌then◌else◌, arith, length, is_empty,
}
use coilmq.Dict.{get, has, get_or, contains}
use coilmq.Frame.{Frame, header, connection_error}
use coilmq.Host.{Host, is_reliable}
use coilmq.Store.Interface.{head?, tail}
use coilmq.Store.Memory.{enqueue, dequeue, size, has_frames}
use coilmq.Store.Memory.Laws.{memory_fifo, memory_is_fifo}
use coilmq.Store.Memory.Laws as MemoryLaws
use coilmq.Queue.Leave.{is_member}
use coilmq.Queue.Methods.{subscribe, disconnect, send, ack}
use coilmq.Queue.Subscribe.{subscribe_drains, subscribe_delivers_one}
use coilmq.Queue.Disconnect.{disconnect_releases, failed_backlog_duplicates, with_returned}
use coilmq.Queue.Send.{send_enqueues, send_delivers, stamped, IsFree}
use coilmq.Queue.Ack.{ack_advances, GetsNext}
use coilmq.Topic as TopicManager
use coilmq.Topic.{TopicState}
use coilmq.Topic.Laws as TopicLaws
use coilmq.Topic.Laws.{send_broadcasts}
use coilmq.Tests.{
  setup, lawful, queue_a, queue_b, message, backlog, busy, free, topic_t, is_odd, odd_world, topics,
  news,
}

only_busy : (c : ℕ) → contains c (1 ∷ []) ≡ true → has busy.pending c ≡ true
unfolding get contains
only_busy c inside = ground arith

m9-m0 : header (message "m9") "message-id" ≢ header (message "m0") "message-id"
unfolding get
m9-m0 e = cc

memory_is_fifo_example :
    ((dequeue queue_a backlog.messages).0
      ≡ ok (head? (MemoryLaws.contents backlog.messages queue_a)))
    × (MemoryLaws.contents (dequeue queue_a backlog.messages).1 queue_b ≡ (
        if queue_a == queue_b
        then tail (MemoryLaws.contents backlog.messages queue_b)
        else MemoryLaws.contents backlog.messages queue_b))
    × (MemoryLaws.contents (enqueue queue_a (message "m3") backlog.messages).1 queue_b ≡ (
        if queue_a == queue_b
        then MemoryLaws.contents backlog.messages queue_b ++ ((message "m3") ∷ [])
        else MemoryLaws.contents backlog.messages queue_b))
    × ((size queue_a backlog.messages).0
        ≡ ok (length (MemoryLaws.contents backlog.messages queue_a)))
    × (MemoryLaws.contents (size queue_a backlog.messages).1 queue_b
        ≡ MemoryLaws.contents backlog.messages queue_b)
    × ((has_frames queue_a backlog.messages).0
        ≡ ok (not (is_empty (MemoryLaws.contents backlog.messages queue_a))))
    × (MemoryLaws.contents (has_frames queue_a backlog.messages).1 queue_b
        ≡ MemoryLaws.contents backlog.messages queue_b)
memory_is_fifo_example = memory_is_fifo queue_a (message "m3") backlog.messages queue_b

subscribe_drains_example :
    ((subscribe (setup true) 2 queue_a backlog).0 ≡ ok tt)
    × ((subscribe (setup true) 2 queue_a backlog).1.host.sent
        ≡ backlog.host.sent ++ map (λ f. (2, f)) (memory_fifo.contents backlog.messages queue_a))
    × ((x : String)
        → memory_fifo.contents (subscribe (setup true) 2 queue_a backlog).1.messages x
          ≡ (if queue_a == x then [] else memory_fifo.contents backlog.messages x))
    × ((subscribe (setup true) 2 queue_a backlog).1.pending ≡ backlog.pending)
    × ((e : String) (x : ℕ)
        → is_member (subscribe (setup true) 2 queue_a backlog).1.queues e x
          ≡ (queue_a == e && 2 == x || is_member backlog.queues e x))
unfolding get
subscribe_drains_example =
    subscribe_drains (setup true) memory_fifo 2 queue_a backlog refl (λ n f. refl)

subscribe_delivers_one_example :
    ((subscribe (setup true) 1 queue_a backlog).0 ≡ ok tt)
    × ((subscribe (setup true) 1 queue_a backlog).1.host.sent
        ≡ backlog.host.sent ++ ((1, (message "m1")) ∷ []))
    × ((x : String)
        → memory_fifo.contents (subscribe (setup true) 1 queue_a backlog).1.messages x
          ≡ (if queue_a == x then (message "m2" ∷ []) else memory_fifo.contents backlog.messages x))
    × ((x : ℕ)
        → get (subscribe (setup true) 1 queue_a backlog).1.pending x
          ≡ (if 1 == x then some (message "m1") else get backlog.pending x))
unfolding get memory_fifo
subscribe_delivers_one_example =
    subscribe_delivers_one (setup true) memory_fifo 1 queue_a backlog (message "m1")
      (message "m2" ∷ []) refl refl refl refl

disconnect_releases_example :
    ((disconnect (setup true) 1 busy).0 ≡ ok tt)
    × ((e : String) (x : ℕ)
        → is_member (disconnect (setup true) 1 busy).1.queues e x
          ≡ (if 1 == x then false else is_member busy.queues e x))
    × ((x : ℕ)
        → get (disconnect (setup true) 1 busy).1.pending x
          ≡ (if 1 == x then none else get busy.pending x))
    × ((x : String)
        → memory_fifo.contents (disconnect (setup true) 1 busy).1.messages x
          ≡ with_returned
              (setup true)
              memory_fifo
              (get busy.pending 1)
              (memory_fifo.contents busy.messages x)
              x)
    × ((disconnect (setup true) 1 busy).1.host ≡ busy.host)
disconnect_releases_example = disconnect_releases (setup true) memory_fifo 1 busy

failed_backlog_duplicates_example :
    ((subscribe (setup false) 1 queue_a backlog).0 ≡ err connection_error)
    × (memory_fifo.contents
          (disconnect (setup false) 1 (subscribe (setup false) 1 queue_a backlog).1).1.messages
          queue_a
        ≡ (message "m2" ∷ []) ++ ((message "m1") ∷ []) ++ ((message "m1") ∷ []))
unfolding get memory_fifo
failed_backlog_duplicates_example =
    failed_backlog_duplicates (setup false) memory_fifo 1 queue_a backlog (message "m1")
      (message "m2" ∷ []) refl refl refl refl refl

send_delivers_example :
    (c : ℕ) × IsFree (setup true) free queue_a c
    × ((send (setup true) (message "m3") free).0 ≡ ok tt)
    × ((send (setup true) (message "m3") free).1.host.sent
        ≡ free.host.sent ++ ((c, stamped (setup true) free (message "m3")) ∷ []))
    × ((send (setup true) (message "m3") free).1.messages ≡ free.messages)
    × ((x : ℕ)
        → get (send (setup true) (message "m3") free).1.pending x ≡ (
            if is_reliable free.host c && c == x
            then some (stamped (setup true) free (message "m3"))
            else get free.pending x))
unfolding get contains
send_delivers_example =
    send_delivers (setup true) (lawful true) (message "m3") queue_a free 1 refl refl (refl, refl)
      (λ c. refl)

send_enqueues_example :
    ((send (setup true) (message "m3") busy).0 ≡ ok tt)
    × ((x : String)
        → (lawful true).fifo.contents (send (setup true) (message "m3") busy).1.messages x ≡ (
            if queue_a == x
            then (lawful true).fifo.contents busy.messages x
              ++ (stamped (setup true) busy (message "m3") ∷ [])
            else (lawful true).fifo.contents busy.messages x))
    × ((send (setup true) (message "m3") busy).1.pending ≡ busy.pending)
    × ((send (setup true) (message "m3") busy).1.host.sent ≡ busy.host.sent)
unfolding get
send_enqueues_example =
    send_enqueues (setup true) (lawful true) (message "m3") queue_a busy refl refl only_busy

ack_advances_example :
    GetsNext (setup true) (lawful true) 1 busy (ack (setup true) 1 (message "m0") none busy)
unfolding get
ack_advances_example =
    ack_advances (setup true) (lawful true) 1 (message "m0") none busy (message "m0")
      (refl, (refl, tt)) refl refl refl (λ n g. refl)

send_broadcasts_example :
    ((TopicManager.send odd_world news topics).0 ≡ ok tt)
    × ((TopicManager.send odd_world news topics).1.host.sent
        ≡ topics.host.sent
          ++ map
              (λ c. (c, TopicLaws.stamped odd_world topics.host news))
              (keep is_odd (get_or topics.topics topic_t [])))
    × ((e : String) (x : ℕ)
        → is_member (TopicManager.send odd_world news topics).1.topics e x ≡ (
            if is_member topics.topics topic_t x && not (is_odd x)
            then false
            else is_member topics.topics e x))
unfolding get
send_broadcasts_example =
    send_broadcasts odd_world news topic_t topics is_odd refl refl (λ n c. refl)

-- A connection subscribes, another one sends it a message, which stays pending, and the first one
-- leaves.
abbrev first_frame : Frame
first_frame = record { cmd = "SEND"; headers = ("destination", "/queue/a") ∷ []; body = [] }

abbrev quiet_host : Host
quiet_host = record { reliable = (1, true) ∷ []; sent = []; attempts = 0; uuids = 0; draws = 0 }

abbrev subscribed_state : QueueManagerState.State (setup true)
subscribed_state = (subscribe (setup true) 1 "/queue/a" (new_manager (setup true) [] quiet_host)).1

abbrev sent_state : QueueManagerState.State (setup true)
sent_state = (send (setup true) first_frame subscribed_state).1

abbrev left_state : QueueManagerState.State (setup true)
left_state = (disconnect (setup true) 1 sent_state).1

Reach-Filed_example : Filed (setup true) memory_fifo left_state
unfolding get memory_fifo
Reach-Filed_example =
    Reach-Filed (setup true) memory_fifo [] quiet_host left_state (λ d. tt)
      (later (later (later start (subscribes 1 "/queue/a")) (sends first_frame)) (disconnects 1))
