-- ===== src/Queue/Reach.antt =====
-- The states that a QueueManager (coilmq/queue.py) gets into when connections call its methods, in
-- any order.
use coilmq.Prelude.{ℕ, String, Option, [], arith}
use coilmq.Dict.{get}
use coilmq.Frame.{Frame}
use coilmq.Host.{Host}
use coilmq.Store.Interface.{FifoLaws}
use coilmq.Queue.State.{Setup, State}
use coilmq.Queue.Methods.{
  subscribe, unsubscribe, disconnect, send, ack, resend_transaction_frames,
  clear_transaction_frames, subscriber_count,
}
use coilmq.Queue.Filed.{AreMessages, Filed}
use coilmq.Queue.Calls.{
  subscribe-Safe, unsubscribe-Safe, disconnect-Filed, send-Safe, ack-Safe, resend-Safe, clear-Safe,
  subscriber_count-Safe,
}

module _ (σ : Setup) where
  -- __init__, over a store that may hold messages of an earlier run
  abbrev pub new_manager : σ.store.State → Host → State σ
  new_manager messages host = record {
    messages = messages;
    queues = [];
    transaction_frames = [];
    pending = [];
    host = host;
  }

  -- A call of a public method by one of the connections; it may return or raise. Between the calls
  -- the host changes: connections come, are marked as reliable, get frames from others, and go.
  pub data Step (q : State σ) : State σ → Type 0 where
    subscribes : (c : ℕ) (d : String) → Step q (subscribe σ c d q).1
    unsubscribes : (c : ℕ) (d : String) → Step q (unsubscribe σ c d q).1
    disconnects : (c : ℕ) → Step q (disconnect σ c q).1
    sends : (f : Frame) → Step q (send σ f q).1
    acknowledges : (c : ℕ) (f : Frame) (t : Option String) → Step q (ack σ c f t q).1
    resends : (c : ℕ) (t : String) → Step q (resend_transaction_frames σ c t q).1
    clears : (c : ℕ) (t : String) → Step q (clear_transaction_frames σ c t q).1
    counts : (d : Option String) → Step q (subscriber_count σ d q).1
    elsewhere : (h : Host) → Step q (record q { host = h })

  pub data Reach (messages : σ.store.State) (host : Host) : State σ → Type 0 where
    start : Reach messages host (new_manager messages host)
    later : {q r : State σ} → Reach messages host q → Step q r → Reach messages host r

module _ (σ : Setup) (fifo : FifoLaws σ.store) where
  Step-Filed : {q r : State σ} → Step σ q r → Filed σ fifo q → Filed σ fifo r
  Step-Filed {q} (subscribes c d) h = ((subscribe-Safe σ fifo c d).run q h).0
  Step-Filed {q} (unsubscribes c d) h = ((unsubscribe-Safe σ fifo c d).run q h).0
  Step-Filed {q} (disconnects c) h = disconnect-Filed σ fifo c q h
  Step-Filed {q} (sends f) h = ((send-Safe σ fifo f).run q h).0
  Step-Filed {q} (acknowledges c f t) h = ((ack-Safe σ fifo c f t).run q h).0
  Step-Filed {q} (resends c t) h = ((resend-Safe σ fifo c t).run q h).0
  Step-Filed {q} (clears c t) h = ((clear-Safe σ fifo c t).run q h).0
  Step-Filed {q} (counts d) h = ((subscriber_count-Safe σ fifo d).run q h).0
  Step-Filed (elsewhere host) h = record {
    subscribed = h.subscribed;
    waiting = h.waiting;
    unacknowledged = h.unacknowledged;
  }

  new_manager-Filed :
      (messages : σ.store.State) (host : Host)
      → ((d : String) → AreMessages d (fifo.contents messages d))
      → Filed σ fifo (new_manager σ messages host)
  unfolding get
  new_manager-Filed messages host filed = record {
    subscribed = tt;
    waiting = filed;
    unacknowledged = λ c f e. absurd ground arith;
  }

  -- Start a manager over a lawful store in which every message is filed under its destination, and
  -- let connections call its methods in any order, whatever their sends do, and whether a call
  -- returns or raises. Then in every state each destination has one set of subscribers, every
  -- message that waits in the store for a destination is a MESSAGE with an id that names that
  -- destination, and every pending message names a destination, which is not empty.
  pub Reach-Filed :
      (messages : σ.store.State) (host : Host) (q : State σ)
      → ((d : String) → AreMessages d (fifo.contents messages d))
      → Reach σ messages host q
      → Filed σ fifo q
  Reach-Filed messages host _ filed start = new_manager-Filed messages host filed
  Reach-Filed messages host _ filed (later r step) =
      Step-Filed step (Reach-Filed messages host _ filed r)
