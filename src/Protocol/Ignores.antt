-- ===== src/Protocol/Ignores.antt =====
-- Methods of a session (coilmq/protocol/__init__.py) that neither read nor write its transactions.
use coilmq.Prelude.{
  String, ◌≡◌, refl, ap, ◌∙◌, Bool, true, false, not, Option, none, some, List, [], ok, err, Result,
  ◌>>=◌, ◌>>◌, continue, modify, raise_if, Exec, string_equality, nat_equality, if◌then◌else◌,
}
use coilmq.Dict.{Dict, put, or_else}
use coilmq.Frame.{Frame, Error, header, new_frame, set_header, protocol_error}
use coilmq.Text.{is_truthy, is_queue}
use coilmq.Host.{uuid4}
use coilmq.Queue.State.{QueueState}
use coilmq.Queue.Methods as QueueManager
use coilmq.Topic as TopicManager
use coilmq.Topic.{TopicState}
use coilmq.Engine.{Client, State, Method, on_queue, on_topics, on_host, reply, unbind}
use coilmq.Protocol.Stomp10.{
  authenticate, wants_acks, with_destination, on_connect, on_send, on_subscribe, on_unsubscribe,
}

module _ (κ : Client) where
  abbrev pub Transactions : Type 0
  Transactions = Dict String (List Frame)

  -- The outcome, with the given transactions.
  abbrev pub back :
      {A : Type 0} → Transactions → Result Error A × State κ → Result Error A × State κ
  back ts (r, s) = (r, record s { transactions = ts })

  abbrev pub Ignores : {A : Type 0} → Method κ A → Type 0
  Ignores m = (ts : Transactions) (s : State κ) → m (record s { transactions = ts }) ≡ back ts (m s)

  continue-back :
      {A B : Type 0} (f : A → Method κ B) (ts : Transactions) (o : Result Error A × State κ)
      → ((a : A) → Ignores (f a))
      → continue f (back ts o) ≡ back ts (continue f o)
  continue-back f ts (ok a, s) each = each a ts s
  continue-back f ts (err x, s) each = refl

  pub bind-Ignores :
      {A B : Type 0} (m : Method κ A) (f : A → Method κ B)
      → Ignores m
      → ((a : A) → Ignores (f a))
      → Ignores (m >>= f)
  bind-Ignores m f first each ts s = ap (continue f) (first ts s) ∙ continue-back f ts (m s) each

  pub if-Ignores :
      {A : Type 0} (test : Bool) (m n : Method κ A)
      → Ignores m
      → Ignores n
      → Ignores (if test then m else n)
  if-Ignores true m n first second = first
  if-Ignores false m n first second = second

  authenticate-Ignores :
      (a : Option (Option String → Option String → Bool)) (frame : Frame)
      → Ignores (authenticate κ a frame)
  authenticate-Ignores none frame ts s = refl
  authenticate-Ignores (some accepts) frame ts s = refl

  pub on_connect-Ignores : (frame : Frame) → Ignores (on_connect κ frame)
  unfolding on_connect
  on_connect-Ignores frame =
      bind-Ignores (authenticate κ κ.authenticator frame)
        (λ _. do
          modify (λ s. record s { connected = true })
          session ← on_host κ (uuid4 κ.setup.env)
          reply κ (set_header (new_frame "CONNECTED" [] []) "session" session))
        (authenticate-Ignores κ.authenticator frame) (λ _ ts s. refl)

  -- A method of the queue manager or of the topic manager, on the destination of the frame.
  with_destination-Ignores :
      (frame : Frame) (what : String)
      (m : String → Exec Error (QueueState κ.setup.store.State) (Unit {0}))
      (n : String → Exec Error TopicState (Unit {0}))
      → Ignores (
          with_destination κ frame what
            (λ dest. if is_queue dest then on_queue κ (m dest) else on_topics κ (n dest)))
  with_destination-Ignores frame what m n =
      let dest : String = or_else (header frame "destination") "" in
      bind-Ignores (raise_if (not (is_truthy (header frame "destination"))) (protocol_error what))
        (λ _. if is_queue dest then on_queue κ (m dest) else on_topics κ (n dest)) (λ ts s. refl)
        (λ _.
          if-Ignores (is_queue dest) (on_queue κ (m dest)) (on_topics κ (n dest)) (λ ts s. refl)
            (λ ts s. refl))

  pub on_send-Ignores : (frame : Frame) → Ignores (on_send κ frame)
  unfolding on_send
  on_send-Ignores frame =
      with_destination-Ignores frame "Missing destination for SEND command."
        (λ dest. QueueManager.send κ.setup frame) (λ dest. TopicManager.send κ.setup.env frame)

  pub on_subscribe-Ignores : (frame : Frame) → Ignores (on_subscribe κ frame)
  unfolding on_subscribe
  on_subscribe-Ignores frame =
      bind-Ignores
        (on_host κ (
          modify (λ h. record h {
            reliable = put h.reliable κ.connection (wants_acks κ (header frame "ack"));
          })))
        (λ _. with_destination κ frame "Missing destination for SUBSCRIBE command." (λ dest.
          if is_queue dest
          then on_queue κ (QueueManager.subscribe κ.setup κ.connection dest)
          else on_topics κ (TopicManager.subscribe κ.connection dest)))
        (λ ts s. refl)
        (λ _.
          with_destination-Ignores frame "Missing destination for SUBSCRIBE command."
            (QueueManager.subscribe κ.setup κ.connection) (TopicManager.subscribe κ.connection))

  pub on_unsubscribe-Ignores : (frame : Frame) → Ignores (on_unsubscribe κ frame)
  unfolding on_unsubscribe
  on_unsubscribe-Ignores frame =
      with_destination-Ignores frame "Missing destination for UNSUBSCRIBE command."
        (QueueManager.unsubscribe κ.setup κ.connection) (TopicManager.unsubscribe κ.connection)

  pub unbind-Ignores : Ignores (unbind κ)
  unfolding unbind
  unbind-Ignores =
      bind-Ignores (modify (λ s. record s { connected = false }))
        (λ _.
          on_queue κ (QueueManager.disconnect κ.setup κ.connection)
          >> on_topics κ (TopicManager.disconnect κ.connection))
        (λ ts s. refl)
        (λ _.
          bind-Ignores (on_queue κ (QueueManager.disconnect κ.setup κ.connection))
            (λ _. on_topics κ (TopicManager.disconnect κ.connection)) (λ ts s. refl)
            (λ _ ts s. refl))
