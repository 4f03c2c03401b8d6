-- ===== src/Versions/StaleConnect.antt =====
-- CONNECT of STOMP11 and STOMP12 (coilmq/protocol/__init__.py) leaves last_hb of the objects that are
-- there.
use coilmq.Prelude.{
  ◌+◌, ℕ, String, ◌≡◌, false, not, Option, none, some, [], pure, modify, arith, nat_beq,
  nat_beq_iff, ◌==◌, string_equality,
}
use coilmq.Prelude.Triple.{Triple-pure, Triple-raise, Triple-raise_if, Triple-bind, Triple-if}
use coilmq.Dict.{or_else}
use coilmq.Text.{is_truthy, codes}
use coilmq.Frame.{Frame, protocol_error, header, set_header, new_frame}
use coilmq.Engine.{Client, Method}
use coilmq.Wire.Bytes.{split}
use coilmq.Versions.{
  Version, v10, v11, v12, version_text, Network, Action, on_session, new_protocol, Handler,
  put_object, Connection,
}
use coilmq.Versions.Connect.{
  common, highest, integers, same_version, or_value_error, connect_with, agree, negotiate_protocol,
  beat, connect_11, replace_11, replace_12, connect,
}
use coilmq.Versions.Stale.{IsStale, Stays, on_session-Stays, enable_heartbeat-Stays}

module _ (κ : Client) (net : Network) (self t r : ℕ) where
  abbrev Keeps : {A : Type 0} → Action κ net A → Type 0
  Keeps m = Stays κ net self t r m

  abbrev on : {A : Type 0} (m : Method κ A) → Keeps (on_session κ net m)
  on m = on_session-Stays κ net self t r m

  -- A new object has a number of its own.
  add_object-IsStale :
      (new : Handler) (reads : ℕ) (l : Connection κ net)
      → IsStale κ net self t r l
      → IsStale κ net self t r
          (record l { objects = put_object l.made new l.objects; made = l.made + 1; reads = reads })
  add_object-IsStale new reads l h =
      let other : nat_beq self l.made ≡ false = ground (arith, h.there, nat_beq_iff self l.made) in
      record {
        last = rw other h.last;
        interval = rw other h.interval;
        there = omega (arith, h.there);
      }

  new_protocol-Keeps : (v : Version) → Keeps (new_protocol κ net v)
  unfolding new_protocol
  new_protocol-Keeps v10 = record { run = λ l h. (add_object-IsStale _ _ l h, tt) }
  new_protocol-Keeps v11 = record { run = λ l h. (add_object-IsStale _ _ l h, tt) }
  new_protocol-Keeps v12 = record { run = λ l h. (add_object-IsStale _ _ l h, tt) }

  connect_with-Keeps : (frame response : Frame) → Keeps (connect_with κ net frame response)
  unfolding connect_with
  connect_with-Keeps frame response = on _

  agree-Keeps :
      (replace : Version → ℕ → Frame → Frame → Action κ net Frame) (v : Version)
      (o : Option Version) (frame response : Frame)
      → ((w : Version) (id : ℕ) (f g : Frame) → Keeps (replace w id f g))
      → Keeps (agree κ net replace v o frame response)
  unfolding agree
  agree-Keeps replace v none frame response each =
      Triple-bind {f = λ _. pure response} (on _) (λ _ _. Triple-pure tt)
  agree-Keeps replace v (some w) frame response each =
      Triple-if (same_version v w) (Triple-pure tt) (
        Triple-bind (new_protocol-Keeps w) (λ id _.
          Triple-bind (switched id)
            (λ _ _. each w id frame (set_header response "version" (version_text w)))))
    where
      switched : (id : ℕ) → Keeps (modify (λ l. record l { protocol = id }))
      switched id = record {
        run = λ l h. (record { last = h.last; interval = h.interval; there = h.there }, tt);
      }

  negotiate_protocol-Keeps :
      (replace : Version → ℕ → Frame → Frame → Action κ net Frame) (v : Version)
      (frame response : Frame)
      → ((w : Version) (id : ℕ) (f g : Frame) → Keeps (replace w id f g))
      → Keeps (negotiate_protocol κ net replace v frame response)
  unfolding negotiate_protocol
  negotiate_protocol-Keeps replace v frame response each =
      Triple-bind
        (Triple-raise_if (not (is_truthy (header frame "accept-version")))
          (protocol_error "No version specified"))
        (λ _ _.
          agree-Keeps replace v (highest (common v (or_else (header frame "accept-version") "")))
            frame response each)

  or_value_error-Keeps : {A : Type 0} (o : Option A) → Keeps (or_value_error κ net o)
  or_value_error-Keeps none = Triple-raise
  or_value_error-Keeps (some a) = Triple-pure tt

  beat-Keeps : (id : ℕ) (text : String) (response : Frame) → Keeps (beat κ net id text response)
  unfolding beat
  beat-Keeps id text response = Triple-if (text == "") (Triple-pure tt) (
      Triple-bind (or_value_error-Keeps (integers (split 44 (codes text))))
        (λ ns _. enable_heartbeat-Stays κ net self t r id ns response))

  connect_11-Keeps :
      (replace : Version → ℕ → Frame → Frame → Action κ net Frame) (v : Version) (id : ℕ)
      (frame : Frame)
      → ((w : Version) (id : ℕ) (f g : Frame) → Keeps (replace w id f g))
      → Keeps (connect_11 κ net replace v id frame)
  unfolding connect_11
  connect_11-Keeps replace v id frame each =
      Triple-bind (negotiate_protocol-Keeps replace v frame (new_frame "CONNECTED" [] []) each)
        (λ response _.
          Triple-bind (beat-Keeps id (or_else (header frame "heart-beat") "0,0") response)
            (λ response' _.
              Triple-bind {f = λ _. pure tt} (connect_with-Keeps frame response')
                (λ _ _. Triple-pure tt)))

  replace_12-Keeps : (w : Version) (id : ℕ) (f g : Frame) → Keeps (replace_12 κ net w id f g)
  replace_12-Keeps v10 id f g = connect_with-Keeps f g
  replace_12-Keeps v11 id f g =
      Triple-bind {f = λ _. pure g}
        (connect_11-Keeps (replace_11 κ net) v11 id f (λ w id f g. connect_with-Keeps f g))
        (λ _ _. Triple-pure tt)
  replace_12-Keeps v12 id f g =
      Triple-bind {f = λ _. pure g}
        (connect_11-Keeps (replace_11 κ net) v12 id f (λ w id f g. connect_with-Keeps f g))
        (λ _ _. Triple-pure tt)

  pub connect-Keeps : (v : Version) (id : ℕ) (frame : Frame) → Keeps (connect κ net v id frame)
  unfolding connect
  connect-Keeps v10 id frame =
      Triple-bind {f = λ _. pure tt} (connect_with-Keeps frame (new_frame "CONNECTED" [] []))
        (λ _ _. Triple-pure tt)
  connect-Keeps v11 id frame =
      connect_11-Keeps (replace_11 κ net) v11 id frame (λ w id f g. connect_with-Keeps f g)
  connect-Keeps v12 id frame =
      Triple-bind
        (Triple-raise_if (not (is_truthy (header frame "host")))
          (protocol_error "\"host\" header is required"))
        (λ _ _.
          Triple-bind
            (Triple-raise_if (not (or_else (header frame "host") "" == net.fqdn))
              (protocol_error "Virtual hosting is not supported or host is unknown"))
            (λ _ _. connect_11-Keeps (replace_12 κ net) v12 id frame replace_12-Keeps))
