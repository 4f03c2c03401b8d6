-- ===== src/Versions/Negotiation.antt =====
-- What a client of STOMP11 and STOMP12 gets for its CONNECT (coilmq/protocol/__init__.py).
use coilmq.Prelude.{
  ℕ, ◌+◌, ◌<◌, ◌≡◌, refl, ap, ◌∙◌, arith, String, true, false, Option, none, some, [], ◌∷◌, ◌++◌,
  ok, pure, ◌>>◌, ◌>>=◌, continue, ◌==◌, string_equality, nat_beq,
}
use coilmq.Dict.{or_else}
use coilmq.Text.{is_truthy}
use coilmq.Frame.{Frame, header, set_header, new_frame}
use coilmq.Engine.{Client}
use coilmq.Versions.{
  Version, v10, v11, v12, version_text, Handler, new_handler, Network, put_object, Connection,
  Action, new_protocol,
}
use coilmq.Versions.Heartbeat.{announced}
use coilmq.Versions.Connect.{
  common, highest, same_version, versions_frame, agree, beat, connect_with, connect_11, replace_11,
  replace_12, connect,
}
use coilmq.Versions.Welcome.{
  Receives, IsAuthentic, got, reply-got, with_session, welcomed, connect_with-welcomed,
  negotiate_protocol-agree, started, object-put, beat-zero,
}

-- A class that negotiates, and for STOMP12 a frame for this host.
abbrev pub IsServed : Network → Version → Frame → Type 0
IsServed net v10 frame = ⊥
IsServed net v11 frame = Unit {0}
IsServed net v12 frame =
    (is_truthy (header frame "host") ≡ true)
    × ((or_else (header frame "host") "" == net.fqdn) ≡ true)

-- What a client offers comes down to the given version, and it names no heart-beat.
pub record IsOffer (v : Version) (o : Option Version) (frame : Frame) : Type 0 where
  pub asked : is_truthy (header frame "accept-version") ≡ true
  pub best : highest (common v (or_else (header frame "accept-version") "")) ≡ o
  pub silent : header frame "heart-beat" ≡ none

module _ (κ : Client) (net : Network) where
  replace_of : Version → Version → ℕ → Frame → Frame → Action κ net Frame
  replace_of v12 = replace_12 κ net
  replace_of _ = replace_11 κ net

  connect-served :
      (v : Version) (self : ℕ) (frame : Frame) (l : Connection κ net)
      → IsServed net v frame
      → connect κ net v self frame l ≡ connect_11 κ net (replace_of v) v self frame l
  unfolding connect replace_of
  connect-served v10 self frame l served = absurd served
  connect-served v11 self frame l served = refl
  connect-served v12 self frame l (named, known) = rw (named, known) refl

  abbrev pub response : Frame
  response = new_frame "CONNECTED" [] []

  abbrev pub with_version : Version → Frame
  with_version v = set_header response "version" (version_text v)

  abbrev pub with_beat : Frame → Handler → Frame
  with_beat r h = set_header r "heart-beat" (announced κ net h)

  -- What follows the negotiation.
  connect_11-welcomed :
      (replace : Version → ℕ → Frame → Frame → Action κ net Frame) (v : Version)
      (o : Option Version) (self : ℕ) (frame r : Frame) (l l1 : Connection κ net)
      → IsOffer v o frame
      → agree κ net replace v o frame response l ≡ (ok r, l1)
      → (l1.objects self).timer.jobs ≡ []
      → Receives κ net
      → IsAuthentic κ net frame
      → connect_11 κ net replace v self frame l ≡ (
        ok tt,
        record (started κ net self l1) {
          session = welcomed κ net (with_beat r (l1.objects self)) l1.session;
        },
      )
  unfolding connect_11
  connect_11-welcomed replace v o self frame r l l1 offer agreed idle receives authentic =
      let next : Frame → Action κ net (Unit {0}) = λ r. connect_with κ net frame r >> pure tt in
      let text : String = or_else (header frame "heart-beat") "0,0" in
      ap (continue (λ r. beat κ net self text r >>= next)) (
        negotiate_protocol-agree κ net replace v frame response o l offer.asked offer.best ∙ agreed)
      ∙ (ap (continue next) (
            ap (λ o. beat κ net self (or_else o "0,0") r l1) offer.silent
            ∙ beat-zero κ net self r l1 idle)
          ∙ ap (continue (λ r. pure tt)) (
              connect_with-welcomed κ net frame (with_beat r (l1.objects self))
                (started κ net self l1) receives authentic))

  same_version_refl : (v : Version) → same_version v v ≡ true
  same_version_refl v10 = refl
  same_version_refl v11 = refl
  same_version_refl v12 = refl

  -- A client sends a STOMP11, or a STOMP12 whose host it names, a CONNECT frame that names no
  -- heart-beat; its credentials are accepted, the connection accepts every frame, and no job is
  -- scheduled. If the best version that it offers is that of the object, it is connected with one
  -- CONNECTED frame, which tells it the version, the intervals and a session id; the engine keeps its
  -- protocol, and the timer runs with no job.
  pub connect_agrees :
      (v : Version) (self : ℕ) (frame : Frame) (l : Connection κ net)
      → IsServed net v frame
      → IsOffer v (some v) frame
      → (l.objects self).timer.jobs ≡ []
      → Receives κ net
      → IsAuthentic κ net frame
      → connect κ net v self frame l ≡ (
        ok tt,
        record (started κ net self l) {
          session = welcomed κ net (with_beat (with_version v) (l.objects self)) l.session;
        },
      )
  unfolding agree
  connect_agrees v self frame l served offer idle receives authentic =
      connect-served v self frame l served
      ∙ connect_11-welcomed (replace_of v) v (some v) self frame (with_version v) l l offer
          (rw (same_version_refl v) refl) idle receives authentic

  -- A client sends a STOMP11, or a STOMP12 whose host it names, a CONNECT frame that names no
  -- heart-beat; its credentials are accepted, the connection accepts every frame, and no job is
  -- scheduled. If it offers no version that the object supports, it is told so by an ERROR frame, and is
  -- connected nonetheless: it gets a CONNECTED frame without a version behind it.
  pub connect_disagrees :
      (v : Version) (self : ℕ) (frame : Frame) (l : Connection κ net)
      → IsServed net v frame
      → IsOffer v none frame
      → (l.objects self).timer.jobs ≡ []
      → Receives κ net
      → IsAuthentic κ net frame
      → connect κ net v self frame l ≡ (
        ok tt,
        record (started κ net self l) {
          session =
              welcomed κ net
                (with_beat response (l.objects self))
                (got κ net (versions_frame (net.joined v)) l.session);
        },
      )
  unfolding agree
  connect_disagrees v self frame l served offer idle receives authentic =
      let l1 : Connection κ net = record l {
        session = got κ net (versions_frame (net.joined v)) l.session;
      } in
      connect-served v self frame l served
      ∙ connect_11-welcomed (replace_of v) v none self frame response l l1 offer
          (ap (λ o. continue (λ u. pure response) (o.0, record l { session = o.1 }))
            (reply-got κ net (versions_frame (net.joined v)) l.session receives))
          idle receives authentic

  object-put_other :
      (self id : ℕ) (h : Handler) (objects : ℕ → Handler)
      → nat_beq self id ≡ false
      → put_object id h objects self ≡ objects self
  object-put_other self id h objects e = rw e refl

  -- The connection once a STOMP10 has taken over and has answered.
  abbrev taken_over : Connection κ net → Connection κ net
  taken_over l = record l {
    objects = put_object l.made (new_handler v10 0 0) l.objects;
    made = l.made + 1;
    protocol = l.made;
    session = welcomed κ net (with_version v10) l.session;
  }

  agree-taken_over :
      (v : Version) (frame : Frame) (l : Connection κ net)
      → IsServed net v frame
      → Receives κ net
      → IsAuthentic κ net frame
      → agree κ net (replace_of v) v (some v10) frame response l
        ≡ (ok (with_session κ net (with_version v10) l.session), taken_over l)
  unfolding agree new_protocol replace_of
  agree-taken_over v10 frame l served receives authentic = absurd served
  agree-taken_over v11 frame l served receives authentic =
      connect_with-welcomed κ net frame (with_version v10)
        (record (taken_over l) { session = l.session }) receives authentic
  agree-taken_over v12 frame l served receives authentic =
      connect_with-welcomed κ net frame (with_version v10)
        (record (taken_over l) { session = l.session }) receives authentic

  -- A client sends a STOMP11, or a STOMP12 whose host it names, a CONNECT frame that names no
  -- heart-beat; its credentials are accepted, the connection accepts every frame, and no job is
  -- scheduled. If the best version that it offers is 1.0, it is connected twice: the STOMP10 that becomes
  -- the engine's protocol sends it a CONNECTED frame with a session id, and the object that it replaces
  -- sends another one, with another session id.
  pub connect_twice :
      (v : Version) (self : ℕ) (frame : Frame) (l : Connection κ net)
      → IsServed net v frame
      → IsOffer v (some v10) frame
      → (l.objects self).timer.jobs ≡ []
      → self < l.made
      → Receives κ net
      → IsAuthentic κ net frame
      → let first : Frame = with_session κ net (with_version v10) l.session in
        let second : Frame =
          set_header
            (with_beat first (l.objects self))
            "session"
            (κ.setup.env.uuid (l.session.queue.host.uuids + 1)) in
        (l' : Connection κ net) × (connect κ net v self frame l ≡ (ok tt, l'))
        × (l'.session.queue.host.sent
            ≡ (l.session.queue.host.sent ++ ((κ.connection, first) ∷ []))
              ++ ((κ.connection, second) ∷ []))
        × (l'.session.connected ≡ true)
        × ((l'.objects l'.protocol).version ≡ v10)
  connect_twice v self frame l served offer idle older receives authentic =
      let l1 : Connection κ net = taken_over l in
      let h : Handler = new_handler v10 0 0 in
      let first : Frame = with_session κ net (with_version v10) l.session in
      let kept : l1.objects self ≡ l.objects self =
        object-put_other self l.made h l.objects (ground arith) in
      (
        record (started κ net self l1) {
          session = welcomed κ net (with_beat first (l1.objects self)) l1.session;
        },
        connect-served v self frame l served
            ∙ connect_11-welcomed (replace_of v) v (some v10) self frame first l l1 offer
                (agree-taken_over v frame l served receives authentic)
                (ap (λ h. h.timer.jobs) kept ∙ idle) receives authentic,
        ap
            (λ h.
              l1.session.queue.host.sent
              ++ ((
                κ.connection,
                set_header (with_beat first h) "session"
                    (κ.setup.env.uuid (l.session.queue.host.uuids + 1)),
              )
                  ∷ []))
            kept,
        refl,
        ap (λ h. h.version) (object-put_other l.made self _ l1.objects (ground arith))
            ∙ ap (λ h. h.version) (object-put κ net l.made h l.objects),
      )
