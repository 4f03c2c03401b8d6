-- ===== src/Server/Chunks.antt =====
-- A request whose bytes are whole frames (coilmq/server/socket_server.py, coilmq/util/frames.py).
use coilmq.Prelude.{
  ℕ, zero, suc, ◌<◌, ◌≤◌, ◌≡◌, refl, sym, ap, ◌∙◌, arith, Bool, true, false, List, [], ◌∷◌, ◌++◌,
  map, ok, err, Result, pure, raise, gets, ◌>>=◌, ◌>>◌, continue, length, length-append,
  if◌then◌else◌, String,
}
use coilmq.Frame.{Frame, Error}
use coilmq.Engine.{Client}
use coilmq.Versions.{Network, Connection}
use coilmq.Versions.Dispatch.{process_frame}
use coilmq.Wire.Bytes.{Text}
use coilmq.Wire.Parse.{WireFrame}
use coilmq.Wire.Buffer.{FrameBuffer, append}
use coilmq.Wire.RoundTrip.{packed}
use coilmq.Wire.Delivery.{
  ArePrintable, all_packed, IsDrained, extract_frame-packed, extract_frame-IsDrained,
  unread-append_all,
}
use coilmq.Wire.Resume.{unread}
use coilmq.Server as Server
use coilmq.Server.Bytes as Bytes
use coilmq.Server.Bytes.{
  Event, received, Failure, client_disconnected, session_error, Request, wrap, Handler, Step,
  decoded, on_link, with_frame, continue_if, process_each, process_data, timed, after_recv,
  read_events, handled,
}

-- The events of chunks that hold whole frames, and the frames.
abbrev pub events_of : List (List WireFrame) → List Event
events_of [] = []
events_of (fs ∷ chunks) = received (all_packed fs) ∷ events_of chunks

abbrev pub AllPrintable : List (List WireFrame) → Type 0
AllPrintable [] = Unit {0}
AllPrintable (fs ∷ chunks) = ArePrintable fs × AllPrintable chunks

length-packed : (f : WireFrame) → 0 < length (packed f)
length-packed f =
    rw (length-append (f.cmd ++ _) (f.body ++ (0 ∷ [])), length-append f.body (0 ∷ []))
      (omega arith)

-- Each frame takes a byte at least.
length-all_packed : (fs : List WireFrame) → length fs ≤ length (all_packed fs)
length-all_packed [] = omega arith
length-all_packed (f ∷ fs) =
    rw (length-append (packed f) (all_packed fs))
      (omega (arith, length-packed f, length-all_packed fs))

module _ (κ : Client) (net : Network) (text : Text → String) (is_timeout : Error → Bool) where
  abbrev pub frames_of : List (List WireFrame) → List Frame
  frames_of [] = []
  frames_of ([] ∷ chunks) = []
  frames_of ((f ∷ fs) ∷ chunks) = map (decoded κ net text is_timeout) (f ∷ fs) ++ frames_of chunks

  abbrev pub request : Connection κ net → FrameBuffer → Handler κ net text is_timeout
  request s b = record { link = s; buffer = b }

  -- What the session came to, beside some buffer.
  abbrev IsLike :
      Result Failure (Unit {0}) × Handler κ net text is_timeout
      → Result Error (Unit {0}) × Connection κ net
      → Type 0
  IsLike o (r, s) = (b : FrameBuffer) × (o ≡ (wrap session_error r, request s b))

  -- ClientDisconnected ends the loop, and nothing else.
  caught :
      Result Failure (Unit {0}) × Handler κ net text is_timeout
      → Result Failure (Unit {0}) × Handler κ net text is_timeout
  caught (err client_disconnected, h) = (ok tt, h)
  caught o = o

  abbrev events_loop : ℕ → List (List WireFrame) → Step κ net text is_timeout (Unit {0})
  events_loop fuel chunks =
      process_each κ net text is_timeout fuel
      >> read_events κ net text is_timeout (events_of chunks)

  -- What the rest of the input is for a buffer in which all was read.
  abbrev Follows : List (List WireFrame) → Type 0
  Follows chunks =
      (s : Connection κ net) (b : FrameBuffer)
      → IsDrained b
      → IsLike (caught (read_events κ net text is_timeout (events_of chunks) (request s b)))
          (Server.read_loop κ net (frames_of chunks) s)

  -- A frame was processed, and the session is connected or not.
  loop-ready :
      (fuel : ℕ) (frames : List Frame) (chunks : List (List WireFrame)) (b : FrameBuffer)
      (s : Connection κ net) (ready : Bool)
      → IsLike (caught (events_loop fuel chunks (request s b))) (Server.read_loop κ net frames s)
      → IsLike
          (caught (
            continue
              (λ _. read_events κ net text is_timeout (events_of chunks))
              (continue_if κ net text is_timeout
                (process_each κ net text is_timeout fuel)
                ready
                (request s b))))
          ((if ready then Server.read_loop κ net frames else pure tt) s)
  unfolding caught
  loop-ready fuel frames chunks b s true next = next
  loop-ready fuel frames chunks b s false next = (b, refl)

  -- A frame was processed, with the outcome `o`.
  loop-processed :
      (fuel : ℕ) (frames : List Frame) (chunks : List (List WireFrame)) (b : FrameBuffer)
      (o : Result Error (Unit {0}) × Connection κ net)
      → ((s : Connection κ net)
          → IsLike
              (caught (events_loop fuel chunks (request s b)))
              (Server.read_loop κ net frames s))
      → IsLike
          (caught (
            continue
              (λ _. read_events κ net text is_timeout (events_of chunks))
              (continue
                (λ _.
                  gets (λ h. h.link.session.connected)
                  >>= continue_if κ net text is_timeout (process_each κ net text is_timeout fuel))
                (wrap session_error o.0, request o.1 b))))
          (continue
            (λ _.
              gets (λ s. s.session.connected)
              >>= (λ ready. if ready then Server.read_loop κ net frames else pure tt))
            o)
  unfolding caught
  loop-processed fuel frames chunks b (err x, s) next = (b, refl)
  loop-processed fuel frames chunks b (ok u, s) next =
      loop-ready fuel frames chunks b s s.session.connected (next s)

  -- The frames of a chunk, and what follows it.
  loop-chunk :
      (fuel : ℕ) (fs : List WireFrame) (chunks : List (List WireFrame)) (b : FrameBuffer)
      (s : Connection κ net)
      → ArePrintable fs
      → length fs < fuel
      → unread b ≡ all_packed fs
      → Follows chunks
      → IsLike
          (caught (events_loop fuel chunks (request s b)))
          (Server.read_loop κ net (map (decoded κ net text is_timeout) fs ++ frames_of chunks) s)
  unfolding process_each Server.read_loop
  loop-chunk zero fs chunks b s good h e follows = elim h [ ]
  loop-chunk (suc fuel) [] chunks b s good h e follows =
      let (b', done, drained) = extract_frame-IsDrained b e in
      let (c, same) = follows s b' drained in
      (
        c,
        ap
              (λ o. caught (
                continue (λ _. read_events κ net text is_timeout (events_of chunks))
                  (continue
                    (with_frame κ net text is_timeout (process_each κ net text is_timeout fuel))
                    (wrap Bytes.frame_error o.0, request s o.1))))
              done
            ∙ same,
      )
  loop-chunk (suc fuel) (f ∷ fs) chunks b s (good, goods) h e follows =
      let (b', done, left) = extract_frame-packed f b (all_packed fs) good e in
      let (c, same) =
        loop-processed fuel (map (decoded κ net text is_timeout) fs ++ frames_of chunks) chunks b'
          (process_frame κ net 2 (decoded κ net text is_timeout f) s)
          (λ s. loop-chunk fuel fs chunks b' s goods (omega (arith, h)) left follows) in
      (
        c,
        ap
              (λ o. caught (
                continue (λ _. read_events κ net text is_timeout (events_of chunks))
                  (continue
                    (with_frame κ net text is_timeout (process_each κ net text is_timeout fuel))
                    (wrap Bytes.frame_error o.0, request s o.1))))
              done
            ∙ same,
      )

  -- Without timeouts nothing passes for one.
  timed_lem :
      ((e : Error) → is_timeout e ≡ false)
      → (o : Result Failure (Unit {0}) × Handler κ net text is_timeout)
      → timed κ net text is_timeout o ≡ o
  timed_lem never (ok u, h) = refl
  timed_lem never (err client_disconnected, h) = refl
  timed_lem never (err (session_error e), h) = rw (never e)
  timed_lem never (err (Bytes.frame_error x), h) = refl

  -- Bytes that are not empty, and the rounds after them.
  after_recv_lem :
      ((e : Error) → is_timeout e ≡ false)
      → (bytes : List ℕ) (others : Step κ net text is_timeout (Unit {0}))
        (h : Handler κ net text is_timeout)
      → 0 < length bytes
      → after_recv κ net text is_timeout bytes others h
        ≡ continue (λ _. others) (process_data κ net text is_timeout bytes h)
  after_recv_lem never [] others h some_ = absurd (omega (arith, some_))
  after_recv_lem never (b ∷ bytes) others h some_ =
      ap (continue (λ _. others))
        (timed_lem never (process_data κ net text is_timeout (b ∷ bytes) h))

  read_events-Follows :
      ((e : Error) → is_timeout e ≡ false)
      → (chunks : List (List WireFrame)) → AllPrintable chunks
      → Follows chunks
  unfolding read_events Server.read_loop caught
  read_events-Follows never [] good s b drained = (b, refl)
  read_events-Follows never ([] ∷ chunks) good s b drained = (b, refl)
  read_events-Follows never ((f ∷ fs) ∷ chunks) (good, goods) s b drained =
      let bytes : List ℕ = all_packed (f ∷ fs) in
      let b' : FrameBuffer = append bytes b in
      let whole : unread b' ≡ bytes = unread-append_all b bytes drained in
      let (c, same) =
        loop-chunk (suc (length (unread b'))) (f ∷ fs) chunks b' s good
          (rw whole (omega (arith, length-all_packed (f ∷ fs)))) whole
          (read_events-Follows never chunks goods) in
      (
        c,
        ap caught (
              after_recv_lem never bytes (read_events κ net text is_timeout (events_of chunks))
                (request s b) (omega (arith, length-all_packed (f ∷ fs))))
            ∙ same,
      )

  handled-caught :
      (o : Result Failure (Unit {0}) × Handler κ net text is_timeout)
      → handled κ net text is_timeout (caught o) ≡ handled κ net text is_timeout o
  unfolding caught handled
  handled-caught (ok u, h) = refl
  handled-caught (err client_disconnected, h) = refl
  handled-caught (err (session_error e), h) = refl
  handled-caught (err (Bytes.frame_error x), h) = refl

  -- An outcome of a session, as one of the request.
  abbrev pub lift :
      FrameBuffer
      → Result Error (Unit {0}) × Connection κ net
      → Result Failure (Unit {0}) × Handler κ net text is_timeout
  lift b (r, s) = (wrap session_error r, request s b)

  unbind-lift :
      (e : Error) (b : FrameBuffer) (o : Result Error (Unit {0}) × Connection κ net)
      → continue (λ _. raise (session_error e)) (lift b o) ≡ lift b (continue (λ _. raise e) o)
  unbind-lift e b (ok u, s) = refl
  unbind-lift e b (err x, s) = refl

  finish-lift :
      (b : FrameBuffer) (o : Result Error (Unit {0}) × Connection κ net)
      → Bytes.finish κ net text is_timeout (lift b o) ≡ lift b (Server.finish κ net o)
  finish-lift b (ok u, s) = refl
  finish-lift b (err e, s) = unbind-lift e b (Server.unbind_engine κ net s)

  -- How `handle` ends, given what its loop came to.
  abbrev after_loop :
      Result Error (Unit {0}) × Connection κ net → Result Error (Unit {0}) × Connection κ net
  after_loop (r, s) = elim r [
    | ok _ ↦ (ok tt, s)
    | err e ↦ (do Server.unbind_engine κ net; raise e) s
  ]

  handled-lift :
      (b : FrameBuffer) (o : Result Error (Unit {0}) × Connection κ net)
      → handled κ net text is_timeout (lift b o) ≡ lift b (after_loop o)
  unfolding handled
  handled-lift b (ok u, s) = refl
  handled-lift b (err e, s) = unbind-lift e b (Server.unbind_engine κ net s)

  -- A client sends frames with a command and headers that are lines of ASCII text, without white
  -- space at their ends and with one colon in each header, with distinct keys and the right
  -- content-length. Each chunk of bytes that recv returns holds whole frames, and all of the buffer was
  -- read before; no send times out. Then the request does with the engine, whatever its protocol
  -- object, what it does on the sequence of these frames, up to a chunk without bytes, which ends the
  -- input, and returns or raises the same.
  pub serve-read_events :
      ((e : Error) → is_timeout e ≡ false)
      → (chunks : List (List WireFrame)) (s : Connection κ net) (b : FrameBuffer)
      → AllPrintable chunks
      → IsDrained b
      → (b' : FrameBuffer) × (Bytes.serve κ net text is_timeout (events_of chunks) (request s b)
          ≡ lift b' (Server.serve κ net (frames_of chunks) s))
  unfolding Bytes.serve Bytes.handle Server.serve Server.handle
  serve-read_events never chunks s b good drained =
      let (b', same) = read_events-Follows never chunks good s b drained in
      let o : Result Error (Unit {0}) × Connection κ net =
        Server.read_loop κ net (frames_of chunks) s in
      (
        b',
        ap (Bytes.finish κ net text is_timeout) (
              sym (
                handled-caught (read_events κ net text is_timeout (events_of chunks) (request s b)))
              ∙ (ap (handled κ net text is_timeout) same ∙ handled-lift b' o))
            ∙ finish-lift b' (after_loop o),
      )
