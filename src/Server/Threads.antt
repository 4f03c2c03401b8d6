-- ===== src/Server/Threads.antt =====
-- serve_forever and shutdown of StompServer (coilmq/server/socket_server.py) in two threads, a line at
-- a time. The loop of TCPServer.serve_forever ends once TCPServer.shutdown was called, and that call
-- returns once the loop has ended.
use coilmq.Prelude.{ℕ, ◌<◌, ◌≡◌, ◌≢◌, refl, ◌⊎◌, inl, inr, Bool, true, false, arith}

-- Where the thread is that serves: before the call, after `_serving_event.set()`, after
-- `_shutdown_request_event.clear()`, in the loop of TCPServer, and behind it.
pub data Serving : Type 0 where
  unstarted marked cleared looping ended : Serving

-- Where the thread is that stops: before the test, behind it, after `_shutdown_request_event.set()`,
-- after `_serving_event.clear()`, in TCPServer.shutdown, and behind it; `skipped` if the test failed.
pub data Stopping : Type 0 where
  untested tested requested unmarked waiting stopped skipped : Stopping

-- `early` notes that the test came between the two lines of serve_forever.
pub record Threads : Type 0 where
  pub serving_event : Bool
  pub shutdown_request_event : Bool
  pub told : Bool
  pub server : Serving
  pub stopper : Stopping
  pub early : Bool

abbrev pub is_marked : Serving → Bool
is_marked marked = true
is_marked _ = false

-- A line of either thread; the threads take turns in any order.
pub data Move (s : Threads) : Threads → Type 0 where
  mark : s.server ≡ unstarted → Move s (record s { serving_event = true; server = marked })
  clear : s.server ≡ marked → Move s (record s { shutdown_request_event = false; server = cleared })
  loop : s.server ≡ cleared → Move s (record s { server = looping })
  leave : s.server ≡ looping → s.told ≡ true → Move s (record s { server = ended })
  test :
      s.stopper ≡ untested
      → s.serving_event ≡ true
      → Move s (record s { stopper = tested; early = is_marked s.server })
  skip : s.stopper ≡ untested → s.serving_event ≡ false → Move s (record s { stopper = skipped })
  request :
      s.stopper ≡ tested → Move s (record s { shutdown_request_event = true; stopper = requested })
  unmark : s.stopper ≡ requested → Move s (record s { serving_event = false; stopper = unmarked })
  tell : s.stopper ≡ unmarked → Move s (record s { told = true; stopper = waiting })
  return : s.stopper ≡ waiting → s.server ≡ ended → Move s (record s { stopper = stopped })

-- A server that nobody has started or stopped.
abbrev pub idle : Threads
idle = record {
  serving_event = false;
  shutdown_request_event = false;
  told = false;
  server = unstarted;
  stopper = untested;
  early = false;
}

pub data Reach : Threads → Type 0 where
  start : Reach idle
  later : {s u : Threads} → Reach s → Move s u → Reach u

-- The thread that stops has found the server serving.
abbrev pub passed : Stopping → Bool
passed untested = false
passed skipped = false
passed _ = true

-- It has asked the requests to end, and it has called TCPServer.shutdown.
abbrev pub has_requested : Stopping → Bool
has_requested untested = false
has_requested tested = false
has_requested skipped = false
has_requested _ = true

abbrev pub has_told : Stopping → Bool
has_told waiting = true
has_told stopped = true
has_told _ = false

-- The requests will not be forgotten: the line that clears their event lies behind.
abbrev pub has_cleared : Serving → Bool
has_cleared unstarted = false
has_cleared marked = false
has_cleared _ = true

pub record Inv (s : Threads) : Type 0 where
  pub marked_first : s.serving_event ≡ true → s.server ≢ unstarted
  pub passed_first : passed s.stopper ≡ true → s.server ≢ unstarted
  pub late_cleared : passed s.stopper ≡ true → s.early ≡ false → has_cleared s.server ≡ true
  pub asked : has_requested s.stopper ≡ true → s.early ≡ false → s.shutdown_request_event ≡ true
  pub told_stopper : s.told ≡ has_told s.stopper
  pub ended_told : s.server ≡ ended → s.told ≡ true

idle-Inv : Inv idle
idle-Inv = ground arith

Move-Inv : {s u : Threads} → Move s u → Inv s → Inv u
Move-Inv (mark e) h = ground arith
Move-Inv (clear e) h = ground arith
Move-Inv (loop e) h = ground arith
Move-Inv (leave e heard) h = ground arith
Move-Inv (test e on) h = ground arith
Move-Inv (skip e off) h = ground arith
Move-Inv (request e) h = ground arith
Move-Inv (unmark e) h = ground arith
Move-Inv (tell e) h = ground arith
Move-Inv (return e over) h = ground arith

Reach-Inv : {s : Threads} → Reach s → Inv s
Reach-Inv start = idle-Inv
Reach-Inv (later r m) = Move-Inv m (Reach-Inv r)

-- However the two threads take turns: TCPServer.shutdown, which would wait for ever otherwise, is
-- called only after serve_forever was; and from then on the event that the requests read is set,
-- unless the test of shutdown came between the two lines of serve_forever. The event that marks the
-- server as serving is set only after serve_forever was called.
pub shutdown_asks :
    (s : Threads)
    → Reach s
    → (s.serving_event ≡ true → s.server ≢ unstarted)
      × (has_told s.stopper ≡ true
          → (s.server ≢ unstarted) × (s.early ≡ false → s.shutdown_request_event ≡ true))
shutdown_asks s r =
    let h = Reach-Inv r in
    (h.marked_first, λ e. (h.passed_first (ground arith), h.asked (ground arith)))

-- The lines that the serving thread has before it.
abbrev pub rank : Serving → ℕ
rank unstarted = 4
rank marked = 3
rank cleared = 2
rank looping = 1
rank ended = 0

can_move :
    (s : Threads) (at : Serving)
    → s.server ≡ at
    → at ≢ unstarted
    → s.told ≡ true
    → s.stopper ≡ waiting
    → (u : Threads) × Move s u
can_move s unstarted e begun told w = absurd (begun refl)
can_move s marked e begun told w = (_, clear e)
can_move s cleared e begun told w = (_, loop e)
can_move s looping e begun told w = (_, leave e told)
can_move s ended e begun told w = (_, return w e)

goes_on :
    {s u : Threads}
    → Move s u
    → Inv s
    → s.stopper ≡ waiting
    → (u.stopper ≡ stopped) ⊎ ((u.stopper ≡ waiting) × (rank u.server < rank s.server))
goes_on (mark e) h w = absurd (h.passed_first (ground arith) e)
goes_on (clear e) h w = inr (w, ground arith)
goes_on (loop e) h w = inr (w, ground arith)
goes_on (leave e heard) h w = inr (w, ground arith)
goes_on (test e on) h w = absurd (ground arith)
goes_on (skip e off) h w = absurd (ground arith)
goes_on (request e) h w = absurd (ground arith)
goes_on (unmark e) h w = absurd (ground arith)
goes_on (tell e) h w = absurd (ground arith)
goes_on (return e over) h w = inl refl

-- A thread that waits in TCPServer.shutdown returns: in every state that the threads get into, one
-- of the two can go on, and every move either ends the wait or leaves the serving thread fewer lines
-- to its end, of which there are four at most.
pub shutdown_returns :
    (s : Threads)
    → Reach s
    → s.stopper ≡ waiting
    → ((u : Threads) × Move s u)
      × ((u : Threads)
          → Move s u
          → (u.stopper ≡ stopped) ⊎ ((u.stopper ≡ waiting) × (rank u.server < rank s.server)))
shutdown_returns s r w =
    let h = Reach-Inv r in
    (
      can_move s s.server refl (h.passed_first (ground arith)) (ground (arith, h.told_stopper)) w,
      λ u m. goes_on m h w,
    )
