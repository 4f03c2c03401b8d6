-- ===== src/Tests/Threads.antt =====
-- serve_forever and shutdown (coilmq/server/socket_server.py) in two threads, at concrete states.
use coilmq.Prelude.{◌≡◌, ◌≢◌, ◌⊎◌, ◌<◌, refl, true, false}
use coilmq.Server.Threads.{
  Threads, Reach, Move, start, later, mark, clear, loop, leave, test, request, unmark, tell, return,
  unstarted, looping, waiting, stopped, has_told, rank, shutdown_asks, shutdown_returns,
}

-- The server is serving and another thread waits for its end.
abbrev waiting_threads : Threads
waiting_threads = record {
  serving_event = false;
  shutdown_request_event = true;
  told = true;
  server = looping;
  stopper = waiting;
  early = false;
}

waiting_reached : Reach waiting_threads
waiting_reached =
    later
      (later
        (later
          (later (later (later (later start (mark refl)) (clear refl)) (loop refl))
            (test refl refl))
          (request refl))
        (unmark refl))
      (tell refl)

shutdown_asks_example :
    (waiting_threads.serving_event ≡ true → waiting_threads.server ≢ unstarted)
    × (has_told waiting_threads.stopper ≡ true
        → (waiting_threads.server ≢ unstarted)
          × (waiting_threads.early ≡ false → waiting_threads.shutdown_request_event ≡ true))
shutdown_asks_example = shutdown_asks waiting_threads waiting_reached

shutdown_returns_example :
    ((u : Threads) × Move waiting_threads u)
    × ((u : Threads)
        → Move waiting_threads u
        → (u.stopper ≡ stopped)
          ⊎ ((u.stopper ≡ waiting) × (rank u.server < rank waiting_threads.server)))
shutdown_returns_example = shutdown_returns waiting_threads waiting_reached refl

-- With the test between the two lines of serve_forever, the server has ended and nobody has told the
-- requests.
request_forgotten :
    (s : Threads) × Reach s × (s.stopper ≡ stopped) × (s.shutdown_request_event ≡ false)
request_forgotten = (
  _,
  later
      (later
        (later
          (later
            (later
              (later (later (later (later start (mark refl)) (test refl refl)) (request refl))
                (clear refl))
              (loop refl))
            (unmark refl))
          (tell refl))
        (leave refl refl))
      (return refl refl),
  refl,
  refl,
)
