-- ===== src/Tests/Links.antt =====
-- The theorems of Versions at concrete inputs: the frames are CONNECT frames on a new connection.
use coilmq.Prelude.{
  ◌+◌, ◌*◌, List, ◌≡◌, refl, arith, String, true, false, [], ◌∷◌, ◌++◌, ok, string_equality,
}
use coilmq.Dict.{get, contains}
use coilmq.Frame.{Frame, set_header}
use coilmq.Wire.Bytes.{split_from, same_text}
use coilmq.Timer.{expire_all, without}
use coilmq.Versions.{v10, v11, send_job, receive_job, Network, new_handler, Connection}
use coilmq.Versions.Heartbeat.{timer_of, with_timer_of, call, disable_heartbeat, receive_heartbeat}
use coilmq.Versions.Connect.{connect}
use coilmq.Versions.Welcome.{with_session, welcomed, started}
use coilmq.Versions.Negotiation.{connect_agrees, connect_twice, with_version, with_beat}
use coilmq.Versions.Silence.{expire_all-disable_heartbeat}
use coilmq.Versions.Unheard.{Event, arrives, expires, happen, receive_heartbeat_unbinds}
use coilmq.Protocol.Unbound.{IsReleased}
use coilmq.Store.Memory.Laws.{memory_fifo}
use coilmq.Tests.{client, session}

abbrev network : Network
network = record { now = λ n. n; fqdn = "broker"; joined = λ v. "1.1,1.0" }

abbrev link : Connection client network
link = record {
  session = record session { connected = false };
  objects = λ n. new_handler v11 0 1;
  made = 1;
  protocol = 0;
  reads = 2;
}

abbrev offering : String → Frame
offering versions = record {
  cmd = "CONNECT";
  headers = ("accept-version", versions) ∷ [];
  body = [];
}

connect_agrees_example : connect client network v11 0 (offering "1.0,1.1") link ≡ (
  ok tt,
  record (started client network 0 link) {
    session =
        welcomed client network
          (with_beat client network (with_version client network v11) (link.objects 0))
          link.session;
  },
)
unfolding get contains split_from same_text
connect_agrees_example =
    connect_agrees client network v11 0 (offering "1.0,1.1") link tt
      (record { asked = refl; best = refl; silent = refl }) refl (λ n f. refl) (λ s. refl)

connect_twice_example :
    let first : Frame =
      with_session client network (with_version client network v10) link.session in
    let second : Frame =
      set_header (with_beat client network first (link.objects 0)) "session" "id" in
    (l' : Connection client network) × (connect client network v11 0 (offering "1.0") link
      ≡ (ok tt, l'))
    × (l'.session.queue.host.sent
        ≡ (link.session.queue.host.sent ++ ((1, first) ∷ [])) ++ ((1, second) ∷ []))
    × (l'.session.connected ≡ true)
    × ((l'.objects l'.protocol).version ≡ v10)
unfolding get contains split_from same_text
connect_twice_example =
    connect_twice client network v11 0 (offering "1.0") link tt
      (record { asked = refl; best = refl; silent = refl }) refl (omega arith) (λ n f. refl)
      (λ s. refl)

-- Two timers are armed, and expire.
abbrev beating : Connection client network
beating =
    with_timer_of client network 0
      (record {
        jobs = (100, send_job) ∷ [];
        running = true;
        armed = (100, send_job) ∷ (200, send_job) ∷ [];
      })
      link

expire_all-disable_heartbeat_example :
    expire_all
      (timer_of client network 0)
      (with_timer_of client network 0)
      (call client network 0)
      (1 ∷ 0 ∷ [])
      (disable_heartbeat client network 0 beating).1
    ≡ with_timer_of client network 0
        (record { jobs = (100, send_job) ∷ []; running = false; armed = [] })
        beating
unfolding without
expire_all-disable_heartbeat_example =
    expire_all-disable_heartbeat client network 0 (1 ∷ 0 ∷ []) beating

-- A clock that is at 110 milliseconds and goes on by 60 milliseconds at each call.
abbrev late_network : Network
late_network = record { now = λ n. 110000 + n * 60000; fqdn = "broker"; joined = λ v. "1.1,1.0" }

-- An object that was made at 0. The timer of receive_heartbeat is armed, every 100 milliseconds.
abbrev late_link : Connection client late_network
late_link = record {
  session = session;
  objects = λ n. record (new_handler v11 0 0) {
    timer = record {
      jobs = (100, receive_job) ∷ [];
      running = true;
      armed = (100, receive_job) ∷ [];
    };
  };
  made = 1;
  protocol = 0;
  reads = 0;
}

-- The client sends a frame, the timer expires, and the client sends another frame.
abbrev busy_events : List Event
busy_events = arrives (offering "1.1") ∷ expires 0 0 ∷ arrives (offering "1.1") ∷ []

receive_heartbeat_unbinds_example :
    ((receive_heartbeat client late_network 0 (happen client late_network busy_events late_link)).0
      ≡ ok tt)
    × IsReleased client memory_fifo
        (receive_heartbeat client late_network 0
          (happen client late_network busy_events late_link)).1.session
receive_heartbeat_unbinds_example =
    receive_heartbeat_unbinds client late_network memory_fifo 0 busy_events late_link (omega arith)
      (omega arith)
