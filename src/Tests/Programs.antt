-- ===== src/Tests/Programs.antt =====
-- The theorems on the configuration and the start-up (coilmq/config, coilmq/start.py, StompServer of
-- coilmq/server/socket_server.py) at concrete inputs.
use coilmq.Prelude.{
  ap, eq_iff, ℕ, suc, String, ◌≡◌, refl, sym, ◌∙◌, true, false, Option, none, some, List, [], ◌∷◌,
  Result, ok, err, ◌==◌, string_equality, if◌then◌else◌, arith,
}
use coilmq.Dict.{Dict, get, put, has, contains, add}
use coilmq.Dict.Laws.{get-put, beq_self}
use coilmq.Text.{lower, ◌+s◌}
use coilmq.Frame.{Error, config_error}
use coilmq.Versions.{Version}
use coilmq.Start.{Platform, Program, plain, server_from_config}
use coilmq.Start.Serve.{Options, configure, context_serve}
use coilmq.Start.Outcome.{IsQuiet, IsStopped, context_serve-IsStopped}
use coilmq.Start.Configured.{IsConfigured, server_from_config-IsConfigured}
use coilmq.Start.Override.{KeepsSettings, server_from_config-configure}
use coilmq.Server.Tcp.{failure}
use coilmq.Dict.{put}
use coilmq.Dict.Laws.{get-put, beq_self}
use coilmq.Config.{Parser, LogCall}
use coilmq.Config.Names.{Importer, colon, dot, mentions, resolve_name}
use coilmq.Config.Resolved.{resolve_name-colon}
use coilmq.Server.Tcp.{
  Raised, keyboard_interrupt, system_exit, failure, StompServer, TcpServer, shutdown, server_close,
}
use coilmq.Server.Closing.{ClosesQuietly, stopped, all_closed, server_close-stopped}
use coilmq.Start.{Platform, Program, plain, server_from_config}
use coilmq.Start.Serve.{Options, configure, context_serve}
use coilmq.Start.Outcome.{IsQuiet, IsStopped, context_serve-IsStopped}
use coilmq.Start.Configured.{IsConfigured, server_from_config-IsConfigured}
use coilmq.Start.Override.{KeepsSettings, server_from_config-configure}

-- A module is an attribute of its package once it is loaded; an object is known by its path.
abbrev importer : Importer
importer = record {
  Modules = List String;
  Object = String;
  load = λ name loaded. (ok name, add name loaded);
  attribute = λ loaded found n.
      let path = found +s ("." +s n) in if contains path loaded then some path else none;
}

resolve_name-colon_example :
    resolve_name importer ("store.memory" +s (":" +s "Queue")) []
    ≡ resolve_name importer ("store.memory" +s ("." +s "Queue")) []
resolve_name-colon_example = resolve_name-colon importer "store.memory" "Queue" [] refl refl

abbrev or_missing_option : Option String → Result Error String
or_missing_option none = err config_error
or_missing_option (some value) = ok value

-- Integers are known by their texts. The names of options have no case.
abbrev parser : Parser
parser = record {
  Settings = Dict String String;
  Integer = String;
  exists = λ path. true;
  fresh = [];
  read = λ path c. (ok true, c);
  has_section = λ c section. false;
  has_option = λ c section key. has c (lower key);
  get = λ c section key. or_missing_option (get c (lower key));
  getint = λ c section key. or_missing_option (get c (lower key));
  set = λ section key value c. (ok tt, put c (lower key) value);
}

-- TCPServer counts its calls; the program is interrupted while it serves.
abbrev tcp : TcpServer importer String
tcp = record {
  Base = ℕ;
  bind = λ address loaded. (ok 0, loaded);
  close_socket = λ n. (ok tt, suc n);
  stop = λ n. (ok tt, suc n);
  loop = λ s. (err keyboard_interrupt, s);
  has_close = λ o. o == "store.memory";
  close = λ o loaded. (ok tt, []);
}

tcp-ClosesQuietly : ClosesQuietly tcp
tcp-ClosesQuietly = record { socket = λ b. refl; stop = λ b. refl; objects = λ o m h. refl }

abbrev serving : StompServer ℕ String String
serving = record {
  address = ("127.0.0.1", "61613");
  store = "store.memory";
  subscriber_scheduler = "scheduler";
  queue_scheduler = "scheduler";
  authenticator = none;
  protocol = Version.v11;
  serving_event = true;
  shutdown_request_event = false;
  base = 0;
}

server_close-stopped_example :
    server_close tcp (serving, "store" ∷ [])
    ≡ (ok tt, (stopped tcp true serving, all_closed tcp serving ("store" ∷ [])))
server_close-stopped_example = server_close-stopped tcp tcp-ClosesQuietly serving ("store" ∷ [])

abbrev platform : Platform
platform = record {
  parser = parser;
  importer = importer;
  tcp = tcp;
  call = λ o loaded. (ok o, loaded);
  logging = λ call. ok tt;
  interval = λ text. ok false;
  octal = λ text. ok text;
  text_of = λ n. n;
  is_nt = false;
}

abbrev defaults : Dict String String
defaults =
    ("listen_addr", "127.0.0.1")
    ∷ ("listen_port", "61613")
    ∷ ("qstore.factory", "store.memory")
    ∷ ("scheduler.subscriber_priority_factory", "scheduler.first")
    ∷ ("scheduler.queue_priority_factory", "scheduler:second")
    ∷ []

abbrev program : Program (Dict String String) (List String) (StompServer ℕ String String)
program = record {
  settings = defaults;
  modules = [];
  logged = [];
  server = none;
  diagnostics = false;
}

abbrev options : Options String
options = record {
  config = some "coilmq.cfg";
  host = some "0.0.0.0";
  port = some "61614";
  logfile = none;
  debug = false;
  daemon = true;
  uid = none;
  gid = none;
  pidfile = none;
  umask = none;
  rundir = none;
}

-- The program after the options, and the modules that its factories are in.
abbrev overridden : Program (Dict String String) (List String) (StompServer ℕ String String)
overridden = record program {
  settings = put (put defaults "listen_addr" "0.0.0.0") "listen_port" "61614";
}

abbrev loaded : List String
loaded = "store" ∷ "store.memory" ∷ "scheduler" ∷ "scheduler.first" ∷ "scheduler.second" ∷ []

abbrev made : StompServer ℕ String String
made = record {
  address = ("0.0.0.0", "61614");
  store = "store.memory";
  subscriber_scheduler = "scheduler.first";
  queue_scheduler = "scheduler.second";
  authenticator = none;
  protocol = Version.v11;
  serving_event = false;
  shutdown_request_event = false;
  base = 0;
}

context_serve-IsStopped_example :
    IsQuiet platform (context_serve platform (plain platform) options program).0
    × IsStopped platform (context_serve platform (plain platform) options program).1.server
context_serve-IsStopped_example =
    context_serve-IsStopped platform tcp-ClosesQuietly (plain platform) options program

overridden_makes :
    server_from_config platform overridden ≡ (ok made, record overridden { modules = loaded })
unfolding server_from_config resolve_name get put coilmq.Config.Names.members contains add
    coilmq.Server.Tcp.new_server lower
overridden_makes = refl

server_from_config-IsConfigured_example :
    IsConfigured platform overridden made × (overridden.settings ≡ overridden.settings)
server_from_config-IsConfigured_example =
    server_from_config-IsConfigured platform made overridden
      (record overridden { modules = loaded }) overridden_makes

parser-get_set :
    (section key other value : String) (c d : Dict String String)
    → parser.set section key value c ≡ (ok tt, d)
    → get d (lower other) ≡ (if lower key == lower other then some value else get c (lower other))
parser-get_set section key other value c d e =
    ap (λ o. get o.1 (lower other)) (sym e) ∙ get-put c (lower key) (lower other) value

parser-KeepsSettings : KeepsSettings parser (λ n. n)
parser-KeepsSettings = record {
  getint_set = λ section key n c d e.
      ground (arith, parser-get_set section key key n c d e, beq_self (lower key));
  get_set_other = λ section key other value later c d e plain apart first second. ground (
    arith,
    parser-get_set section other other value c d first,
    parser-get_set section key other later d e second,
    beq_self (lower other),
    eq_iff (lower key) (lower other),
  );
}

configure-options : configure platform options program ≡ (ok tt, overridden)
unfolding configure coilmq.Config.init_config lower
configure-options = refl

server_from_config-configure_example : ◌≡◌ {A = String × String} made.address ("0.0.0.0", "61614")
server_from_config-configure_example =
    server_from_config-configure platform parser-KeepsSettings options "0.0.0.0" "61614" made
      program overridden (record overridden { modules = loaded }) refl refl refl configure-options
      overridden_makes
