-- ===== src/Versions/Connect.antt =====
-- CONNECT and NACK of STOMP11 and STOMP12 (coilmq/protocol/__init__.py).
use coilmq.Prelude.{
  ℕ, String, Bool, true, false, not, Option, none, some, List, [], ◌∷◌, keep, pure, raise, modify,
  raise_if, ◌>>=◌, ◌>>◌, ◌==◌, string_equality, if◌then◌else◌,
}
use coilmq.Dict.{contains, or_else}
use coilmq.Text.{is_truthy, codes, ◌+s◌}
use coilmq.Frame.{Frame, header, set_header, new_frame, protocol_error, value_error}
use coilmq.Host.{uuid4}
use coilmq.Engine.{Client, Method, on_host, reply}
use coilmq.Protocol.Stomp10.{authenticate}
use coilmq.Wire.Bytes.{Text, text_equality, split, int_of}
use coilmq.Versions.{
  Version, v10, v11, v12, version_text, Network, Action, on_session, new_protocol,
}
use coilmq.Versions.Heartbeat.{enable_heartbeat}

-- SUPPORTED_VERSIONS, the lowest first
abbrev pub supported : Version → List Version
supported v10 = v10 ∷ []
supported v11 = v10 ∷ v11 ∷ []
supported v12 = v10 ∷ v11 ∷ v12 ∷ []

-- set(client_versions.split(',')) & self.SUPPORTED_VERSIONS
abbrev pub common : Version → String → List Version
common v offered =
    keep (λ u. contains (codes (version_text u)) (split 44 (codes offered))) (supported v)

-- max(common), if there is one
abbrev pub highest : List Version → Option Version
highest [] = none
highest (v ∷ []) = some v
highest (v ∷ w ∷ vs) = highest (w ∷ vs)

abbrev pub same_version : Version → Version → Bool
same_version v10 v10 = true
same_version v11 v11 = true
same_version v12 v12 = true
same_version _ _ = false

-- map(int, heart_beat.split(','))
unfoldable pub integers : List Text → Option (List (Bool × ℕ))
integers [] = some []
integers (t ∷ ts) =
    let rest = integers ts in
    elim (int_of t) [ none ↦ none | some n ↦ elim rest [ none ↦ none | some ns ↦ some (n ∷ ns) ] ]

-- The answer to a client with which there is no version in common.
abbrev pub versions_frame : String → Frame
versions_frame versions =
    new_frame "ERROR" (("version", versions) ∷ ("content-type", "text/plain") ∷ [])
      (codes ("Supported protocol versions are " +s versions))

module _ (κ : Client) (net : Network) where
  abbrev pub or_value_error : {A : Type 0} → Option A → Action κ net A
  or_value_error none = raise value_error
  or_value_error (some a) = pure a

  -- STOMP10.connect with a response, which gets the session and comes back
  abbrev pub welcome : Frame → Method κ Frame
  welcome response = do
    modify (λ s. record s { connected = true })
    session ← on_host κ (uuid4 κ.setup.env)
    reply κ (set_header response "session" session)
    pure (set_header response "session" session)

  unfoldable pub connect_with : Frame → Frame → Action κ net Frame
  connect_with frame response =
      on_session κ net (authenticate κ κ.authenticator frame >> welcome response)

  -- The branches of _negotiate_protocol; `replace` is the call of `connect` on the new object.
  unfoldable pub agree :
      (Version → ℕ → Frame → Frame → Action κ net Frame)
      → Version
      → Option Version
      → Frame
      → Frame
      → Action κ net Frame
  agree replace v none frame response =
      on_session κ net (reply κ (versions_frame (net.joined v))) >> pure response
  agree replace v (some w) frame response =
      let response' = set_header response "version" (version_text w) in
      if same_version v w then pure response' else (do
        id ← new_protocol κ net w
        modify (λ l. record l { protocol = id })
        replace w id frame response')

  unfoldable pub negotiate_protocol :
      (Version → ℕ → Frame → Frame → Action κ net Frame)
      → Version
      → Frame
      → Frame
      → Action κ net Frame
  negotiate_protocol replace v frame response = do
    raise_if (not (is_truthy (header frame "accept-version")))
        (protocol_error "No version specified")
    agree replace v (highest (common v (or_else (header frame "accept-version") ""))) frame response

  unfoldable pub beat : ℕ → String → Frame → Action κ net Frame
  beat self text response = if text == "" then pure response else (do
    numbers ← or_value_error (integers (split 44 (codes text)))
    enable_heartbeat κ net self numbers response)

  -- STOMP11.connect, which makes a response of its own
  unfoldable pub connect_11 :
      (Version → ℕ → Frame → Frame → Action κ net Frame)
      → Version
      → ℕ
      → Frame
      → Action κ net (Unit {0})
  connect_11 replace v self frame = do
    response ← negotiate_protocol replace v frame (new_frame "CONNECTED" [] [])
    response' ← beat self (or_else (header frame "heart-beat") "0,0") response
    connect_with frame response'
    pure tt

  -- connect(frame, response) on the object that replaces a STOMP11, which is a STOMP10, and on one that
  -- replaces a STOMP12.
  abbrev pub replace_11 : Version → ℕ → Frame → Frame → Action κ net Frame
  replace_11 w self frame response = connect_with frame response

  abbrev pub replace_12 : Version → ℕ → Frame → Frame → Action κ net Frame
  replace_12 v10 self frame response = connect_with frame response
  replace_12 w self frame response = connect_11 replace_11 w self frame >> pure response

  -- connect(frame) of an object of each class
  unfoldable pub connect : Version → ℕ → Frame → Action κ net (Unit {0})
  connect v10 self frame = connect_with frame (new_frame "CONNECTED" [] []) >> pure tt
  connect v11 self frame = connect_11 replace_11 v11 self frame
  connect v12 self frame = do
    raise_if (not (is_truthy (header frame "host"))) (protocol_error "\"host\" header is required")
    raise_if (not (or_else (header frame "host") "" == net.fqdn))
        (protocol_error "Virtual hosting is not supported or host is unknown")
    connect_11 replace_12 v12 self frame

  unfoldable pub nack : Frame → Action κ net (Unit {0})
  nack frame = do
    raise_if (not (is_truthy (header frame "message-id")))
        (protocol_error "No message-id specified for NACK command.")
    raise_if (not (is_truthy (header frame "subscription")))
        (protocol_error "No subscription specified for NACK command.")
