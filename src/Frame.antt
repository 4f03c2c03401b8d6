-- ===== src/Frame.antt =====
-- The frames of coilmq/util/frames.py and the exceptions that the managers and the engine raise.
-- A header value is the text that `pack` writes for it.
use coilmq.Prelude.{ℕ, String, Option, List, [], length, string_equality}
use coilmq.Text.{decimal}
use coilmq.Dict.{Dict, get, put}

pub record Frame : Type 0 where
  pub cmd : String
  pub headers : Dict String String
  pub body : List ℕ

-- frame.headers.get(key)
abbrev pub header : Frame → String → Option String
header f key = get f.headers key

-- f.headers[key] = value
abbrev pub set_header : Frame → String → String → Frame
set_header f key value = record f { headers = put f.headers key value }

-- Frame.transaction
abbrev pub transaction : Frame → Option String
transaction f = header f "transaction"

pub data Error : Type 0 where
  protocol_error : String → Error
  auth_error : Option String → Error
  no_destination no_message_id : Error
  has_pending_frame : Error
  attribute_error key_error name_error : String → Error
  assertion_error : Error
  not_callable : Error
  connection_error : Error
  value_error type_error overflow_error database_error config_error : Error

-- Frame(cmd, headers, body)
abbrev pub new_frame : String → Dict String String → List ℕ → Frame
new_frame cmd headers body = record { cmd = cmd; headers = headers; body = body }

-- ErrorFrame(message, body): the content length is that of the body, whenever it is asked for.
unfoldable pub error_frame : String → List ℕ → Frame
error_frame message body =
    set_header (set_header (new_frame "error" [] body) "message" message) "content-length"
      (decimal (length body))

-- ReceiptFrame(receipt)
unfoldable pub receipt_frame : String → Frame
receipt_frame receipt = set_header (new_frame "RECEIPT" [] []) "receipt-id" receipt
