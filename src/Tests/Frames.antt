-- ===== src/Tests/Frames.antt =====
-- The theorems of Wire at concrete inputs.
use Prim.Native.String as Str
use coilmq.Text.{◌+s◌}
use coilmq.Versions.{v11, Network, Connection, new_handler}
use coilmq.Server as Server
use coilmq.Server.Bytes as Bytes
use coilmq.Server.Sending as Sending
use coilmq.Server.Sending.{send_frame_wide}
use coilmq.Text.{codes}
use coilmq.Frame.{Frame}
use coilmq.Wire.Parse.{unicode_error}
use coilmq.Server.Chunks.{events_of, frames_of, request, lift, serve-read_events}
use coilmq.Tests.{client, session}
use coilmq.Wire.RoundTrip.{IsPrintable}
use coilmq.Prelude.{
  false, List, err, ℕ, suc, zero, ◌-◌, String, ◌≡◌, refl, arith, [], ◌∷◌, ◌++◌, ok, length,
}
use coilmq.Dict.{get, put}
use coilmq.Wire.Bytes.{
  decode_from, int_of, digits, Bytes, Text, strip, strip_left, same_text, split_from,
}
use coilmq.Wire.Stream.{Stream, remaining, drop, first_line, readline, read}
use coilmq.Wire.Lines.{IsLine}
use coilmq.Wire.Head.{IsHeader}
use coilmq.Wire.Parse.{
  WireFrame, from_buffer, preamble, parse_headers, parse_body, body_length, counted_body,
  header_pairs, ordered_dict,
}
use coilmq.Wire.Pack.{pack, with_length}
use coilmq.Wire.Buffer.{FrameBuffer, new_buffer, append, extract_frame, frames}
use coilmq.Wire.Packed.{IsPlain, from_buffer-pack, with_length-IsPrintable}
use coilmq.Wire.Delivery.{IsDrained, all_packed, frames-append}
use coilmq.Wire.Resume.{unread, append-extract_frame}

-- 'ACK', 'id', '7', and a body with a NUL in it
abbrev ack : Text
ack = 65 ∷ 67 ∷ 75 ∷ []

abbrev small : WireFrame
small = record { cmd = ack; headers = (105 ∷ 100 ∷ [], 55 ∷ []) ∷ []; body = 0 ∷ 9 ∷ [] }

ack-IsLine : IsLine ack
ack-IsLine = record {
  ascii = ground arith;
  one_line = ground arith;
  filled = refl;
  left = refl;
  right = refl;
}

id-IsHeader : IsHeader (105 ∷ 100 ∷ [], 55 ∷ [])
id-IsHeader = record {
  line = record {
    ascii = ground arith;
    one_line = ground arith;
    filled = refl;
    left = refl;
    right = refl;
  };
  key_plain = ground arith;
  value_plain = ground arith;
}

small-IsPlain : IsPlain small
unfolding get same_text
small-IsPlain = record {
  command = ack-IsLine;
  plain = (id-IsHeader, tt);
  unique = (refl, tt);
  counted = refl;
}

-- The same bytes are read where a second frame follows.
from_buffer-pack_example :
    (bytes : Bytes) × (pack small ≡ (ok bytes, with_length small))
    × ((b : Stream) (rest : Bytes)
        → remaining b ≡ bytes ++ rest
        → (b' : Stream) × (from_buffer b ≡ (ok (with_length small), b'))
          × (remaining b' ≡ rest)
          × (b'.contents ≡ b.contents))
from_buffer-pack_example = from_buffer-pack small small-IsPlain

frames-append_example :
    (b' : FrameBuffer) × (frames 3
        (append (all_packed (with_length small ∷ with_length small ∷ [])) new_buffer)
      ≡ (ok (with_length small ∷ with_length small ∷ []), b'))
    × IsDrained b'
frames-append_example =
    frames-append (with_length small ∷ with_length small ∷ []) new_buffer 3
      (
        with_length-IsPrintable small small-IsPlain,
        (with_length-IsPrintable small small-IsPlain, tt),
      )
      (omega arith) (record { all_read = refl; at_pointer = refl })

-- Four bytes of 'ACK', a content-length of 2 and a body of which one byte has come.
abbrev half : Bytes
half =
    ack
    ++ (10 ∷ 99 ∷ 111 ∷ 110 ∷ 116 ∷ 101 ∷ 110 ∷ 116 ∷ 45 ∷ 108 ∷ 101 ∷ 110 ∷ 103 ∷ 116 ∷ 104 ∷ 58
        ∷ 50 ∷ 10 ∷ 10 ∷ 9 ∷ [])

abbrev holding : Bytes → FrameBuffer
holding bytes = record {
  buffer = record { contents = bytes; position = length bytes };
  pointer = 0;
}

abbrev at_start : FrameBuffer → FrameBuffer
at_start b = record b { buffer = record { contents = b.buffer.contents; position = b.pointer } }

append-extract_frame_example :
    unread (append (9 ∷ 0 ∷ []) (at_start (holding half))) ≡ 9 ∷ 0 ∷ drop 2 half
unfolding extract_frame from_buffer parse_headers preamble readline first_line strip strip_left
    header_pairs split_from ordered_dict parse_body body_length counted_body read get put same_text
    decode_from int_of digits
append-extract_frame_example =
    append-extract_frame (holding half) (at_start (holding half)) (9 ∷ 0 ∷ []) refl

-- 'a:b:c'
abbrev colons : Text
colons = 97 ∷ 58 ∷ 98 ∷ 58 ∷ 99 ∷ []

-- A str of printable code points.
abbrev printable : String
printable =
    "!\"#$%&'()*+,-./0123456789:;<=>?@ABCDEFGHIJKLMNOPQRSTUVWXYZ[\\]^_`abcdefghijklmnopqrstuvwxyz{|}~"

abbrev letter : String → ℕ → String
letter Str.[] n = ""
letter (Str.◌∷◌ c s) zero = Str.◌∷◌ c ""
letter (Str.◌∷◌ c s) (suc n) = letter s n

abbrev text : Text → String
text [] = ""
text (c ∷ cs) = letter printable (c - 33) +s text cs

abbrev network : Network
network = record { now = λ n. n; fqdn = "broker"; joined = λ v. "1.1,1.0" }

abbrev link : Connection client network
link = record {
  session = session;
  objects = λ n. new_handler v11 0 1;
  made = 1;
  protocol = 0;
  reads = 2;
}

-- Two chunks, one with two frames, and the end of the input.
abbrev chunks : List (List WireFrame)
chunks = (with_length small ∷ with_length small ∷ []) ∷ (with_length small ∷ []) ∷ [] ∷ []

serve-read_events_example :
    (b' : FrameBuffer) × (Bytes.serve client network text
        (λ e. false)
        (events_of chunks)
        (request client network text (λ e. false) link new_buffer)
      ≡ lift client network text
          (λ e. false)
          b'
          (Server.serve client network (frames_of client network text (λ e. false) chunks) link))
serve-read_events_example =
    let good : IsPrintable (with_length small) = with_length-IsPrintable small small-IsPlain in
    serve-read_events client network text (λ e. false) (λ e. refl) chunks link new_buffer
      ((good, (good, tt)), ((good, tt), (tt, tt))) (record { all_read = refl; at_pointer = refl })

-- A message with a header 'motto' of one character, U+20AC
abbrev euro_message : Frame
euro_message = record { cmd = "MESSAGE"; headers = ("motto", "€") ∷ []; body = 104 ∷ [] }

send_frame_wide_example :
    Sending.send_frame (λ packed sent. (ok tt, packed ∷ sent)) euro_message []
    ≡ (err (Bytes.frame_error unicode_error), [])
unfolding get same_text
send_frame_wide_example =
    send_frame_wide (λ packed sent. (ok tt, packed ∷ sent)) euro_message (codes "motto") (codes "€")
      [] refl refl ([], 8364, [], ground arith, refl)
