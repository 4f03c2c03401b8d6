-- ===== src/Wire/Pack.antt =====
-- Frame.pack of coilmq/util/frames.py.
use coilmq.Prelude.{Option, none, some, [], ◌∷◌, ◌++◌, Result, ok, err, length}
use coilmq.Dict.{Dict, get, or_else, put}
use coilmq.Wire.Bytes.{Bytes, Text, latin_1, decimal, text_equality}
use coilmq.Wire.Parse.{WireFrame, WireError, unicode_error, content_length}

-- self.headers.setdefault('content-length', len(self.body))
abbrev pub with_length : WireFrame → WireFrame
with_length f = record f {
  headers =
      put f.headers content_length
        (or_else (get f.headers content_length) (decimal (length f.body)));
}

-- "".join("{0}:{1}\n".format(key, value) for key, value in headers.items())
unfoldable pub header_lines : Dict Text Text → Text
header_lines [] = []
header_lines ((key, value) ∷ headers) = key ++ (58 ∷ value ++ (10 ∷ header_lines headers))

-- The text before the body.
abbrev pub head_text : WireFrame → Text
head_text f = f.cmd ++ (10 ∷ header_lines f.headers ++ (10 ∷ []))

abbrev pub finished : Bytes → Option Bytes → Result WireError Bytes
finished body none = err unicode_error
finished body (some head) = ok (head ++ (body ++ (0 ∷ [])))

-- The frame, whose headers have got their length, and its bytes. The body consists of bytes; that of
-- a text would be encoded like the head.
unfoldable pub pack : WireFrame → Result WireError Bytes × WireFrame
pack f = let f' = with_length f in (finished f'.body (latin_1 (head_text f')), f')
