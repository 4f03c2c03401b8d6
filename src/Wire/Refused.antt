-- ===== src/Wire/Refused.antt =====
-- Frames that end the iteration of FrameBuffer with an exception (coilmq/util/frames.py).
use coilmq.Prelude.{suc, ◌≡◌, refl, ap, ◌∙◌, none, List, [], ◌∷◌, ◌++◌, err, length, continue, pure}
use coilmq.Dict.{Dict, get}
use coilmq.Dict.Laws.{IsDict}
use coilmq.Wire.Bytes.{Bytes, Text, text_equality, partition}
use coilmq.Wire.Stream.{Stream, remaining, advance, read_all, seek}
use coilmq.Wire.Lines.{IsLine, AreLines, lines_text, preamble-lines}
use coilmq.Wire.Head.{AreHeaders, parse_headers-head, length-lines_text}
use coilmq.Wire.Parse.{
  value_error, body_not_terminated, or_raise, header_pairs, ordered_dict, command_and_headers,
  parse_headers, content_length, body_length, terminated_body, with_parts, body_of, parse_body,
  with_preamble, from_buffer,
}
use coilmq.Wire.Pack.{header_lines}
use coilmq.Wire.Buffer.{FrameBuffer, extracted, extract_frame}
use coilmq.Wire.Resume.{unread}

-- The unread bytes begin with lines of ASCII text without white space at their ends, and a blank line
-- behind them. If one of the header lines is not one key and one value, such as a line with two
-- colons, then extract_frame raises a ValueError, and the pointer stays.
pub extract_frame-header_pairs :
    (cmd : Text) (lines : List Text) (rest : Bytes) (b : FrameBuffer)
    → IsLine cmd
    → AreLines lines
    → header_pairs lines ≡ none
    → unread b ≡ lines_text (cmd ∷ lines) ++ (10 ∷ rest)
    → (b' : FrameBuffer) × (extract_frame b ≡ (err value_error, b')) × (b'.pointer ≡ b.pointer)
unfolding extract_frame from_buffer parse_headers
extract_frame-header_pairs cmd lines rest b line others bad e =
    let s : Stream = seek b.pointer b.buffer in
    let (s', done, left, same) =
      preamble-lines (suc (length (remaining s))) (cmd ∷ lines) s rest
        (rw e (length-lines_text (cmd ∷ lines) (10 ∷ rest))) (line, others) e in
    (
      record b { buffer = s' },
      ap (λ o. extracted b (continue with_preamble (continue command_and_headers o))) done
          ∙ ap
              (λ o. extracted b (
                continue with_preamble (
                  continue (λ pairs. pure (cmd, ordered_dict [] pairs))
                    (or_raise value_error o s'))))
              bad,
      refl,
    )

terminated_body-none :
    (b : Stream)
    → partition (remaining b) ≡ none
    → terminated_body b ≡ (err body_not_terminated, advance (length (remaining b)) b)
unfolding terminated_body read_all
terminated_body-none b e =
    ap
      (λ o. continue with_parts (or_raise body_not_terminated o (advance (length (remaining b)) b)))
      e

parse_body-none :
    (headers : Dict Text Text) (b : Stream)
    → get headers content_length ≡ none
    → parse_body headers b ≡ terminated_body b
unfolding parse_body body_length
parse_body-none headers b e = ap (λ o. continue body_of (body_length o b)) e

-- The unread bytes begin with a command and headers that are lines of ASCII text, without white space
-- at their ends and with one colon in each header, with distinct keys and no content-length. If no NUL
-- comes behind the blank line that ends them, then extract_frame raises BodyNotTerminated, instead of
-- finding no frame, and the pointer stays.
pub extract_frame-terminated_body :
    (cmd : Text) (headers : Dict Text Text) (body : Bytes) (b : FrameBuffer)
    → IsLine cmd
    → AreHeaders headers
    → IsDict headers
    → get headers content_length ≡ none
    → partition body ≡ none
    → unread b ≡ (cmd ++ (10 ∷ header_lines headers)) ++ (10 ∷ body)
    → (b' : FrameBuffer) × (extract_frame b ≡ (err body_not_terminated, b'))
      × (b'.pointer ≡ b.pointer)
unfolding extract_frame from_buffer
extract_frame-terminated_body cmd headers body b line plain unique uncounted open_ e =
    let (s, head, left, same) =
      parse_headers-head cmd headers (seek b.pointer b.buffer) body line plain unique e in
    (
      record b { buffer = advance (length (remaining s)) s },
      ap (λ o. extracted b (continue with_preamble o)) head
          ∙ ap
              (λ o.
                extracted b (
                  continue (λ body. pure (record { cmd = cmd; headers = headers; body = body })) o))
              (parse_body-none headers s uncounted
                ∙ terminated_body-none s (ap partition left ∙ open_)),
      refl,
    )
