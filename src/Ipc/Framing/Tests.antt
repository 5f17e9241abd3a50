-- ===== src/Ipc/Framing/Tests.antt =====
-- Runs of the frame parser at fixed inputs.
use kotatsu.Base.{length, arith, [], ◌++◌, some, ◌≡◌, refl, value, unexpected}
use kotatsu.Support.Text.{
  Bytes, shift, starts_with, codes, find, find_first_not_of, find_last_not_of, from_chars,
  read_digits,
}
use kotatsu.Ipc.Framing.{oversized_error, new_parser, feed, feed_length}
use kotatsu.Ipc.Framing.Header.{read_line, trim, content_length, header_end, frame_header}
use kotatsu.Ipc.Framing.HeaderEnd.{first_end, header_end_lem}
use kotatsu.Ipc.Framing.Inv.{IsValid, feed-IsValid}
use kotatsu.Ipc.Framing.BodyChunks.{advance}
use kotatsu.Ipc.Framing.Chunks.{feed-append}
use kotatsu.Ipc.Framing.HeaderTrip.{content_length-frame_header}
use kotatsu.Ipc.Framing.RoundTrip.{feed-frame_header, feed-oversized}

lengths :
    (content_length (codes "X: 1\r\ncontent-LENGTH:\t 12 \r\n\r\n") ≡ value 12)
    × (content_length (codes "a\r\n\r\n") ≡ unexpected (codes "missing Content-Length"))
    × (content_length (codes "Content-Length: 1x\r\n\r\n")
        ≡ unexpected (codes "invalid Content-Length: 1x"))
    × (content_length (codes "Content-Length: 18446744073709551616\r\n\r\n")
        ≡ unexpected (codes "invalid Content-Length: 18446744073709551616"))
unfolding content_length read_line find trim find_first_not_of find_last_not_of from_chars
    read_digits
lengths = (refl, refl, refl, refl)

ends :
    (header_end (codes "a\r\n") (codes "\r\nbc") ≡ some 2)
    × (header_end [] (codes "a\r\n\r\nbc") ≡ some 5)
unfolding header_end
ends = (refl, refl)

frame_header-12 : frame_header 12 ≡ codes "Content-Length: 12\r\n\r\n"
unfolding frame_header
frame_header-12 = refl

feed_frame :
    feed (new_parser 100) (codes "Content-Length: 2\r\n\r\nokX")
    ≡ (record { consumed = 23; frame = some (value (codes "ok")) }, new_parser 100)
unfolding feed feed_length header_end content_length read_line find trim find_first_not_of
    find_last_not_of from_chars read_digits
feed_frame = refl

abbrev half_header : Bytes
half_header = codes "Content-Length: 2\r\n\r"

abbrev other_half : Bytes
other_half = codes "\nokX"

new_parser-IsValid : IsValid (new_parser 100)
unfolding find starts_with
new_parser-IsValid = (refl, omega arith)

feed-append_example :
    feed (new_parser 100) (half_header ++ other_half)
    ≡ advance (length half_header) (feed (feed (new_parser 100) half_header).1 other_half)
unfolding feed header_end
feed-append_example = feed-append (new_parser 100) half_header other_half new_parser-IsValid refl

feed-IsValid_example : IsValid (feed (new_parser 100) half_header).1
feed-IsValid_example = feed-IsValid (new_parser 100) half_header new_parser-IsValid

feed-frame_header_example : feed (new_parser 100) (frame_header 2 ++ (codes "ok" ++ codes "X")) ≡ (
  record { consumed = length (frame_header 2 ++ codes "ok"); frame = some (value (codes "ok")) },
  new_parser 100,
)
feed-frame_header_example =
    feed-frame_header (new_parser 100) (codes "ok") (codes "X") refl refl (omega arith)
      (omega arith)

feed-oversized_example : feed (new_parser 1) (frame_header 2 ++ (codes "ok" ++ codes "X")) ≡ (
  record {
    consumed = length (frame_header 2 ++ codes "ok");
    frame =
        some
          (unexpected (oversized_error (record (new_parser 1) { skipped_size = 2 }) (codes "ok")));
  },
  record (new_parser 1) { skipped_size = 2 },
)
feed-oversized_example =
    feed-oversized (new_parser 1) (codes "ok") (codes "X") refl refl (omega arith) (omega arith)

header_end_lem_example :
    shift 3 (header_end (codes "a\r\n") (codes "\r\nbc")) ≡ first_end (codes "a\r\n\r\nbc")
unfolding find starts_with
header_end_lem_example = header_end_lem (codes "a\r\n") (codes "\r\nbc") refl

content_length-frame_header_example : content_length (frame_header 12) ≡ value 12
content_length-frame_header_example = content_length-frame_header 12 (omega arith)
