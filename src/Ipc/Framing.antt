-- ===== src/Ipc/Framing.antt =====
-- include/kotatsu/ipc/framing.h and src/ipc/framing.cpp: the parser of a stream of frames.
-- The messages of errors are the bytes that `std::format` gives. A moved-from string is empty here;
-- the source clears it before it reads it again.
pub mod Header
pub mod HeaderEnd
pub mod Inv
pub mod HeaderChunks
pub mod BodyChunks
pub mod Chunks
pub mod HeaderTrip
pub mod RoundTrip
mod Tests
use kotatsu.Base.{
  ℕ, ◌+◌, ◌-◌, ◌*◌, ◌%◌, ◌^◌, List, [], ◌∷◌, ◌++◌, Option, none, some, length, take, drop, min, ltb,
  ◌==◌, if◌then◌else◌, Expected, value, unexpected,
}
use kotatsu.Support.Text.{Bytes, codes, decimal}
use Header.{header_end, content_length}

abbrev pub skipped_prefix_size : ℕ
skipped_prefix_size = 4 * 1024

abbrev pub max_header_size : ℕ
max_header_size = 8 * 1024

abbrev pub default_max_payload : ℕ
default_max_payload = 64 * 1024 * 1024

pub data Kind : Type 0 where
  closed malformed oversized : Kind

pub record ReadError : Type 0 where
  pub kind : Kind
  pub message : Bytes
  pub size : ℕ
  pub prefix : Bytes

pub data Phase : Type 0 where
  in_header in_payload in_skip broken : Phase

pub record FrameParser : Type 0 where
  pub max_payload : ℕ
  pub phase : Phase
  pub header : Bytes
  pub payload : Bytes
  pub prefix : Bytes
  pub failure : Bytes
  pub remaining : ℕ
  pub skipped_size : ℕ

-- `FrameParser::FrameParser`
abbrev pub new_parser : ℕ → FrameParser
new_parser max_payload = record {
  max_payload = max_payload;
  phase = in_header;
  header = [];
  payload = [];
  prefix = [];
  failure = [];
  remaining = 0;
  skipped_size = 0;
}

pub record Step : Type 0 where
  pub consumed : ℕ
  pub frame : Option (Expected Bytes ReadError)

-- `size_t` subtraction
abbrev pub sub64 : ℕ → ℕ → ℕ
sub64 a b = (a + 2 ^ 64 - b) % 2 ^ 64

unfoldable pub malformed_step : FrameParser → ℕ → Step
malformed_step p consumed = record {
  consumed = consumed;
  frame =
      some (unexpected (record { kind = malformed; message = p.failure; size = 0; prefix = [] }));
}

unfoldable pub break_with : FrameParser → ℕ → Bytes → Step × FrameParser
unfolding malformed_step
break_with p consumed reason =
    let p' : FrameParser = record p { phase = broken; failure = reason } in
    (malformed_step p' consumed, p')

abbrev pub header_too_long : Bytes
header_too_long = codes "header exceeds 8192 bytes"

-- `case Phase::Payload`
unfoldable pub feed_payload : FrameParser → Bytes → ℕ → Step × FrameParser
feed_payload p input consumed =
    let taken = min p.remaining (length input - consumed) in
    let payload : Bytes = p.payload ++ take taken (drop consumed input) in
    let remaining = p.remaining - taken in
    if remaining == 0
    then (
      record { consumed = consumed + taken; frame = some (value payload) },
      record p { phase = in_header; payload = []; remaining = remaining },
    )
    else (
      record { consumed = consumed + taken; frame = none },
      record p { payload = payload; remaining = remaining },
    )

unfoldable pub oversized_error : FrameParser → Bytes → ReadError
unfolding decimal
oversized_error p prefix = record {
  kind = oversized;
  message =
      codes "a message of "
      ++ (decimal p.skipped_size
          ++ (codes " bytes exceeds the limit of " ++ (decimal p.max_payload ++ codes " bytes")));
  size = p.skipped_size;
  prefix = prefix;
}

-- `case Phase::Skip`
unfoldable pub feed_skip : FrameParser → Bytes → ℕ → Step × FrameParser
feed_skip p input consumed =
    let taken = min p.remaining (length input - consumed) in
    let keep = min taken (sub64 skipped_prefix_size (length p.prefix)) in
    let prefix : Bytes = p.prefix ++ take keep (drop consumed input) in
    let remaining = p.remaining - taken in
    if remaining == 0
    then (
      record { consumed = consumed + taken; frame = some (unexpected (oversized_error p prefix)) },
      record p { phase = in_header; prefix = []; remaining = remaining },
    )
    else (
      record { consumed = consumed + taken; frame = none },
      record p { prefix = prefix; remaining = remaining },
    )

-- Behind a header that was read: the state for its payload, and the next round of the loop.
unfoldable pub feed_length : FrameParser → Bytes → ℕ → Expected ℕ Bytes → Step × FrameParser
unfolding break_with
feed_length p input consumed (unexpected reason) = break_with p consumed reason
feed_length p input consumed (value size) =
    let p' : FrameParser = record p { header = []; payload = []; prefix = []; remaining = size } in
    if ltb p.max_payload size
    then feed_skip (record p' { phase = in_skip; skipped_size = size }) input consumed
    else feed_payload (record p' { phase = in_payload }) input consumed

unfoldable pub feed_header_at : FrameParser → Bytes → ℕ → Bytes → Option ℕ → Step × FrameParser
unfolding break_with
feed_header_at p input consumed window none =
    let p' : FrameParser = record p { header = p.header ++ window } in
    let consumed' = consumed + length window in
    if ltb max_header_size (length p'.header)
    then break_with p' consumed' header_too_long
    else (record { consumed = consumed'; frame = none }, p')
feed_header_at p input consumed window (some end) =
    let p' : FrameParser = record p { header = p.header ++ take end window } in
    let consumed' = consumed + end in
    if ltb max_header_size (length p'.header)
    then break_with p' consumed' header_too_long
    else feed_length p' input consumed' (content_length p'.header)

-- `input.substr(consumed, max_header_size + 1 - header.size())`
abbrev pub window_of : FrameParser → Bytes → ℕ → Bytes
window_of p input consumed =
    take (sub64 (max_header_size + 1) (length p.header)) (drop consumed input)

-- `case Phase::Header`
unfoldable pub feed_header : FrameParser → Bytes → ℕ → Step × FrameParser
unfolding feed_header_at
feed_header p input consumed =
    feed_header_at p input consumed (window_of p input consumed)
      (header_end p.header (window_of p input consumed))

unfoldable pub feed_in : Phase → FrameParser → Bytes → Step × FrameParser
unfolding malformed_step feed_header feed_payload feed_skip
feed_in broken p input = (malformed_step p 0, p)
feed_in in_header p input = feed_header p input 0
feed_in in_payload p input = feed_payload p input 0
feed_in in_skip p input = feed_skip p input 0

unfoldable pub feed : FrameParser → Bytes → Step × FrameParser
unfolding feed_in
feed p input = feed_in p.phase p input
