-- ===== src/Ipc/Lsp/Uri.antt =====
-- src/ipc/lsp/uri.cpp and include/kotatsu/ipc/lsp/uri.h: URIs, read from text and from file paths, on
-- a system that is not Windows.
pub mod Files
mod Tests
use kotatsu.Base.{
  ℕ, ◌+◌, ◌-◌, Bool, true, false, not, ◌&&◌, ◌||◌, List, [], ◌∷◌, ◌++◌, Option, none, some, length,
  take, drop, ltb, leb, ◌==◌, if◌then◌else◌, Expected, value, unexpected,
}
use kotatsu.Support.Text.{Bytes, codes, equal, starts_with, ends_with, find, find_first_not_of}
use kotatsu.Ipc.Lsp.Percent.{is_ascii_alpha, is_ascii_alnum, percent_encode, percent_decode}

-- `Segment`: `exists()` is false of a missing one.
pub data Segment : Type 0 where
  missing : Segment
  piece : ℕ → ℕ → Segment

pub record Uri : Type 0 where
  pub text : Bytes
  pub scheme_segment : Segment
  pub authority_segment : Segment
  pub path_segment : Segment
  pub query_segment : Segment
  pub fragment_segment : Segment

-- `URI::view`
abbrev pub view : Bytes → Segment → Bytes
view text missing = []
view text (piece offset size) = take size (drop offset text)

-- A mark and a component behind it, if there is one, at the end of the text: `append_segment`.
abbrev pub append_segment : Bytes → Option Bytes → Bytes → Bytes × Segment
append_segment mark none text = (text, missing)
append_segment mark (some part) text =
    (text ++ mark ++ part, piece (length (text ++ mark)) (length part))

-- The end of `parse`: one text of the components, in their order.
unfoldable pub build : Bytes → Option Bytes → Bytes → Option Bytes → Option Bytes → Uri
build scheme authority path query fragment =
    let (with_scheme, scheme_segment) = append_segment [] (some scheme) [] in
    let (with_authority, authority_segment) =
      append_segment (codes "//") authority (with_scheme ++ codes ":") in
    let (with_path, path_segment) = append_segment [] (some path) with_authority in
    let (with_query, query_segment) = append_segment (codes "?") query with_path in
    let (with_fragment, fragment_segment) = append_segment (codes "#") fragment with_query in
    record {
      text = with_fragment;
      scheme_segment = scheme_segment;
      authority_segment = authority_segment;
      path_segment = path_segment;
      query_segment = query_segment;
      fragment_segment = fragment_segment;
    }

abbrev pub to_ascii_lower : ℕ → ℕ
to_ascii_lower c = if leb b'A' c && leb c b'Z' then c + (b'a' - b'A') else c

unfoldable pub lower_ascii : Bytes → Bytes
lower_ascii [] = []
lower_ascii (c ∷ cs) = to_ascii_lower c ∷ lower_ascii cs

unfoldable pub is_ascii_iequal : Bytes → Bytes → Bool
unfolding equal lower_ascii
is_ascii_iequal left right = equal (lower_ascii left) (lower_ascii right)

unfoldable pub all_scheme : Bytes → Bool
all_scheme [] = true
all_scheme (c ∷ cs) = (is_ascii_alnum c || c == b'+' || c == b'-' || c == b'.') && all_scheme cs

unfoldable pub is_valid_scheme : Bytes → Bool
unfolding all_scheme
is_valid_scheme [] = false
is_valid_scheme (c ∷ cs) = is_ascii_alpha c && all_scheme cs

-- The text before the first `mark`, and what is behind it, if there is one.
unfoldable pub cut : ℕ → Bytes → Bytes × Option Bytes
unfolding find
cut mark text = elim (find (mark ∷ []) text) [
  | none ↦ (text, none)
  | some i ↦ (take i text, some (drop (i + 1) text))
]

-- The authority and the path of the hierarchical part.
unfoldable pub split_authority : Bytes → Option Bytes × Bytes
unfolding find starts_with
split_authority hierarchical =
    if starts_with hierarchical (codes "//")
    then (let behind : Bytes = drop 2 hierarchical in
        elim (find (codes "/") behind) [
          | none ↦ (some behind, [])
          | some i ↦ (some (take i behind), drop i behind)
        ])
    else (none, hierarchical)

-- `parse` behind the scheme.
unfoldable pub parse_remainder : Bytes → Bytes → Uri
unfolding cut split_authority build
parse_remainder scheme remainder =
    let (without_fragment, fragment) = cut b'#' remainder in
    let (hierarchical, query) = cut b'?' without_fragment in
    let (authority, path) = split_authority hierarchical in
    build scheme authority path query fragment

abbrev pub starts_part : ℕ → Bool
starts_part c = c == b'/' || c == b'?' || c == b'#'

-- Whether a delimiter stands before position `i`: `find_first_of("/?#")`.
abbrev pub delimited_before : ℕ → Option ℕ → Bool
delimited_before i none = false
delimited_before i (some j) = ltb j i

-- `URI::parse`
unfoldable pub parse : Bytes → Expected Uri Bytes
unfolding find find_first_not_of is_valid_scheme lower_ascii parse_remainder
parse [] = unexpected (codes "uri is empty")
parse (c ∷ cs) = elim (find (codes ":") (c ∷ cs)) [
  | none ↦ unexpected (codes "uri is missing scheme delimiter ':'")
  | some i ↦
      if delimited_before i (find_first_not_of (λ k. not (starts_part k)) (c ∷ cs))
      then unexpected (codes "uri is missing scheme")
      else if not (is_valid_scheme (take i (c ∷ cs)))
      then unexpected (codes "uri scheme is invalid")
      else value (parse_remainder (lower_ascii (take i (c ∷ cs))) (drop (i + 1) (c ∷ cs)))
]

-- `std::ranges::replace(normalized_copy, '\\', '/')`
unfoldable pub with_slashes : Bytes → Bytes
with_slashes [] = []
with_slashes (c ∷ cs) = (if c == b'\\' then b'/' else c) ∷ with_slashes cs

abbrev pub is_windows_drive_prefix : Bytes → Bool
is_windows_drive_prefix (c ∷ d ∷ rest) = is_ascii_alpha c && d == b':'
is_windows_drive_prefix _ = false

abbrev pub is_windows_drive_absolute : Bytes → Bool
is_windows_drive_absolute (c ∷ d ∷ e ∷ rest) = is_ascii_alpha c && d == b':' && e == b'/'
is_windows_drive_absolute _ = false

unfoldable pub is_absolute_fs_path : Bytes → Bool
unfolding starts_with
is_absolute_fs_path path =
    starts_with path (codes "/") || starts_with path (codes "//") || is_windows_drive_absolute path

unfoldable pub encode_authority_host : Bytes → Bytes
unfolding starts_with ends_with percent_encode
encode_authority_host host =
    if leb 2 (length host) && starts_with host (codes "[") && ends_with host (codes "]")
    then codes "[" ++ (percent_encode true (take (length host - 2) (drop 1 host)) ++ codes "]")
    else percent_encode true host

abbrev pub file_uri : Bytes → Bytes → Uri
file_uri authority path = build (codes "file") (some authority) path none none

abbrev pub starts_slash : Bytes → Bool
starts_slash [] = true
starts_slash (c ∷ cs) = c == b'/'

-- A path of a server and a share, behind its two slashes.
unfoldable pub from_unc_path : Bytes → Expected Uri Bytes
unfolding find encode_authority_host build
from_unc_path host_and_rest = elim (find (codes "/") host_and_rest) [
  | none ↦ unexpected (codes "unc path must include server and share")
  | some i ↦
      if i == 0
      then unexpected (codes "unc path must include server and share")
      else if starts_slash (drop (i + 1) host_and_rest)
      then unexpected (codes "unc path must include non-empty share")
      else value (
          file_uri (encode_authority_host (take i host_and_rest))
            (percent_encode false (drop i host_and_rest)))
]

unfoldable pub from_normalized_path : Bytes → Expected Uri Bytes
unfolding is_absolute_fs_path from_unc_path
from_normalized_path path =
    if is_windows_drive_prefix path && not (is_windows_drive_absolute path)
    then unexpected (codes "windows drive path must be absolute")
    else if not (is_absolute_fs_path path)
    then unexpected (codes "path must be absolute")
    else if starts_with path (codes "//")
    then from_unc_path (drop 2 path)
    else if is_windows_drive_absolute path
    then value (file_uri [] (percent_encode false (b'/' ∷ path)))
    else value (file_uri [] (percent_encode false path))

-- `URI::from_file_path`
unfoldable pub from_file_path : Bytes → Expected Uri Bytes
unfolding with_slashes from_normalized_path
from_file_path [] = unexpected (codes "path is empty")
from_file_path (c ∷ cs) = from_normalized_path (with_slashes (c ∷ cs))

unfoldable pub has_separator : Bytes → Bool
has_separator [] = false
has_separator (c ∷ cs) = (c == b'/' || c == b'\\') || has_separator cs

abbrev pub exists : Segment → Bool
exists missing = false
exists (piece offset size) = true

abbrev pub is_empty : Bytes → Bool
is_empty [] = true
is_empty (c ∷ cs) = false

-- The path of a server, behind its decoding.
abbrev pub unc_file_path : Bytes → Expected Bytes Bytes → Expected Bytes Bytes
unc_file_path path (unexpected reason) = unexpected reason
unc_file_path path (value host) =
    if has_separator host
    then unexpected (codes "file uri authority contains path separator")
    else value (codes "//" ++ (host ++ path))

abbrev pub local_file_path : Bytes → Expected Bytes Bytes
local_file_path path =
    if starts_with path (codes "/")
    then value path
    else unexpected (codes "file uri local path must be absolute")

abbrev pub file_path_at : Uri → Expected Bytes Bytes → Expected Bytes Bytes
file_path_at u (unexpected reason) = unexpected reason
file_path_at u (value path) =
    let authority : Bytes = view u.text u.authority_segment in
    if exists u.authority_segment
      && not (is_empty authority)
      && not (is_ascii_iequal authority (codes "localhost"))
    then unc_file_path path (percent_decode authority)
    else local_file_path path

-- `URI::file_path`
unfoldable pub file_path : Uri → Expected Bytes Bytes
unfolding equal percent_decode has_separator starts_with is_ascii_iequal
file_path u =
    if not (equal (view u.text u.scheme_segment) (codes "file"))
    then unexpected (codes "uri scheme is not file")
    else file_path_at u (percent_decode (view u.text u.path_segment))
