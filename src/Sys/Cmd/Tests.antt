-- ===== src/Sys/Cmd/Tests.antt =====
-- Runs of `join` and `split` at fixed inputs.
use kotatsu.Base.{arith, false, List, [], ◌∷◌, ◌≡◌, refl}
use kotatsu.Support.Text.{Bytes, codes}
use kotatsu.Sys.Cmd.Join.{windows, posix, join}
use kotatsu.Sys.Cmd.Borrow.{scan_lem}
use kotatsu.Sys.Cmd.Posix.{split-join}
use kotatsu.Sys.Cmd.Split.{posix_file, scan, finish_argument, unquote_posix, split}

abbrev some_arguments : List Bytes
some_arguments = codes "a b" ∷ [] ∷ codes "it's \\ \"x\"\n" ∷ codes "-o" ∷ []

posix_split : split posix (join posix some_arguments) ≡ some_arguments
unfolding join split
posix_split = refl

windows_split : split windows (join windows some_arguments) ≡ some_arguments
unfolding join split
windows_split = refl

windows_rules :
    split windows (codes " a\\\\\"b c\" d\\e \"f\"\"g\"")
    ≡ [] ∷ codes "a\\b c" ∷ codes "d\\e" ∷ codes "f\"g" ∷ []
unfolding split
windows_rules = refl

split-join_example : split posix (join posix some_arguments) ≡ some_arguments
split-join_example = split-join some_arguments

abbrev quoted_behind : Bytes
quoted_behind = codes "ab\\ c'd e'f g"

scan_lem_example :
    finish_argument posix_file false (scan 13 posix_file false quoted_behind)
    ≡ unquote_posix posix_file 0 quoted_behind
scan_lem_example = scan_lem 13 posix_file quoted_behind refl (omega arith)
