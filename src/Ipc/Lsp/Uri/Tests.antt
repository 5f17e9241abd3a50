-- ===== src/Ipc/Lsp/Uri/Tests.antt =====
-- Runs of the URI functions at fixed inputs.
use kotatsu.Base.{arith, [], ◌≡◌, refl, none, some, value}
use kotatsu.Support.Text.{starts_with, codes}
use kotatsu.Ipc.Lsp.Uri.Files.{local_uri, file_path-from_file_path}
use kotatsu.Ipc.Lsp.Uri.{with_slashes, build, parse, from_file_path, file_path}

parsed_whole :
    parse (codes "HTTP://a/b?c#d?e")
    ≡ value (
        build
          (codes "http")
          (some (codes "a"))
          (codes "/b")
          (some (codes "c"))
          (some (codes "d?e")))
unfolding parse build
parsed_whole = refl

a_path :
    (from_file_path (codes "C:\\a b"))
    ≡ value (build (codes "file") (some []) (codes "/C:/a%20b") none none)
unfolding from_file_path build
a_path = refl

file_path-from_file_path_example :
    (from_file_path (codes "\\a b") ≡ value (local_uri (codes "/a b")))
    × (file_path (local_uri (codes "/a b")) ≡ value (codes "/a b"))
unfolding with_slashes starts_with
file_path-from_file_path_example =
    file_path-from_file_path (codes "\\a b") (codes "a b") refl refl
      (omega arith, (omega arith, (omega arith, (omega arith, tt))))
