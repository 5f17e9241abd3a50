-- ===== src/Fs/Path/Tests.antt =====
-- Runs of the path functions, and their theorems at concrete paths.
use kotatsu.Base.{true, false, ◌||◌, if◌then◌else◌, List, [], ◌∷◌, ◌++◌, some, ◌≡◌, ◌⊎◌, refl}
use kotatsu.Support.Text.{equal, starts_with, Bytes, codes}
use kotatsu.Fs.Path.{
  posix, windows, separates, root, is_empty, is_absolute, has_root, drive, windows_prefix,
  count_front, back_over,
}
use kotatsu.Fs.Path.Names.{
  components, filename, parent, extension, names_from, last_dot, extension_dot,
}
use kotatsu.Fs.Path.Edit.{
  pop, written, push, normalize, fold, relative, first_separator, last_separator, same_root,
  same_characters,
}
use kotatsu.Fs.Path.Words.{words}
use kotatsu.Fs.Path.Join.{components-push}
use kotatsu.Fs.Path.Drive.{on_drive, components-push-on_drive}
use kotatsu.Fs.Path.Within.{strip_prefix, components-strip_prefix}
use kotatsu.Fs.Path.Parent.{components-pop}
use kotatsu.Fs.Path.Ancestors.{ancestors}
use kotatsu.Fs.Path.Last.{components-filename}

run_components : components (codes "/usr//lib/") posix ≡ codes "usr" ∷ codes "lib" ∷ []
unfolding components names_from count_front root
run_components = refl

run_share : components (codes "\\\\server\\share\\a/b") windows ≡ codes "a" ∷ codes "b" ∷ []
unfolding components names_from count_front root windows_prefix starts_with back_over
run_share = refl

run_parent : parent (codes "/usr//lib/") posix ≡ codes "/usr"
unfolding parent filename back_over root count_front
run_parent = refl

run_ancestors : ancestors (codes "/a/b/") posix ≡ codes "/a/b/" ∷ codes "/a" ∷ codes "/" ∷ []
unfolding ancestors parent filename back_over root count_front
run_ancestors = refl

run_extension : extension (codes "a/archive.tar.gz") posix ≡ codes ".gz"
unfolding extension extension_dot equal filename back_over root count_front last_dot
run_extension = refl

run_push : push (codes "C:\\a") (codes "b") windows ≡ codes "C:\\a\\b"
unfolding push root windows_prefix starts_with count_front back_over last_separator
run_push = refl

run_normalize : normalize (codes "/a/./b/../../../c") fold posix ≡ codes "/c"
unfolding normalize root count_front first_separator components names_from equal
run_normalize = refl

run_relative : relative (codes "/a/b") (codes "/a/c/d") posix ≡ some (codes "../../b")
unfolding relative root count_front components names_from equal written first_separator
run_relative = refl

run_push_absolute : push (codes "/usr") (codes "/lib") posix ≡ codes "/lib"
unfolding push root count_front
run_push_absolute = refl

run_push_drive : push (codes "C:\\a") (codes "D:x") windows ≡ codes "D:x"
unfolding push root windows_prefix starts_with count_front back_over same_characters
run_push_drive = refl

components-push_example :
    (((is_empty (codes "/usr/") || is_absolute (codes "lib/x") posix) ≡ true)
      × (push (codes "/usr/") (codes "lib/x") posix ≡ codes "lib/x"))
    ⊎ (((is_empty (codes "/usr/") || is_absolute (codes "lib/x") posix) ≡ false)
        × (components (push (codes "/usr/") (codes "lib/x") posix) posix
            ≡ components (codes "/usr/") posix ++ components (codes "lib/x") posix))
components-push_example = components-push (codes "/usr/") (codes "lib/x")

components-push-on_drive_example :
    let base = on_drive b'C' (codes "a\\b") in
    let p = codes "\\lib/x" in
    ((root (push base p windows) windows).prefix ≡ drive)
    × ((root (push base p windows) windows).name ≡ (root base windows).name)
    × (components (push base p windows) windows ≡ (
        if has_root p windows
        then components p windows
        else components base windows ++ components p windows))
unfolding windows_prefix starts_with
components-push-on_drive_example =
    components-push-on_drive b'C' (codes "a\\b") (codes "\\lib/x") refl refl

components-strip_prefix_example :
    components (codes "/usr/lib/x") posix
    ≡ components (codes "/usr") posix
      ++ words (λ c. separates c posix (root (codes "/usr/lib/x") posix).prefix) (codes "lib/x")
unfolding strip_prefix same_root root count_front components names_from equal
components-strip_prefix_example =
    components-strip_prefix (codes "/usr/lib/x") (codes "/usr") posix refl

components-filename_example :
    ((filename (codes "C:a\\b") windows ≡ []) × (components (codes "C:a\\b") windows ≡ []))
    ⊎ ((init : List Bytes) × (is_empty (filename (codes "C:a\\b") windows) ≡ false)
        × (components (codes "C:a\\b") windows ≡ init ++ (filename (codes "C:a\\b") windows ∷ [])))
components-filename_example = components-filename (codes "C:a\\b") windows

components-pop_example :
    ((pop (codes "/usr//lib/") posix).1 ≡ true)
    × (components (codes "/usr//lib/") posix
        ≡ components (pop (codes "/usr//lib/") posix).0 posix
          ++ (filename (codes "/usr//lib/") posix ∷ []))
unfolding filename back_over root count_front
components-pop_example = components-pop (codes "/usr//lib/") refl
