-- ===== src/Ipc/Lsp/Uri/Files.antt =====
-- Local file paths as URIs: `URI::from_file_path` and `URI::file_path`.
use kotatsu.Base.{false, [], ◌∷◌, length, take-all, value, ◌≡◌, refl, ap, ◌∙◌, arith}
use kotatsu.Support.Text.{Bytes, codes, starts_with}
use kotatsu.Ipc.Lsp.Percent.{percent_encode, percent_decode}
use kotatsu.Ipc.Lsp.Percent.RoundTrip.{IsText, percent_decode-percent_encode}
use kotatsu.Ipc.Lsp.Uri.{
  Uri, view, build, file_uri, with_slashes, is_windows_drive_prefix, is_windows_drive_absolute,
  is_absolute_fs_path, from_normalized_path, from_file_path, file_path,
}

no_drive_prefix : (cs : Bytes) → is_windows_drive_prefix (b'/' ∷ cs) ≡ false
no_drive_prefix [] = refl
no_drive_prefix (d ∷ cs) = refl

no_drive : (cs : Bytes) → is_windows_drive_absolute (b'/' ∷ cs) ≡ false
no_drive [] = refl
no_drive (d ∷ []) = refl
no_drive (d ∷ e ∷ cs) = refl

from_normalized_path-local :
    (cs : Bytes)
    → starts_with cs (codes "/") ≡ false
    → from_normalized_path (b'/' ∷ cs) ≡ value (file_uri [] (percent_encode false (b'/' ∷ cs)))
unfolding from_normalized_path is_absolute_fs_path starts_with
from_normalized_path-local cs h = rw (no_drive_prefix cs, no_drive cs, h)

-- The components of the URI of a local file are what it was built of.
view-file_uri :
    (path : Bytes)
    → (view (file_uri [] path).text (file_uri [] path).scheme_segment ≡ codes "file")
      × (view (file_uri [] path).text (file_uri [] path).authority_segment ≡ [])
      × (view (file_uri [] path).text (file_uri [] path).path_segment ≡ path)
unfolding build
view-file_uri path = (refl, refl, take-all (length path) path (omega arith))

file_path-file_uri :
    (path cs : Bytes)
    → percent_decode path ≡ value (b'/' ∷ cs)
    → file_path (file_uri [] path) ≡ value (b'/' ∷ cs)
unfolding file_path
file_path-file_uri path cs h =
    let views = view-file_uri path in rw (views.0, views.2, h) (unfold build in refl)

-- The URI of a local path: no host, and the path encoded with its slashes kept.
abbrev pub local_uri : Bytes → Uri
local_uri path = file_uri [] (percent_encode false path)

-- For a path that, with its backslashes as slashes, starts with one slash and no more, `from_file_path`
-- gives the URI with no host, and `file_path` of it is the path, with its backslashes as slashes.
pub file_path-from_file_path :
    (path cs : Bytes)
    → with_slashes path ≡ b'/' ∷ cs
    → starts_with cs (codes "/") ≡ false
    → IsText (b'/' ∷ cs)
    → (from_file_path path ≡ value (local_uri (b'/' ∷ cs)))
      × (file_path (local_uri (b'/' ∷ cs)) ≡ value (b'/' ∷ cs))
unfolding from_file_path with_slashes
file_path-from_file_path [] cs e h t = absurd (impossible e)
  where
    impossible : ◌≡◌ {A = Bytes} [] (b'/' ∷ cs) → ⊥
    impossible e = cc
file_path-from_file_path (c ∷ path) cs e h t = (
  ap from_normalized_path e ∙ from_normalized_path-local cs h,
  file_path-file_uri (percent_encode false (b'/' ∷ cs)) cs
      (percent_decode-percent_encode false (b'/' ∷ cs) t),
)
