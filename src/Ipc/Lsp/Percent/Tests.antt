-- ===== src/Ipc/Lsp/Percent/Tests.antt =====
-- Runs of percent-encoding at fixed inputs.
use kotatsu.Base.{false, true, [], ◌∷◌, ◌≡◌, refl, arith, value, unexpected}
use kotatsu.Support.Text.{codes}
use kotatsu.Ipc.Lsp.Percent.{percent_encode, percent_decode, non_hex_digit, truncated_escape}
use kotatsu.Ipc.Lsp.Percent.RoundTrip.{percent_decode-percent_encode}

encoded : percent_encode false (codes "/a b%") ≡ codes "/a%20b%25"
unfolding percent_encode
encoded = refl

refused :
    (percent_decode (codes "a%2") ≡ unexpected truncated_escape)
    × (percent_decode (codes "%2x%") ≡ unexpected non_hex_digit)
unfolding percent_decode
refused = (refl, refl)

percent_decode-percent_encode_example :
    percent_decode (percent_encode true (0x2F ∷ 0xFF ∷ 0x25 ∷ [])) ≡ value (0x2F ∷ 0xFF ∷ 0x25 ∷ [])
percent_decode-percent_encode_example =
    percent_decode-percent_encode true (0x2F ∷ 0xFF ∷ 0x25 ∷ [])
      (omega arith, (omega arith, (omega arith, tt)))
