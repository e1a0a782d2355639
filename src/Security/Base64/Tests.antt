-- ===== src/Security/Base64/Tests.antt =====
-- The base64 helpers at concrete inputs.
use nadi.Common.{ℕ, ◌≡◌, some, List, [], ◌∷◌, All, arith}
use nadi.Security.Base64.{b64e, b64d}
use nadi.Security.Base64.RoundTrip.{IsBytes, IsPlain, b64d-b64e, b64e-IsPlain}

abbrev four_bytes : List ℕ
four_bytes = 0 ∷ 255 ∷ 62 ∷ 7 ∷ []

four_bytes-IsBytes : IsBytes four_bytes
four_bytes-IsBytes = (omega arith, (omega arith, (omega arith, (omega arith, tt))))

b64d-b64e_example : b64d (b64e four_bytes) ≡ some four_bytes
b64d-b64e_example = b64d-b64e four_bytes four_bytes-IsBytes

b64e-IsPlain_example : All IsPlain (b64e four_bytes)
b64e-IsPlain_example = b64e-IsPlain four_bytes four_bytes-IsBytes
