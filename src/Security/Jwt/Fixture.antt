-- ===== src/Security/Jwt/Fixture.antt =====
-- A signing function and a JSON codec of one byte each, for the tests.
use nadi.Common.{ℕ, zero, suc, ◌≡◌, refl, Option, none, some, List, [], ◌∷◌, arith}
use nadi.Common.Int.{pos}
use nadi.Json.{Fields, Value, obj, get}
use nadi.Store.Fixture.{test_env}
use nadi.Security.Jwt.{Crypto, header, claims}
use nadi.Security.Jwt.Signed.{signed, IsCodec}

abbrev pub test_claims : Fields
test_claims = claims "cell-local" "s1" "cell tool" (pos 60) "iiii"

-- The header is the byte 1 and the claims are the byte 2.
abbrev pub byte_of : Option Value → List ℕ
byte_of none = 2 ∷ []
byte_of (some v) = 1 ∷ []

abbrev pub value_of : Fields → List ℕ → Option Value
value_of d (suc zero ∷ []) = some (obj header)
value_of d (suc (suc zero) ∷ []) = some (obj d)
value_of d _ = none

-- The functions that know the one dictionary of claims.
abbrev pub crypto_for : Fields → Crypto
crypto_for known = record {
  hmac_sha256 = λ key text. 7 ∷ [];
  dumps = λ d. byte_of (get d "alg");
  loads = value_of known;
}

abbrev pub test_crypto : Crypto
test_crypto = crypto_for test_claims

pub crypto_for-IsCodec :
    (known : Fields) → get known "alg" ≡ none → IsCodec test_env (crypto_for known) [] known
unfolding get
crypto_for-IsCodec known plain = record {
  header_bytes = (omega arith, tt);
  bytes = rw plain (omega arith, tt);
  mac_bytes = λ text. (omega arith, tt);
  header_back = refl;
  back = rw plain refl;
}

pub test_crypto-IsCodec : IsCodec test_env test_crypto [] test_claims
unfolding get
test_crypto-IsCodec = crypto_for-IsCodec test_claims refl

abbrev pub test_token : List ℕ
test_token = signed test_env test_crypto [] test_claims
