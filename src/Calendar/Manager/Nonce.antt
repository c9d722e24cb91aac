-- ===== src/Calendar/Manager/Nonce.antt =====
-- The state of an authorization URL stands for its nonce.
use busybar_bridge.Prelude.{
  ℕ, ◌+◌, ◌-◌, ◌*◌, ◌/◌, ◌%◌, ◌<◌, ◌≡◌, refl, ◌==◌, Bool, List, [], ◌∷◌, arith, All, length,
  if◌then◌else◌, leb,
}
use busybar_bridge.Prelude.Result.{ok}
use busybar_bridge.Prelude.Text.{Text}
use busybar_bridge.Calendar.Manager.{
  OauthConfig, Manager, digit64, encode_base64, generate_auth_url,
}

-- The value of a digit of the alphabet.
value64 : ℕ → ℕ
value64 c =
    if c == b'_'
    then 63
    else if c == b'-'
    then 62
    else if leb b'a' c
    then c - 71
    else if leb b'A' c
    then c - 65
    else c + 4

value64-digit64 : (n : ℕ) → n < 64 → value64 (digit64 n) ≡ n
unfolding value64 digit64
value64-digit64 n h = ground arith

digit64-ne-pad : (n : ℕ) → n < 64 → (digit64 n == b'=') ≡ Bool.false
unfolding digit64
digit64-ne-pad n h = ground arith

-- The bytes of a text of base64, by RFC 4648.
pub decode_base64 : Text → List ℕ
unfolding value64
decode_base64 (p ∷ q ∷ r ∷ s ∷ rest) =
    let first = value64 p * 4 + value64 q / 16 in
    let second = value64 q % 16 * 16 + value64 r / 4 in
    let third = value64 r % 4 * 64 + value64 s in
    let more = decode_base64 rest in
    if r == b'='
    then first ∷ []
    else if s == b'='
    then first ∷ second ∷ []
    else first ∷ second ∷ third ∷ more
decode_base64 _ = []

decode_base64-encode_base64 :
    (bytes : List ℕ) → All (λ b. b < 256) bytes → decode_base64 (encode_base64 bytes) ≡ bytes
unfolding decode_base64 encode_base64
decode_base64-encode_base64 [] h = refl
decode_base64-encode_base64 (a ∷ []) h =
    ground (arith, value64-digit64 (a / 4), value64-digit64 (a % 4 * 16))
decode_base64-encode_base64 (a ∷ b ∷ []) h = ground (
  arith,
  value64-digit64 (a / 4),
  value64-digit64 (a % 4 * 16 + b / 16),
  value64-digit64 (b % 16 * 4),
  digit64-ne-pad (b % 16 * 4),
)
decode_base64-encode_base64 (a ∷ b ∷ c ∷ rest) h = ground (
  arith,
  value64-digit64 (a / 4),
  value64-digit64 (a % 4 * 16 + b / 16),
  value64-digit64 (b % 16 * 4 + c / 64),
  value64-digit64 (c % 64),
  digit64-ne-pad (b % 16 * 4 + c / 64),
  digit64-ne-pad (c % 64),
  decode_base64-encode_base64 rest h.1.1.1,
)

-- The number of digits, the padding included.
length-encode_base64 : (bytes : List ℕ) → length (encode_base64 bytes) ≡ (length bytes + 2) / 3 * 4
unfolding encode_base64
length-encode_base64 [] = refl
length-encode_base64 (a ∷ []) = refl
length-encode_base64 (a ∷ b ∷ []) = refl
length-encode_base64 (a ∷ b ∷ c ∷ rest) = omega (arith, length-encode_base64 rest)

-- The authorization URL that is generated from a nonce of 32 bytes is made for the state that is
-- returned with it; this state has 44 digits, and RFC 4648 reads the nonce back from it. So the
-- states of different nonces differ.
pub generate_auth_url-decodes :
    (auth_code_url : OauthConfig → Text → Text) (m : Manager) (nonce : List ℕ)
    → All (λ b. b < 256) nonce
    → length nonce ≡ 32
    → (state : Text) × (generate_auth_url auth_code_url m (ok nonce)
        ≡ ok (auth_code_url m.oauth_config state, state))
      × (length state ≡ 44)
      × (decode_base64 state ≡ nonce)
unfolding generate_auth_url
generate_auth_url-decodes auth_code_url m nonce h n = (
  encode_base64 nonce,
  refl,
  omega (arith, length-encode_base64 nonce, n),
  decode_base64-encode_base64 nonce h,
)
