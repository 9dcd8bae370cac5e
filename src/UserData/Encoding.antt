-- ===== src/UserData/Encoding.antt =====
-- Base64: what is encoded is read back.
use karpenter_provider_upclo.Base.{
  ℕ, ◌+◌, ◌-◌, ◌*◌, ◌/◌, ◌%◌, ◌<◌, ◌≡◌, refl, ◌∙◌, [], ◌∷◌, All, false, leb, nat_eq, if◌then◌else◌,
  arith,
}
use karpenter_provider_upclo.Base.Text.{Text}
use karpenter_provider_upclo.UserData.Base64.{digit, encode}

-- The number of a digit.
abbrev pub value : ℕ → ℕ
value d =
    if nat_eq d b'+'
    then 62
    else if nat_eq d b'/'
    then 63
    else if leb d b'9'
    then d - b'0' + 52
    else if leb d b'Z'
    then d - b'A'
    else d - b'a' + 26

-- A decoder of the alphabet, by groups of four digits.
pub decode64 : Text → Text
decode64 [] = []
decode64 (a ∷ b ∷ c ∷ d ∷ s) =
    if nat_eq c b'='
    then (value a * 4 + value b / 16) ∷ []
    else if nat_eq d b'='
    then (value a * 4 + value b / 16) ∷ (value b % 16 * 16 + value c / 4) ∷ []
    else (value a * 4 + value b / 16)
      ∷ (value b % 16 * 16 + value c / 4)
      ∷ (value c % 4 * 64 + value d)
      ∷ decode64 s
decode64 _ = []

value-digit : (n : ℕ) → n < 64 → value (digit n) ≡ n
unfolding digit
value-digit n h = ground arith

digit_plain : (n : ℕ) → n < 64 → nat_eq (digit n) b'=' ≡ false
unfolding digit
digit_plain n h = ground arith

module _ (p q r t : ℕ) (hp : p < 64) (hq : q < 64) (hr : r < 64) (ht : t < 64) where
  three_bytes :
      (s : Text)
      → decode64 (digit p ∷ digit q ∷ digit r ∷ digit t ∷ s)
        ≡ (p * 4 + q / 16) ∷ (q % 16 * 16 + r / 4) ∷ (r % 4 * 64 + t) ∷ decode64 s
  unfolding decode64
  three_bytes s =
      rw (digit_plain r hr, digit_plain t ht)
        (rw (value-digit p hp)
          (rw (value-digit q hq) (rw (value-digit r hr) (rw (value-digit t ht) refl))))

  two_bytes :
      decode64 (digit p ∷ digit q ∷ digit r ∷ b'=' ∷ [])
      ≡ (p * 4 + q / 16) ∷ (q % 16 * 16 + r / 4) ∷ []
  unfolding decode64
  two_bytes =
      rw (digit_plain r hr)
        (rw (value-digit p hp) (rw (value-digit q hq) (rw (value-digit r hr) refl)))

  one_byte : decode64 (digit p ∷ digit q ∷ b'=' ∷ b'=' ∷ []) ≡ (p * 4 + q / 16) ∷ []
  unfolding decode64
  one_byte = rw (value-digit p hp) (rw (value-digit q hq) refl)

-- Decoding the encoded bytes gives the bytes.
pub decode64-encode : (s : Text) → All (λ b. b < 256) s → decode64 (encode s) ≡ s
unfolding encode
decode64-encode [] h = unfold decode64 in refl
decode64-encode (a ∷ []) h =
    one_byte (a / 4) (a % 4 * 16) 0 0 (omega arith) (omega arith) (omega arith) (omega arith)
    ∙ ground arith
decode64-encode (a ∷ b ∷ []) h =
    two_bytes (a / 4) (a % 4 * 16 + b / 16) (b % 16 * 4) 0 (omega arith) (omega arith) (omega arith)
      (omega arith)
    ∙ ground arith
decode64-encode (a ∷ b ∷ c ∷ s) h =
    three_bytes (a / 4) (a % 4 * 16 + b / 16) (b % 16 * 4 + c / 64) (c % 64) (omega arith)
      (omega arith) (omega arith) (omega arith) (encode s)
    ∙ ground (arith, decode64-encode s h.1.1.1)
