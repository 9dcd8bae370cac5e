-- ===== src/UserData/Utf8.antt =====
-- Go's unicode/utf8, as `ValidString` and `range` over a string use it: the runes of a list of bytes,
-- or none if it is not valid UTF-8.
use karpenter_provider_upclo.Base.{
  ℕ, ◌+◌, ◌-◌, ◌*◌, ◌/◌, ◌%◌, Option, none, some, List, [], ◌∷◌, ◌++◌, ◌&&◌, nat_eq, ltb, leb,
  if◌then◌else◌,
}
use karpenter_provider_upclo.Base.Text.{Text}

-- In the middle of a rune: how many bytes are missing, the range of the next one, and the value so far.
pub record Pending : Type 0 where
  pub missing : ℕ
  pub low : ℕ
  pub high : ℕ
  pub value : ℕ

abbrev pub idle : Pending
idle = record { missing = 0; low = 0x80; high = 0xBF; value = 0 }

abbrev pub await : ℕ → ℕ → ℕ → ℕ → Pending
await missing low high value = record { missing = missing; low = low; high = high; value = value }

-- A first byte, with the ranges of Go's table.
unfoldable pub start : ℕ → Option (Pending × List ℕ)
start b =
    if ltb b 0x80
    then some (idle, b ∷ [])
    else if ltb b 0xC2
    then none
    else if leb b 0xDF
    then some (await 1 0x80 0xBF (b - 0xC0), [])
    else if nat_eq b 0xE0
    then some (await 2 0xA0 0xBF 0, [])
    else if nat_eq b 0xED
    then some (await 2 0x80 0x9F 13, [])
    else if leb b 0xEF
    then some (await 2 0x80 0xBF (b - 0xE0), [])
    else if nat_eq b 0xF0
    then some (await 3 0x90 0xBF 0, [])
    else if leb b 0xF3
    then some (await 3 0x80 0xBF (b - 0xF0), [])
    else if nat_eq b 0xF4
    then some (await 3 0x80 0x8F 4, [])
    else none

unfoldable pub feed : Pending → ℕ → Option (Pending × List ℕ)
feed p b =
    if nat_eq p.missing 0
    then start b
    else if leb p.low b && leb b p.high
    then (if nat_eq p.missing 1
        then some (idle, (p.value * 64 + (b - 0x80)) ∷ [])
        else some (await (p.missing - 1) 0x80 0xBF (p.value * 64 + (b - 0x80)), []))
    else none

unfoldable pub prepend : List ℕ → Option Text → Option Text
prepend out none = none
prepend out (some rs) = some (out ++ rs)

unfoldable pub decode_from : Pending → Text → Option Text
unfolding prepend
decode_from p [] = if nat_eq p.missing 0 then some [] else none
decode_from p (b ∷ bs) = elim (feed p b) [
  | none ↦ none
  | some (q, out) ↦ prepend out (decode_from q bs)
]

unfoldable pub decode : Text → Option Text
unfolding decode_from feed start
decode s = decode_from idle s

-- The bytes of a rune.
unfoldable pub encode_rune : ℕ → Text
encode_rune c =
    if ltb c 0x80
    then c ∷ []
    else if ltb c 0x800
    then (0xC0 + c / 64) ∷ (0x80 + c % 64) ∷ []
    else if ltb c 0x10000
    then (0xE0 + c / 4096) ∷ (0x80 + c / 64 % 64) ∷ (0x80 + c % 64) ∷ []
    else (0xF0 + c / 262144) ∷ (0x80 + c / 4096 % 64) ∷ (0x80 + c / 64 % 64) ∷ (0x80 + c % 64) ∷ []

unfoldable pub encode : Text → Text
unfolding encode_rune
encode [] = []
encode (c ∷ s) = encode_rune c ++ encode s
