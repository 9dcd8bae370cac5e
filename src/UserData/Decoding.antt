-- ===== src/UserData/Decoding.antt =====
-- UTF-8 and the check of single lines.
use karpenter_provider_upclo.Base.{
  String, ℕ, ◌<◌, ◌≤◌, ◌≡◌, ◌↔◌, ◌⊎◌, inl, inr, refl, ap, ◌∙◌, sym, subst, Option, none, some, [],
  ◌∷◌, ◌++◌, All, false, arith, ok, Option-cases,
}
use karpenter_provider_upclo.Base.Text.{Text}
use karpenter_provider_upclo.UserData.Utf8.{
  Pending, idle, start, feed, decode_from, decode, encode_rune, encode, prepend,
}
use karpenter_provider_upclo.UserData.{is_control, first_control, no_control, validate_single_line}

-- A Unicode scalar value.
abbrev pub IsScalar : ℕ → Type 0
IsScalar c = (c < 0xD800) ⊎ ((0xE000 ≤ c) × (c < 0x110000))

encode_rune-decode :
    (bs : Text) (c : ℕ)
    → IsScalar c
    → decode_from idle (encode_rune c ++ bs) ≡ prepend (c ∷ []) (decode_from idle bs)
unfolding encode_rune decode_from feed start prepend
encode_rune-decode bs c h = ground arith

-- `utf8.ValidString` accepts the UTF-8 form of any runes, and `range` over it gives them back.
pub decode-encode : (rs : Text) → All IsScalar rs → decode (encode rs) ≡ some rs
unfolding decode encode decode_from prepend
decode-encode [] h = refl
decode-encode (r ∷ rs) (h, hs) =
    encode_rune-decode (encode rs) r h ∙ ap (prepend (r ∷ [])) (decode-encode rs hs)

first_control_iff : (rs : Text) → (first_control rs ≡ none) ↔ All (λ r. is_control r ≡ false) rs
unfolding first_control
first_control_iff [] = ((λ e. tt), (λ a. refl))
first_control_iff (r ∷ rs) =
    let ih = first_control_iff rs in ((λ e. ground arith), (λ a. ground arith))

-- What a byte leads to: nothing, or a state that wants bytes from 0x80 on, and a byte below that gives
-- itself.
feed_ascii :
    (p : Pending) (b : ℕ)
    → 0x80 ≤ p.low
    → (feed p b ≡ none)
      ⊎ ((q : Pending) × (out : Text) × (feed p b ≡ some (q, out))
          × (0x80 ≤ q.low)
          × (b < 0x80 → out ≡ b ∷ []))
unfolding feed start
feed_ascii p b l = ground arith

prepend-cases :
    (out : Text) (o : Option Text) (rs : Text)
    → prepend out o ≡ some rs
    → (rest : Text) × (o ≡ some rest) × (rs ≡ out ++ rest)
unfolding prepend
prepend-cases out none rs e = ground arith
prepend-cases out (some x) rs e = (x, refl, ground arith)

All-++ : (P : ℕ → Type 0) (xs ys : Text) → All P (xs ++ ys) → All P xs × All P ys
All-++ P [] ys a = (tt, a)
All-++ P (x ∷ xs) ys a = ((a.0, (All-++ P xs ys a.1).0), (All-++ P xs ys a.1).1)

module _ (p : Pending) (b : ℕ) (s : Text) where
  decode_refused : feed p b ≡ none → decode_from p (b ∷ s) ≡ none
  unfolding decode_from
  decode_refused f = rw (f, decode_from) refl

  decode_step :
      (q : Pending) (out : Text)
      → feed p b ≡ some (q, out)
      → decode_from p (b ∷ s) ≡ prepend out (decode_from q s)
  unfolding decode_from
  decode_step q out f = rw (f, decode_from) refl

-- The bytes below 0x80 are runes of their own.
ascii_kept :
    (p : Pending) (s rs : Text)
    → 0x80 ≤ p.low
    → decode_from p s ≡ some rs
    → All (λ r. is_control r ≡ false) rs
    → All (λ b. b < 0x80 → is_control b ≡ false) s
ascii_kept p [] rs l e a = tt
ascii_kept p (b ∷ s) rs l e a = elim (feed_ascii p b l) [
  | inl n ↦ let r = decode_refused p b s n in ground arith
  | inr (q, out, f, lq, g) ↦
      let (rest, decoded, whole) =
        prepend-cases out (decode_from q s) rs (sym (decode_step p b s q out f) ∙ e) in
      let parts =
        All-++ (λ r. is_control r ≡ false) out rest
          (subst (All (λ r. is_control r ≡ false)) whole a) in
      (
        (λ h. (subst (All (λ r. is_control r ≡ false)) (g h) parts.0).0),
        ascii_kept q s rest lq decoded parts.1,
      )
]

-- `validateSingleLine` accepts exactly the valid UTF-8 of runes none of which is a control character.
pub validate_single_line_iff :
    (what : String) (s : Text)
    → (validate_single_line what s ≡ ok tt)
      ↔ ((rs : Text) × (decode s ≡ some rs) × All (λ r. is_control r ≡ false) rs)
unfolding validate_single_line no_control
validate_single_line_iff what s = (
  (λ e. elim (Option-cases (decode s)) [
    | inl n ↦ ground arith
    | inr (rs, d) ↦ (rs, d, (first_control_iff rs).0 (ground arith))
  ]),
  (λ (rs, d, a). let c = (first_control_iff rs).1 a in ground arith),
)

-- A text that `validateSingleLine` accepts has no newline and no other control byte below
-- 0x80, except for tabs.
pub single_line :
    (what : String) (s : Text)
    → validate_single_line what s ≡ ok tt
    → All (λ b. b < 0x80 → is_control b ≡ false) s
unfolding decode
single_line what s e =
    let (rs, decoded, clean) = (validate_single_line_iff what s).0 e in
    ascii_kept idle s rs (ground arith) decoded clean
