-- ===== src/UserData/Quoting.antt =====
-- What a POSIX shell reads back from a value that the script quotes.
use karpenter_provider_upclo.Base.{
  ℕ, ◌≡◌, refl, Option, none, some, [], ◌∷◌, ◌++◌, nat_eq, nat_eq_iff, if◌then◌else◌, Bool-cases,
  inl, inr,
}
use karpenter_provider_upclo.Base.Text.{Text}
use karpenter_provider_upclo.UserData.{shell_single_quote, escape_quotes}

-- Where the shell is in a word: outside quotes, behind a backslash, or in single quotes.
pub data Mode : Type 0 where
  outside escaped quoted : Mode

abbrev pub prepend : ℕ → Option Text → Option Text
prepend c none = none
prepend c (some s) = some (c ∷ s)

-- The value of a text that is one word of quotes and escapes; none if it leaves the quotes for
-- another character, or ends in the middle.
abbrev pub unquote : Mode → Text → Option Text
unquote outside [] = some []
unquote escaped [] = none
unquote quoted [] = none
unquote outside (c ∷ s) =
    let opened = unquote quoted s in
    let escape = unquote escaped s in
    if nat_eq c b'\'' then opened else if nat_eq c b'\\' then escape else none
unquote escaped (c ∷ s) = prepend c (unquote outside s)
unquote quoted (c ∷ s) =
    let closed = unquote outside s in
    let more = prepend c (unquote quoted s) in if nat_eq c b'\'' then closed else more

quoted_rest : (s : Text) → unquote quoted (escape_quotes s ++ (b'\'' ∷ [])) ≡ some s
unfolding escape_quotes
quoted_rest [] = refl
quoted_rest (c ∷ s) = elim (Bool-cases (nat_eq c b'\'')) [
  | inl e ↦ rw e (rw (quoted_rest s) (rw ((nat_eq_iff c b'\'').0 e) refl))
  | inr e ↦ rw e (rw (quoted_rest s) (rw e refl))
]

-- A reader of shell words takes the quoted text as one word, whose value is the text itself,
-- whatever it holds.
pub unquote-shell_single_quote : (s : Text) → unquote outside (shell_single_quote s) ≡ some s
unfolding shell_single_quote
unquote-shell_single_quote s = quoted_rest s
