-- ===== src/UserData/Lines.antt =====
-- The indentation of the embedded kubelet configuration.
use karpenter_provider_upclo.Base.{
  ℕ, zero, suc, ◌≡◌, ◌≢◌, refl, ap, ◌∙◌, List, [], ◌∷◌, ◌++◌, map, All, false, nat_eq, Bool-cases,
  inl, inr, arith,
}
use karpenter_provider_upclo.Base.Text.{Text}
use karpenter_provider_upclo.UserData.{
  split_lines, cons_head, join, indent_lines, indent_line, spaces,
}

abbrev IsLine : Text → Type 0
IsLine l = All (λ (c : ℕ). nat_eq c b'\n' ≡ false) l

split_one : (l : Text) → IsLine l → split_lines l ≡ l ∷ []
unfolding split_lines cons_head
split_one [] h = refl
split_one (c ∷ l) h = rw h.0 (rw (split_one l h.1) refl)

split_first : (l s : Text) → IsLine l → split_lines (l ++ (b'\n' ∷ s)) ≡ l ∷ split_lines s
unfolding split_lines cons_head
split_first [] s h = refl
split_first (c ∷ l) s h = rw h.0 (rw (split_first l s h.1) refl)

split-join :
    (l : Text) (ls : List Text)
    → IsLine l
    → All IsLine ls
    → split_lines (join (b'\n' ∷ []) (l ∷ ls)) ≡ l ∷ ls
unfolding join
split-join l [] h hs = split_one l h
split-join l (k ∷ ls) h hs =
    split_first l (join (b'\n' ∷ []) (k ∷ ls)) h ∙ ap (λ r. l ∷ r) (split-join k ls hs.0 hs.1)

spaces-IsLine : (n : ℕ) → IsLine (spaces n)
unfolding spaces
spaces-IsLine zero = tt
spaces-IsLine (suc n) = (refl, spaces-IsLine n)

append-IsLine : (l m : Text) → IsLine l → IsLine m → IsLine (l ++ m)
append-IsLine [] m h k = k
append-IsLine (c ∷ l) m h k = (h.0, append-IsLine l m h.1 k)

indent_line-IsLine : (n : ℕ) (l : Text) → IsLine l → IsLine (indent_line n l)
unfolding indent_line
indent_line-IsLine n [] h = tt
indent_line-IsLine n (c ∷ l) h = append-IsLine (spaces n) (c ∷ l) (spaces-IsLine n) h

map_indent-IsLine : (n : ℕ) (ls : List Text) → All IsLine ls → All IsLine (map (indent_line n) ls)
map_indent-IsLine n [] h = tt
map_indent-IsLine n (l ∷ ls) h = (indent_line-IsLine n l h.0, map_indent-IsLine n ls h.1)

cons_head-IsLine :
    (c : ℕ) (ls : List Text) → nat_eq c b'\n' ≡ false → All IsLine ls → All IsLine (cons_head c ls)
unfolding cons_head
cons_head-IsLine c [] e h = ((e, tt), tt)
cons_head-IsLine c (l ∷ ls) e h = ((e, h.0), h.1)

split_lines-IsLine : (s : Text) → All IsLine (split_lines s)
unfolding split_lines
split_lines-IsLine [] = (tt, tt)
split_lines-IsLine (c ∷ s) = elim (Bool-cases (nat_eq c b'\n')) [
  | inl e ↦ rw e (tt, split_lines-IsLine s)
  | inr e ↦ rw e (cons_head-IsLine c (split_lines s) e (split_lines-IsLine s))
]

split_map :
    (n : ℕ) (ls : List Text)
    → All IsLine ls
    → ls ≢ []
    → split_lines (join (b'\n' ∷ []) (map (indent_line n) ls)) ≡ map (indent_line n) ls
split_map n [] h e = absurd (e refl)
split_map n (l ∷ ls) h e =
    split-join (indent_line n l) (map (indent_line n) ls) (indent_line-IsLine n l h.0)
      (map_indent-IsLine n ls h.1)

cons_some : (c : ℕ) (ls : List Text) → cons_head c ls ≢ []
unfolding cons_head
cons_some c [] e = cc
cons_some c (l ∷ ls) e = cc

split_some : (s : Text) → split_lines s ≢ []
unfolding split_lines cons_head
split_some [] e = cc
split_some (c ∷ s) e = ground (arith, cons_some c (split_lines s))

-- The lines of a text that `indentLines` indents are the lines of the text, each indented
-- unless it is empty.
pub split_lines-indent_lines :
    (s : Text) (n : ℕ) → split_lines (indent_lines s n) ≡ map (indent_line n) (split_lines s)
unfolding indent_lines
split_lines-indent_lines s n = split_map n (split_lines s) (split_lines-IsLine s) (split_some s)
