-- ===== src/UserData/Document.antt =====
-- When `Generate` gives a document, and which one.
use karpenter_provider_upclo.Base.{
  String, ◌≡◌, ◌↔◌, refl, none, some, List, [], ◌∷◌, All, false, arith, Result, ok, err,
}
use karpenter_provider_upclo.Base.Results.{◌>>=◌, ◌>>◌}
use karpenter_provider_upclo.Base.Text.{Text}
use karpenter_provider_upclo.UserData.Utf8.{decode}
use karpenter_provider_upclo.UserData.Decoding.{validate_single_line_iff}
use karpenter_provider_upclo.UserData.{
  is_control, is_significant, first_significant, validate_shell_safe, validate_taints,
  serialize_labels, serialize_taints_yaml, kubelet_config, document, encoded, generate, Options,
  TaintEntry, Encoder, Error,
}

-- Valid UTF-8 without control characters.
abbrev pub IsSingleLine : Text → Type 0
IsSingleLine s = (rs : Text) × (decode s ≡ some rs) × All (λ r. is_control r ≡ false) rs

-- No byte that double quotes leave its meaning in a shell.
abbrev pub IsShellSafe : Text → Type 0
IsShellSafe s = All (λ c. is_significant c ≡ false) s

abbrev pub IsPlain : TaintEntry → Type 0
IsPlain t = IsSingleLine t.key × IsSingleLine t.value × IsSingleLine t.effect

abbrev pub IsAccepted : Options → Type 0
IsAccepted opts =
    IsSingleLine opts.cluster_endpoint
    × IsSingleLine (serialize_labels opts.labels)
    × IsShellSafe (serialize_labels opts.labels)
    × All IsPlain opts.taints

-- A check before the rest: both pass.
guarded :
    {A P Q : Type 0} (m : Result Error (Unit {0})) (k : Result Error A) (a : A)
    → ((m ≡ ok tt) ↔ P)
    → ((k ≡ ok a) ↔ Q)
    → ((m >> k) ≡ ok a) ↔ (P × Q)
guarded (ok tt) k a p q = ((λ e. (p.0 refl, q.0 e)), (λ h. q.1 h.1))
guarded (err x) k a p q = ((λ e. ground arith), (λ h. let e = p.1 h.0 in ground arith))

first_significant_iff : (s : Text) → (first_significant s ≡ none) ↔ IsShellSafe s
unfolding first_significant
first_significant_iff [] = ((λ e. tt), (λ a. refl))
first_significant_iff (c ∷ s) =
    let ih = first_significant_iff s in ((λ e. ground arith), (λ a. ground arith))

validate_shell_safe_iff :
    (what : String) (s : Text) → (validate_shell_safe what s ≡ ok tt) ↔ IsShellSafe s
unfolding validate_shell_safe
validate_shell_safe_iff what s =
    let h = first_significant_iff s in
    ((λ e. h.0 (ground arith)), (λ a. let e = h.1 a in ground arith))

regroup : {P A B C D : Type 0} → (P ↔ (A × (B × (C × D)))) → P ↔ ((A × B × C) × D)
regroup f = (
  (λ p. let (a, (b, (c, d))) = f.0 p in ((a, b, c), d)),
  (λ ((a, b, c), d). f.1 (a, (b, (c, d)))),
)

validate_taints_iff : (ts : List TaintEntry) → (validate_taints ts ≡ ok tt) ↔ All IsPlain ts
unfolding validate_taints
validate_taints_iff [] = ((λ e. tt), (λ a. refl))
validate_taints_iff (t ∷ ts) = regroup (
    guarded _ _ tt (validate_single_line_iff "taint key" t.key) (
      guarded _ _ tt (validate_single_line_iff "taint value" t.value) (
        guarded _ _ tt (validate_single_line_iff "taint effect" t.effect)
          (validate_taints_iff ts))))

regroup_checks :
    {P A B C D E : Type 0} → (P ↔ (A × (B × (C × (D × E))))) → P ↔ ((A × B × C × D) × E)
regroup_checks f = (
  (λ p. let (a, (b, (c, (d, e)))) = f.0 p in ((a, b, c, d), e)),
  (λ ((a, b, c, d), e). f.1 (a, (b, (c, (d, e))))),
)

written :
    (r : Result String Text) (f : Text → Text) (d : Text)
    → ((encoded r >>= λ taints. ok (f taints)) ≡ ok d)
      ↔ ((taints : Text) × (r ≡ ok taints) × (f taints ≡ d))
unfolding encoded
written (ok x) f d = ((λ e. (x, refl, ground arith)), (λ (y, p, q). ground arith))
written (err x) f d = ((λ e. ground arith), (λ (y, p, q). ground arith))

-- `Generate` gives a document exactly when the endpoint, the label list and the parts of each
-- taint are valid UTF-8 without control characters, the label list has no character that is
-- special between double quotes in a shell, and the encoder accepts the taints. The document
-- is then the one of these parts.
pub generate_iff :
    (yaml : Encoder) (opts : Options) (d : Text)
    → (generate yaml opts ≡ ok d) ↔ (
        IsAccepted opts
        × ((taints : Text) × (serialize_taints_yaml yaml opts.taints ≡ ok taints)
            × (document opts (serialize_labels opts.labels) (kubelet_config taints) ≡ d)))
unfolding generate
generate_iff yaml opts d =
    let labels = serialize_labels opts.labels in
    regroup_checks (
      guarded _ _ d (validate_single_line_iff "cluster endpoint" opts.cluster_endpoint) (
        guarded _ _ d (validate_single_line_iff "node labels" labels) (
          guarded _ _ d (validate_shell_safe_iff "node labels" labels) (
            guarded _ _ d (validate_taints_iff opts.taints) (
              written (serialize_taints_yaml yaml opts.taints)
                (λ taints. document opts labels (kubelet_config taints)) d)))))
