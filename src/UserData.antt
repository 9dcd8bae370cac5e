-- ===== src/UserData.antt =====
-- pkg/providers/userdata/userdata.go: the cloud-init document of a node. Go's strings are lists of
-- bytes here. The YAML encoder is a parameter; `text/template` only inserts values in its two
-- constants, whose pieces stand in UserData/Templates.
mod Templates
pub mod Utf8
pub mod Base64
pub mod Quoting
pub mod Encoding
pub mod Lines
pub mod Decoding
pub mod Document
pub mod Order
pub mod Tests
use Templates.{
  kubelet_head, kubelet_tail, cloud_init_head, after_ca_cert, after_kubelet_cert, after_kubelet_key,
  after_endpoint, after_kubelet_config, after_node_labels,
}
use karpenter_provider_upclo.Base.{
  String, ℕ, zero, suc, ◌-◌, ◌+◌, ◌*◌, Option, none, some, List, [], ◌∷◌, ◌++◌, map, Bool, true,
  false, not, ◌&&◌, ◌||◌, nat_eq, ltb, leb, if◌then◌else◌, Result, ok, err,
}
use karpenter_provider_upclo.Base.Results.{◌>>=◌, ◌>>◌}
use karpenter_provider_upclo.Base.Text.{Text, codes}
use Utf8.{decode}
use Base64.{encode}

-- The errors of `Generate`: what is wrong, with which value.
pub data Error : Type 0 where
  invalid_utf8 : String → Error
  control_character : String → ℕ → Error
  shell_character : String → ℕ → Error
  serializing_taints : String → Error

unfoldable pub is_control : ℕ → Bool
is_control r =
    (ltb r 0x20 && not (nat_eq r 9))
    || (nat_eq r 0x7f
        || ((leb 0x80 r && leb r 0x9f)
            || (nat_eq r 0x2028 || (nat_eq r 0x2029 || (nat_eq r 0xFFFE || nat_eq r 0xFFFF)))))

-- The loop over the runes: the first that is refused.
unfoldable pub first_control : Text → Option ℕ
first_control [] = none
first_control (r ∷ rs) = let rest = first_control rs in if is_control r then some r else rest

unfoldable pub no_control : String → Text → Result Error (Unit {0})
no_control what runes = elim (first_control runes) [
  | none ↦ ok tt
  | some r ↦ err (control_character what r)
]

unfoldable pub validate_single_line : String → Text → Result Error (Unit {0})
unfolding no_control
validate_single_line what s = elim (decode s) [
  | none ↦ err (invalid_utf8 what)
  | some runes ↦ no_control what runes
]

-- strings.ReplaceAll(s, "'", `'\''`)
unfoldable pub escape_quotes : Text → Text
escape_quotes [] = []
escape_quotes (c ∷ s) =
    (if nat_eq c b'\'' then b'\'' ∷ b'\\' ∷ b'\'' ∷ b'\'' ∷ [] else c ∷ []) ++ escape_quotes s

unfoldable pub shell_single_quote : Text → Text
unfolding escape_quotes
shell_single_quote s = b'\'' ∷ (escape_quotes s ++ (b'\'' ∷ []))

unfoldable pub is_significant : ℕ → Bool
is_significant c = nat_eq c b'"' || (nat_eq c b'$' || (nat_eq c b'`' || nat_eq c b'\\'))

-- strings.IndexAny, and the byte there
unfoldable pub first_significant : Text → Option ℕ
first_significant [] = none
first_significant (c ∷ s) =
    let rest = first_significant s in if is_significant c then some c else rest

unfoldable pub validate_shell_safe : String → Text → Result Error (Unit {0})
validate_shell_safe what s = elim (first_significant s) [
  | none ↦ ok tt
  | some c ↦ err (shell_character what c)
]

-- The order of Go's strings.
unfoldable pub le_text : Text → Text → Bool
le_text [] t = true
le_text (c ∷ s) [] = false
le_text (c ∷ s) (d ∷ t) = ltb c d || (nat_eq c d && le_text s t)

unfoldable pub eq_text : Text → Text → Bool
eq_text [] [] = true
eq_text (c ∷ s) (d ∷ t) = nat_eq c d && eq_text s t
eq_text _ _ = false

-- sort.Strings
unfoldable pub insert_sorted : Text → List Text → List Text
insert_sorted k [] = k ∷ []
insert_sorted k (j ∷ ks) =
    let rest = insert_sorted k ks in if le_text k j then k ∷ j ∷ ks else j ∷ rest

unfoldable pub sort : List Text → List Text
sort [] = []
sort (k ∷ ks) = insert_sorted k (sort ks)

-- `labels[k]`
unfoldable pub label_value : Text → List (Text × Text) → Text
label_value k [] = []
label_value k ((j, v) ∷ m) = let rest = label_value k m in if eq_text j k then v else rest

-- strings.Join
unfoldable pub join : Text → List Text → Text
join sep [] = []
join sep (x ∷ []) = x
join sep (x ∷ y ∷ xs) = x ++ (sep ++ join sep (y ∷ xs))

unfoldable pub keys : List (Text × Text) → List Text
keys [] = []
keys ((k, v) ∷ m) = k ∷ keys m

-- The map's entries stand in the order in which the loop meets them.
unfoldable pub serialize_labels : List (Text × Text) → Text
serialize_labels labels =
    join (b',' ∷ []) (map (λ k. k ++ (b'=' ∷ label_value k labels)) (sort (keys labels)))

pub record TaintEntry : Type 0 where
  pub key : Text
  pub value : Text
  pub effect : Text

pub record Options : Type 0 where
  pub cluster_endpoint : Text
  pub ca_cert_pem : Text
  pub kubelet_client_cert : Text
  pub kubelet_client_key : Text
  pub labels : List (Text × Text)
  pub taints : List TaintEntry

-- The YAML encoder, on the entries under `registerWithTaints`.
abbrev pub Encoder : Type 0
Encoder = List TaintEntry → Result String Text

unfoldable pub serialize_taints_yaml : Encoder → List TaintEntry → Result String Text
serialize_taints_yaml yaml [] = ok []
serialize_taints_yaml yaml (t ∷ ts) = yaml (t ∷ ts)

unfoldable pub cons_head : ℕ → List Text → List Text
cons_head c [] = (c ∷ []) ∷ []
cons_head c (l ∷ ls) = (c ∷ l) ∷ ls

-- strings.Split(s, "\n"): never empty
unfoldable pub split_lines : Text → List Text
unfolding cons_head
split_lines [] = [] ∷ []
split_lines (c ∷ s) =
    let rest = split_lines s in if nat_eq c b'\n' then [] ∷ rest else cons_head c rest

-- strings.Repeat(" ", spaces)
unfoldable pub spaces : ℕ → Text
spaces zero = []
spaces (suc n) = b' ' ∷ spaces n

unfoldable pub indent_line : ℕ → Text → Text
unfolding spaces
indent_line n [] = []
indent_line n (c ∷ l) = spaces n ++ (c ∷ l)

unfoldable pub indent_lines : Text → ℕ → Text
indent_lines s n = join (b'\n' ∷ []) (map (indent_line n) (split_lines s))

unfoldable pub validate_taints : List TaintEntry → Result Error (Unit {0})
validate_taints [] = ok tt
validate_taints (t ∷ ts) = do
  validate_single_line "taint key" t.key
  validate_single_line "taint value" t.value
  validate_single_line "taint effect" t.effect
  validate_taints ts

unfoldable pub kubelet_config : Text → Text
kubelet_config taints_yaml = kubelet_head ++ (taints_yaml ++ kubelet_tail)

unfoldable pub document : Options → Text → Text → Text
document opts node_labels config =
    cloud_init_head
    ++ (encode opts.ca_cert_pem
        ++ (after_ca_cert
            ++ (encode opts.kubelet_client_cert
                ++ (after_kubelet_cert
                    ++ (encode opts.kubelet_client_key
                        ++ (after_kubelet_key
                            ++ (opts.cluster_endpoint
                                ++ (after_endpoint
                                    ++ (indent_lines config 6
                                        ++ (after_kubelet_config
                                            ++ (shell_single_quote node_labels
                                                ++ after_node_labels)))))))))))

-- The error of the encoder, wrapped.
unfoldable pub encoded : Result String Text → Result Error Text
encoded (ok s) = ok s
encoded (err e) = err (serializing_taints e)

unfoldable pub generate : Encoder → Options → Result Error Text
unfolding encoded serialize_taints_yaml
generate yaml opts = do
  validate_single_line "cluster endpoint" opts.cluster_endpoint
  let node_labels = serialize_labels opts.labels
  validate_single_line "node labels" node_labels
  validate_shell_safe "node labels" node_labels
  validate_taints opts.taints
  taints_yaml ← encoded (serialize_taints_yaml yaml opts.taints)
  ok (document opts node_labels (kubelet_config taints_yaml))
