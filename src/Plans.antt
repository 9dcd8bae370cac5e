-- ===== src/Plans.antt =====
-- pkg/util/helpers.go: what the name of an UpCloud plan says about the plan.
pub mod Names
use karpenter_provider_upclo.Base.{
  String, ℕ, ◌-◌, ◌+◌, List, [], ◌∷◌, ◌++◌, map, Bool, true, false, ◌&&◌, ◌||◌, nat_eq, leb,
  if◌then◌else◌,
}
use karpenter_provider_upclo.Base.Text.{Text, codes, has_prefix, contains}

-- unicode.ToUpper, for the code points whose upper case is ASCII: a–z, and the two letters dotless i
-- and long s. The others stay other than ASCII, so they stand for themselves here.
unfoldable pub to_upper : ℕ → ℕ
to_upper c =
    if leb 97 c && leb c 122
    then c - 32
    else if nat_eq c 305
    then 73
    else if nat_eq c 383
    then 83
    else c

unfoldable pub is_spot_plan : String → Bool
unfolding to_upper
is_spot_plan name = contains (map to_upper (codes name)) (codes "SPOT")

-- The loop over the prefixes.
unfoldable pub first_prefix : List String → String → String
first_prefix [] name = "UNKNOWN"
first_prefix (p ∷ ps) name =
    let rest = first_prefix ps name in
    if has_prefix (codes name) (codes p ++ (b'-' ∷ [])) || has_prefix (codes name) (codes p)
    then p
    else rest

abbrev pub families : List String
families = "CLOUDNATIVE" ∷ "GPU" ∷ "STARTER" ∷ "PREMIUM" ∷ []

unfoldable pub instance_family : String → String
unfolding first_prefix
instance_family name = first_prefix families name
