-- ===== src/Plans/Names.antt =====
-- Spot plans and families by the names of plans.
use karpenter_provider_upclo.Base.{
  String, All, ◌≡◌, refl, ap, ◌∙◌, ◌⊎◌, ◌↔◌, [], ◌∷◌, ◌++◌, map, Bool, true, false, ◌||◌,
  if◌then◌else◌, arith, eq_iff,
}
use karpenter_provider_upclo.Base.Text.{Text, codes, has_prefix, contains_iff}
use karpenter_provider_upclo.Plans.{to_upper, is_spot_plan, families, instance_family, first_prefix}

-- A text that is mapped to three parts has three parts that are mapped to them.
split_map2 :
    (s a b : Text)
    → map to_upper s ≡ a ++ b
    → (x : Text) × (y : Text) × (s ≡ x ++ y) × (map to_upper x ≡ a) × (map to_upper y ≡ b)
split_map2 s [] b e = ([], s, refl, refl, e)
split_map2 [] (c ∷ a) b e = ground arith
split_map2 (d ∷ s) (c ∷ a) b e =
    let (x, y, p, q, r) = split_map2 s a b (ground arith) in
    (d ∷ x, y, ground arith, ground arith, r)

map-++ : (x y : Text) → map to_upper (x ++ y) ≡ map to_upper x ++ map to_upper y
map-++ [] y = refl
map-++ (c ∷ x) y = ap (to_upper c ∷◌) (map-++ x y)

-- A plan is a spot plan exactly when a part of its name reads SPOT once its letters are put in
-- upper case.
pub is_spot_plan_iff :
    (name : String)
    → (is_spot_plan name ≡ true) ↔ (
        (a : Text) × (w : Text) × (b : Text) × (codes name ≡ a ++ (w ++ b))
        × (map to_upper w ≡ codes "SPOT"))
unfolding is_spot_plan
is_spot_plan_iff name = (
  (λ e.
      let (a, b, p) = (contains_iff (map to_upper (codes name)) (codes "SPOT")).0 e in
      let (x, y, q, ma, my) = split_map2 (codes name) a (codes "SPOT" ++ b) p in
      let (w, z, r, mw, mz) = split_map2 y (codes "SPOT") b my in (x, w, z, q ∙ ap (x ++◌) r, mw)),
  (λ (a, w, b, p, q). (contains_iff (map to_upper (codes name)) (codes "SPOT")).1 (
    map to_upper a,
    map to_upper b,
    ap (map to_upper) p
        ∙ map-++ a (w ++ b)
        ∙ ap (map to_upper a ++◌) (map-++ w b ∙ ap (◌++ map to_upper b) q),
  )),
)

-- The test with the dash adds nothing.
dash_test : (s p : Text) → (has_prefix s (p ++ (b'-' ∷ [])) || has_prefix s p) ≡ has_prefix s p
unfolding has_prefix
dash_test [] [] = refl
dash_test (d ∷ s) [] = ground arith
dash_test [] (c ∷ p) = refl
dash_test (d ∷ s) (c ∷ p) = ground (arith, dash_test s p)

-- No text begins with two of the four.
one_family :
    (s : Text)
    → let cloudnative = has_prefix s (codes "CLOUDNATIVE") in
      let gpu = has_prefix s (codes "GPU") in
      let starter = has_prefix s (codes "STARTER") in
      let premium = has_prefix s (codes "PREMIUM") in
      ((cloudnative ≡ false) ⊎ (gpu ≡ false))
      × ((cloudnative ≡ false) ⊎ (starter ≡ false))
      × ((cloudnative ≡ false) ⊎ (premium ≡ false))
      × ((gpu ≡ false) ⊎ (starter ≡ false))
      × ((gpu ≡ false) ⊎ (premium ≡ false))
      × ((starter ≡ false) ⊎ (premium ≡ false))
unfolding has_prefix
one_family [] = ground arith
one_family (c ∷ s) = ground arith

pick : Bool → Bool → Bool → Bool → String
pick a b c d =
    if a
    then "CLOUDNATIVE"
    else if b
    then "GPU"
    else if c
    then "STARTER"
    else if d
    then "PREMIUM"
    else "UNKNOWN"

instance_family-pick :
    (name : String)
    → instance_family name
      ≡ pick
          (has_prefix (codes name) (codes "CLOUDNATIVE"))
          (has_prefix (codes name) (codes "GPU"))
          (has_prefix (codes name) (codes "STARTER"))
          (has_prefix (codes name) (codes "PREMIUM"))
unfolding instance_family first_prefix pick
instance_family-pick name =
    let s = codes name in
    rw
      (
        dash_test s (codes "CLOUDNATIVE"),
        dash_test s (codes "GPU"),
        dash_test s (codes "STARTER"),
        dash_test s (codes "PREMIUM"),
      )
      refl

pick_iff :
    (a b c d : Bool)
    → (a ≡ false) ⊎ (b ≡ false)
    → (a ≡ false) ⊎ (c ≡ false)
    → (a ≡ false) ⊎ (d ≡ false)
    → (b ≡ false) ⊎ (c ≡ false)
    → (b ≡ false) ⊎ (d ≡ false)
    → (c ≡ false) ⊎ (d ≡ false)
    → ((pick a b c d ≡ "CLOUDNATIVE") ↔ (a ≡ true))
      × ((pick a b c d ≡ "GPU") ↔ (b ≡ true))
      × ((pick a b c d ≡ "STARTER") ↔ (c ≡ true))
      × ((pick a b c d ≡ "PREMIUM") ↔ (d ≡ true))
      × ((pick a b c d ≡ "UNKNOWN") ↔ ((a ≡ false) × (b ≡ false) × (c ≡ false) × (d ≡ false)))
unfolding pick
pick_iff a b c d ab ac ad bc bd cd = ground (
  arith,
  eq_iff "CLOUDNATIVE" "GPU",
  eq_iff "CLOUDNATIVE" "STARTER",
  eq_iff "CLOUDNATIVE" "PREMIUM",
  eq_iff "CLOUDNATIVE" "UNKNOWN",
  eq_iff "GPU" "CLOUDNATIVE",
  eq_iff "GPU" "STARTER",
  eq_iff "GPU" "PREMIUM",
  eq_iff "GPU" "UNKNOWN",
  eq_iff "STARTER" "CLOUDNATIVE",
  eq_iff "STARTER" "GPU",
  eq_iff "STARTER" "PREMIUM",
  eq_iff "STARTER" "UNKNOWN",
  eq_iff "PREMIUM" "CLOUDNATIVE",
  eq_iff "PREMIUM" "GPU",
  eq_iff "PREMIUM" "STARTER",
  eq_iff "PREMIUM" "UNKNOWN",
  eq_iff "UNKNOWN" "CLOUDNATIVE",
  eq_iff "UNKNOWN" "GPU",
  eq_iff "UNKNOWN" "STARTER",
  eq_iff "UNKNOWN" "PREMIUM",
)

-- The family of a plan is one of the four known names exactly when the plan's name begins with it, and
-- UNKNOWN exactly when it begins with none.
pub instance_family_iff :
    (name : String)
    → All (λ f. (instance_family name ≡ f) ↔ (has_prefix (codes name) (codes f) ≡ true)) families
      × ((instance_family name ≡ "UNKNOWN")
          ↔ All (λ f. has_prefix (codes name) (codes f) ≡ false) families)
instance_family_iff name =
    let h = one_family (codes name) in
    let p =
      pick_iff (has_prefix (codes name) (codes "CLOUDNATIVE"))
        (has_prefix (codes name) (codes "GPU")) (has_prefix (codes name) (codes "STARTER"))
        (has_prefix (codes name) (codes "PREMIUM")) h.0 h.1 h.2 h.3 h.4 h.5 in
    rw (instance_family-pick name) (
      (p.0, (p.1, (p.2, (p.3, tt)))),
      (
        (λ e. let (a, b, c, d) = p.4.0 e in (a, (b, (c, (d, tt))))),
        (λ (a, (b, (c, (d, u)))). p.4.1 (a, b, c, d)),
      ),
    )
