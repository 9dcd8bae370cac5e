-- ===== src/Api/Conditions.antt =====
-- apis/v1alpha2/upcloudnodeclass_status.go and the status of upcloudnodeclass_types.go: the two
-- conversions through which operatorpkg reads and writes the conditions of a node class. The types
-- of a condition, metav1's and operatorpkg's, have the same fields. A nil slice is `none`.
use mathlib.Core.List.{append_assoc}
use karpenter_provider_upclo.Base.{
  String, ℕ, zero, suc, Option, none, some, List, [], ◌∷◌, ◌++◌, map, length, ◌≡◌, refl, sym, ap,
  ◌∙◌, arith, length-append,
}
use karpenter_provider_upclo.Base.Int.{ℤ, pos}

-- metav1.Condition; a time is its nanoseconds.
pub record MetaCondition : Type 0 where
  pub kind : String
  pub status : String
  pub observed_generation : ℤ
  pub last_transition_time : ℤ
  pub reason : String
  pub message : String

-- status.Condition
pub record StatusCondition : Type 0 where
  pub kind : String
  pub status : String
  pub observed_generation : ℤ
  pub last_transition_time : ℤ
  pub reason : String
  pub message : String

-- v1alpha2.UpCloudNodeClassStatus
pub record Status : Type 0 where
  pub conditions : Option (List MetaCondition)
  pub hash : String

-- `status.Condition(c)`
unfoldable pub to_status : MetaCondition → StatusCondition
to_status c = record {
  kind = c.kind;
  status = c.status;
  observed_generation = c.observed_generation;
  last_transition_time = c.last_transition_time;
  reason = c.reason;
  message = c.message;
}

-- `metav1.Condition(c)`
unfoldable pub to_meta : StatusCondition → MetaCondition
to_meta c = record {
  kind = c.kind;
  status = c.status;
  observed_generation = c.observed_generation;
  last_transition_time = c.last_transition_time;
  reason = c.reason;
  message = c.message;
}

module _ {ℓ} {A : Type ℓ} where
  -- `make([]T, n)`, for the zero value of `T`
  unfoldable pub zeros : A → ℕ → List A
  zeros z zero = []
  zeros z (suc n) = z ∷ zeros z n

  -- `xs[i] = x`; out of range nothing is written.
  unfoldable pub write_at : ℕ → A → List A → List A
  write_at i x [] = []
  write_at zero x (y ∷ ys) = x ∷ ys
  write_at (suc i) x (y ∷ ys) = y ∷ write_at i x ys

  -- The write at the position after a prefix replaces what stands there.
  write_at-append :
      (ys : List A) (x y : A) (zs : List A)
      → write_at (length ys) x (ys ++ y ∷ zs) ≡ (ys ++ (x ∷ [])) ++ zs
  unfolding write_at
  write_at-append [] x y zs = refl
  write_at-append (w ∷ ys) x y zs = ap (λ r. w ∷ r) (write_at-append ys x y zs)

-- `for i := range xs { out[i] = f(xs[i]) }`, from position `i`
unfoldable pub copy_from {ℓ κ} : {A : Type ℓ} {B : Type κ} → ℕ → (A → B) → List A → List B → List B
copy_from i f [] out = out
copy_from i f (x ∷ xs) out = copy_from (suc i) f xs (write_at i (f x) out)

abbrev pub no_meta : MetaCondition
no_meta = record {
  kind = "";
  status = "";
  observed_generation = pos 0;
  last_transition_time = pos 0;
  reason = "";
  message = "";
}

-- `u.Status.Conditions` as a range reads it: nil has no elements.
unfoldable pub stored : Status → List MetaCondition
stored s = elim s.conditions [ none ↦ [] | some cs ↦ cs ]

unfoldable pub get_conditions : Status → List StatusCondition
unfolding to_status copy_from zeros stored
get_conditions s = copy_from 0 to_status (stored s) (zeros (to_status no_meta) (length (stored s)))

unfoldable pub set_conditions : List StatusCondition → Status → Status
unfolding to_meta copy_from zeros
set_conditions cs s = record s {
  conditions = some (copy_from 0 to_meta cs (zeros no_meta (length cs)));
}

-- One more element is one more position.
length-snoc {ℓ} : {A : Type ℓ} (ys : List A) (x : A) → length (ys ++ (x ∷ [])) ≡ suc (length ys)
length-snoc ys x = omega (arith, length-append ys (x ∷ []))

-- The loop replaces the zero values after a prefix by the converted elements.
pub copy_from-zeros {ℓ κ} :
    {A : Type ℓ} {B : Type κ} (f : A → B) (z : B) (ys : List B) (xs : List A)
    → copy_from (length ys) f xs (ys ++ zeros z (length xs)) ≡ ys ++ map f xs
unfolding copy_from zeros
copy_from-zeros f z ys [] = refl
copy_from-zeros f z ys (x ∷ xs) =
    ap (λ out. copy_from (suc (length ys)) f xs out)
      (write_at-append ys (f x) z (zeros z (length xs)))
    ∙ ap (λ n. copy_from n f xs ((ys ++ (f x ∷ [])) ++ zeros z (length xs)))
        (sym (length-snoc ys (f x)))
    ∙ copy_from-zeros f z (ys ++ (f x ∷ [])) xs
    ∙ append_assoc ys (f x ∷ []) (map f xs)

map-inverse {ℓ κ} :
    {A : Type ℓ} {B : Type κ} (f : A → B) (g : B → A)
    → ((x : A) → g (f x) ≡ x)
    → (xs : List A) → map g (map f xs) ≡ xs
map-inverse f g h [] = refl
map-inverse f g h (x ∷ xs) =
    ap (λ y. y ∷ map g (map f xs)) (h x) ∙ ap (λ r. x ∷ r) (map-inverse f g h xs)

to_status-to_meta : (c : StatusCondition) → to_status (to_meta c) ≡ c
unfolding to_status to_meta
to_status-to_meta c = refl

to_meta-to_status : (c : MetaCondition) → to_meta (to_status c) ≡ c
unfolding to_status to_meta
to_meta-to_status c = refl

-- Each loop converts every element, in the order of the slice, and the zero values do not remain.
get_conditions_lem : (s : Status) → get_conditions s ≡ map to_status (stored s)
unfolding get_conditions
get_conditions_lem s = copy_from-zeros to_status (to_status no_meta) [] (stored s)

set_conditions_lem :
    (cs : List StatusCondition) (s : Status)
    → set_conditions cs s ≡ record s { conditions = some (map to_meta cs) }
unfolding set_conditions
set_conditions_lem cs s =
    ap (λ ms. record s { conditions = some ms }) (copy_from-zeros to_meta no_meta [] cs)

-- Conditions that operatorpkg has written are the ones that it reads, and the hash beside them stays;
-- writing back the conditions that it has read stores the same elements, in a slice that is not nil.
get_set_conditions :
    (cs : List StatusCondition) (s : Status)
    → (get_conditions (set_conditions cs s) ≡ cs)
      × ((set_conditions cs s).hash ≡ s.hash)
      × (set_conditions (get_conditions s) s ≡ record s { conditions = some (stored s) })
unfolding stored
get_set_conditions cs s = (
  get_conditions_lem (set_conditions cs s)
      ∙ ap (λ u. map to_status (stored u)) (set_conditions_lem cs s)
      ∙ map-inverse to_meta to_status to_status-to_meta cs,
  ap (λ u. u.hash) (set_conditions_lem cs s),
  set_conditions_lem (get_conditions s) s
      ∙ ap (λ cs. record s { conditions = some cs })
          (ap (map to_meta) (get_conditions_lem s)
            ∙ map-inverse to_status to_meta to_meta-to_status (stored s)),
)
