-- ===== src/Api/Hash.antt =====
-- The text of a hash tells digests apart, and empty lists and maps are hashed as omitted ones.
use Prim.Native.String.{count}
use native.Mathlib.Nat.{pow-suc}
use text.Mathlib.TextLemmas.{append_inj, length-append}
use karpenter_provider_upclo.Base.{
  String, ℕ, zero, suc, ◌/◌, ◌%◌, ◌^◌, ◌<◌, ◌≡◌, refl, ap, sym, ◌∙◌, Option, none, some, List, [],
  ◌∷◌, arith, ◌==◌, ◌↔◌,
}
use karpenter_provider_upclo.Api.Spec.{
  Spec, hex, hex_digit, formatted, hash, normalised, nil_if_empty,
}
use karpenter_provider_upclo.Base.{Bool, true, false, nat_eq, nat_eq_iff, if◌then◌else◌}

-- The test passes on every number below the bound.
passes : (ℕ → Bool) → ℕ → Bool
passes test zero = true
passes test (suc k) = let before = passes test k in if test k then before else false

test_of_passes :
    (test : ℕ → Bool) (bound n : ℕ) → n < bound → passes test bound ≡ true → test n ≡ true
unfolding passes
test_of_passes test zero n h e = ground arith
test_of_passes test (suc k) n h e = ground (arith, test_of_passes test k n)

-- The value of a digit.
unhex : String → ℕ
unhex s =
    if s == "0"
    then 0
    else if s == "1"
    then 1
    else if s == "2"
    then 2
    else if s == "3"
    then 3
    else if s == "4"
    then 4
    else if s == "5"
    then 5
    else if s == "6"
    then 6
    else if s == "7"
    then 7
    else if s == "8"
    then 8
    else if s == "9"
    then 9
    else if s == "a"
    then 10
    else if s == "b"
    then 11
    else if s == "c"
    then 12
    else if s == "d"
    then 13
    else if s == "e"
    then 14
    else 15

unhex_table : passes (λ n. nat_eq (unhex (hex_digit n)) n) 16 ≡ true
unfolding passes unhex hex_digit
unhex_table = refl

unhex-hex_digit : (n : ℕ) → n < 16 → unhex (hex_digit n) ≡ n
unhex-hex_digit n h = (nat_eq_iff _ n).0 (test_of_passes _ 16 n h unhex_table)

hex_digit-inj : (n m : ℕ) → n < 16 → m < 16 → hex_digit n ≡ hex_digit m → n ≡ m
hex_digit-inj n m h k e = sym (unhex-hex_digit n h) ∙ ap unhex e ∙ unhex-hex_digit m k

count_table : passes (λ n. nat_eq (count (hex_digit n)) 1) 16 ≡ true
unfolding passes hex_digit
count_table = refl

count-hex_digit : (n : ℕ) → n < 16 → count (hex_digit n) ≡ 1
count-hex_digit n h = (nat_eq_iff _ 1).0 (test_of_passes _ 16 n h count_table)

count-hex : (width n : ℕ) → count (hex width n) ≡ width
unfolding hex
count-hex zero n = refl
count-hex (suc width) n = omega (
  arith,
  length-append (hex width (n / 16)) (hex_digit (n % 16)),
  count-hex width (n / 16),
  count-hex_digit (n % 16) (omega arith),
)

hex-inj : (width n m : ℕ) → n < 16 ^ width → m < 16 ^ width → hex width n ≡ hex width m → n ≡ m
unfolding hex
hex-inj zero n m h k e = omega arith
hex-inj (suc width) n m h k e =
    let (high, low) = append_inj e (count-hex width (n / 16) ∙ sym (count-hex width (m / 16))) in
    omega (
      arith,
      hex-inj width (n / 16) (m / 16) (omega (arith, pow-suc 16 width))
          (omega (arith, pow-suc 16 width)) high,
      hex_digit-inj (n % 16) (m % 16) (omega arith) (omega arith) low,
    )

hash-some :
    (digest : Spec → Option ℕ) (s : Spec) (d : ℕ)
    → digest (normalised s) ≡ some d
    → hash digest s ≡ hex 16 d
unfolding hash
hash-some digest s d p = rw (p, formatted)

bound : 16 ^ 16 ≡ 2 ^ 64
bound = refl

hex_16-inj : (d e : ℕ) → d < 2 ^ 64 → e < 2 ^ 64 → hex 16 d ≡ hex 16 e → d ≡ e
hex_16-inj d e h k = hex-inj 16 d e (rw bound h) (rw bound k)

-- Two specifications with digests below 2^64 have the same hash exactly when they have the same
-- digest; and such a hash has 16 digits, so it is not the empty text that stands for an error.
pub hash_iff :
    (digest : Spec → Option ℕ) (s t : Spec) (d e : ℕ)
    → digest (normalised s) ≡ some d
    → digest (normalised t) ≡ some e
    → d < 2 ^ 64
    → e < 2 ^ 64
    → ((hash digest s ≡ hash digest t) ↔ (d ≡ e)) × (count (hash digest s) ≡ 16)
hash_iff digest s t d e p q h k =
    rw (hash-some digest s d p)
      (rw (hash-some digest t e q) ((hex_16-inj d e h k, λ same. ap (hex 16) same), count-hex 16 d))

abbrev pub IsEmpty {ℓ} : {A : Type ℓ} → Option (List A) → Type 0
IsEmpty none = Unit {0}
IsEmpty (some []) = Unit {0}
IsEmpty (some (x ∷ xs)) = ⊥

pub data SameList {ℓ} {A : Type ℓ} (a b : Option (List A)) : Type ℓ where
  equal : a ≡ b → SameList a b
  empty : IsEmpty a → IsEmpty b → SameList a b

-- The two differ at most in which empty lists and maps are left out.
pub record SameSpec (s t : Spec) : Type 0 where
  pub zone : s.zone ≡ t.zone
  pub plan : s.plan ≡ t.plan
  pub storage : s.storage ≡ t.storage
  pub ssh_keys : SameList s.ssh_keys t.ssh_keys
  pub kubelet_args : SameList s.kubelet_args t.kubelet_args
  pub labels : SameList s.labels t.labels
  pub taints : SameList s.taints t.taints
  pub server_group_uuid : s.server_group_uuid ≡ t.server_group_uuid
  pub utility_network_access : s.utility_network_access ≡ t.utility_network_access

nil-empty {ℓ} : {A : Type ℓ} (a : Option (List A)) → IsEmpty a → nil_if_empty a ≡ none
unfolding nil_if_empty
nil-empty none h = refl
nil-empty (some []) h = refl
nil-empty (some (x ∷ xs)) h = absurd h

nil-same {ℓ} : {A : Type ℓ} (a b : Option (List A)) → SameList a b → nil_if_empty a ≡ nil_if_empty b
nil-same a b (equal e) = ap nil_if_empty e
nil-same a b (empty p q) = nil-empty a p ∙ sym (nil-empty b q)

normalised-same : (s t : Spec) → SameSpec s t → normalised s ≡ normalised t
unfolding normalised
normalised-same s t h = cc (
  h.zone,
  h.plan,
  h.storage,
  nil-same _ _ h.ssh_keys,
  nil-same _ _ h.kubelet_args,
  nil-same _ _ h.labels,
  nil-same _ _ h.taints,
  h.server_group_uuid,
  h.utility_network_access,
)

-- Specifications that differ at most in which empty lists and maps are left out have the same hash,
-- whatever `hashstructure` makes of them.
pub hash_omits_empty :
    (digest : Spec → Option ℕ) (s t : Spec) → SameSpec s t → hash digest s ≡ hash digest t
unfolding hash
hash_omits_empty digest s t h = ap (λ n. formatted (digest n)) (normalised-same s t h)
