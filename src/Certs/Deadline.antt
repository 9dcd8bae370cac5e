-- ===== src/Certs/Deadline.antt =====
-- The wait for a signed certificate ends by itself: the deadline passes before the polls run out.
use karpenter_provider_upclo.Base.{
  String, ℕ, zero, suc, ◌+◌, ◌*◌, ◌<◌, ◌≤◌, ◌≡◌, ◌≢◌, refl, sym, ap, ◌∙◌, inl, inr, [], ◌∷◌, true,
  false, arith, Bool-cases, Result, ok, err,
}
use karpenter_provider_upclo.Base.Text.{Text}
use karpenter_provider_upclo.Kube.{Error}
use karpenter_provider_upclo.Kube.Step.{step-cases}
use karpenter_provider_upclo.Certs.{Csr, Cluster, polls, poll, polled, deadline_exceeded}
use karpenter_provider_upclo.Certs.Signing.{Waits, here, there, found, not_yet, poll_step, too_late}

abbrev pub pause : ℕ
pause = 2000000000

abbrev pub timeout : ℕ
timeout = 90000000000

-- A clock in nanoseconds that no call turns back, on which a pause takes two seconds at least, and by which the
-- deadline is 90 seconds after the start.
pub record IsTimed {S : Type 0} (cluster : Cluster S) (clock : S → ℕ) (start : ℕ) : Type 0 where
  pub forward : (name : String) (w : S) → clock w ≤ clock (cluster.get_csr name w).1
  pub paused : (w : S) → clock w + pause ≤ clock (cluster.pass w)
  pub expired : (w : S) → start + timeout ≤ clock w → cluster.is_expired w ≡ true

module _ {S : Type 0} (cluster : Cluster S) (name : String) where
  -- The last poll of a wait: it finds a certificate, fails, or finds none with the deadline passed.
  pub data Last : S → Result Error Text → S → Type 0 where
    signed :
        (w v : S) (csr : Csr)
        → cluster.get_csr name w ≡ (ok csr, v)
        → csr.certificate ≢ []
        → Last w (ok csr.certificate) v
    failed_poll : (w v : S) (e : Error) → cluster.get_csr name w ≡ (err e, v) → Last w (err e) v
    expired :
        (w v : S) (csr : Csr)
        → cluster.get_csr name w ≡ (ok csr, v)
        → csr.certificate ≡ []
        → cluster.is_expired v ≡ true
        → Last w (err deadline_exceeded) v

  -- A wait from `w` that ends with `r` in world `v`, for any fuel from `n` on.
  abbrev pub Ends : ℕ → S → Type 0
  Ends n w =
      (k : ℕ) × (x : S) × (r : Result Error Text) × (v : S) × (k < n)
      × Waits cluster name k w x
      × Last x r v
      × ((m : ℕ) → n ≤ m → poll cluster m name w ≡ (r, v))

  at_once :
      (n : ℕ) (w u : S) (answer : Result Error Csr) (r : Result Error Text) (v : S)
      → cluster.get_csr name w ≡ (answer, u)
      → Last w r v
      → ((more : S → Result Error Text × S) → polled cluster answer u more ≡ (r, v))
      → Ends (suc n) w
  at_once n w u answer r v g l p = (0, w, r, v, omega arith, here w, l, stable)
    where
      stable : (m : ℕ) → suc n ≤ m → poll cluster m name w ≡ (r, v)
      stable zero h = absurd (omega arith)
      stable (suc m) h = poll_step cluster name m w u answer g ∙ p (poll cluster m name)

  one_more :
      (n : ℕ) (w u : S) (csr : Csr)
      → cluster.get_csr name w ≡ (ok csr, u)
      → csr.certificate ≡ []
      → cluster.is_expired u ≡ false
      → Ends n (cluster.pass u)
      → Ends (suc n) w
  one_more n w u csr g c e (k, x, r, v, l, h, last, s) =
      (suc k, x, r, v, omega arith, there k w u x csr g c e h, last, stable)
    where
      stable : (m : ℕ) → suc n ≤ m → poll cluster m name w ≡ (r, v)
      stable zero h = absurd (omega arith)
      stable (suc m) h =
          poll_step cluster name m w u (ok csr) g
          ∙ not_yet cluster name csr u (poll cluster m name) c e
          ∙ s m (omega arith)

  module _ (clock : S → ℕ) (start : ℕ) (timed : IsTimed cluster clock start) where
    forward : (w u : S) (r : Result Error Csr) → cluster.get_csr name w ≡ (r, u) → clock w ≤ clock u
    forward w u r g = rw (sym (ap (λ (x : Result Error Csr × S). x.1) g)) (timed.forward name w)

    still : (u : S) → cluster.is_expired u ≡ false → clock u < start + timeout
    still u e = ground (arith, timed.expired u, e)

    unsigned-Ends :
        (n : ℕ) (w u : S) (csr : Csr)
        → start + timeout + pause ≤ clock w + suc n * pause
        → cluster.get_csr name w ≡ (ok csr, u)
        → csr.certificate ≡ []
        → ((v : S) → 0 < n → start + timeout + pause ≤ clock v + n * pause → Ends n v)
        → Ends (suc n) w
    unsigned-Ends n w u csr b g c next = elim (Bool-cases (cluster.is_expired u)) [
      | inl e ↦
          at_once n w u (ok csr) (err deadline_exceeded) u g (expired w u csr g c e)
            (λ more. too_late cluster name csr u more c e)
      | inr e ↦
          let f = forward w u (ok csr) g in
          let s = still u e in
          one_more n w u csr g c e
            (next (cluster.pass u) (omega arith) (omega (arith, timed.paused u)))
    ]

    answered-Ends :
        (n : ℕ) (w u : S) (csr : Csr) (c : Text)
        → csr.certificate ≡ c
        → start + timeout + pause ≤ clock w + suc n * pause
        → cluster.get_csr name w ≡ (ok csr, u)
        → ((v : S) → 0 < n → start + timeout + pause ≤ clock v + n * pause → Ends n v)
        → Ends (suc n) w
    answered-Ends n w u csr [] c b g next = unsigned-Ends n w u csr b g c next
    answered-Ends n w u csr (x ∷ xs) c b g next =
        let some : csr.certificate ≢ [] = λ e. ground arith in
        at_once n w u (ok csr) (ok csr.certificate) u g (signed w u csr g some)
          (λ more. found cluster name csr u more csr.certificate some)

    waiting-Ends :
        (n : ℕ) (w : S) → 0 < n → start + timeout + pause ≤ clock w + n * pause → Ends n w
    unfolding polled
    waiting-Ends zero w p b = absurd (omega arith)
    waiting-Ends (suc n) w p b = elim (step-cases (cluster.get_csr name) w) [
      | inr (x, u, g) ↦ at_once n w u (err x) (err x) u g (failed_poll w u x g) (λ more. refl)
      | inl (csr, u, g) ↦ answered-Ends n w u csr csr.certificate refl b g (waiting-Ends n)
    ]

    -- On a clock on which a pause takes two seconds at least, the wait for a certificate ends at one of its first
    -- 46 polls, after polls that found none before the deadline of 90 seconds: with the certificate
    -- found, with the error of that poll, or with the deadline passed. More polls would change nothing.
    pub poll-Ends : (w : S) → start ≤ clock w → Ends polls w
    poll-Ends w l = waiting-Ends polls w (omega arith) (omega arith)
