-- ===== src/Game/Ports.antt =====
-- The search for a free port in `startGame` and `joinGame`.
use easygametools.Base.{
  ℕ, zero, suc, ◌+◌, ◌-◌, ◌%◌, ◌^◌, ◌≤◌, ◌<◌, ◌≡◌, refl, ap, sym, ◌∙◌, Bool, true, false, inl, inr,
  arith, Bool-cases, ◌⊎◌,
}
use easygametools.Base.Outcome.{ok}
use easygametools.Game.Lifecycle.{find_port}

-- The first port from `p` on that is free, as a 16-bit number.
pub record IsFirstFree (in_use : ℕ → Bool) (p q : ℕ) : Type 0 where
  pub free : in_use (q % 2 ^ 16) ≡ false
  pub from : p ≤ q
  pub first : (r : ℕ) → p ≤ r → r < q → in_use (r % 2 ^ 16) ≡ true

ok-inj : {a b : ℕ} → ok a ≡ ok b → a ≡ b
ok-inj h = cc

module _ (in_use : ℕ → Bool) where
  skip : (p r : ℕ) → p ≤ r → (p ≡ r) ⊎ (suc p ≤ r)
  skip p r h = ground arith

  skip-IsFirstFree :
      (p q : ℕ) → in_use (p % 2 ^ 16) ≡ true → IsFirstFree in_use (suc p) q → IsFirstFree in_use p q
  skip-IsFirstFree p q taken f = record {
    free = f.free;
    from = omega (arith, f.from);
    first = λ r lo hi. elim (skip p r lo) [
      | inl same ↦ ap (λ x. in_use (x % 2 ^ 16)) (sym same) ∙ taken
      | inr above ↦ f.first r above hi
    ];
  }

  -- The port that is `k` further on is another one where the first is taken.
  find_port-later :
      (fuel k p : ℕ)
      → k < suc fuel
      → in_use (p % 2 ^ 16) ≡ true
      → in_use ((p + k) % 2 ^ 16) ≡ false
      → ((k p : ℕ)
          → k < fuel
          → in_use ((p + k) % 2 ^ 16) ≡ false
          → (q : ℕ) × (find_port in_use fuel p ≡ ok q) × IsFirstFree in_use p q)
      → (q : ℕ) × (find_port in_use fuel (suc p) ≡ ok q) × IsFirstFree in_use (suc p) q
  find_port-later fuel zero p enough taken free rest =
      let same : p + 0 ≡ p = omega arith in
      absurd (cc (taken, free, ap (λ (x : ℕ). in_use (x % 2 ^ 16)) same))
  find_port-later fuel (suc k) p enough taken free rest =
      rest k (suc p) (omega arith) (ap (λ x. in_use (x % 2 ^ 16)) (omega arith) ∙ free)

  find_port-within :
      (fuel k p : ℕ)
      → k < fuel
      → in_use ((p + k) % 2 ^ 16) ≡ false
      → (q : ℕ) × (find_port in_use fuel p ≡ ok q) × IsFirstFree in_use p q
  unfolding find_port
  find_port-within zero k p enough free = absurd (omega arith)
  find_port-within (suc fuel) k p enough free = elim (Bool-cases (in_use (p % 2 ^ 16))) [
    | inr is_free ↦ (
      p,
      rw (is_free, find_port) refl,
      record { free = is_free; from = omega arith; first = λ r lo hi. absurd (omega arith) },
    )
    | inl taken ↦
        let (q, found, f) = find_port-later fuel k p enough taken free (find_port-within fuel) in
        (q, rw (taken, find_port) found, skip-IsFirstFree p q taken f)
  ]

  pub find_port-free : (fuel p q : ℕ) → find_port in_use fuel p ≡ ok q → in_use (q % 2 ^ 16) ≡ false
  unfolding find_port
  find_port-free zero p q h = cc
  find_port-free (suc fuel) p q h = elim (Bool-cases (in_use (p % 2 ^ 16))) [
    | inl taken ↦ find_port-free fuel (suc p) q (rw (taken, find_port) at h)
    | inr is_free ↦
        let here = rw (is_free, find_port) at h in
        cc (is_free, ap (λ (x : ℕ). in_use (x % 2 ^ 16)) (ok-inj here))
  ]

  -- If some port is free, the search ends, whatever the port it begins at, and finds the first free
  -- port from there on, going round after 65535.
  pub find_port-IsFirstFree :
      (r p : ℕ)
      → r < 2 ^ 16
      → in_use r ≡ false
      → (q : ℕ) × (find_port in_use (2 ^ 16) p ≡ ok q) × IsFirstFree in_use p q
  find_port-IsFirstFree r p small free =
      find_port-within (2 ^ 16) ((r + 2 ^ 16 - p % 2 ^ 16) % 2 ^ 16) p (omega arith)
        (ap in_use (omega arith) ∙ free)
