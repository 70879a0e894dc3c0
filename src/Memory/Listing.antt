-- ===== src/Memory/Listing.antt =====
-- A table whose keys are all different, seen as one list of its values.
use easygametools.Base.{
  ℕ, ◌+◌, ◌≡◌, sym, ◌∙◌, inl, inr, Option, none, some, [], ◌∷◌, if◌then◌else◌, ◌==◌, ==_iff,
  ==_refl, Bool-cases, arith,
}
use easygametools.Base.Table.{Table, nat_eq, lookup}
use easygametools.Memory.Sound.{only_at, Distinct}

module _ {ℓ} {V : Type ℓ} (weight : V → ℕ) where
  -- What a key has, and what all have together.
  abbrev pub weigh : Option V → ℕ
  weigh none = 0
  weigh (some v) = weight v

  abbrev pub total : Table ℕ V → ℕ
  total [] = 0
  total ((k, v) ∷ t) = weight v + total t

  -- If one key alone has a weight, that is the whole.
  pub total_only :
      (z n : ℕ) (t : Table ℕ V)
      → Distinct t
      → ((s : ℕ) → weigh (lookup s t) ≡ only_at z n s)
      → total t ≡ n
  unfolding lookup
  total_only z n [] apart h = ground (arith, h z)
  total_only z n ((k, v) ∷ t) (free, apart) h =
      let here : weight v ≡ only_at z n k = rw (==_refl k) at (h k) in
      let others : (s : ℕ) → weigh (lookup s t) ≡ only_at z (if z == k then 0 else n) s = λ s.
        elim (Bool-cases (k == s)) [
          | inl same ↦
              let gone : lookup s t ≡ none = rw (sym ((==_iff k s).0 same)) free in
              rw gone (ground (arith, (==_iff k s).0 same))
          | inr other ↦ rw other at (h s) ∙ ground (arith, other)
        ] in
      ground (arith, here, total_only z (if z == k then 0 else n) t apart others)
