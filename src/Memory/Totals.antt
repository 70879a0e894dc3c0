-- ===== src/Memory/Totals.antt =====
-- The destructors of Reference.h and the counters of the constructed and the allocated.
use easygametools.Base.{ℕ, ◌≡◌, refl, ◌∙◌, Bool, true, false, Option, none, some, List, [], ◌∷◌}
use easygametools.Base.Table.{nat_eq}
use easygametools.Base.Outcome.{
  IfOk-if, ok, or_error, dangling, IfOk, IfOk-all, IfOk-bind, IfOk-weaken,
}
use easygametools.Memory.{
  Cell, Memory, add_dead_object, release, retire, release_old, target, drop, destroy,
}

-- The ids given, the objects made and the bytes allocated.
abbrev pub KeepsTotals : Memory → Memory → Type 0
KeepsTotals m m' =
    (m'.mem_id_master ≡ m.mem_id_master)
    × (m'.mem_objects_total ≡ m.mem_objects_total)
    × (m'.total_allocated ≡ m.total_allocated)

KeepsTotals-trans : (a b c : Memory) → KeepsTotals a b → KeepsTotals b c → KeepsTotals a c
KeepsTotals-trans a b c (h0, h1, h2) (k0, k1, k2) = (k0 ∙ h0, k1 ∙ h1, k2 ∙ h2)

retire-KeepsTotals :
    (last : Bool) (p : ℕ) (c : Cell) (m : Memory) → KeepsTotals m (retire last p c m)
unfolding retire add_dead_object
retire-KeepsTotals true p c m = (refl, refl, refl)
retire-KeepsTotals false p c m = (refl, refl, refl)

release_old-KeepsTotals : (o : Option ℕ) (m : Memory) → IfOk (release_old o m) (KeepsTotals m)
unfolding release_old release
release_old-KeepsTotals none m = (refl, refl, refl)
release_old-KeepsTotals (some p) m =
    IfOk-bind (or_error (m.cells p) dangling) _ (λ c. Unit) _
      (IfOk-all (or_error (m.cells p) dangling) (λ c. Unit) (λ c. tt))
      (λ c found. retire-KeepsTotals _ p c _)

drop-KeepsTotals : (v : ℕ) (m : Memory) → IfOk (drop v m) (KeepsTotals m)
unfolding drop
drop-KeepsTotals v m =
    IfOk-if m.is_closing (ok m) _ _ (refl, refl, refl)
      (IfOk-bind (release_old (target v m) m) _ _ _ (release_old-KeepsTotals (target v m) m)
        (λ m' kept. kept))

pub destroy-KeepsTotals : (vs : List ℕ) (m : Memory) → IfOk (destroy vs m) (KeepsTotals m)
unfolding destroy
destroy-KeepsTotals [] m = (refl, refl, refl)
destroy-KeepsTotals (v ∷ vs) m =
    IfOk-bind (drop v m) (destroy vs) _ _ (drop-KeepsTotals v m) (λ m' kept.
      IfOk-weaken _ _ _ (destroy-KeepsTotals vs m') (λ m'' k. KeepsTotals-trans m m' m'' kept k))
