-- ===== src/Memory/Collection.antt =====
-- The collector of Reference.cpp on a sound memory, step by step.
use easygametools.Base.{
  ℕ, ◌+◌, ◌%◌, ◌^◌, ◌≡◌, ◌≢◌, refl, sym, ◌∙◌, inl, inr, true, Option, none, some, List, [], ◌∷◌,
  ◌++◌, if_true, ◌==◌, ==_iff, Bool-cases, Option-cases, arith,
}
use easygametools.Base.Int.{pos}
use easygametools.Base.Table.{Table, nat_eq, insert}
use easygametools.Base.Outcome.{ok, Ensures, Ensures-bind, Ensures-weaken}
use easygametools.Memory.{Cell, Memory, put_cell, drop, destroy}
use easygametools.Base.Occurrences.{occurrences, occurrences-append}
use easygametools.Memory.Sound.{Sound}
use easygametools.Memory.Collector.{
  delete_object, empty_bucket, collect_buckets, collect_garbage, delete_live, print_stats,
  collect_remaining,
}
use easygametools.Memory.Everywhere.{exists_at, pool, lives, everywhere}

-- The list has every object that there is, once.
abbrev pub Owned : List ℕ → Memory → Type 0
Owned ps m = (m.is_closing ≡ true) × ((q : ℕ) → occurrences q ps ≡ exists_at (m.cells q))

drop_closing : (v : ℕ) (m : Memory) → m.is_closing ≡ true → drop v m ≡ ok m
unfolding drop
drop_closing v m h = if_true _ m.is_closing h

left :
    (p : ℕ) (ps : List ℕ) (c : Cell) (m : Memory)
    → m.cells p ≡ some c
    → ((q : ℕ) → occurrences q (p ∷ ps) ≡ exists_at (m.cells q))
    → (q : ℕ) → occurrences q ps ≡ exists_at (put_cell p none m.cells q)
left p ps c m found own q = elim (Bool-cases (p == q)) [
  | inl same ↦ rw same (ground (arith, rw (same, sym ((==_iff p q).0 same), found) at (own q)))
  | inr apart ↦ rw apart (omega (arith, rw apart at (own q)))
]

-- What a deletion leaves as it was.
abbrev KeepsLive : Memory → Memory → Type 0
KeepsLive m m' = (m'.live ≡ m.live) × (m'.mem_objects_total ≡ m.mem_objects_total)

-- The members' destructors do nothing while the program is closing.
destroy_closing : (vs : List ℕ) (m : Memory) → m.is_closing ≡ true → destroy vs m ≡ ok m
unfolding destroy
destroy_closing [] m h = refl
destroy_closing (v ∷ vs) m h = rw (drop_closing v m h) (destroy_closing vs m h)

delete_object-Owned :
    (p : ℕ) (ps : List ℕ) (m : Memory)
    → Owned (p ∷ ps) m
    → Ensures (delete_object p m) (λ (freed, m'). Owned ps m' × KeepsLive m m')
unfolding delete_object
delete_object-Owned p ps m (closing, own) = elim (Option-cases (m.cells p)) [
  | inl absent ↦ absurd (ground (arith, rw absent at (own p)))
  | inr (c, found) ↦
      rw (found, destroy_closing c.members m closing)
        ((closing, left p ps c m found own), (refl, refl))
]

empty_bucket-Owned :
    (size : ℕ) (ps rest : List ℕ) (deleted : ℕ) (m : Memory)
    → Owned (ps ++ rest) m
    → Ensures (empty_bucket size ps deleted m) (λ (d, m'). Owned rest m' × KeepsLive m m')
unfolding empty_bucket
empty_bucket-Owned size [] rest deleted m own = (own, (refl, refl))
empty_bucket-Owned size (p ∷ ps) rest deleted m own =
    Ensures-bind (delete_object p (record m { dead = insert size ps m.dead })) _ _ _
      (delete_object-Owned p (ps ++ rest) (record m { dead = insert size ps m.dead }) own)
      (λ (freed, m') (own', same).
        Ensures-weaken (empty_bucket size ps ((deleted + freed) % 2 ^ 32) m') _ _
          (empty_bucket-Owned size ps rest _ m' own')
          (λ (d, m'') (own'', same'). (own'', (same'.0 ∙ same.0, same'.1 ∙ same.1))))

nested :
    (q : ℕ) (xs ys zs : List ℕ)
    → occurrences q (xs ++ (ys ++ zs)) ≡ occurrences q ((xs ++ ys) ++ zs)
nested q xs ys zs = omega (
  arith,
  occurrences-append q xs (ys ++ zs),
  occurrences-append q ys zs,
  occurrences-append q (xs ++ ys) zs,
  occurrences-append q xs ys,
)

collect_buckets-Owned :
    (t : Table ℕ (List ℕ)) (rest : List ℕ) (deleted : ℕ) (m : Memory)
    → Owned (pool t ++ rest) m
    → Ensures
        (collect_buckets 0 t deleted m)
        (λ m'. Owned rest m' × KeepsLive m m' × (m'.dead ≡ []))
unfolding collect_buckets
collect_buckets-Owned [] rest deleted m own = (own, (refl, refl), refl)
collect_buckets-Owned ((size, ps) ∷ t) rest deleted m own =
    Ensures-bind (empty_bucket size ps deleted m) _ _ _
      (empty_bucket-Owned size ps (pool t ++ rest) deleted m
        (own.0, λ q. nested q ps (pool t) rest ∙ own.1 q))
      (λ (d, m') (own', same).
        Ensures-weaken (collect_buckets 0 t d m') _ _ (collect_buckets-Owned t rest d m' own')
          (λ m'' (own'', same', emptied). (own'', (same'.0 ∙ same.0, same'.1 ∙ same.1), emptied)))

delete_live-Owned :
    (t : Table ℕ ℕ) (m : Memory)
    → Owned (lives t) m
    → Ensures (delete_live t m) (λ m'. Owned [] m' × (m'.mem_objects_total ≡ m.mem_objects_total))
unfolding delete_live
delete_live-Owned [] m own = (own, refl)
delete_live-Owned ((id, p) ∷ t) m own =
    Ensures-bind (delete_object p m) _ _ _ (delete_object-Owned p (lives t) m own)
      (λ (freed, m') (own', same).
        Ensures-weaken (delete_live t m') _ _ (delete_live-Owned t m' own')
          (λ m'' (own'', made). (own'', made ∙ same.1)))

none_left : (o : Option Cell) → 0 ≡ exists_at o → o ≡ none
none_left none h = refl
none_left (some c) h = absurd (omega arith)

stats_made : (m : Memory) → m.mem_objects_total ≢ 0 → Ensures (print_stats m) (λ stats. Unit)
unfolding print_stats
stats_made m made = elim (Bool-cases (m.mem_objects_total == 0)) [
  | inl zeroed ↦ absurd (made ((==_iff m.mem_objects_total 0).0 zeroed))
  | inr some_made ↦ rw some_made tt
]

pub collect_remaining-Sound :
    (m : Memory)
    → Sound m
    → m.mem_objects_total ≢ 0
    → Ensures (collect_remaining m) (λ (stats, m'). ((q : ℕ) → m'.cells q ≡ none) × (m'.live ≡ []))
unfolding collect_remaining collect_garbage
collect_remaining-Sound m h made =
    Ensures-bind (collect_garbage (pos 0) (record m { is_closing = true })) _ _ _
      (collect_buckets-Owned m.dead (lives m.live) 0 (record m { is_closing = true })
        (refl, everywhere m h))
      (λ m' (own, kept, emptied).
        Ensures-bind (delete_live m'.live m') _ _ _ (delete_live-Owned m'.live m' (rw kept.0 own))
          (λ m'' (own', same).
            Ensures-bind (print_stats (record m'' { live = [] })) _ _ _
              (stats_made (record m'' { live = [] }) (λ e. made (sym kept.1 ∙ sym same ∙ e)))
              (λ stats done. ((λ q. none_left (m''.cells q) (own'.1 q)), refl))))
