-- ===== src/Memory/Counts.antt =====
-- How many handles point to an address.
use easygametools.Base.{ℕ, ◌+◌, ◌≡◌, Option, [], ◌∷◌, arith}
use easygametools.Base.Table.{Table, nat_eq, lookup, insert, entry}
use easygametools.Base.Occurrences.{points}

-- The number of the handles that point to `q`.
abbrev pub count : ℕ → Table ℕ (Option ℕ) → ℕ
count q [] = 0
count q ((v, o) ∷ hs) = points q o + count q hs

pub count-insert :
    (q v : ℕ) (o : Option ℕ) (hs : Table ℕ (Option ℕ))
    → count q (insert v o hs) + points q (entry (lookup v hs)) ≡ count q hs + points q o
unfolding insert lookup
count-insert q v o [] = omega arith
count-insert q v o ((j, w) ∷ hs) = ground (arith, count-insert q v o hs)
