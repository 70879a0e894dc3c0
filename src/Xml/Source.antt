-- ===== src/Xml/Source.antt =====
-- The source that the XML parser reads from: game_client/game_client/IrrCharArrayReaderSource.cpp.
use Prim.Native.Nat.{min}
use easygametools.Base.{
  ℕ, zero, suc, ◌+◌, ◌-◌, ◌≤◌, ◌≡◌, refl, sym, ap, ◌∙◌, inl, inr, true, List, [], ◌∷◌, ◌++◌,
  if◌then◌else◌, leb, length, take, drop, take_all, length-drop, Bool-cases, arith,
}
use easygametools.Base.Text.{Bytes}
use easygametools.Base.Outcome.{
  Result, ok, err, unterminated, ◌>>=◌, Ensures, Ensures-bind, Ensures-weaken,
}

-- The members; `currentPtr` is always `sourceBuffer + consumed`. Lengths are not negative.
pub record Source : Type 0 where
  pub source_buffer : Bytes
  pub source_buffer_len : ℕ
  pub consumed : ℕ

-- `IrrCharArrayReaderSource::IrrCharArrayReaderSource`
abbrev pub new_source : Bytes → ℕ → Source
new_source source len = record { source_buffer = source; source_buffer_len = len; consumed = 0 }

-- `IrrCharArrayReaderSource::getSize`
abbrev pub get_size : Source → ℕ
get_size s = s.source_buffer_len - s.consumed

-- `IrrCharArrayReaderSource::read`; the memory that it copies must be there.
unfoldable pub read : ℕ → Source → Result (Bytes × Source)
read size_to_read s =
    let size = min (get_size s) size_to_read in
    if leb (s.consumed + size) (length s.source_buffer)
    then ok (take size (drop s.consumed s.source_buffer), record s { consumed = s.consumed + size })
    else err unterminated

-- One read after another, and all that they give.
unfoldable pub read_all : List ℕ → Source → Result (Bytes × Source)
read_all [] s = ok ([], s)
read_all (n ∷ ns) s = do
  (chunk, s') ← read n s
  (rest, s'') ← read_all ns s'
  ok (chunk ++ rest, s'')

abbrev pub sum : List ℕ → ℕ
sum [] = 0
sum (n ∷ ns) = n + sum ns

module _ {ℓ} {A : Type ℓ} where
  drop_nil : (n : ℕ) → drop {A = A} n [] ≡ []
  drop_nil zero = refl
  drop_nil (suc n) = refl

  take_nil : (n : ℕ) → take {A = A} n [] ≡ []
  take_nil zero = refl
  take_nil (suc n) = refl

  drop_all : (n : ℕ) (xs : List A) → length xs ≤ n → drop n xs ≡ []
  drop_all zero [] h = refl
  drop_all (suc n) [] h = refl
  drop_all zero (x ∷ xs) h = absurd (omega arith)
  drop_all (suc n) (x ∷ xs) h = drop_all n xs (omega (arith, h))

  drop-drop : (n k : ℕ) (xs : List A) → drop n (drop k xs) ≡ drop (k + n) xs
  drop-drop n zero xs = ap (λ i. drop i xs) (omega arith)
  drop-drop zero (suc k) [] = sym (drop_nil (suc k + 0))
  drop-drop (suc n) (suc k) [] = sym (drop_nil (suc k + suc n))
  drop-drop n (suc k) (x ∷ xs) =
      let next : suc k + n ≡ suc (k + n) = omega arith in
      drop-drop n k xs ∙ ap (λ i. drop i (x ∷ xs)) (sym next)

  take-append-take : (n m : ℕ) (xs : List A) → take n xs ++ take m (drop n xs) ≡ take (n + m) xs
  take-append-take zero m xs = ap (λ i. take i xs) (omega arith)
  take-append-take (suc n) zero [] = sym (take_nil (suc n + 0))
  take-append-take (suc n) (suc m) [] = sym (take_nil (suc n + suc m))
  take-append-take (suc n) m (x ∷ xs) =
      let next : suc n + m ≡ suc (n + m) = omega arith in
      ap (◌∷◌ x) (take-append-take n m xs) ∙ ap (λ i. take i (x ∷ xs)) (sym next)

  take-min : (n : ℕ) (xs : List A) → take (min (length xs) n) xs ≡ take n xs
  take-min n xs = elim (Bool-cases (leb n (length xs))) [
    | inl fits ↦ ap (λ i. take i xs) (ground arith)
    | inr more ↦
        let whole : min (length xs) n ≡ length xs = ground arith in
        ap (λ i. take i xs) whole
        ∙ take_all (length xs) xs (omega arith)
        ∙ sym (take_all n xs (ground arith))
  ]

  drop-min : (n : ℕ) (xs : List A) → drop (min (length xs) n) xs ≡ drop n xs
  drop-min n xs = elim (Bool-cases (leb n (length xs))) [
    | inl fits ↦ ap (λ i. drop i xs) (ground arith)
    | inr more ↦
        let whole : min (length xs) n ≡ length xs = ground arith in
        ap (λ i. drop i xs) whole
        ∙ drop_all (length xs) xs (omega arith)
        ∙ sym (drop_all n xs (ground arith))
  ]

-- The source of a whole text, with `k` bytes consumed.
abbrev source_at : Bytes → ℕ → Source
source_at text k = record { source_buffer = text; source_buffer_len = length text; consumed = k }

read-source_at :
    (n k : ℕ) (text : Bytes)
    → k ≤ length text
    → read n (source_at text k)
      ≡ ok (take n (drop k text), source_at text (k + min (length text - k) n))
unfolding read
read-source_at n k text h =
    let fits : leb (k + min (length text - k) n) (length text) ≡ true = ground arith in
    let chunk : take (min (length text - k) n) (drop k text) ≡ take n (drop k text) =
      ap (λ i. take (min i n) (drop k text)) (sym (length-drop k text))
      ∙ take-min n (drop k text) in
    rw (fits, chunk) refl

drop-read :
    (n k : ℕ) (text : Bytes) → drop (k + min (length text - k) n) text ≡ drop n (drop k text)
drop-read n k text =
    sym (drop-drop (min (length text - k) n) k text)
    ∙ ap (λ i. drop (min i n) (drop k text)) (sym (length-drop k text))
    ∙ drop-min n (drop k text)

read_all-source_at :
    (ns : List ℕ) (k : ℕ) (text : Bytes)
    → k ≤ length text
    → Ensures (read_all ns (source_at text k)) (λ (out, s').
      (out ≡ take (sum ns) (drop k text)) × (get_size s' ≡ length text - k - sum ns))
unfolding read_all
read_all-source_at [] k text h = (refl, omega arith)
read_all-source_at (n ∷ ns) k text h =
    let k' = k + min (length text - k) n in
    rw (read-source_at n k text h) (
      Ensures-bind (read_all ns (source_at text k')) _ _ _
        (read_all-source_at ns k' text (omega arith))
        (λ (rest, s') (out, left). (
          ap (λ l. take n (drop k text) ++ l) (out ∙ ap (take (sum ns)) (drop-read n k text))
              ∙ take-append-take n (sum ns) (drop k text),
          left ∙ omega arith,
        )))

-- However the parser divides its reads of a text, they succeed and give together the first bytes of the
-- text, as many as were asked for in all or the whole text; `getSize` is then what is left.
pub read_all-new_source :
    (ns : List ℕ) (text : Bytes)
    → Ensures
        (read_all ns (new_source text (length text)))
        (λ (out, s'). (out ≡ take (sum ns) text) × (get_size s' ≡ length text - sum ns))
read_all-new_source ns text =
    Ensures-weaken (read_all ns (new_source text (length text))) _ _
      (read_all-source_at ns 0 text (omega arith))
      (λ (out, s') (same, left). (same, left ∙ omega arith))
