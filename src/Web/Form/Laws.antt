-- ===== src/Web/Form/Laws.antt =====
-- The variables of a form are a dictionary whose names ignore case.
use easygametools.Base.{
  ◌≡◌, refl, true, false, List, [], ◌∷◌, ◌++◌, map, arith, length, length-append, if◌then◌else◌,
  ◌↔◌,
}
use easygametools.Base.Text.{Bytes, to_lower, strcmp_eq_iff}
use easygametools.Base.Outcome.{ok}
use easygametools.Web.Form.{
  WebForm, same_name, has_var, is_duplicate_var, put_variable, find_var, get_variable,
}

-- The two vectors have one length, as every operation leaves them.
abbrev pub IsParallel : WebForm → Type 0
IsParallel f = length f.vars ≡ length f.vals

pub same_name_iff : (a b : Bytes) → (same_name a b ≡ true) ↔ (map to_lower a ≡ map to_lower b)
unfolding same_name
same_name_iff a b = strcmp_eq_iff (map to_lower a) (map to_lower b)

-- Where `a` is the same name as `b`, it is the same name as what `b` is.
same_name_trans : (a b c : Bytes) → same_name a b ≡ true → same_name a c ≡ same_name b c
unfolding same_name
same_name_trans a b c h = rw ((same_name_iff a b).0 h)

find_var-append :
    (name key value : Bytes) (xs vs : List Bytes)
    → length xs ≡ length vs
    → has_var key xs ≡ false
    → find_var name (xs ++ key ∷ []) (vs ++ value ∷ [])
      ≡ (if same_name name key then ok value else find_var name xs vs)
unfolding find_var has_var
find_var-append name key value [] [] same fresh = refl
find_var-append name key value [] (v ∷ vs) same fresh = absurd (omega arith)
find_var-append name key value (x ∷ xs) [] same fresh = absurd (omega arith)
find_var-append name key value (x ∷ xs) (v ∷ vs) same fresh =
    ground (arith, find_var-append name key value xs vs, same_name_trans name key x)

put_variable-fresh :
    (f g : WebForm) (key value : Bytes)
    → put_variable key value f ≡ ok g
    → (has_var key f.vars ≡ false) × (g.vars ≡ f.vars ++ key ∷ []) × (g.vals ≡ f.vals ++ value ∷ [])
unfolding put_variable is_duplicate_var
put_variable-fresh f g key value h = ground arith

-- After a `putVariable` that returns, the two vectors are parallel again, the value is found under its
-- name in any case, and every other name gives what it gave before, the exception included.
pub get-put_variable :
    (f g : WebForm) (key value name : Bytes)
    → IsParallel f
    → put_variable key value f ≡ ok g
    → IsParallel g
      × (get_variable name g ≡ (if same_name name key then ok value else get_variable name f))
unfolding get_variable
get-put_variable f g key value name parallel h =
    let (fresh, e, d) = put_variable-fresh f g key value h in
    (
      rw (e, d) (omega (arith, length-append f.vars (key ∷ []), length-append f.vals (value ∷ []))),
      rw (e, d) (find_var-append name key value f.vars f.vals parallel fresh),
    )
