-- ===== src/Http/Examples.antt =====
-- Tests of the model of Http.cpp.
use easygametools.Base.{◌≡◌, refl, [], ◌∷◌, ◌++◌, arith}
use easygametools.Base.Int.{pos}
use easygametools.Base.Text.{codes}
use easygametools.Base.Decimal.{itoa}
use easygametools.Base.Outcome.{ok, err, unterminated}
use easygametools.Http.{get_status, get_data, find_data, after_first, get_status-itoa}

get_status-itoa_example :
    get_status (codes "HTTP/1.1 " ++ (itoa 404 ++ codes " Not Found")) ≡ pos 404
get_status-itoa_example = get_status-itoa 404 (codes " Not Found") (omega arith) refl

other_version : get_status (codes "HTTP/1.0 200 OK") ≡ pos 500
unfolding get_status
other_version = refl

body_after_blank_line : get_data (97 ∷ 13 ∷ 10 ∷ 13 ∷ 10 ∷ 98 ∷ []) ≡ ok (98 ∷ [])
unfolding get_data find_data after_first
body_after_blank_line = refl

-- A response without a blank line.
no_blank_line : get_data (codes "HTTP/1.1 200 OK") ≡ err unterminated
unfolding get_data find_data after_first
no_blank_line = refl
