-- ===== src/Number.antt =====
-- Python's `int(v)` and `float(v)` on the values of a document; `none` where the call raises. A float
-- is counted in millionths, further digits are dropped. A text with an exponent or an underscore, an
-- infinity and a nan are not read.
use Prim.Native.Char.{code}
use Prim.Native.String.{[], ◌∷◌}
use siem_sentinel_xv.Base.{
  ℕ, suc, ◌+◌, ◌-◌, ◌*◌, ◌/◌, ◌^◌, ◌≡◌, refl, Bool, true, false, not, ◌&&◌, ◌||◌, Option, none,
  some, String, ◌==◌, ◌=ₛ◌, if◌then◌else◌, ℤ, pos, negsuc, sub_ℕ,
}
use siem_sentinel_xv.Text.{strip, starts_with, drop_chars}
use siem_sentinel_xv.Value.{Value, bool, int, float, str, millionths}
use siem_sentinel_xv.Net.{is_digit, number_from}

-- The digits after the point, six at most, as millionths.
unfoldable pub fraction : ℕ → ℕ → String → Option ℕ
fraction n k [] = some n
fraction n k (c ∷ s) =
    let more = fraction (n + (code c - 48) * (10 ^ k / 10)) (k - 1) s in
    if is_digit c then more else none

-- The digits before the point, then those after it; one digit at least.
unfoldable pub decimal_number : Bool → ℕ → String → Option ℕ
unfolding fraction
decimal_number seen n [] = if seen then some (n * 1000000) else none
decimal_number seen n (c ∷ s) =
    let more = decimal_number true (n * 10 + (code c - 48)) s in
    let last = fraction (n * 1000000) 6 s in
    if is_digit c then more else if code c == 46 && (seen || not (s =ₛ "")) then last else none

-- A sign, then what is read of the rest.
unfoldable pub signed : (String → Option ℕ) → String → Option ℤ
unfolding starts_with drop_chars
signed read s =
    if starts_with "-" s
    then elim (read (drop_chars 1 s)) [ none ↦ none | some n ↦ some (sub_ℕ 0 n) ]
    else elim (read (if starts_with "+" s then drop_chars 1 s else s)) [
      | none ↦ none
      | some n ↦ some (pos n)
    ]

-- float(s)
unfoldable pub float_of_text : String → Option ℤ
unfolding signed decimal_number strip
float_of_text s = signed (decimal_number false 0) (strip s)

-- int(s)
unfoldable pub int_of_text : String → Option ℤ
unfolding signed number_from strip
int_of_text s = signed (λ t. if t =ₛ "" then none else number_from 0 t) (strip s)

-- float(v)
unfoldable pub float_of : Value → Option ℤ
unfolding float_of_text millionths
float_of (str s) = float_of_text s
float_of v = millionths v

-- int(v)
unfoldable pub int_of : Value → Option ℤ
unfolding int_of_text
int_of (int n) = some n
int_of (bool b) = some (pos (if b then 1 else 0))
int_of (float (pos x)) = some (pos (x / 1000000))
int_of (float (negsuc x)) = some (sub_ℕ 0 (suc x / 1000000))
int_of (str s) = int_of_text s
int_of _ = none

float_runs : float_of_text " -92.5 " ≡ some (negsuc 92499999)
unfolding float_of_text
float_runs = refl

int_runs : int_of_text "404" ≡ some (pos 404)
unfolding int_of_text
int_runs = refl

float_point : float_of_text "." ≡ none
unfolding float_of_text
float_point = refl
