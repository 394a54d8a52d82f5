-- ===== src/Text.antt =====
-- Python's `str` methods as the program uses them, over texts of ASCII characters.
use Prim.Native.Char.{Char, code}
use Prim.Native.String.{[], ◌∷◌, count}
use siem_sentinel_xv.Base.{
  ◌≡◌, refl, ℕ, zero, suc, ◌-◌, ◌/◌, ◌%◌, String, Bool, true, false, ◌&&◌, ◌||◌, List, ltb, leb,
  ◌==◌, ◌=ₛ◌, if◌then◌else◌,
}

-- Each character of the first text is replaced by its partner in the second.
unfoldable pub translate_char : String → String → Char → Char
translate_char (a ∷ xs) (b ∷ ys) c = if code c == code a then b else translate_char xs ys c
translate_char _ _ c = c

unfoldable pub map_chars : (Char → Char) → String → String
map_chars f [] = []
map_chars f (c ∷ s) = f c ∷ map_chars f s

abbrev pub uppercase : String
uppercase = "ABCDEFGHIJKLMNOPQRSTUVWXYZ"

abbrev pub lowercase : String
lowercase = "abcdefghijklmnopqrstuvwxyz"

-- s.lower()
unfoldable pub lower : String → String
unfolding map_chars translate_char
lower s = map_chars (translate_char uppercase lowercase) s

-- s.upper()
unfoldable pub upper : String → String
unfolding map_chars translate_char
upper s = map_chars (translate_char lowercase uppercase) s

abbrev pub is_space : Char → Bool
is_space c =
    code c == 32 || (leb 9 (code c) && leb (code c) 13) || (leb 28 (code c) && leb (code c) 31)

unfoldable pub lstrip : String → String
lstrip [] = []
lstrip (c ∷ s) = let rest = lstrip s in if is_space c then rest else c ∷ s

unfoldable pub rstrip : String → String
rstrip [] = []
rstrip (c ∷ s) = let rest = rstrip s in if is_space c && rest =ₛ "" then "" else c ∷ rest

-- s.strip()
unfoldable pub strip : String → String
unfolding lstrip rstrip
strip s = rstrip (lstrip s)

infixr 65 ◌+ₛ◌
-- s + t
unfoldable pub ◌+ₛ◌ : String → String → String
[] +ₛ t = t
(c ∷ s) +ₛ t = c ∷ (s +ₛ t)

-- s.startswith(p), the prefix first
unfoldable pub starts_with : String → String → Bool
starts_with [] s = true
starts_with (c ∷ p) [] = false
starts_with (c ∷ p) (d ∷ s) = code c == code d && starts_with p s

-- `needle in hay`
unfoldable pub contains : String → String → Bool
unfolding starts_with
contains needle [] = needle =ₛ ""
contains needle (c ∷ s) = starts_with needle (c ∷ s) || contains needle s

-- s[n:] for a text
unfoldable pub drop_chars : ℕ → String → String
drop_chars zero s = s
drop_chars (suc n) [] = []
drop_chars (suc n) (c ∷ s) = drop_chars n s

-- s[:n] for a text
unfoldable pub take_chars : ℕ → String → String
take_chars zero s = []
take_chars (suc n) [] = []
take_chars (suc n) (c ∷ s) = c ∷ take_chars n s

-- s.split(sep), for a separator of one character
unfoldable pub split_from : Char → String → String → List String
unfolding ◌+ₛ◌
split_from sep cur [] = List.◌∷◌ cur List.[]
split_from sep cur (c ∷ s) =
    let cut = split_from sep "" s in
    let on = split_from sep (cur +ₛ (c ∷ "")) s in
    if code c == code sep then List.◌∷◌ cur cut else on

unfoldable pub split : Char → String → List String
unfolding split_from
split sep s = split_from sep "" s

-- sep.join(parts)
unfoldable pub join : String → List String → String
unfolding ◌+ₛ◌
join sep List.[] = ""
join sep (List.◌∷◌ x List.[]) = x
join sep (List.◌∷◌ x (List.◌∷◌ y ys)) = x +ₛ sep +ₛ join sep (List.◌∷◌ y ys)

unfoldable pub replace_char : Char → Char → String → String
unfolding map_chars
replace_char a b s = map_chars (λ c. if code c == code a then b else c) s

-- str(n) for a natural number, least digit last
unfoldable pub digit : ℕ → String → Char
digit zero (c ∷ s) = c
digit (suc n) (c ∷ s) = digit n s
digit n [] = "?"

unfoldable pub decimal_from : ℕ → ℕ → String → String
unfolding digit
decimal_from zero n acc = acc
decimal_from (suc fuel) n acc =
    let acc' = digit (n % 10) "0123456789" ∷ acc in
    let rest = decimal_from fuel (n / 10) acc' in if ltb n 10 then acc' else rest

-- A number has at most as many digits as its value plus one.
unfoldable pub decimal : ℕ → String
unfolding decimal_from
decimal n = decimal_from (suc n) n ""

-- A fraction's six digits, with its leading zeros.
unfoldable pub pad : ℕ → String → String
unfolding ◌+ₛ◌
pad zero s = s
pad (suc n) s = "0" +ₛ pad n s

unfoldable pub pad6 : String → String
unfolding pad
pad6 s = pad (6 - count s) s

-- Trailing zeros are dropped, but for one digit.
unfoldable pub rstrip_zeros : String → String
rstrip_zeros [] = []
rstrip_zeros (c ∷ s) =
    let rest = rstrip_zeros s in
    if (rest =ₛ "" || rest =ₛ "0") && code c == 48
    then "0"
    else if rest =ₛ "0"
    then c ∷ ""
    else c ∷ rest

-- Escapes the backslash and the given quote.
unfoldable pub replace_quotes : String → String → String
unfolding ◌+ₛ◌
replace_quotes q [] = []
replace_quotes q (c ∷ s) =
    (if code c == 92 || (c ∷ "") =ₛ q then "\\" +ₛ (c ∷ "") else c ∷ "") +ₛ replace_quotes q s

lower-strip : lower (strip "  SSHd \t") ≡ "sshd"
unfolding lower strip
lower-strip = refl

join-split : join "|" (split "." "a.bc..d") ≡ "a|bc||d"
unfolding join split
join-split = refl

decimal_runs : decimal 4096 ≡ "4096"
unfolding decimal
decimal_runs = refl

contains_runs : contains "lo w" "hello world" ≡ true
unfolding contains
contains_runs = refl
