-- ===== src/Access/Keys.antt =====
-- The API keys of app/core/security.py. The random tokens and the HMAC are arguments; a key that does
-- not parse is none.
pub mod RoundTrip
use Prim.Native.Char.{Char, code}
use Prim.Native.String.{[], ◌∷◌}
use siem_sentinel_xv.Base.{
  Bool, true, false, not, ◌&&◌, ◌||◌, Option, none, some, String, ◌==◌, ◌=ₛ◌, if◌then◌else◌,
}
use siem_sentinel_xv.Text.{strip, starts_with, contains, drop_chars, ◌+ₛ◌}

-- s.replace(c, "")
unfoldable pub remove_char : Char → String → String
remove_char c [] = []
remove_char c (d ∷ s) = let rest = remove_char c s in if code d == code c then rest else d ∷ rest

-- s.split(c, 1), none where the character is not there
unfoldable pub cut_at : Char → String → Option (String × String)
cut_at c [] = none
cut_at c (d ∷ s) =
    let rest = cut_at c s in
    if code d == code c
    then some ("", s)
    else elim rest [ none ↦ none | some (left, right) ↦ some (d ∷ left, right) ]

-- `generate_api_key`, from two tokens: the key and its public id
unfoldable pub generate_api_key : String → String → String × String
unfolding ◌+ₛ◌
generate_api_key id_token secret =
    let public_id = remove_char "_" (remove_char "-" id_token) in
    ("sx_live" +ₛ "_" +ₛ public_id +ₛ "." +ₛ secret, public_id)

-- The two halves of a key, which has to have an id and a secret. `left.replace(prefix, "", 1)` takes
-- the prefix away that `left` starts with.
unfoldable pub halves : String → String → Option (String × String)
halves left secret =
    let public_id = strip (drop_chars 8 left) in
    if not (starts_with "sx_live_" left)
    then none
    else if public_id =ₛ "" || secret =ₛ ""
    then none
    else some (public_id, secret)

-- `parse_api_key`
unfoldable pub parse_api_key : String → Option (String × String)
parse_api_key key = elim (cut_at "." (strip key)) [
  | none ↦ none
  | some (left, secret) ↦ halves left secret
]

-- `hash_api_key`
unfoldable pub hash_api_key : (String → String) → String → Option String
hash_api_key hmac key = elim (parse_api_key key) [
  | none ↦ none
  | some (public_id, secret) ↦ some (hmac secret)
]

-- `verify_api_key`
unfoldable pub verify_api_key : (String → String) → String → String → Bool
verify_api_key hmac key stored = elim (parse_api_key key) [
  | none ↦ false
  | some (public_id, secret) ↦ hmac secret =ₛ stored
]
