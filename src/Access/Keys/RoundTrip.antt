-- ===== src/Access/Keys/RoundTrip.antt =====
-- A key that app/core/security.py makes is read back.
use Prim.Native.Char.{Char, code}
use Prim.Native.String.{[], ◌∷◌}
use siem_sentinel_xv.Base.{
  ◌≡◌, ◌≢◌, refl, ◌∙◌, Bool, true, not, ◌&&◌, ◌||◌, some, String, ◌==◌, leb, arith, eq_iff,
}
use siem_sentinel_xv.Text.{strip, lstrip, rstrip, starts_with, drop_chars, is_space, ◌+ₛ◌}
use siem_sentinel_xv.Access.Keys.{remove_char, cut_at, generate_api_key, halves, parse_api_key}

-- The characters of a base64 token for URLs.
abbrev pub is_urlsafe : Char → Bool
is_urlsafe c =
    (leb 48 (code c) && leb (code c) 57)
    || (leb 65 (code c) && leb (code c) 90)
    || (leb 97 (code c) && leb (code c) 122)
    || code c == 45
    || code c == 95

abbrev pub all_chars : (Char → Bool) → String → Bool
all_chars p [] = true
all_chars p (c ∷ s) = p c && all_chars p s

-- No character is a blank, and none is a point.
abbrev is_dark : Char → Bool
is_dark c = not (is_space c)

abbrev is_token : Char → Bool
is_token c = not (is_space c) && not (code c == 46)

urlsafe-token : (s : String) → all_chars is_urlsafe s ≡ true → all_chars is_token s ≡ true
urlsafe-token [] h = refl
urlsafe-token (c ∷ s) h = ground (arith, urlsafe-token s)

token-dark : (s : String) → all_chars is_token s ≡ true → all_chars is_dark s ≡ true
token-dark [] h = refl
token-dark (c ∷ s) h = ground (arith, token-dark s)

remove_char-token :
    (c : Char) (s : String)
    → all_chars is_token s ≡ true
    → all_chars is_token (remove_char c s) ≡ true
unfolding remove_char
remove_char-token c [] h = refl
remove_char-token c (d ∷ s) h = ground (arith, remove_char-token c s)

rstrip-dark : (s : String) → all_chars is_dark s ≡ true → rstrip s ≡ s
unfolding rstrip
rstrip-dark [] h = refl
rstrip-dark (c ∷ s) h = ground (arith, rstrip-dark s)

lstrip-dark : (s : String) → all_chars is_dark s ≡ true → lstrip s ≡ s
unfolding lstrip
lstrip-dark [] h = refl
lstrip-dark (c ∷ s) h = ground arith

-- A text with no blanks is what `strip` leaves of it.
pub strip-dark : (s : String) → all_chars is_dark s ≡ true → strip s ≡ s
unfolding strip
strip-dark s h = rw (lstrip-dark s h) (rstrip-dark s h)

all_chars-append :
    (p : Char → Bool) (s t : String)
    → all_chars p s ≡ true
    → all_chars p t ≡ true
    → all_chars p (s +ₛ t) ≡ true
unfolding ◌+ₛ◌
all_chars-append p [] t h k = k
all_chars-append p (c ∷ s) t h k = ground (arith, all_chars-append p s t)

cut_at-append :
    (s t : String) → all_chars is_token s ≡ true → cut_at "." (s +ₛ "." +ₛ t) ≡ some (s, t)
unfolding cut_at ◌+ₛ◌
cut_at-append [] t h = refl
cut_at-append (c ∷ s) t h = ground (arith, cut_at-append s t)

-- A key's left half, with its secret, gives the id back.
halves-key :
    (public_id secret : String)
    → all_chars is_dark public_id ≡ true
    → public_id ≢ ""
    → secret ≢ ""
    → halves ("sx_live_" +ₛ public_id) secret ≡ some (public_id, secret)
unfolding halves ◌+ₛ◌ starts_with drop_chars
halves-key public_id secret d h k =
    rw (strip-dark public_id d) (ground (arith, eq_iff public_id "", eq_iff secret ""))

parse_api_key-eq-halves :
    (key left secret : String)
    → strip key ≡ key
    → cut_at "." key ≡ some (left, secret)
    → parse_api_key key ≡ halves left secret
unfolding parse_api_key
parse_api_key-eq-halves key left secret e f = rw (e, parse_api_key) (rw (f, parse_api_key) refl)

-- A key that is made of tokens of characters safe in URLs, of which the one for the id has more than
-- dashes and underscores and the secret is not empty, parses to its public id and its secret.
pub parse_api_key-generate_api_key :
    (id_token secret : String)
    → all_chars is_urlsafe id_token ≡ true
    → all_chars is_urlsafe secret ≡ true
    → (generate_api_key id_token secret).1 ≢ ""
    → secret ≢ ""
    → parse_api_key (generate_api_key id_token secret).0
      ≡ some ((generate_api_key id_token secret).1, secret)
unfolding generate_api_key parse_api_key
parse_api_key-generate_api_key id_token secret h k n m =
    let public_id = remove_char "_" (remove_char "-" id_token) in
    let token : all_chars is_token public_id ≡ true =
      remove_char-token "_" (remove_char "-" id_token)
        (remove_char-token "-" id_token (urlsafe-token id_token h)) in
    let left : all_chars is_token ("sx_live_" +ₛ public_id) ≡ true =
      all_chars-append is_token "sx_live_" public_id refl token in
    let whole : all_chars is_dark ("sx_live_" +ₛ public_id +ₛ "." +ₛ secret) ≡ true =
      all_chars-append is_dark ("sx_live_" +ₛ public_id) ("." +ₛ secret)
        (token-dark ("sx_live_" +ₛ public_id) left) (token-dark secret (urlsafe-token secret k)) in
    parse_api_key-eq-halves _ ("sx_live_" +ₛ public_id) secret (strip-dark _ whole)
      (cut_at-append ("sx_live_" +ₛ public_id) secret left)
    ∙ halves-key public_id secret (token-dark public_id token) n m
