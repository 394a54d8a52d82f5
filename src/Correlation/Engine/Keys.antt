-- ===== src/Correlation/Engine/Keys.antt =====
-- The keys of the windows in the key-value store.
use Prim.Native.Char.{Char}
use Prim.Native.String.{[], ◌∷◌}
use siem_sentinel_xv.Base.{◌≡◌, refl, ap, String, arith}
use siem_sentinel_xv.Text.{map_chars, replace_char, ◌+ₛ◌}
use siem_sentinel_xv.Correlation.Engine.{Key, raw_key}

map_chars-append :
    (f : Char → Char) (s t : String) → map_chars f (s +ₛ t) ≡ map_chars f s +ₛ map_chars f t
unfolding map_chars ◌+ₛ◌
map_chars-append f [] t = refl
map_chars-append f (c ∷ s) t = ap (◌∷◌ (f c)) (map_chars-append f s t)

-- What the store's keys make of a text.
pub sanitize : String → String
sanitize s = replace_char " " "_" (replace_char "/" "_" s)

sanitize-append : (s t : String) → sanitize (s +ₛ t) ≡ sanitize s +ₛ sanitize t
unfolding sanitize replace_char
sanitize-append s t = simp map_chars-append

sanitize-sanitize : (s : String) → sanitize (sanitize s) ≡ sanitize s
unfolding sanitize replace_char map_chars
sanitize-sanitize [] = refl
sanitize-sanitize (c ∷ s) = ground (arith, sanitize-sanitize s)

raw_key_lem : (k : Key) → raw_key k ≡ sanitize (k.tenant +ₛ "." +ₛ k.rule +ₛ "." +ₛ k.group)
unfolding raw_key sanitize
raw_key_lem k = refl

-- The part of a key is the same before and after its slashes and spaces are replaced.
abbrev pub sanitize_key : Key → Key
sanitize_key k = record {
  tenant = sanitize k.tenant;
  rule = sanitize k.rule;
  group = sanitize k.group;
}

-- The store tells no two keys apart that differ only in where one has a slash or a space and the other
-- an underscore: the windows of such groups, rules and tenants are one window.
pub raw_key-sanitize : (k : Key) → raw_key (sanitize_key k) ≡ raw_key k
raw_key-sanitize k = simp (raw_key_lem, sanitize-append, sanitize-sanitize)
