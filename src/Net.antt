-- ===== src/Net.antt =====
-- The standard library's `ipaddress`, for IPv4: reading and printing an address, and the network
-- that holds it; and `_ip_subnet` of app/services/detection_core.py, which is built on them.
use Prim.Native.Char.{Char, code}
use Prim.Native.String.{[], ◌∷◌, count}
use siem_sentinel_xv.Base.{
  ℕ, zero, suc, ◌+◌, ◌-◌, ◌*◌, ◌/◌, ◌%◌, ◌^◌, ◌≡◌, refl, Bool, ◌&&◌, ◌||◌, Option, none, some, List,
  String, ltb, leb, ◌=ₛ◌, if◌then◌else◌,
}
use siem_sentinel_xv.Text.{split, decimal, ◌+ₛ◌, starts_with}

abbrev pub is_digit : Char → Bool
is_digit c = leb 48 (code c) && leb (code c) 57

unfoldable pub number_from : ℕ → String → Option ℕ
number_from n [] = some n
number_from n (c ∷ s) =
    let rest = number_from (n * 10 + (code c - 48)) s in if is_digit c then rest else none

-- An octet has one to three digits, no leading zero, and is at most 255.
unfoldable pub octet : String → Option ℕ
unfolding number_from starts_with
octet s =
    if s =ₛ "" || ltb 3 (count s) || (starts_with "0" s && ltb 1 (count s))
    then none
    else elim (number_from 0 s) [ none ↦ none | some n ↦ if ltb 255 n then none else some n ]

-- The value of a dotted address, most significant octet first.
unfoldable pub octets_from : ℕ → List String → Option ℕ
unfolding octet
octets_from n List.[] = some n
octets_from n (List.◌∷◌ s ss) = elim (octet s) [
  | none ↦ none
  | some o ↦ octets_from (n * 256 + o) ss
]

abbrev list_length : List String → ℕ
list_length List.[] = 0
list_length (List.◌∷◌ s ss) = suc (list_length ss)

-- ipaddress.IPv4Address(s): the address as a number, `none` where it raises
unfoldable pub parse_v4 : String → Option ℕ
unfolding octets_from split
parse_v4 s =
    let parts = split "." s in
    elim (list_length parts) [ suc (suc (suc (suc zero))) ↦ octets_from 0 parts | _ ↦ none ]

-- str(address)
unfoldable pub show_v4 : ℕ → String
unfolding decimal ◌+ₛ◌
show_v4 a =
    decimal (a / 16777216 % 256)
    +ₛ "."
    +ₛ decimal (a / 65536 % 256)
    +ₛ "."
    +ₛ decimal (a / 256 % 256)
    +ₛ "."
    +ₛ decimal (a % 256)

-- ip_network(f"{a}/{prefix}", strict=False).network_address
unfoldable pub network_address : ℕ → ℕ → ℕ
network_address a prefix = a / 2 ^ (32 - prefix) * 2 ^ (32 - prefix)

-- `_ip_subnet`: an IPv6 address and a text that is no address both give None
unfoldable pub ip_subnet : String → ℕ → Option String
unfolding parse_v4 show_v4 network_address decimal ◌+ₛ◌
ip_subnet ip prefix = if ip =ₛ "" then none else elim (parse_v4 ip) [
  | none ↦ none
  | some a ↦ some (show_v4 (network_address a prefix) +ₛ "/" +ₛ decimal prefix)
]

subnet_runs : ip_subnet "192.168.77.9" 24 ≡ some "192.168.77.0/24"
unfolding ip_subnet
subnet_runs = refl

subnet_none : ip_subnet "192.168.077.9" 24 ≡ none
unfolding ip_subnet
subnet_none = refl
