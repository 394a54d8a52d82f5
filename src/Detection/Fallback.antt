-- ===== src/Detection/Fallback.antt =====
-- The mutual recursion of `get_canonical_field` and `_get_legacy_field_fallback` ends.
use siem_sentinel_xv.Base.{◌≡◌, refl, String, arith}
use siem_sentinel_xv.Value.{Value, null}
use siem_sentinel_xv.Detection.Fields.{canonical_step, legacy, get_canonical_field, resolve}

-- The names that a recursive call is made with.
abbrev Agree : (f g : String → Value) → Type 0
Agree f g =
    (f "event.outcome" ≡ g "event.outcome")
    × (f "service.name" ≡ g "service.name")
    × (f "source.ip" ≡ g "source.ip")
    × (f "user.name" ≡ g "user.name")
    × (f "host.name" ≡ g "host.name")
    × (f "url.path" ≡ g "url.path")
    × (f "http.status_code" ≡ g "http.status_code")
    × (f "source.geo_country_iso_code" ≡ g "source.geo_country_iso_code")
    × (f "source.as_number" ≡ g "source.as_number")
    × (f "customer.domain_name" ≡ g "customer.domain_name")

legacy-Agree : (f g : String → Value) (path : String) → Agree f g → legacy f path ≡ legacy g path
unfolding legacy
legacy-Agree f g path h = ground arith

step-Agree :
    (event : Value) (f g : String → Value) (path : String)
    → Agree f g
    → canonical_step event f path ≡ canonical_step event g path
unfolding canonical_step
step-Agree event f g path h = ground (arith, legacy-Agree f g path h)

-- A call with one of those names makes no further call.
Agree-step :
    (event : Value) (f g : String → Value) → Agree (canonical_step event f) (canonical_step event g)
unfolding canonical_step resolve
Agree-step event f g = (refl, refl, refl, refl, refl, refl, refl, refl, refl, refl)

-- However deep its recursive calls may go, `get_canonical_field` has the same result: the recursion
-- of the source ends.
pub get_canonical_field-depth :
    (event : Value) (field : String → Value) (path : String)
    → canonical_step event (canonical_step event field) path ≡ get_canonical_field event path
unfolding get_canonical_field
get_canonical_field-depth event field path =
    step-Agree event (canonical_step event field) (canonical_step event (λ _. null)) path
      (Agree-step event field (λ _. null))
