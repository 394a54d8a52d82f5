-- ===== src/Normalize/Country.antt =====
-- What the conversion of app/parsing/types.py promises of countries.
use siem_sentinel_xv.Base.{
  ℤ, ◌≡◌, ◌≢◌, refl, sym, ap, ◌∙◌, true, false, Option, none, some, String, Bool-cases, inl, inr,
  some_inj, subst,
}
use siem_sentinel_xv.Value.{Value, str, null, Fields, is_str}
use siem_sentinel_xv.Normalize.{
  ParsedEvent, Draft, is_private, country_code, geo_country_iso, draft_of, if_read,
  to_normalized_event,
}

-- A country that may be shown: no mark of a private or an unknown address.
abbrev pub IsCountry : Value → Type 0
IsCountry v = (v ≢ str "PRV") × (v ≢ str "UNK")

null-IsCountry : IsCountry null
null-IsCountry = ((λ e. cc), λ e. cc)

unmarked : (v : Value) → is_str "PRV" v ≡ false → is_str "UNK" v ≡ false → IsCountry v
unmarked v p u = ((λ e. cc (rw e at p)), λ e. cc (rw e at u))

geo_country_iso-IsCountry : (extra : Fields) → IsCountry (geo_country_iso extra)
unfolding geo_country_iso
geo_country_iso-IsCountry extra = elim (Bool-cases (is_private extra)) [
  | inl y ↦ rw (y, geo_country_iso) null-IsCountry
  | inr n ↦ elim (Bool-cases (is_str "PRV" (country_code extra))) [
    | inl y ↦ rw (n, y) null-IsCountry
    | inr p ↦ elim (Bool-cases (is_str "UNK" (country_code extra))) [
      | inl y ↦ rw (n, p, y) null-IsCountry
      | inr u ↦ rw (n, p, u) (unmarked (country_code extra) p u)
    ]
  ]
]

geo_country_iso_private : (extra : Fields) → is_private extra ≡ true → geo_country_iso extra ≡ null
unfolding geo_country_iso
geo_country_iso_private extra h = rw h refl

if_read_found :
    (pe : ParsedEvent) (tenant_id : String) (metric : Option Fields) (severity : Option ℤ)
    (d : Draft)
    → if_read pe tenant_id metric severity ≡ some d
    → (d.source_country ≡ geo_country_iso pe.extra)
      × (d.tenant_id ≡ tenant_id)
      × (d.event_original ≡ pe.message)
unfolding draft_of
if_read_found pe tenant_id none severity d h = cc
if_read_found pe tenant_id (some metric) none d h = cc
if_read_found pe tenant_id (some metric) (some severity) d h =
    let e = some_inj h in
    (
      sym (ap (λ x. x.source_country) e),
      sym (ap (λ x. x.tenant_id) e),
      sym (ap (λ x. x.event_original) e),
    )

-- The canonical event is of the tenant that it is made for and keeps the line's message; its country is
-- none of the marks for a private or an unknown address, and an event from a private address has none.
pub to_normalized_event-IsCountry :
    (pe : ParsedEvent) (tenant_id : String) (d : Draft)
    → to_normalized_event pe tenant_id ≡ some d
    → (d.tenant_id ≡ tenant_id)
      × (d.event_original ≡ pe.message)
      × IsCountry d.source_country
      × (is_private pe.extra ≡ true → d.source_country ≡ null)
unfolding to_normalized_event
to_normalized_event-IsCountry pe tenant_id d h =
    let (c, t, m) = if_read_found pe tenant_id _ _ d h in
    (
      t,
      m,
      subst IsCountry (sym c) (geo_country_iso-IsCountry pe.extra),
      λ p. c ∙ geo_country_iso_private pe.extra p,
    )
