-- ===== src/Dns/Lookup.antt =====
-- The lookups of pkg/daemons/dns/query.go.
pub mod Order
pub mod Markers
use kloudstack.Base.{
  ℕ, Bool, true, false, ◌||◌, Option, none, some, List, [], ◌∷◌, ◌++◌, ◌==◌, if◌then◌else◌,
}
use kloudstack.Base.Text.{Text, lit, has_suffix, to_lower, split, join}
use kloudstack.Base.Result.{Result, ok, err, Error}
use kloudstack.Dns.Types.{
  Zone, Record, RecordQuery, Condition, fqdn_is, type_is, type_in, Value, text, number, Session,
  type_a, type_aaaa, type_cname,
}

-- `normalizeFQDN`
unfoldable pub normalize_fqdn : Text → Text
normalize_fqdn name =
    let lower = to_lower name in if has_suffix lower (lit ".") then lower else lower ++ lit "."

-- The statement and the values bound to it, which are chosen by two different tests.
unfoldable pub record_query : Text → ℕ → RecordQuery
record_query fqdn qtype = record {
  conditions =
      fqdn_is (lit ":fqdn")
      ∷ (if qtype == type_a || qtype == type_aaaa
          then type_in (type_a ∷ type_aaaa ∷ type_cname ∷ [])
          else type_is (lit ":type"))
      ∷ [];
  binds =
      if qtype == type_a || (qtype == type_aaaa || qtype == type_cname)
      then (lit ":fqdn", text fqdn) ∷ []
      else (lit ":fqdn", text fqdn) ∷ (lit ":type", number qtype) ∷ [];
}

-- The second records if there are none of the first.
pub or_else : List Record → List Record → List Record
or_else [] rest = rest
or_else (r ∷ rs) rest = r ∷ rs

module _ (db : Session) where
  -- `queryActiveRecords`
  unfoldable pub query_active_records : Text → ℕ → List Record × Option Error
  query_active_records fqdn qtype = db.records (record_query fqdn qtype)

  -- Its callers drop the error.
  pub found : Text → ℕ → List Record
  unfolding query_active_records
  found fqdn qtype = (query_active_records fqdn qtype).0

  -- The first wildcard over these labels, or over fewer of them, that has records.
  pub wildcard_records : ℕ → List Text → List Record
  unfolding found or_else
  wildcard_records qtype [] = []
  wildcard_records qtype (label ∷ labels) =
      let rest = wildcard_records qtype labels in
      or_else (found (lit "*." ++ join b'.' (label ∷ labels)) qtype) rest

  -- The loop from the second label on.
  pub from_second : ℕ → List Text → List Record
  unfolding wildcard_records
  from_second qtype [] = []
  from_second qtype (label ∷ labels) = wildcard_records qtype labels

  -- `lookupActiveRecords`; its error is always nil.
  unfoldable pub lookup_active_records : Text → ℕ → List Record
  unfolding found or_else from_second
  lookup_active_records fqdn qtype =
      or_else (found fqdn type_cname)
        (or_else (found fqdn qtype) (from_second qtype (split b'.' fqdn)))

  closed : Option Zone × Option Error → Result (Option Zone)
  closed (none, _) = ok none
  closed (some zone, none) = ok (some zone)
  closed (some zone, some e) = err e

  -- `getZoneByID`
  unfoldable pub get_zone_by_id : Text → Result (Option Zone)
  unfolding closed
  get_zone_by_id id = closed (db.zone_by_id id)

  zone_or : Option Text → Result (Option Zone) → Result (Option Zone)
  unfolding get_zone_by_id
  zone_or none rest = rest
  zone_or (some id) rest = get_zone_by_id id

  zone_of : List Text → Result (Option Zone)
  unfolding zone_or
  zone_of [] = ok none
  zone_of (label ∷ labels) =
      let rest = zone_of labels in zone_or (db.zone_id (join b'.' (label ∷ labels))) rest

  -- `findActiveZone`
  unfoldable pub find_active_zone : Text → Result (Option Zone)
  unfolding zone_of
  find_active_zone fqdn = zone_of (split b'.' fqdn)
