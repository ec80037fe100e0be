-- ===== src/Dns/Lookup/Markers.antt =====
-- A statement whose marker has no value bound gives no rows, only the error of `Close`, which
-- `lookupActiveRecords` drops.
use kloudstack.Base.{ℕ, ◌≡◌, refl, ◌↔◌, Bool, true, false, ◌&&◌, List, [], ◌∷◌, ◌++◌, arith, any}
use kloudstack.Base.Text.{Text, lit, text_eq, split, join}
use kloudstack.Dns.Types.{
  RecordQuery, Condition, fqdn_is, type_is, type_in, Value, Session, type_cname,
}
use kloudstack.Dns.Lookup.{
  record_query, found, or_else, wildcard_records, from_second, lookup_active_records,
}

-- Whether the marker of a condition has a value.
abbrev pub is_bound : List (Text × Value) → Condition → Bool
is_bound binds (fqdn_is m) = any (λ b. text_eq b.0 m) binds
is_bound binds (type_is m) = any (λ b. text_eq b.0 m) binds
is_bound binds (type_in ts) = true

abbrev pub all_bound : List (Text × Value) → List Condition → Bool
all_bound binds [] = true
all_bound binds (c ∷ cs) = is_bound binds c && all_bound binds cs

-- What the driver documents: as many values must be bound as the statement has markers.
abbrev pub RefusesUnbound : Session → Type 0
RefusesUnbound db =
    (q : RecordQuery) → all_bound q.binds q.conditions ≡ false → (db.records q).0 ≡ []

-- Exactly the statements for CNAME leave a marker without a value.
pub record_query-bound :
    (fqdn : Text) (qtype : ℕ)
    → (all_bound (record_query fqdn qtype).binds (record_query fqdn qtype).conditions ≡ false)
      ↔ (qtype ≡ type_cname)
unfolding record_query text_eq
record_query-bound fqdn qtype = ((λ e. ground arith), (λ e. ground arith))

module _ (db : Session) (refuses : RefusesUnbound db) where
  found_cname : (name : Text) → found db name type_cname ≡ []
  unfolding found
  found_cname name =
      refuses (record_query name type_cname) ((record_query-bound name type_cname).1 refl)

  wildcard_records_cname : (labels : List Text) → wildcard_records db type_cname labels ≡ []
  unfolding wildcard_records
  wildcard_records_cname [] = refl
  wildcard_records_cname (l ∷ ls) =
      rw (found_cname (lit "*." ++ join b'.' (l ∷ ls))) (wildcard_records_cname ls)

  from_second_cname : (labels : List Text) → from_second db type_cname labels ≡ []
  unfolding from_second
  from_second_cname [] = refl
  from_second_cname (l ∷ ls) = wildcard_records_cname ls

  -- With a driver that refuses such statements no CNAME record is ever found by a lookup for
  -- CNAME, whatever the tables hold, and every other lookup goes straight to the name itself.
  pub lookup_active_records-cname :
      (fqdn : Text) (qtype : ℕ)
      → (lookup_active_records db fqdn type_cname ≡ [])
        × (lookup_active_records db fqdn qtype
            ≡ or_else (found db fqdn qtype) (from_second db qtype (split b'.' fqdn)))
  unfolding lookup_active_records
  lookup_active_records-cname fqdn qtype =
      (rw (found_cname fqdn, from_second_cname (split b'.' fqdn)) refl, rw (found_cname fqdn) refl)
