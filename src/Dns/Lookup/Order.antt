-- ===== src/Dns/Lookup/Order.antt =====
-- Names are looked up in one order, however they are written.
use kloudstack.Base.{
  ℕ, ◌≡◌, refl, ap, ◌≢◌, ◌⊎◌, inl, inr, true, Option, none, some, List, [], ◌∷◌, ◌++◌, All,
  Bool-cases,
}
use kloudstack.Base.Text.{Text, lit, has_suffix, to_lower, split, join}
use kloudstack.Base.Text.Laws.{to_lower_idem, to_lower-append, has_suffix-append}
use kloudstack.Base.Result.{Result, ok}
use kloudstack.Dns.Types.{Zone, Record, Session, type_cname}
use kloudstack.Dns.Lookup.{
  normalize_fqdn, found, wildcard_records, from_second, or_else, lookup_active_records,
  get_zone_by_id, zone_or, zone_of, find_active_zone,
}

-- A normalized name ends in a dot and has no upper-case letter, normalizing it again changes
-- nothing, and the case that a name is written in makes no difference.
pub normalize_fqdn-normal :
    (s : Text)
    → (has_suffix (normalize_fqdn s) (lit ".") ≡ true)
      × (to_lower (normalize_fqdn s) ≡ normalize_fqdn s)
      × (normalize_fqdn (normalize_fqdn s) ≡ normalize_fqdn s)
      × (normalize_fqdn (to_lower s) ≡ normalize_fqdn s)
unfolding normalize_fqdn
normalize_fqdn-normal s = elim (Bool-cases (has_suffix (to_lower s) (lit "."))) [
  | inl dot ↦ (
    rw (dot, dot),
    rw (dot, to_lower_idem s),
    rw (dot, to_lower_idem s, dot),
    rw (to_lower_idem s),
  )
  | inr bare ↦
      let low : to_lower (to_lower s ++ lit ".") ≡ to_lower s ++ lit "." =
        rw (to_lower-append, to_lower_idem s) (unfold to_lower in refl) in
      let dot = has_suffix-append (to_lower s) (lit ".") in
      (rw bare dot, rw bare low, rw bare (rw low (rw dot)), rw (to_lower_idem s))
]

-- The labels of every wildcard or zone, the longest first.
pub suffixes : List Text → List (List Text)
suffixes [] = []
suffixes (label ∷ labels) = (label ∷ labels) ∷ suffixes labels

abbrev rest_of : List Text → List Text
rest_of [] = []
rest_of (label ∷ labels) = labels

wildcards : ℕ → List (List Text) → List (Text × ℕ)
wildcards qtype [] = []
wildcards qtype (labels ∷ more) = (lit "*." ++ join b'.' labels, qtype) ∷ wildcards qtype more

-- What is looked up, in order: the name's CNAME, the name itself, and the wildcards over the
-- labels behind the first one, the longest first.
pub candidates : Text → ℕ → List (Text × ℕ)
unfolding suffixes wildcards
candidates fqdn qtype =
    (fqdn, type_cname) ∷ (fqdn, qtype) ∷ wildcards qtype (suffixes (rest_of (split b'.' fqdn)))

module _ (db : Session) where
  -- The records are those of the first candidate that has any; with none of them, there are none.
  abbrev pub IsFirstFound : List (Text × ℕ) → List Record → Type 0
  IsFirstFound cs rs =
      ((before : List (Text × ℕ)) × (c : Text × ℕ) × (rest : List (Text × ℕ)) × (cs
          ≡ before ++ (c ∷ rest))
        × All (λ d. found db d.0 d.1 ≡ []) before
        × (rs ≡ found db c.0 c.1)
        × (rs ≢ []))
      ⊎ ((rs ≡ []) × All (λ d. found db d.0 d.1 ≡ []) cs)

  IsFirstFound-cons :
      (c : Text × ℕ) (cs : List (Text × ℕ)) (rs : List Record)
      → IsFirstFound cs rs
      → (own : List Record) → found db c.0 c.1 ≡ own
      → IsFirstFound (c ∷ cs) (or_else own rs)
  unfolding or_else
  IsFirstFound-cons c cs rs h (r ∷ own) e = inl ([], c, cs, refl, tt, rw e, λ z. cc)
  IsFirstFound-cons c cs rs (inl (b, d, m, p, a, q, n)) [] e =
      inl (c ∷ b, d, m, ap (λ (l : List (Text × ℕ)). c ∷ l) p, (e, a), q, n)
  IsFirstFound-cons c cs rs (inr (z, a)) [] e = inr (z, (e, a))

  wildcard_records-first :
      (qtype : ℕ) (labels : List Text)
      → IsFirstFound (wildcards qtype (suffixes labels)) (wildcard_records db qtype labels)
  unfolding wildcards suffixes wildcard_records
  wildcard_records-first qtype [] = inr (refl, tt)
  wildcard_records-first qtype (label ∷ labels) =
      IsFirstFound-cons (lit "*." ++ join b'.' (label ∷ labels), qtype) _ _
        (wildcard_records-first qtype labels) _ refl

  -- The lookup gives the records of the first candidate that has any.
  pub lookup_active_records-first :
      (fqdn : Text) (qtype : ℕ)
      → IsFirstFound (candidates fqdn qtype) (lookup_active_records db fqdn qtype)
  unfolding candidates lookup_active_records
  lookup_active_records-first fqdn qtype =
      IsFirstFound-cons (fqdn, type_cname) _ _
        (IsFirstFound-cons (fqdn, qtype) _ _ (behind (split b'.' fqdn)) _ refl) _ refl
    where
      behind :
          (labels : List Text)
          → IsFirstFound (wildcards qtype (suffixes (rest_of labels))) (from_second db qtype labels)
      behind [] = inr (refl, tt)
      behind (label ∷ labels) = wildcard_records-first qtype labels

  -- The zone is that of the longest suffix of the name which is a domain of the table; with none
  -- of them, there is no zone and no error.
  abbrev pub IsFirstZone : List (List Text) → Result (Option Zone) → Type 0
  IsFirstZone ss r =
      ((before : List (List Text)) × (s : List Text) × (rest : List (List Text)) × (id : Text) × (ss
          ≡ before ++ (s ∷ rest))
        × All (λ t. db.zone_id (join b'.' t) ≡ none) before
        × (db.zone_id (join b'.' s) ≡ some id)
        × (r ≡ get_zone_by_id db id))
      ⊎ ((r ≡ ok none) × All (λ t. db.zone_id (join b'.' t) ≡ none) ss)

  IsFirstZone-cons :
      (s : List Text) (ss : List (List Text)) (r : Result (Option Zone))
      → IsFirstZone ss r
      → (o : Option Text) → db.zone_id (join b'.' s) ≡ o
      → IsFirstZone (s ∷ ss) (zone_or db o r)
  unfolding zone_or
  IsFirstZone-cons s ss r h (some id) e = inl ([], s, ss, id, refl, tt, e, refl)
  IsFirstZone-cons s ss r (inl (b, t, m, id, p, a, q, n)) none e =
      inl (s ∷ b, t, m, id, ap (λ (l : List (List Text)). s ∷ l) p, (e, a), q, n)
  IsFirstZone-cons s ss r (inr (z, a)) none e = inr (z, (e, a))

  zone_of-first : (labels : List Text) → IsFirstZone (suffixes labels) (zone_of db labels)
  unfolding suffixes zone_of
  zone_of-first [] = inr (refl, tt)
  zone_of-first (label ∷ labels) =
      IsFirstZone-cons (label ∷ labels) _ _ (zone_of-first labels) _ refl

  -- The zone that a name belongs to is found by its longest suffix in the table.
  pub find_active_zone-first :
      (fqdn : Text) → IsFirstZone (suffixes (split b'.' fqdn)) (find_active_zone db fqdn)
  unfolding find_active_zone
  find_active_zone-first fqdn = zone_of-first (split b'.' fqdn)
