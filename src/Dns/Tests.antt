-- ===== src/Dns/Tests.antt =====
-- Lookups and queries over a small table, with a driver that refuses a statement with an unbound
-- marker.
use kloudstack.Base.{
  ℕ, ◌≡◌, refl, Bool, true, false, ◌&&◌, Option, none, some, List, [], ◌∷◌, ◌++◌, ◌==◌, filter,
  if◌then◌else◌,
}
use kloudstack.Base.Text.{Text, lit, text_eq, split, join, to_lower, has_suffix}
use kloudstack.Base.Result.{ok, Error, failure}
use kloudstack.Dns.Types.{
  Zone, Record, RecordQuery, Condition, fqdn_is, type_is, type_in, Value, text, number, Session,
  Question, Msg, Config, Wire, type_a, type_cname,
}
use kloudstack.Dns.Lookup.{
  normalize_fqdn, record_query, query_active_records, found, or_else, from_second,
  lookup_active_records, find_active_zone,
}
use kloudstack.Dns.Lookup.Order.{
  candidates, suffixes, IsFirstFound, IsFirstZone, lookup_active_records-first,
  find_active_zone-first,
}
use kloudstack.Dns.Lookup.Markers.{all_bound, RefusesUnbound, lookup_active_records-cname}
use kloudstack.Dns.Answer.{append_answers, answer_question, new_response, query, get_default_soa}
use kloudstack.Dns.Answer.Response.{answers_of, append_answers-answers_of}
use kloudstack.Dns.Answer.Outcome.{Outcome, answer_question-Outcome, query-header}

bound_text : Text → List (Text × Value) → Text
bound_text m [] = []
bound_text m ((name, text t) ∷ binds) = if text_eq name m then t else bound_text m binds
bound_text m ((name, number n) ∷ binds) = bound_text m binds

bound_number : Text → List (Text × Value) → ℕ
bound_number m [] = 0
bound_number m ((name, text t) ∷ binds) = bound_number m binds
bound_number m ((name, number n) ∷ binds) = if text_eq name m then n else bound_number m binds

one_of : ℕ → List ℕ → Bool
one_of n [] = false
one_of n (t ∷ ts) = if n == t then true else one_of n ts

selected : List (Text × Value) → List Condition → Record → Bool
unfolding bound_text bound_number one_of
selected binds [] r = true
selected binds (fqdn_is m ∷ cs) r = text_eq r.fqdn (bound_text m binds) && selected binds cs r
selected binds (type_is m ∷ cs) r = (r.kind == bound_number m binds) && selected binds cs r
selected binds (type_in ts ∷ cs) r = one_of r.kind ts && selected binds cs r

rows : List Record → RecordQuery → Bool → List Record × Option Error
unfolding selected
rows table q true = (filter (selected q.binds q.conditions) table, none)
rows table q false = ([], some (failure (lit "missing value")))

abbrev row : Text → ℕ → Text → Record
row fqdn kind content = record {
  id = [];
  zone_id = [];
  fqdn = fqdn;
  kind = kind;
  content = content;
  ttl = 300;
}

abbrev table : List Record
table = row (lit "a.b.") 1 (lit "10.0.0.1") ∷ row (lit "*.b.") 5 (lit "a.b.") ∷ []

abbrev zone : Zone
zone = record {
  id = lit "z";
  domain = lit "b.";
  namespace = lit "12";
  ns_primary = lit "ns.b.";
  hostmaster = lit "h.b.";
  serial = 1;
  refresh = 2;
  retry = 3;
  expire = 4;
  minttl = 5;
  soa_ttl = 6;
  status = [];
}

db : Session
unfolding rows
db = record {
  records = λ q. rows table q (all_bound q.binds q.conditions);
  zone_id = λ domain. if text_eq domain (lit "b.") then some (lit "z") else none;
  zone_by_id = λ id. (some zone, none);
}

db-RefusesUnbound : RefusesUnbound db
unfolding db rows
db-RefusesUnbound q e = rw e refl

abbrev config : Config
config = record { m_name = lit "ns."; r_name = lit "h."; now = 1700000000 }

lookup_active_records-first_example :
    IsFirstFound db (candidates (lit "x.b.") type_a) (lookup_active_records db (lit "x.b.") type_a)
lookup_active_records-first_example = lookup_active_records-first db (lit "x.b.") type_a

find_active_zone-first_example :
    IsFirstZone db (suffixes (split b'.' (lit "x.b."))) (find_active_zone db (lit "x.b."))
find_active_zone-first_example = find_active_zone-first db (lit "x.b.")

lookup_active_records-cname_example :
    (lookup_active_records db (lit "x.b.") type_cname ≡ [])
    × (lookup_active_records db (lit "x.b.") type_a
        ≡ or_else (found db (lit "x.b.") type_a) (from_second db type_a (split b'.' (lit "x.b."))))
lookup_active_records-cname_example =
    lookup_active_records-cname db db-RefusesUnbound (lit "x.b.") type_a

append_answers-answers_of_example :
    append_answers db config (row (lit "*.b.") 5 (lit "a.b.") ∷ []) type_a []
    ≡ [] ++ answers_of db config type_a (row (lit "*.b.") 5 (lit "a.b.") ∷ [])
append_answers-answers_of_example =
    append_answers-answers_of db config (row (lit "*.b.") 5 (lit "a.b.") ∷ []) type_a []

abbrev asked : Question
asked = record { name = lit "c"; kind = 16 }

abbrev message : Msg
message = record {
  id = 7;
  opcode = 0;
  response = false;
  authoritative = false;
  recursion_available = false;
  rcode = 0;
  question = asked ∷ [];
  answer = [];
  ns = [];
}

abbrev refused : Msg
refused = record (new_response db config message) { rcode = 3; ns = get_default_soa config ∷ [] }

nothing_found : answer_question db config asked (new_response db config message) ≡ ok refused
unfolding answer_question new_response normalize_fqdn lookup_active_records db rows selected
    record_query query_active_records find_active_zone text_eq has_suffix to_lower split join
nothing_found = refl

answer_question-Outcome_example :
    Outcome db config
      (new_response db config message)
      (normalize_fqdn (lit "c"))
      16
      (lookup_active_records db (normalize_fqdn (lit "c")) 16)
      refused
answer_question-Outcome_example =
    answer_question-Outcome db config asked (new_response db config message) refused nothing_found

-- A wire that carries one message, and packs the id.
wire : Wire
wire = record { unpack = λ bytes. ok message; pack = λ m. ok (m.id ∷ []) }

queried : query db config wire (0 ∷ []) ≡ ok (7 ∷ [])
unfolding query wire
queried = rw nothing_found refl

query-header_example :
    (msg : Msg) × (resp : Msg) × (wire.unpack (0 ∷ []) ≡ ok msg)
    × (wire.pack resp ≡ ok (7 ∷ []))
    × (resp.id ≡ msg.id)
    × (resp.question ≡ msg.question)
    × (resp.response ≡ true)
    × (resp.authoritative ≡ true)
    × (resp.recursion_available ≡ false)
query-header_example = query-header db config wire (0 ∷ []) (7 ∷ []) queried
