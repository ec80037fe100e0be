-- ===== src/Dns/Answer.antt =====
-- The responses of pkg/daemons/dns/query.go.
pub mod Response
pub mod Outcome
use kloudstack.Base.{
  ℕ, ◌%◌, ◌^◌, Bool, true, false, not, ◌&&◌, Option, none, some, List, [], ◌∷◌, ◌++◌, ◌==◌,
  if◌then◌else◌,
}
use kloudstack.Base.Text.{Text, lit}
use kloudstack.Base.Result.{Result, ok, err}
use kloudstack.Net.{parse_addr}
use kloudstack.Dns.Types.{
  Zone, Record, Soa, Rr, txt, a, aaaa, cname, soa, Question, Msg, Session, Config, Wire, type_a,
  type_aaaa, type_cname, type_txt,
}
use kloudstack.Dns.Lookup.{normalize_fqdn, lookup_active_records, find_active_zone}

infixl 5 ◌>>=◌
abbrev pub ◌>>=◌ : {A B : Type 0} → Result A → (A → Result B) → Result B
ok x >>= f = f x
err e >>= f = err e
Result.panic >>= f = Result.panic

-- `createRRFromRecord`; `none` is nil.
unfoldable pub create_rr_from_record : Record → Option Rr
create_rr_from_record r =
    if r.kind == type_txt
    then some (txt r.fqdn r.ttl r.content)
    else if r.kind == type_a
    then some (a r.fqdn r.ttl (parse_addr r.content))
    else if r.kind == type_aaaa
    then some (aaaa r.fqdn r.ttl (parse_addr r.content))
    else if r.kind == type_cname
    then some (cname r.fqdn r.ttl r.content)
    else none

-- `getSOARecordForZone`
unfoldable pub get_soa_record_for_zone : Zone → Rr
get_soa_record_for_zone z = soa (record {
  name = z.domain;
  ttl = z.soa_ttl;
  ns = z.ns_primary;
  mbox = z.hostmaster;
  serial = z.serial;
  refresh = z.refresh;
  retry = z.retry;
  expire = z.expire;
  minttl = z.minttl;
})

-- `getDefaultSOA`
unfoldable pub get_default_soa : Config → Rr
get_default_soa c = soa (record {
  name = lit ".";
  ttl = 3600;
  ns = c.m_name;
  mbox = c.r_name;
  serial = c.now % 2 ^ 32;
  refresh = 3600;
  retry = 600;
  expire = 86400;
  minttl = 300;
})

pub append_rr : Option Rr → List Rr → List Rr
append_rr none answer = answer
append_rr (some rr) answer = answer ++ (rr ∷ [])

-- The inner loop, over the records of a CNAME's target.
pub append_targets : List Record → List Rr → List Rr
unfolding append_rr create_rr_from_record
append_targets [] answer = answer
append_targets (r ∷ rs) answer = append_targets rs (append_rr (create_rr_from_record r) answer)

module _ (db : Session) (config : Config) where
  -- `appendAnswers`, on the answer section.
  unfoldable pub append_answers : List Record → ℕ → List Rr → List Rr
  unfolding append_targets append_rr create_rr_from_record
  append_answers [] qtype answer = answer
  append_answers (r ∷ rs) qtype answer =
      let own = append_rr (create_rr_from_record r) answer in
      append_answers rs qtype (
        if r.kind == type_cname && not (qtype == type_cname)
        then append_targets (lookup_active_records db (normalize_fqdn r.content) qtype) own
        else own)

  -- A miss: the zone's SOA, or the default one and NXDOMAIN.
  pub missed : Msg → Result (Option Zone) → Result Msg
  unfolding get_default_soa get_soa_record_for_zone
  missed resp (ok none) =
      ok (record resp { rcode = 3; ns = resp.ns ++ (get_default_soa config ∷ []) })
  missed resp (ok (some zone)) =
      ok (record resp { rcode = 0; ns = resp.ns ++ (get_soa_record_for_zone zone ∷ []) })
  missed resp (err e) = err e
  missed resp Result.panic = Result.panic

  pub answered : Msg → Text → ℕ → List Record → Result Msg
  unfolding missed append_answers
  answered resp fqdn qtype [] = missed resp (find_active_zone db fqdn)
  answered resp fqdn qtype (r ∷ rs) =
      ok (record resp { rcode = 0; answer = append_answers (r ∷ rs) qtype resp.answer })

  -- One question.
  unfoldable pub answer_question : Question → Msg → Result Msg
  unfolding answered
  answer_question q resp =
      let fqdn = normalize_fqdn q.name in
      answered resp fqdn q.kind (lookup_active_records db fqdn q.kind)

  -- The loop over the questions.
  unfoldable pub answer_questions : List Question → Msg → Result Msg
  unfolding answer_question
  answer_questions [] resp = ok resp
  answer_questions (q ∷ qs) resp = answer_question q resp >>= answer_questions qs

  -- The response before the loop.
  unfoldable pub new_response : Msg → Msg
  new_response msg = record {
    id = msg.id;
    opcode = 0;
    response = true;
    authoritative = true;
    recursion_available = false;
    rcode = 0;
    question = msg.question;
    answer = [];
    ns = [];
  }

  -- `Query`, on the bytes of the packets.
  unfoldable pub query : Wire → Text → Result Text
  unfolding new_response answer_questions
  query wire bytes = do
    msg ← wire.unpack bytes
    resp ← answer_questions msg.question (new_response msg)
    wire.pack resp
