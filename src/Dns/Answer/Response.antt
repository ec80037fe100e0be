-- ===== src/Dns/Answer/Response.antt =====
-- What a response holds.
use kloudstack.Base.{
  ℕ, ◌≡◌, refl, sym, ap, ◌∙◌, Bool, true, false, not, ◌&&◌, Option, none, some, List, [], ◌∷◌, ◌++◌,
  append_assoc, append-nil, arith, ◌==◌, if◌then◌else◌,
}
use mathlib.Core.Path.{subst}
use kloudstack.Base.Text.{Text}
use kloudstack.Base.Result.{Result, ok, err}
use kloudstack.Dns.Types.{Zone, Record, Rr, Question, Msg, Session, Config, type_cname}
use kloudstack.Dns.Lookup.{normalize_fqdn, lookup_active_records, find_active_zone}
use kloudstack.Dns.Answer.{
  ◌>>=◌, create_rr_from_record, append_rr, append_targets, append_answers, missed, answered,
  answer_question, answer_questions,
}

abbrev listed : {A : Type 0} → Option A → List A
listed none = []
listed (some x) = x ∷ []

-- The resource records of some database records, in their order; a record of another type has none.
pub rrs_of : List Record → List Rr
rrs_of [] = []
rrs_of (r ∷ rs) = listed (create_rr_from_record r) ++ rrs_of rs

append_rr-listed : (o : Option Rr) (answer : List Rr) → append_rr o answer ≡ answer ++ listed o
unfolding append_rr
append_rr-listed none answer = sym (append-nil answer)
append_rr-listed (some rr) answer = refl

append_targets-rrs_of :
    (rs : List Record) (answer : List Rr) → append_targets rs answer ≡ answer ++ rrs_of rs
unfolding append_targets rrs_of
append_targets-rrs_of [] answer = sym (append-nil answer)
append_targets-rrs_of (r ∷ rs) answer =
    append_targets-rrs_of rs (append_rr (create_rr_from_record r) answer)
    ∙ ap (λ (t : List Rr). t ++ rrs_of rs) (append_rr-listed (create_rr_from_record r) answer)
    ∙ append_assoc answer (listed (create_rr_from_record r)) (rrs_of rs)

module _ (db : Session) (config : Config) where
  -- The records that a record stands for in the answer: its own, and, for a CNAME that was not
  -- asked for itself, those of its target, which are not followed further.
  pub targets_of : ℕ → Record → List Rr
  targets_of qtype r =
      if r.kind == type_cname && not (qtype == type_cname)
      then rrs_of (lookup_active_records db (normalize_fqdn r.content) qtype)
      else []

  pub answers_of : ℕ → List Record → List Rr
  unfolding targets_of
  answers_of qtype [] = []
  answers_of qtype (r ∷ rs) =
      (listed (create_rr_from_record r) ++ targets_of qtype r) ++ answers_of qtype rs

  with_targets :
      (b : Bool) (rs : List Record) (answer : List Rr)
      → (if b then append_targets rs answer else answer) ≡ answer ++ (if b then rrs_of rs else [])
  with_targets true rs answer = append_targets-rrs_of rs answer
  with_targets false rs answer = sym (append-nil answer)

  -- The answers are appended record by record: a record's own, and behind it those of its target,
  -- one step deep, if it is a CNAME and no CNAME was asked for.
  pub append_answers-answers_of :
      (rs : List Record) (qtype : ℕ) (answer : List Rr)
      → append_answers db config rs qtype answer ≡ answer ++ answers_of qtype rs
  unfolding append_answers answers_of targets_of
  append_answers-answers_of [] qtype answer = sym (append-nil answer)
  append_answers-answers_of (r ∷ rs) qtype answer =
      append_answers-answers_of rs qtype _
      ∙ ap (λ (t : List Rr). t ++ answers_of qtype rs) (one r)
      ∙ append_assoc answer _ (answers_of qtype rs)
    where
      one :
          (r : Record)
          → (if r.kind == type_cname && not (qtype == type_cname)
              then append_targets
                  (lookup_active_records db (normalize_fqdn r.content) qtype)
                  (append_rr (create_rr_from_record r) answer)
              else append_rr (create_rr_from_record r) answer)
            ≡ answer ++ (listed (create_rr_from_record r) ++ targets_of qtype r)
      one r =
          with_targets (r.kind == type_cname && not (qtype == type_cname)) _ _
          ∙ ap (λ (t : List Rr). t ++ targets_of qtype r)
              (append_rr-listed (create_rr_from_record r) answer)
          ∙ append_assoc answer _ _

  -- What a question leaves alone, and what it only adds to.
  pub record Extends (resp out : Msg) : Type 0 where
    pub same_id : out.id ≡ resp.id
    pub same_opcode : out.opcode ≡ resp.opcode
    pub same_question : out.question ≡ resp.question
    pub same_response : out.response ≡ resp.response
    pub same_authoritative : out.authoritative ≡ resp.authoritative
    pub same_recursion : out.recursion_available ≡ resp.recursion_available
    pub answers : (more : List Rr) × (out.answer ≡ resp.answer ++ more)
    pub authorities : (more : List Rr) × (out.ns ≡ resp.ns ++ more)

  Extends-refl : (resp : Msg) → Extends resp resp
  Extends-refl resp = record {
    same_id = refl;
    same_opcode = refl;
    same_question = refl;
    same_response = refl;
    same_authoritative = refl;
    same_recursion = refl;
    answers = ([], sym (append-nil resp.answer));
    authorities = ([], sym (append-nil resp.ns));
  }

  more_trans :
      (a b c : List Rr)
      → (more : List Rr) × (b ≡ a ++ more)
      → (more : List Rr) × (c ≡ b ++ more)
      → (more : List Rr) × (c ≡ a ++ more)
  more_trans a b c (m, p) (n, q) = (m ++ n, q ∙ ap (λ (t : List Rr). t ++ n) p ∙ append_assoc a m n)

  Extends-trans : (a b c : Msg) → Extends a b → Extends b c → Extends a c
  Extends-trans a b c x y = record {
    same_id = y.same_id ∙ x.same_id;
    same_opcode = y.same_opcode ∙ x.same_opcode;
    same_question = y.same_question ∙ x.same_question;
    same_response = y.same_response ∙ x.same_response;
    same_authoritative = y.same_authoritative ∙ x.same_authoritative;
    same_recursion = y.same_recursion ∙ x.same_recursion;
    answers = more_trans a.answer b.answer c.answer x.answers y.answers;
    authorities = more_trans a.ns b.ns c.ns x.authorities y.authorities;
  }

  adding :
      (resp : Msg) (code : ℕ) (answer ns more more_ns : List Rr)
      → answer ≡ resp.answer ++ more
      → ns ≡ resp.ns ++ more_ns
      → Extends resp (record resp { rcode = code; answer = answer; ns = ns })
  adding resp code answer ns more more_ns p q = record {
    same_id = refl;
    same_opcode = refl;
    same_question = refl;
    same_response = refl;
    same_authoritative = refl;
    same_recursion = refl;
    answers = (more, p);
    authorities = (more_ns, q);
  }

  pub ok_injective : {A : Type 0} {x y : A} → ◌≡◌ {A = Result A} (ok x) (ok y) → x ≡ y
  ok_injective e = ground arith

  Extends-missed :
      (resp out : Msg) (z : Result (Option Zone))
      → missed db config resp z ≡ ok out
      → Extends resp out
  unfolding missed
  Extends-missed resp out (ok none) e =
      subst (λ (m : Msg). Extends resp m) (ok_injective e)
        (adding resp 3 resp.answer _ [] _ (sym (append-nil resp.answer)) refl)
  Extends-missed resp out (ok (some zone)) e =
      subst (λ (m : Msg). Extends resp m) (ok_injective e)
        (adding resp 0 resp.answer _ [] _ (sym (append-nil resp.answer)) refl)
  Extends-missed resp out (err x) e = absurd (cc)
  Extends-missed resp out Result.panic e = absurd (cc)

  Extends-answered :
      (resp out : Msg) (fqdn : Text) (qtype : ℕ) (rs : List Record)
      → answered db config resp fqdn qtype rs ≡ ok out
      → Extends resp out
  unfolding answered
  Extends-answered resp out fqdn qtype [] e = Extends-missed resp out (find_active_zone db fqdn) e
  Extends-answered resp out fqdn qtype (r ∷ rs) e =
      subst (λ (m : Msg). Extends resp m) (ok_injective e)
        (adding resp 0 _ resp.ns _ [] (append_answers-answers_of (r ∷ rs) qtype resp.answer)
          (sym (append-nil resp.ns)))

  Extends-then :
      (resp out : Msg) (r : Result Msg) (k : Msg → Result Msg)
      → ((mid : Msg) → r ≡ ok mid → Extends resp mid)
      → ((mid : Msg) → k mid ≡ ok out → Extends mid out)
      → (r >>= k) ≡ ok out
      → Extends resp out
  Extends-then resp out (ok mid) k own rest e =
      Extends-trans resp mid out (own mid refl) (rest mid e)
  Extends-then resp out (err x) k own rest e = absurd (cc)
  Extends-then resp out Result.panic k own rest e = absurd (cc)

  -- The loop over the questions keeps the header and the questions, and only adds to the sections.
  pub Extends-questions :
      (qs : List Question) (resp out : Msg)
      → answer_questions db config qs resp ≡ ok out
      → Extends resp out
  unfolding answer_questions answer_question
  Extends-questions [] resp out e =
      subst (λ (m : Msg). Extends resp m) (ok_injective e) (Extends-refl resp)
  Extends-questions (q ∷ qs) resp out e =
      Extends-then resp out (answer_question db config q resp) (answer_questions db config qs)
        (λ mid own. Extends-answered resp mid _ _ _ own)
        (λ mid rest. Extends-questions qs mid out rest) e
