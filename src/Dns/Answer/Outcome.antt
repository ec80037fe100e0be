-- ===== src/Dns/Answer/Outcome.antt =====
-- How a question, and the whole query, is answered.
use kloudstack.Base.{
  ℕ, ◌≡◌, refl, ◌≢◌, ◌⊎◌, inl, inr, true, false, Option, none, some, List, [], ◌∷◌, ◌++◌,
}
use mathlib.Core.Path.{subst}
use kloudstack.Base.Text.{Text}
use kloudstack.Base.Result.{Result, ok, err}
use kloudstack.Dns.Types.{Zone, Record, Rr, Question, Msg, Session, Config, Wire}
use kloudstack.Dns.Lookup.{normalize_fqdn, lookup_active_records, find_active_zone}
use kloudstack.Dns.Answer.{
  ◌>>=◌, get_soa_record_for_zone, get_default_soa, missed, answered, answer_question,
  answer_questions, new_response, query,
}
use kloudstack.Dns.Answer.Response.{
  answers_of, append_answers-answers_of, Extends-questions, ok_injective,
}

module _ (db : Session) (config : Config) where
  -- The sections and the code of a response.
  abbrev pub Holds : Msg → ℕ → List Rr → List Rr → Type 0
  Holds m code answer ns = (m.rcode ≡ code) × (m.answer ≡ answer) × (m.ns ≡ ns)

  -- The outcomes of a question for which these records were found: an answer; the zone's SOA and
  -- success; or the default SOA and NXDOMAIN.
  abbrev pub Outcome : Msg → Text → ℕ → List Record → Msg → Type 0
  Outcome resp fqdn qtype rs out =
      ((rs ≢ []) × Holds out 0 (resp.answer ++ answers_of db config qtype rs) resp.ns)
      ⊎ ((rs ≡ [])
          × (((zone : Zone) × (find_active_zone db fqdn ≡ ok (some zone))
                × Holds out 0 resp.answer (resp.ns ++ (get_soa_record_for_zone zone ∷ [])))
              ⊎ ((find_active_zone db fqdn ≡ ok none)
                  × Holds out 3 resp.answer (resp.ns ++ (get_default_soa config ∷ [])))))

  holding :
      {code : ℕ} {answer ns : List Rr} (m out : Msg)
      → m ≡ out
      → Holds m code answer ns
      → Holds out code answer ns
  holding {code} {answer} {ns} m out e h = subst (λ (x : Msg). Holds x code answer ns) e h

  missed-outcome :
      (resp out : Msg) (fqdn : Text) (z : Result (Option Zone))
      → find_active_zone db fqdn ≡ z
      → missed db config resp z ≡ ok out
      → ((zone : Zone) × (find_active_zone db fqdn ≡ ok (some zone))
          × Holds out 0 resp.answer (resp.ns ++ (get_soa_record_for_zone zone ∷ [])))
        ⊎ ((find_active_zone db fqdn ≡ ok none)
            × Holds out 3 resp.answer (resp.ns ++ (get_default_soa config ∷ [])))
  unfolding missed
  missed-outcome resp out fqdn (ok none) f e =
      inr (f, holding _ out (ok_injective db config e) (refl, refl, refl))
  missed-outcome resp out fqdn (ok (some zone)) f e =
      inl (zone, f, holding _ out (ok_injective db config e) (refl, refl, refl))
  missed-outcome resp out fqdn (err x) f e = absurd (cc)
  missed-outcome resp out fqdn Result.panic f e = absurd (cc)

  answered-Outcome :
      (resp out : Msg) (fqdn : Text) (qtype : ℕ) (rs : List Record)
      → answered db config resp fqdn qtype rs ≡ ok out
      → Outcome resp fqdn qtype rs out
  unfolding answered
  answered-Outcome resp out fqdn qtype [] e =
      inr (refl, missed-outcome resp out fqdn (find_active_zone db fqdn) refl e)
  answered-Outcome resp out fqdn qtype (r ∷ rs) e = inl (
    (λ z. cc),
    holding _ out (ok_injective db config e)
        (refl, append_answers-answers_of db config (r ∷ rs) qtype resp.answer, refl),
  )

  -- A question that is answered without an error has one of three outcomes, by the records that
  -- the lookup of its normalized name gives: with any, they are added to the answers and the code
  -- is success; with none, the SOA of the name's zone is added to the authorities and the code is
  -- success; and without a zone, the default SOA is added and the code is NXDOMAIN.
  pub answer_question-Outcome :
      (q : Question) (resp out : Msg)
      → answer_question db config q resp ≡ ok out
      → Outcome resp
          (normalize_fqdn q.name)
          q.kind
          (lookup_active_records db (normalize_fqdn q.name) q.kind)
          out
  unfolding answer_question
  answer_question-Outcome q resp out e = answered-Outcome resp out _ _ _ e

  then-ok :
      {A B : Type 0} (r : Result A) (k : A → Result B) {b : B}
      → (r >>= k) ≡ ok b
      → (a : A) × (r ≡ ok a) × (k a ≡ ok b)
  then-ok (ok a) k e = (a, refl, e)
  then-ok (err x) k e = absurd (cc)
  then-ok Result.panic k e = absurd (cc)

  -- A query that yields a packet has unpacked a message and packed a response which has the
  -- message's id and questions, is authoritative and offers no recursion, whatever the outcomes of
  -- the questions are.
  pub query-header :
      (wire : Wire) (bytes out : Text)
      → query db config wire bytes ≡ ok out
      → (msg : Msg) × (resp : Msg) × (wire.unpack bytes ≡ ok msg)
        × (wire.pack resp ≡ ok out)
        × (resp.id ≡ msg.id)
        × (resp.question ≡ msg.question)
        × (resp.response ≡ true)
        × (resp.authoritative ≡ true)
        × (resp.recursion_available ≡ false)
  unfolding query new_response
  query-header wire bytes out e =
      let (msg, unpacked, e1) = then-ok (wire.unpack bytes) _ e in
      let (resp, looped, packed) =
        then-ok (answer_questions db config msg.question (new_response db config msg)) _ e1 in
      let x = Extends-questions db config msg.question (new_response db config msg) resp looped in
      (
        msg, resp, unpacked, packed, x.same_id, x.same_question, x.same_response,
        x.same_authoritative, x.same_recursion,
      )
