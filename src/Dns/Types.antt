-- ===== src/Dns/Types.antt =====
-- pkg/daemons/dns/types.go, the DNS messages, and the database session, which is a parameter: what
-- gocqlx does is not part of the repository. A uint16 or a uint32 is a number.
use kloudstack.Base.{ℕ, Bool, Option, List}
use kloudstack.Base.Text.{Text}
use kloudstack.Base.Result.{Result, Error}
use kloudstack.Net.{Addr}

pub record Zone : Type 0 where
  pub id : Text
  pub domain : Text
  pub namespace : Text
  pub ns_primary : Text
  pub hostmaster : Text
  pub serial : ℕ
  pub refresh : ℕ
  pub retry : ℕ
  pub expire : ℕ
  pub minttl : ℕ
  pub soa_ttl : ℕ
  pub status : Text

pub record Record : Type 0 where
  pub id : Text
  pub zone_id : Text
  pub fqdn : Text
  pub kind : ℕ
  pub content : Text
  pub ttl : ℕ

abbrev pub type_a : ℕ
type_a = 1

abbrev pub type_cname : ℕ
type_cname = 5

abbrev pub type_txt : ℕ
type_txt = 16

abbrev pub type_aaaa : ℕ
type_aaaa = 28

-- dns.SOA, its header's class left out: it is always IN.
pub record Soa : Type 0 where
  pub name : Text
  pub ttl : ℕ
  pub ns : Text
  pub mbox : Text
  pub serial : ℕ
  pub refresh : ℕ
  pub retry : ℕ
  pub expire : ℕ
  pub minttl : ℕ

-- dns.RR: owner, TTL and data. An address that does not parse is the zero netip.Addr, `none`.
pub data Rr : Type 0 where
  txt : Text → ℕ → Text → Rr
  a : Text → ℕ → Option Addr → Rr
  aaaa : Text → ℕ → Option Addr → Rr
  cname : Text → ℕ → Text → Rr
  soa : Soa → Rr

pub record Question : Type 0 where
  pub name : Text
  pub kind : ℕ

-- dns.Msg; `rcode` 0 is success and 3 is NXDOMAIN.
pub record Msg : Type 0 where
  pub id : ℕ
  pub opcode : ℕ
  pub response : Bool
  pub authoritative : Bool
  pub recursion_available : Bool
  pub rcode : ℕ
  pub question : List Question
  pub answer : List Rr
  pub ns : List Rr

-- A value that is bound to a marker of a statement.
pub data Value : Type 0 where
  text : Text → Value
  number : ℕ → Value

-- One condition of the WHERE clause; a marker stands for a bound value.
pub data Condition : Type 0 where
  fqdn_is : Text → Condition
  type_is : Text → Condition
  type_in : List ℕ → Condition

-- A statement over active_records, with what is bound.
pub record RecordQuery : Type 0 where
  pub conditions : List Condition
  pub binds : List (Text × Value)

-- The session. An iteration gives the rows that are scanned and the error of `Close`, if any; the
-- status and the id of a row that is not selected stay empty. It is that of one answer: what the
-- tables hold is taken to stand still while one message is answered.
pub record Session : Type 0 where
  pub records : RecordQuery → List Record × Option Error
  -- The zone_id of the first row of active_zones with this domain.
  pub zone_id : Text → Option Text
  -- The first row of zones_by_id with this id.
  pub zone_by_id : Text → Option Zone × Option Error

-- The configuration DNS_M_NAME and DNS_R_NAME, and `time.Now().Unix()`.
pub record Config : Type 0 where
  pub m_name : Text
  pub r_name : Text
  pub now : ℕ

-- The wire format of package dns.
pub record Wire : Type 0 where
  pub unpack : Text → Result Msg
  pub pack : Msg → Result Text
