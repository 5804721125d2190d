-- ===== src/Record.antt =====
-- The records of include/simple-dnsd/protocol/dns.hpp, with the initial values of their fields.
pub mod RrType
pub mod RrClass
pub mod Opcode
pub mod Rcode
use simple_dnsd.Base.{
  ℕ, Bool, true, false, Option, none, some, List, [], ◌∷◌, ◌++◌, ◌==◌, Bytes, codes, if◌then◌else◌,
}
use simple_dnsd.Name.{DnsName, root}
use simple_dnsd.Text.Number.{decimal}

pub record ResourceRecord : Type 0 where
  pub name : DnsName
  pub type : ℕ
  pub rclass : ℕ
  pub ttl : ℕ
  pub rdata : Bytes
  pub content : Bytes
  pub prio : ℕ
  pub disabled : Bool
  pub auth : Bool

abbrev pub new_record : ResourceRecord
new_record = record {
  name = root;
  type = RrType.a;
  rclass = RrClass.in_class;
  ttl = 3600;
  rdata = [];
  content = [];
  prio = 0;
  disabled = false;
  auth = true;
}

pub record Question : Type 0 where
  pub qname : DnsName
  pub qtype : ℕ
  pub qclass : ℕ

pub record DnsHeader : Type 0 where
  pub id : ℕ
  pub qr : Bool
  pub opcode : ℕ
  pub aa : Bool
  pub tc : Bool
  pub rd : Bool
  pub ra : Bool
  pub ad : Bool
  pub cd : Bool
  pub rcode : ℕ
  pub qdcount : ℕ
  pub ancount : ℕ
  pub nscount : ℕ
  pub arcount : ℕ

abbrev pub new_header : DnsHeader
new_header = record {
  id = 0;
  qr = false;
  opcode = Opcode.query;
  aa = false;
  tc = false;
  rd = false;
  ra = false;
  ad = false;
  cd = false;
  rcode = Rcode.no_error;
  qdcount = 0;
  ancount = 0;
  nscount = 0;
  arcount = 0;
}

pub record EdnsInfo : Type 0 where
  pub present : Bool
  pub udp_size : ℕ
  pub ext_rcode : ℕ
  pub version : ℕ
  pub dnssec_ok : Bool

abbrev pub new_edns : EdnsInfo
new_edns = record { present = false; udp_size = 512; ext_rcode = 0; version = 0; dnssec_ok = false }

pub record DnsMessage : Type 0 where
  pub header : DnsHeader
  pub questions : List Question
  pub answers : List ResourceRecord
  pub authority : List ResourceRecord
  pub additional : List ResourceRecord
  pub edns : EdnsInfo
  pub tsig : Option ResourceRecord

abbrev pub new_message : DnsMessage
new_message = record {
  header = new_header;
  questions = [];
  answers = [];
  authority = [];
  additional = [];
  edns = new_edns;
  tsig = none;
}

unfoldable pub make_query : DnsName → ℕ → ℕ → Bool → DnsMessage
make_query qname qtype id rd = record new_message {
  header = record new_header { id = id; rd = rd };
  questions = (record { qname = qname; qtype = qtype; qclass = RrClass.in_class }) ∷ [];
}

unfoldable pub make_response : DnsMessage → DnsMessage
make_response query = record new_message {
  header = record new_header {
    id = query.header.id;
    qr = true;
    opcode = query.header.opcode;
    rd = query.header.rd;
  };
  questions = query.questions;
  edns = query.edns;
}
