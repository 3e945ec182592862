-- ===== src/Dns/Handler/Samples.antt =====
-- A stand-in for the DNS library, for the examples: names as they come, and every text an address.
use zeus_gslb.Prelude.{refl, some, true, false, []}
use zeus_gslb.Dns.Handler.{Library, success}

abbrev pub lib : Library
lib = record {
  fqdn = λ s. s;
  is_sub_domain = λ zone name. true;
  parse_ip4 = λ s. some s;
  set_reply = λ qs. record {
    rcode = success;
    authoritative = false;
    recursion_available = false;
    answer = [];
    ns = [];
  };
  reply_rcode = λ qs. refl;
  reply_answer = λ qs. refl;
  reply_ns = λ qs. refl;
}
