-- ===== src/Nft/Fake.antt =====
-- A library for tests: a kernel that holds nothing, where every write succeeds, comments are stored
-- as they are, and numbers have their bytes in the order of a little-endian machine.
use multi_networkpolicy_nfta.Base.{
  ◌+◌, ◌-◌, ◌*◌, ◌/◌, ◌%◌, ◌^◌, true, Option, none, some, [], ◌∷◌, ◌++◌, Bytes, codes, ok, err,
  not_exist, if◌then◌else◌,
}
use multi_networkpolicy_nfta.Nft.Objects.{Expr, meta, lookup, verdict, cmp, payload, counter}
use multi_networkpolicy_nfta.Nft.Objects.{Table, Chain, inet}
use multi_networkpolicy_nfta.Nft.State.{NftState}
use multi_networkpolicy_nfta.Nft.Calls.{Libraries, Prefix, Addr}

-- some bytes for an expression
abbrev sketch : Expr → Bytes
sketch (meta _ _ r) = 1 ∷ r ∷ []
sketch (lookup n _ _) = 2 ∷ n
sketch (verdict _ c) = 3 ∷ c
sketch (cmp _ _ d) = 4 ∷ d
sketch (payload _ _ o n) = 5 ∷ o ∷ n ∷ []
sketch (counter _ _) = 6 ∷ []
sketch _ = []

-- an IPv4 prefix that is written as its five bytes
abbrev five_bytes : Bytes → Option Prefix
five_bytes (a ∷ b ∷ c ∷ d ∷ n ∷ []) = some (record {
  addr = record { is4 = true; value = a * 2 ^ 24 + b * 2 ^ 16 + c * 2 ^ 8 + d };
  bits = n;
})
five_bytes _ = none

abbrev last_ip : Prefix → Addr
last_ip p =
    let host = 2 ^ ((if p.addr.is4 then 32 else 128) - p.bits) in
    record { is4 = p.addr.is4; value = p.addr.value - p.addr.value % host + host - 1 }

instance abbrev pub fresh : Libraries
fresh = record {
  list_table_of_family = λ t name family. err not_exist;
  list_tables_of_family = λ t family. ok [];
  list_chains_of_table_family = λ t family. ok [];
  list_chain = λ t table name. (none, some not_exist);
  get_rules = λ t table chain. ok [];
  get_sets = λ t table. ok [];
  get_set_by_name = λ t table name. (none, some not_exist);
  get_set_elements = λ t set. ok [];
  outcome = λ t c. none;
  new_set_id = λ t set. 1;
  append_comment = λ comment. comment;
  get_comment = λ data'. some data';
  native_uint32 = λ n. n % 256 ∷ n / 2 ^ 8 % 256 ∷ n / 2 ^ 16 % 256 ∷ n / 2 ^ 24 ∷ [];
  big_uint16 = λ n. n / 256 ∷ n % 256 ∷ [];
  gob_text = λ s. some s;
  gob_expr = λ e. some (sketch e);
  gob_rule = λ d. some (d.table ++ (d.chain ++ d.user_data));
  parse_ip = λ s. none;
  parse_addr = λ s. some (record { is4 = true; value = 0 });
  parse_prefix = five_bytes;
  is_cidr = λ s. true;
  prefix_last_ip = last_ip;
}

abbrev pub filter_table : Table
filter_table = record { name = codes "multi-networkpolicy-filter"; family = inet }

abbrev nat_table : Table
nat_table = record { name = codes "multi-networkpolicy-nat"; family = inet }

abbrev pub plain : Bytes → Chain
plain name = record { name = name; table = filter_table; base = none }

-- the state after a bootstrap of the empty kernel, with nothing kept yet
abbrev pub start : NftState
start = record {
  sent = [];
  filter = filter_table;
  nat = nat_table;
  input = plain (codes "input");
  output = plain (codes "output");
  prerouting = record { name = codes "prerouting"; table = nat_table; base = none };
  ingress_chain = plain (codes "multi-ingress");
  egress_chain = plain (codes "multi-egress");
  common_ingress_chain = plain (codes "multi-ingress-common");
  common_egress_chain = plain (codes "multi-egress-common");
  rules = [];
  sets = [];
  chains = [];
}
