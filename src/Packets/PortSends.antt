-- ===== src/Packets/PortSends.antt =====
-- What the port rules of a policy send to a kernel that has nothing of them yet.
use multi_networkpolicy_nfta.Packets.Empty.{
  EmptyKernel, Sends, Sends-bind, Sends-none, update_rule-Sends,
}
use multi_networkpolicy_nfta.Packets.PortChain.{ProtocolWrites, apply_protocol-Sends}
use multi_networkpolicy_nfta.Nft.{
  Chain, SetElement, Rule, Command, add_rule, Transcript, Libraries, NftState, Render,
}
use multi_networkpolicy_nfta.Ports.{PortSets, apply_protocol, accept_all_exprs}
use multi_networkpolicy_nfta.Ports.Union.{tcp_transport, udp_transport, sctp_transport}
use multi_networkpolicy_nfta.Fields.{
  port_rule_mark, protocol_tcp, protocol_udp, protocol_sctp, concat, new_rule,
}
use multi_networkpolicy_nfta.Rules.{update_rule}
use multi_networkpolicy_nfta.Base.{
  Bytes, codes, ◌>>=◌, ◌>>◌, done, when, ◌≡◌, refl, Bool, true, false, List, [], ◌∷◌, ◌++◌,
}

module _ ⦃lib : Libraries⦄ where
  -- the last rule, where no protocol has a set
  abbrev accept_rule : Chain → Chain → Bytes → Bytes → Bytes → Rule
  accept_rule chain port_chain policy_name chain_name ports_name =
      new_rule chain.table port_chain
        (concat (
          codes "policy:"
          ∷ policy_name
          ∷ codes ", name:"
          ∷ ports_name
          ∷ codes ", no ports skipped accept all"
          ∷ []))
        (accept_all_exprs port_rule_mark)

  abbrev pub when_all : Bool → Command → Transcript
  when_all true c = c ∷ []
  when_all false c = []

  accept_rule-Sends :
      (empty : EmptyKernel lib) (b : Bool) (r : Rule) (s : NftState)
      → Sends (when b (update_rule r add_rule false >>= λ _. done)) s tt (when_all b (add_rule r))
  accept_rule-Sends empty false r s = Sends-none tt s
  accept_rule-Sends empty true r s =
      let first = update_rule-Sends empty r add_rule false s in
      Sends-bind (update_rule r add_rule false) (λ _. done) s true tt (add_rule r ∷ []) [] first
        (Sends-none tt first.0)

  -- what follows the collection of the ports
  abbrev pub after_ports :
      Bytes → Bytes → Chain → Chain → Bytes → Bool → PortSets → Render (Unit {0})
  after_ports ports_name chain_name chain port_chain policy_name b sets =
      apply_protocol protocol_tcp sets.tcp ports_name chain port_chain policy_name
      >> (apply_protocol protocol_udp sets.udp ports_name chain port_chain policy_name
          >> (apply_protocol protocol_sctp sets.sctp ports_name chain port_chain policy_name
              >> when b (
                  update_rule (accept_rule chain port_chain policy_name chain_name ports_name)
                    add_rule false
                  >>= λ _. done)))

  -- the commands of the three protocols and of the last rule
  pub record Written (port_chain : Chain) (sets : PortSets) (b : Bool) (cmds : Transcript)
      : Type 0 where
    pub tcp : Transcript
    pub udp : Transcript
    pub sctp : Transcript
    pub last : Rule
    pub tcp_writes : ProtocolWrites tcp_transport sets.tcp port_chain.name tcp
    pub udp_writes : ProtocolWrites udp_transport sets.udp port_chain.name udp
    pub sctp_writes : ProtocolWrites sctp_transport sets.sctp port_chain.name sctp
    pub last_chain : last.chain.name ≡ port_chain.name
    pub last_exprs : last.exprs ≡ accept_all_exprs port_rule_mark
    pub all_of : cmds ≡ tcp ++ (udp ++ (sctp ++ when_all b (add_rule last)))

  pub after_ports-Sends :
      (empty : EmptyKernel lib) (ports_name chain_name : Bytes) (chain port_chain : Chain)
      (policy_name : Bytes) (b : Bool) (sets : PortSets) (s : NftState)
      → (cmds : Transcript) × Sends
          (after_ports ports_name chain_name chain port_chain policy_name b sets)
          s
          tt
          cmds
        × Written port_chain sets b cmds
  after_ports-Sends empty ports_name chain_name chain port_chain policy_name b sets s =
      let p = λ (proto : Bytes) (els : List SetElement).
        apply_protocol proto els ports_name chain port_chain policy_name in
      let r = accept_rule chain port_chain policy_name chain_name ports_name in
      let end_ : Render (Unit {0}) = when b (update_rule r add_rule false >>= λ _. done) in
      let (c1, s1, w1) =
        apply_protocol-Sends empty tcp_transport sets.tcp ports_name chain port_chain policy_name
          s in
      let (c2, s2, w2) =
        apply_protocol-Sends empty udp_transport sets.udp ports_name chain port_chain policy_name
          s1.0 in
      let (c3, s3, w3) =
        apply_protocol-Sends empty sctp_transport sets.sctp ports_name chain port_chain policy_name
          s2.0 in
      let s4 = accept_rule-Sends empty b r s3.0 in
      let c4 = when_all b (add_rule r) in
      let t3 = Sends-bind (p protocol_sctp sets.sctp) (λ _. end_) s2.0 tt tt c3 c4 s3 s4 in
      let t2 =
        Sends-bind (p protocol_udp sets.udp) (λ _. p protocol_sctp sets.sctp >> end_) s1.0 tt tt c2
          (c3 ++ c4) s2 t3 in
      (
        c1 ++ (c2 ++ (c3 ++ c4)),
        Sends-bind (p protocol_tcp sets.tcp)
            (λ _. p protocol_udp sets.udp >> (p protocol_sctp sets.sctp >> end_)) s tt tt c1
            (c2 ++ (c3 ++ c4)) s1 t2,
        record {
          tcp = c1;
          udp = c2;
          sctp = c3;
          last = r;
          tcp_writes = w1;
          udp_writes = w2;
          sctp_writes = w3;
          last_chain = refl;
          last_exprs = refl;
          all_of = refl;
        },
      )
