-- ===== src/Packets/RuleSends.antt =====
-- What the whole render of a rule without peers sends to a kernel that has nothing of it yet.
use multi_networkpolicy_nfta.Packets.Empty.{EmptyKernel, Sends, Sends-bind}
use multi_networkpolicy_nfta.Nft.{Chain, Rule, new_chain, add_rule, Transcript, Libraries, NftState}
use multi_networkpolicy_nfta.Ports.{
  PortSets, collect_ports, accept_all_exprs, apply_policy_ports_rules,
}
use multi_networkpolicy_nfta.Ports.Union.{no_ports}
use multi_networkpolicy_nfta.Fields.{peer_rule_mark, jump_exprs, check_mark_exprs}
use multi_networkpolicy_nfta.Cluster.{PolicyPort, PolicyRule, PodInfo, PolicyDeps}
use multi_networkpolicy_nfta.Packets.PortSends.{Written}
use multi_networkpolicy_nfta.Packets.PortCall.{
  ports_chain_of, no_set_at_all, jump_rule, apply_policy_ports_rules-Sends,
}
use multi_networkpolicy_nfta.Chains.{short_chain_name}
use multi_networkpolicy_nfta.Marks.{mark_reset_exprs, apply_mark_reset, apply_mark_check}
use multi_networkpolicy_nfta.PolicyRules.{apply_policy_peers_rules, apply_rule}
use multi_networkpolicy_nfta.Packets.RuleCall.{
  peers_chain_of, apply_mark_reset-Sends, apply_mark_check-Sends, apply_policy_peers_rules-Sends,
}
use multi_networkpolicy_nfta.Base.{Bytes, ok, ◌>>◌, ℕ, ◌≡◌, refl, Bool, List, [], ◌∷◌, ◌++◌}

-- a rule without peers
abbrev pub no_peers : List PolicyPort → PolicyRule
no_peers ports = record { ports = ports; peers = [] }

-- the four parts of the commands
pub record RuleWritten ⦃lib : Libraries⦄ (chain port_chain peers_chain : Chain) (els : PortSets)
    (b : Bool) (cmds : Transcript) : Type 0 where
  pub reset : Rule
  pub jump_to_ports : Rule
  pub port_cmds : Transcript
  pub jump_to_peers : Rule
  pub accept_peers : Rule
  pub check : Rule
  pub reset_chain : reset.chain.name ≡ chain.name
  pub reset_exprs : reset.exprs ≡ mark_reset_exprs
  pub ports_jump_chain : jump_to_ports.chain.name ≡ chain.name
  pub ports_jump_exprs : jump_to_ports.exprs ≡ jump_exprs port_chain.name
  pub port_writes : Written port_chain els b port_cmds
  pub peers_jump_chain : jump_to_peers.chain.name ≡ chain.name
  pub peers_jump_exprs : jump_to_peers.exprs ≡ jump_exprs peers_chain.name
  pub accept_chain : accept_peers.chain.name ≡ peers_chain.name
  pub accept_exprs : accept_peers.exprs ≡ accept_all_exprs peer_rule_mark
  pub check_chain : check.chain.name ≡ chain.name
  pub check_exprs : check.exprs ≡ check_mark_exprs
  pub all_of :
      cmds
      ≡ (add_rule reset ∷ [])
        ++ ((new_chain port_chain ∷ add_rule jump_to_ports ∷ port_cmds)
            ++ ((new_chain peers_chain ∷ add_rule jump_to_peers ∷ add_rule accept_peers ∷ [])
                ++ (add_rule check ∷ [])))

module _ ⦃lib : Libraries⦄ where
  pub apply_rule-Sends :
      (empty : EmptyKernel lib) (deps : PolicyDeps) (chain_name : Bytes) (chain : Chain)
      (reset_name policy_name : Bytes) (pod_info : PodInfo) (networks : List Bytes) (index : ℕ)
      (ports : List PolicyPort) (els : PortSets) (s : NftState) (port_chain peers_chain : Chain)
      → short_chain_name (ports_chain_of chain_name chain index) ≡ ok port_chain
      → short_chain_name (peers_chain_of chain_name chain index) ≡ ok peers_chain
      → collect_ports ports no_ports ≡ ok els
      → (cmds : Transcript) × Sends
          (apply_rule deps chain_name chain reset_name policy_name pod_info networks index
            (no_peers ports))
          s
          tt
          cmds
        × RuleWritten chain port_chain peers_chain els (no_set_at_all ports els) cmds
  unfolding apply_rule
  apply_rule-Sends empty deps chain_name chain reset_name policy_name pod_info networks index ports
        els s port_chain peers_chain short short' h =
      let reset_code = apply_mark_reset chain_name chain reset_name index in
      let ports_code = apply_policy_ports_rules chain_name chain policy_name ports index in
      let peers_code =
        apply_policy_peers_rules deps chain_name chain policy_name [] pod_info networks index in
      let check_code = apply_mark_check chain_name chain policy_name index in
      let (reset, on_reset, is_reset, s1) =
        apply_mark_reset-Sends empty chain_name chain reset_name index s in
      let jump1 = jump_rule chain_name chain policy_name port_chain in
      let (port_cmds, s2, w) =
        apply_policy_ports_rules-Sends empty chain_name chain policy_name ports index els s1.0
          port_chain short h in
      let jump2 = jump_rule chain_name chain policy_name peers_chain in
      let (accept', on_peers, is_accept, s3) =
        apply_policy_peers_rules-Sends empty deps chain_name chain policy_name pod_info networks
          index s2.0 peers_chain short' in
      let (check, on_check, is_check, s4) =
        apply_mark_check-Sends empty chain_name chain policy_name index s3.0 in
      let c1 = add_rule reset ∷ [] in
      let c2 = new_chain port_chain ∷ add_rule jump1 ∷ port_cmds in
      let c3 = new_chain peers_chain ∷ add_rule jump2 ∷ add_rule accept' ∷ [] in
      let c4 = add_rule check ∷ [] in
      let t3 = Sends-bind peers_code (λ _. check_code) s2.0 tt tt c3 c4 s3 s4 in
      let t2 =
        Sends-bind ports_code (λ _. peers_code >> check_code) s1.0 tt tt c2 (c3 ++ c4) s2 t3 in
      (
        c1 ++ (c2 ++ (c3 ++ c4)),
        Sends-bind reset_code (λ _. ports_code >> (peers_code >> check_code)) s tt tt c1
            (c2 ++ (c3 ++ c4)) s1 t2,
        record {
          reset = reset;
          jump_to_ports = jump1;
          port_cmds = port_cmds;
          jump_to_peers = jump2;
          accept_peers = accept';
          check = check;
          reset_chain = on_reset;
          reset_exprs = is_reset;
          ports_jump_chain = refl;
          ports_jump_exprs = refl;
          port_writes = w;
          peers_jump_chain = refl;
          peers_jump_exprs = refl;
          accept_chain = on_peers;
          accept_exprs = is_accept;
          check_chain = on_check;
          check_exprs = is_check;
          all_of = refl;
        },
      )
