-- ===== src/Packets/ListSends.antt =====
-- What the renders of a list of rules without peers send to a kernel that has nothing of them yet.
use multi_networkpolicy_nfta.Packets.Empty.{EmptyKernel, Sends, Sends-bind, Sends-none}
use multi_networkpolicy_nfta.Nft.{Chain, Transcript, Libraries, NftState}
use multi_networkpolicy_nfta.Ports.{PortSets, collect_ports}
use multi_networkpolicy_nfta.Ports.Union.{no_ports}
use multi_networkpolicy_nfta.Cluster.{PolicyPort, PolicyRule, PodInfo, PolicyDeps}
use multi_networkpolicy_nfta.Packets.PortCall.{ports_chain_of, no_set_at_all}
use multi_networkpolicy_nfta.Chains.{short_chain_name}
use multi_networkpolicy_nfta.PolicyRules.{apply_rule}
use multi_networkpolicy_nfta.Packets.RuleCall.{peers_chain_of}
use multi_networkpolicy_nfta.Packets.RuleSends.{no_peers, RuleWritten, apply_rule-Sends}
use multi_networkpolicy_nfta.Base.{Bytes, ok, for_index, ℕ, suc, ◌≡◌, refl, List, [], ◌∷◌, ◌++◌}

-- a rule without peers, its sets of ports, and its two chains
pub record RuleParts : Type 0 where
  pub ports : List PolicyPort
  pub sets : PortSets
  pub port_chain : Chain
  pub peers_chain : Chain

abbrev pub rules_of : List RuleParts → List PolicyRule
rules_of [] = []
rules_of (t ∷ ts) = no_peers t.ports ∷ rules_of ts

module _ ⦃lib : Libraries⦄ where
  -- the rules from an index on are accepted, and these are their chains and sets
  abbrev pub Ready : Bytes → Chain → ℕ → List RuleParts → Type 0
  Ready chain_name chain i [] = Unit
  Ready chain_name chain i (t ∷ ts) =
      (short_chain_name (ports_chain_of chain_name chain i) ≡ ok t.port_chain)
      × (short_chain_name (peers_chain_of chain_name chain i) ≡ ok t.peers_chain)
      × (collect_ports t.ports no_ports ≡ ok t.sets)
      × Ready chain_name chain (suc i) ts

  abbrev pub OneWritten : Chain → RuleParts → Transcript → Type 0
  OneWritten chain t cmds =
      RuleWritten chain t.port_chain t.peers_chain t.sets (no_set_at_all t.ports t.sets) cmds

  abbrev pub AllWritten : Chain → List RuleParts → Transcript → Type 0
  AllWritten chain [] cmds = cmds ≡ []
  AllWritten chain (t ∷ ts) cmds =
      (c : Transcript) × (cs : Transcript) × (cmds ≡ c ++ cs)
      × OneWritten chain t c
      × AllWritten chain ts cs

  pub rules_of-Sends :
      (empty : EmptyKernel lib) (deps : PolicyDeps) (chain_name : Bytes) (chain : Chain)
      (reset_name policy_name : Bytes) (pod_info : PodInfo) (networks : List Bytes) (i : ℕ)
      (ts : List RuleParts) (s : NftState)
      → Ready chain_name chain i ts
      → (cmds : Transcript) × Sends
          (for_index i
            (rules_of ts)
            (apply_rule deps chain_name chain reset_name policy_name pod_info networks))
          s
          tt
          cmds
        × AllWritten chain ts cmds
  rules_of-Sends empty deps chain_name chain reset_name policy_name pod_info networks i [] s ready =
      ([], Sends-none tt s, refl)
  rules_of-Sends empty deps chain_name chain reset_name policy_name pod_info networks i (t ∷ ts) s
        (short, short', h, ready) =
      let rule = apply_rule deps chain_name chain reset_name policy_name pod_info networks in
      let (c, s1, w) =
        apply_rule-Sends empty deps chain_name chain reset_name policy_name pod_info networks i
          t.ports t.sets s t.port_chain t.peers_chain short short' h in
      let (cs, s2, ws) =
        rules_of-Sends empty deps chain_name chain reset_name policy_name pod_info networks (suc i)
          ts s1.0 ready in
      (
        c ++ cs,
        Sends-bind (rule i (no_peers t.ports)) (λ _. for_index (suc i) (rules_of ts) rule) s tt tt c
            cs s1 s2,
        (c, cs, refl, w, ws),
      )
