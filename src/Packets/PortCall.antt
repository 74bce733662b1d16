-- ===== src/Packets/PortCall.antt =====
-- What a call of applyPolicyPortsRules sends to a kernel that has nothing of it yet.
use mathlib.Core.List.{append-nil}
use multi_networkpolicy_nfta.Packets.Empty.{
  EmptyKernel, Sends, Sends-bind, update_rule-Sends, add_chain-Sends,
}
use multi_networkpolicy_nfta.Nft.{
  Chain, Rule, new_chain, add_rule, Transcript, Libraries, NftState, Render,
}
use multi_networkpolicy_nfta.Ports.{PortSets, collect_ports, apply_policy_ports_rules}
use multi_networkpolicy_nfta.Ports.Union.{no_ports}
use multi_networkpolicy_nfta.Fields.{concat, new_rule, jump_exprs}
use multi_networkpolicy_nfta.Rules.{update_rule}
use multi_networkpolicy_nfta.Names.{nft_name_with_suffix}
use multi_networkpolicy_nfta.Cluster.{PolicyPort}
use multi_networkpolicy_nfta.Packets.PortSends.{after_ports, Written, after_ports-Sends}
use multi_networkpolicy_nfta.Packets.PortMatch.{all_blank, all_empty, collect_ports-blank}
use multi_networkpolicy_nfta.Chains.{short_chain_name, add_chain}
use multi_networkpolicy_nfta.Base.{
  length, drop_first, is_empty, Bytes, codes, decimal, Result, ok, ◌>>=◌, lift, ℕ, ◌≡◌, refl, sym,
  ap, ◌∙◌, Bool, true, false, ◌||◌, none, List, [], ◌∷◌, ◌++◌,
}

-- What a call sends beyond what was sent before it.
abbrev pub new_commands : {A : Type 0} → Render A → NftState → Transcript
new_commands code s = drop_first (length s.sent) (code s).1.sent

drop_first-length : {A : Type 0} (xs ys : List A) → drop_first (length xs) (xs ++ ys) ≡ ys
drop_first-length [] ys = refl
drop_first-length (x ∷ xs) ys = drop_first-length xs ys

pub Sends-new_commands :
    {A : Type 0} (code : Render A) (s : NftState) (a : A) (cmds : Transcript)
    → Sends code s a cmds
    → ((code s).0 ≡ ok a) × (new_commands code s ≡ cmds)
Sends-new_commands {A} code s a cmds (s', e, sent, frame) = (
  ap (λ (out : Result A × NftState). out.0) e,
  ap (λ (out : Result A × NftState). drop_first (length s.sent) out.1.sent) e
      ∙ ap (drop_first (length s.sent)) sent
      ∙ drop_first-length s.sent cmds,
)

pub Sends-sent :
    {A : Type 0} (code : Render A) (s : NftState) (a : A) (cmds : Transcript)
    → Sends code s a cmds
    → (code s).1.sent ≡ s.sent ++ cmds
Sends-sent {A} code s a cmds (s', e, sent, frame) =
    ap (λ (out : Result A × NftState). out.1.sent) e ∙ sent

-- the chain of a rule's ports, before its name is shortened
abbrev pub ports_chain_of : Bytes → Chain → ℕ → Chain
ports_chain_of chain_name chain index = record {
  name = nft_name_with_suffix chain_name (codes "-") (codes "ports-" ++ decimal index);
  table = chain.table;
  base = none;
}

module _ ⦃lib : Libraries⦄ where
  -- the condition of the last rule
  abbrev pub no_set_at_all : List PolicyPort → PortSets → Bool
  no_set_at_all ports sets = is_empty ports || all_empty sets

  pub no_set_at_all-blank :
      (ports : List PolicyPort) (sets : PortSets)
      → collect_ports ports no_ports ≡ ok sets
      → no_set_at_all ports sets ≡ all_blank ports
  no_set_at_all-blank [] sets h = refl
  no_set_at_all-blank (p ∷ ps) sets h = collect_ports-blank (p ∷ ps) no_ports sets h

  lift-Sends : {A : Type 0} (r : Result A) (a : A) (s : NftState) → r ≡ ok a → Sends (lift r) s a []
  lift-Sends r a s e = (s, ap (λ q. (q, s)) e, sym (append-nil s.sent), refl)

  abbrev pub jump_rule : Bytes → Chain → Bytes → Chain → Rule
  jump_rule chain_name chain policy_name port_chain =
      new_rule chain.table chain
        (concat (
          codes "policy:"
          ∷ policy_name
          ∷ codes ", name:"
          ∷ chain_name
          ∷ codes ", jump:"
          ∷ port_chain.name
          ∷ []))
        (jump_exprs port_chain.name)

  pub apply_policy_ports_rules-Sends :
      (empty : EmptyKernel lib) (chain_name : Bytes) (chain : Chain) (policy_name : Bytes)
      (ports : List PolicyPort) (index : ℕ) (sets : PortSets) (s : NftState) (port_chain : Chain)
      → short_chain_name (ports_chain_of chain_name chain index) ≡ ok port_chain
      → collect_ports ports no_ports ≡ ok sets
      → (rest : Transcript) × Sends
          (apply_policy_ports_rules chain_name chain policy_name ports index)
          s
          tt
          (new_chain port_chain
            ∷ add_rule (jump_rule chain_name chain policy_name port_chain)
            ∷ rest)
        × Written port_chain sets (no_set_at_all ports sets) rest
  unfolding apply_policy_ports_rules
  apply_policy_ports_rules-Sends empty chain_name chain policy_name ports index sets s port_chain
        short h =
      let wanted = ports_chain_of chain_name chain index in
      let jump' = jump_rule chain_name chain policy_name port_chain in
      let b = no_set_at_all ports sets in
      let name = wanted.name in
      let rest = after_ports name chain_name chain port_chain policy_name b sets in
      let with_sets = λ (els : PortSets).
        after_ports name chain_name chain port_chain policy_name (no_set_at_all ports els) els in
      let s1 = add_chain-Sends empty wanted port_chain s short in
      let s2 = update_rule-Sends empty jump' add_rule false s1.0 in
      let s3 = lift-Sends (collect_ports ports no_ports) sets s2.0 h in
      let (cmds, s4, w) =
        after_ports-Sends empty name chain_name chain port_chain policy_name b sets s3.0 in
      let t3 =
        Sends-bind (lift (collect_ports ports no_ports)) with_sets s2.0 sets tt [] cmds s3 s4 in
      let t2 =
        Sends-bind (update_rule jump' add_rule false)
          (λ _. lift (collect_ports ports no_ports) >>= with_sets) s1.0 true tt
          (add_rule jump' ∷ []) cmds s2 t3 in
      (
        cmds,
        Sends-bind (add_chain wanted)
            (λ pc. update_rule (jump_rule chain_name chain policy_name pc) add_rule false >>= λ _.
              lift (collect_ports ports no_ports) >>= λ els.
              after_ports name chain_name chain pc policy_name (no_set_at_all ports els) els)
            s port_chain tt (new_chain port_chain ∷ []) (add_rule jump' ∷ cmds) s1 t2,
        w,
      )
