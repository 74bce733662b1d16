-- ===== src/Packets/Admitted.antt =====
-- The sets of the three protocols and the ports that a rule lists.
use multi_networkpolicy_nfta.Packets.{Vm, Step, Evaluates}
use multi_networkpolicy_nfta.Packets.PortChain.{number_of}
use multi_networkpolicy_nfta.Nft.{Expr, Libraries}
use multi_networkpolicy_nfta.Ports.{PortSets}
use multi_networkpolicy_nfta.Ports.Union.{
  Transport, tcp_transport, udp_transport, sctp_transport, transport_of, elements_of, InSome,
  Admits,
}
use multi_networkpolicy_nfta.Cluster.{PolicyPort}
use multi_networkpolicy_nfta.Packets.PortMatch.{all_blank, Matches}
use multi_networkpolicy_nfta.Packets.PortRules.{AnyHit}
use multi_networkpolicy_nfta.Base.{
  Any, Bytes, ℕ, ◌≡◌, refl, sym, ap, ◌∙◌, ◌↔◌, inl, inr, Bool, List, [], ◌∷◌,
}

Any-map :
    {A : Type 0} (P Q : A → Type 0) (xs : List A) → ((a : A) → P a → Q a) → Any P xs → Any Q xs
Any-map P Q [] f h = h
Any-map P Q (x ∷ xs) f (inl p) = inl (f x p)
Any-map P Q (x ∷ xs) f (inr rest) = inr (Any-map P Q xs f rest)

module _ (l4proto : Bytes) (x : ℕ) where
  abbrev Fits : PolicyPort → Type 0
  Fits p = (l4proto ≡ number_of (transport_of p.protocol)) × Admits p x

  Any-Fits :
      (t : Transport) (ports : List PolicyPort)
      → l4proto ≡ number_of t
      → Any (λ p. (transport_of p.protocol ≡ t) × Admits p x) ports
      → Any Fits ports
  Any-Fits t ports e h =
      Any-map (λ p. (transport_of p.protocol ≡ t) × Admits p x) Fits ports
        (λ p (same, a). (e ∙ ap number_of (sym same), a)) h

  Fits-transport :
      (ports : List PolicyPort)
      → Any Fits ports
      → (t : Transport) × (l4proto ≡ number_of t)
        × Any (λ p. (transport_of p.protocol ≡ t) × Admits p x) ports
  Fits-transport [] h = absurd h
  Fits-transport (p ∷ ps) (inl (e, a)) = (transport_of p.protocol, e, inl (refl, a))
  Fits-transport (p ∷ ps) (inr rest) = let (t, e, h) = Fits-transport ps rest in (t, e, inr h)

module _ (lib : Libraries) (step : Expr → Vm → Step) (sets : Bytes → Bytes → Bool) (l4proto : Bytes)
    (x : ℕ) (ev : Evaluates lib step sets l4proto (lib.big_uint16 x)) where
  pub AnyHit-iff :
      (els : PortSets) (ports : List PolicyPort) (b : Bool)
      → b ≡ all_blank ports
      → ((t : Transport)
          → InSome (elements_of t els) x
            ↔ Any (λ p. (transport_of p.protocol ≡ t) × Admits p x) ports)
      → AnyHit lib step sets l4proto x ev els b ↔ Matches ports l4proto x
  AnyHit-iff els ports b e covers = (
    λ h. elim h [
      | inl (n, c) ↦ inr (Any-Fits l4proto x tcp_transport ports n ((covers tcp_transport).0 c))
      | inr h2 ↦ elim h2 [
        | inl (n, c) ↦ inr (Any-Fits l4proto x udp_transport ports n ((covers udp_transport).0 c))
        | inr h3 ↦ elim h3 [
          | inl (n, c) ↦
              inr (Any-Fits l4proto x sctp_transport ports n ((covers sctp_transport).0 c))
          | inr all ↦ inl (sym e ∙ all)
        ]
      ]
    ],
    λ h. elim h [
      | inl all ↦ inr (inr (inr (e ∙ all)))
      | inr some_ ↦ by_transport (Fits-transport l4proto x ports some_)
    ],
  )
    where
      by_transport :
          (t : Transport) × (l4proto ≡ number_of t)
            × Any (λ p. (transport_of p.protocol ≡ t) × Admits p x) ports
          → AnyHit lib step sets l4proto x ev els b
      by_transport (tcp_transport, n, a) = inl (n, (covers tcp_transport).1 a)
      by_transport (udp_transport, n, a) = inr (inl (n, (covers udp_transport).1 a))
      by_transport (sctp_transport, n, a) = inr (inr (inl (n, (covers sctp_transport).1 a)))
