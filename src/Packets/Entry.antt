-- ===== src/Packets/Entry.antt =====
-- What the jumps of the interfaces do to a packet on an entry chain.
use multi_networkpolicy_nfta.Packets.{
  Vm, Step, next, word, Evaluates, goes_on, decided, run_exprs, run_rule,
}
use multi_networkpolicy_nfta.Packets.Marks.{both_bits}
use multi_networkpolicy_nfta.Packets.Chain.{ChainEnd, falls, run_rules}
use multi_networkpolicy_nfta.Nft.{jump, Expr, meta, Libraries}
use multi_networkpolicy_nfta.Fields.{ifname, get_meta_key_interface}
use multi_networkpolicy_nfta.Cluster.{InterfaceInfo, on_policy_network}
use multi_networkpolicy_nfta.Packets.PodSends.{interface_exprs, entry_rules}
use multi_networkpolicy_nfta.Base.{
  if◌then◌else◌, Bool-cases, Any, Bytes, eq_bytes, eq_bytes_iff, ℕ, ◌<◌, ◌≡◌, refl, ◌∙◌, ◌↔◌, ◌⊎◌,
  inl, inr, Bool, true, false, List, [], ◌∷◌, ◌++◌, arith,
}

-- the packet's interface, as the kernel puts it into a register of sixteen bytes
pub record LoadsInterface (step : Expr → Vm → Step) (entry_name interface : Bytes) : Type 0 where
  pub loads :
      (vm : Vm)
      → step (meta (get_meta_key_interface entry_name) false 1) vm
        ≡ next (record vm { register = interface })

-- some interface of the pod is on a network of the policy and is the packet's one
abbrev pub Concerns : Bytes → List Bytes → List InterfaceInfo → Type 0
Concerns interface networks intfs =
    Any
      (λ intf. (on_policy_network intf networks ≡ true) × (interface ≡ ifname intf.interface_name))
      intfs

module _ (lib : Libraries) (step : Expr → Vm → Step) (sets : Bytes → Bytes → Bool) (l4proto : Bytes)
    (x : ℕ) (ev : Evaluates lib step sets l4proto (lib.big_uint16 x)) (entry_name interface : Bytes)
    (li : LoadsInterface step entry_name interface) where
  run_interface :
      (target : Bytes) (intf : InterfaceInfo) (m : ℕ)
      → run_rule step (interface_exprs ⦃lib = lib⦄ entry_name target intf) m ≡ (
          if eq_bytes interface (ifname intf.interface_name)
          then decided jump target m
          else goes_on m)
  run_interface target intf m =
      let vm0 : Vm = record { register = []; mark = m } in
      let vm1 : Vm = record { register = interface; mark = m } in
      let key = ifname intf.interface_name in
      rw (li.loads vm0, run_exprs)
        (rw (ev.compares vm1 key, run_exprs)
          (elim (Bool-cases (eq_bytes interface key)) [
            | inr other_one ↦ rw (other_one, run_exprs) refl
            | inl same ↦
                rw (same, run_exprs)
                  (rw (ev.counts vm1 0 0, run_exprs)
                    (rw (ev.gives_verdict vm1 jump target, run_exprs) refl))
          ]))

  -- the chain of a policy: it ends with both bits iff `hit`
  abbrev pub Judges : (Bytes → ℕ → ChainEnd) → Bytes → Type 0 → Type 0
  Judges jump_to target hit =
      (m : ℕ)
      → m < word
      → (both_bits m ≡ true → hit)
      → (m' : ℕ) × (m' < word) × ((both_bits m' ≡ true) ↔ hit) × (jump_to target m ≡ falls m')

  abbrev pub EntryEnd :
      (Bytes → ℕ → ChainEnd) → Bytes → List Bytes → List InterfaceInfo → Type 0 → ℕ → Type 0
  EntryEnd jump_to target networks intfs hit m =
      (m' : ℕ) × (m' < word)
      × ((both_bits m' ≡ true) ↔ ((both_bits m ≡ true) ⊎ (Concerns interface networks intfs × hit)))
      × ((more : List (List Expr))
          → run_rules step jump_to
              (entry_rules ⦃lib = lib⦄ entry_name target networks intfs ++ more) m
            ≡ run_rules step jump_to more m')

  -- an interface that the packet does not have
  skip_interface :
      (jump_to : Bytes → ℕ → ChainEnd) (target : Bytes) (networks : List Bytes)
      (intf : InterfaceInfo) (rest : List InterfaceInfo) (hit : Type 0) (m : ℕ)
      → ((on_policy_network intf networks ≡ true) × (interface ≡ ifname intf.interface_name) → ⊥)
      → ((more : List (List Expr))
          → run_rules step jump_to
              (entry_rules ⦃lib = lib⦄ entry_name target networks (intf ∷ rest) ++ more)
              m
            ≡ run_rules step jump_to
                (entry_rules ⦃lib = lib⦄ entry_name target networks rest ++ more)
                m)
      → EntryEnd jump_to target networks rest hit m
      → EntryEnd jump_to target networks (intf ∷ rest) hit m
  skip_interface jump_to target networks intf rest hit m no_this skips (m', lt', iff, runs) = (
    m',
    lt',
    (
      (λ b. elim (iff.0 b) [ inl q ↦ inl q | inr q ↦ inr (inr q.0, q.1) ]),
      λ b. iff.1 (elim b [
        | inl q ↦ inl q
        | inr q ↦ elim q.0 [ inl this ↦ absurd (no_this this) | inr r ↦ inr (r, q.1) ]
      ]),
    ),
    λ more. skips more ∙ runs more,
  )

  pub run_entry_rules :
      (jump_to : Bytes → ℕ → ChainEnd) (target : Bytes) (networks : List Bytes)
      (intfs : List InterfaceInfo) (hit : Type 0) (m : ℕ)
      → Judges jump_to target hit
      → m < word
      → (both_bits m ≡ true → hit)
      → EntryEnd jump_to target networks intfs hit m
  run_entry_rules jump_to target networks [] hit m judges lt guard =
      (m, lt, ((λ b. inl b), λ b. elim b [ inl q ↦ q | inr q ↦ absurd q.0 ]), λ more. refl)
  run_entry_rules jump_to target networks (intf ∷ rest) hit m judges lt guard =
      let key = ifname intf.interface_name in
      let es = λ (more : List (List Expr)).
        entry_rules ⦃lib = lib⦄ entry_name target networks rest ++ more in
      let one = run_interface target intf in
      let later = run_entry_rules jump_to target networks rest hit in
      elim (Bool-cases (on_policy_network intf networks)) [
        | inr off ↦
            skip_interface jump_to target networks intf rest hit m (λ q. ground (arith, off, q.0))
              (λ more. rw off refl) (later m judges lt guard)
        | inl on ↦ elim (Bool-cases (eq_bytes interface key)) [
          | inr other_one ↦
              skip_interface jump_to target networks intf rest hit m
                (λ q. ground (arith, other_one, (eq_bytes_iff interface key).1 q.1))
                (λ more. rw on (rw (one m, other_one, run_rules) refl)) (later m judges lt guard)
          | inl same ↦
              let (m1, lt1, iff1, jumped) = judges m lt guard in
              let (m', lt', iff, runs) = later m1 judges lt1 iff1.0 in
              let this : (on_policy_network intf networks ≡ true) × (interface ≡ key) =
                (on, (eq_bytes_iff interface key).0 same) in
              (
                m',
                lt',
                (
                  (λ b. inr (inl this, elim (iff.0 b) [ inl q ↦ iff1.0 q | inr q ↦ q.1 ])),
                  λ b. iff.1 (inl (iff1.1 (elim b [ inl q ↦ guard q | inr q ↦ q.1 ]))),
                ),
                λ more. rw on (rw (one m, same, run_rules) (rw (jumped, run_rules) (runs more))),
              )
        ]
      ]
