-- ===== src/Packets/Rules.antt =====
-- What each kind of rule does to a packet.
use multi_networkpolicy_nfta.Packets.{
  Vm, Step, word, Evaluates, goes_on, decided, run_exprs, run_rule,
}
use multi_networkpolicy_nfta.Packets.Marks.{
  remark, set_port_bit, reset_bits, remark-lt, both_bits, match_mark_iff,
}
use multi_networkpolicy_nfta.Nft.{NftSet, jump, return, Expr, counter, Libraries}
use multi_networkpolicy_nfta.Fields.{
  port_rule_mark, match_rule_mark, zero_rule_mark, complement32, jump_exprs, set_mark_exprs,
  check_mark_exprs,
}
use multi_networkpolicy_nfta.Marks.{mark_reset_exprs}
use multi_networkpolicy_nfta.Ports.{proto_ports_exprs, accept_all_exprs}
use multi_networkpolicy_nfta.Base.{
  if◌then◌else◌, Bool-cases, Bytes, eq_bytes, eq_bytes_iff, ℕ, ◌≤◌, ◌<◌, ◌≡◌, refl, ap, ◌∙◌, inl,
  inr, Bool, true, false, ◌&&◌, List, [], ◌∷◌, ◌++◌, arith,
}

module _ (lib : Libraries) (step : Expr → Vm → Step) (sets : Bytes → Bytes → Bool)
    (l4proto dport : Bytes) (ev : Evaluates lib step sets l4proto dport) where
  run_set_mark :
      (mask xor m : ℕ) (register : Bytes) (rest : List Expr)
      → m < word
      → mask < word
      → xor < word
      → run_exprs step
          (set_mark_exprs ⦃lib = lib⦄ mask xor ++ rest)
          (record { register = register; mark = m })
        ≡ run_exprs step rest
            (record { register = lib.native_uint32 (remark mask xor m); mark = remark mask xor m })
  run_set_mark mask xor m register rest h k l =
      let vm0 : Vm = record { register = register; mark = m } in
      let vm1 : Vm = record { register = lib.native_uint32 m; mark = m } in
      let vm2 : Vm = record { register = lib.native_uint32 (remark mask xor m); mark = m } in
      rw (ev.loads_mark vm0, run_exprs)
        (rw (ev.combines vm1 m mask xor h k l refl, run_exprs)
          (rw (ev.stores_mark vm2 (remark mask xor m) (remark-lt mask xor m h l) refl, run_exprs)
            refl))

  -- A rule that counts and then sets bits of the mark.
  pub run_accept_all :
      (mark m : ℕ)
      → m < word
      → 1 ≤ mark
      → mark < word
      → run_rule step (accept_all_exprs ⦃lib = lib⦄ mark) m
        ≡ goes_on (remark (complement32 mark) mark m)
  unfolding accept_all_exprs
  run_accept_all mark m h one k =
      rw (ev.counts (record { register = []; mark = m }) 0 0, run_exprs)
        (run_set_mark (complement32 mark) mark m [] [] h (omega arith) k)

  pub run_mark_reset :
      (m : ℕ) → m < word → run_rule step (mark_reset_exprs ⦃lib = lib⦄) m ≡ goes_on (reset_bits m)
  unfolding mark_reset_exprs
  run_mark_reset m h =
      run_set_mark (complement32 match_rule_mark) zero_rule_mark m [] (counter 0 0 ∷ []) h
        (omega arith) (omega arith)
      ∙ rw
          (
            ev.counts (record { register = lib.native_uint32 (reset_bits m); mark = reset_bits m })
                0 0,
            run_exprs,
          )
          refl

  pub run_jump :
      (target : Bytes) (m : ℕ) → run_rule step (jump_exprs target) m ≡ decided jump target m
  run_jump target m =
      let vm : Vm = record { register = []; mark = m } in
      rw (ev.counts vm 0 0, run_exprs) (rw (ev.gives_verdict vm jump target, run_exprs) refl)

  -- the rule of one protocol of a policy's ports
  pub run_proto_ports :
      (set : NftSet) (unix_proto : Bytes) (m : ℕ)
      → m < word
      → run_rule step (proto_ports_exprs ⦃lib = lib⦄ set unix_proto) m
        ≡ goes_on (if eq_bytes l4proto unix_proto && sets set.name dport then set_port_bit m else m)
  unfolding proto_ports_exprs
  run_proto_ports set unix_proto m h =
      let vm0 : Vm = record { register = []; mark = m } in
      let vm1 : Vm = record { register = l4proto; mark = m } in
      let vm2 : Vm = record { register = dport; mark = m } in
      rw (ev.loads_l4proto vm0, run_exprs)
        (rw (ev.compares vm1 unix_proto, run_exprs)
          (elim (Bool-cases (eq_bytes l4proto unix_proto)) [
            | inr other_proto ↦ rw (other_proto, run_exprs) refl
            | inl same ↦
                rw (same, run_exprs)
                  (rw (ev.loads_dport vm1, run_exprs)
                    (rw (ev.looks_up vm2 set.name set.id, run_exprs)
                      (elim (Bool-cases (sets set.name dport)) [
                        | inr outside ↦ rw (outside, run_exprs) refl
                        | inl inside ↦
                            rw (inside, run_exprs)
                              (rw (ev.counts vm2 0 0, run_exprs)
                                (run_set_mark (complement32 port_rule_mark) port_rule_mark m dport
                                  [] h (omega arith) (omega arith)))
                      ])))
          ]))

  -- the bytes that are compared
  abbrev same_bytes : ℕ → Bool
  same_bytes m =
      eq_bytes (lib.native_uint32 (remark match_rule_mark zero_rule_mark m))
        (lib.native_uint32 match_rule_mark)

  same_word : (m : ℕ) → both_bits m ≡ true → same_bytes m ≡ true
  same_word m both =
      let masked = lib.native_uint32 (remark match_rule_mark zero_rule_mark m) in
      (eq_bytes_iff masked (lib.native_uint32 match_rule_mark)).1
        (ap lib.native_uint32 ((match_mark_iff m).1 both))

  other_word : (m : ℕ) → m < word → both_bits m ≡ false → same_bytes m ≡ false
  other_word m h not_both = elim (Bool-cases (same_bytes m)) [
    | inr differs ↦ differs
    | inl same ↦
        let masked = remark match_rule_mark zero_rule_mark m in
        let e =
          (eq_bytes_iff (lib.native_uint32 masked) (lib.native_uint32 match_rule_mark)).0 same in
        let lt = remark-lt match_rule_mark zero_rule_mark m h (omega arith) in
        let both =
          (match_mark_iff m).0 (ev.words_differ masked match_rule_mark lt (omega arith) e) in
        absurd (ground (arith, both, not_both))
  ]

  -- a packet with both bits returns, another one goes on, and the mark stays as it is
  pub run_check_mark :
      (m : ℕ)
      → m < word
      → run_rule step (check_mark_exprs ⦃lib = lib⦄) m
        ≡ (if both_bits m then decided return [] m else goes_on m)
  run_check_mark m h =
      let vm0 : Vm = record { register = []; mark = m } in
      let vm1 : Vm = record { register = lib.native_uint32 m; mark = m } in
      let masked = remark match_rule_mark zero_rule_mark m in
      let vm2 : Vm = record { register = lib.native_uint32 masked; mark = m } in
      rw (ev.loads_mark vm0, run_exprs)
        (rw
          (
            ev.combines vm1 m match_rule_mark zero_rule_mark h (omega arith) (omega arith) refl,
            run_exprs,
          )
          (rw (ev.compares vm2 (lib.native_uint32 match_rule_mark), run_exprs)
            (elim (Bool-cases (both_bits m)) [
              | inl both ↦
                  rw (same_word m both, both, run_exprs)
                    (rw (ev.counts vm2 0 0, run_exprs)
                      (rw (ev.gives_verdict vm2 return [], run_exprs) refl))
              | inr not_both ↦ rw (other_word m h not_both, not_both, run_exprs) refl
            ])))
