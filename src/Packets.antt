-- ===== src/Packets.antt =====
-- What the daemon's expressions do to a packet, as nft(8) and the kernel's documentation describe
-- them: the reference for the theorems about whole chains. The evaluation of a single expression is
-- a parameter, of which a few laws are assumed.
pub mod Marks
pub mod Rules
pub mod Chain
pub mod Effects
pub mod Empty
pub mod Admitted
pub mod PortCall
pub mod PortChain
pub mod PortMatch
pub mod PortRules
pub mod PortSends
pub mod RuleCall
pub mod RuleSends
pub mod Adds
pub mod RuleChains
pub mod Admission
pub mod ListSends
pub mod ListChains
pub mod ListAdmission
pub mod PodSends
pub mod PodCall
pub mod PolicyAdmission
pub mod PodVerdict
pub mod Entry
pub mod DirectionChains
pub mod DirectionAdmission
pub mod DirectionVerdict
pub mod Apart
pub mod DirectionSends
mod DirectionSamples
mod PodSamples
mod Samples
use Prim.Native.Nat.{bit_and, bit_xor}
use multi_networkpolicy_nfta.Nft.{
  key_l4proto, key_mark, VerdictKind, cmp_eq, transport_header, Expr, meta, lookup, verdict, cmp,
  payload, bitwise, counter, Libraries,
}
use multi_networkpolicy_nfta.Base.{
  if◌then◌else◌, Bytes, eq_bytes, ℕ, ◌^◌, ◌<◌, ◌≡◌, Bool, true, false, List, [], ◌∷◌,
}

-- What the evaluation of a rule changes: the register that the daemon uses, and the packet's mark.
pub record Vm : Type 0 where
  pub register : Bytes
  pub mark : ℕ

-- an expression passes to the next one, breaks off its rule, or gives a verdict
pub data Step : Type 0 where
  next : Vm → Step
  no_match : Step
  decides : VerdictKind → Bytes → Step

abbrev pub word : ℕ
word = 2 ^ 32

-- The expressions for one packet. `sets` says which keys the named sets hold; `l4proto` and `dport`
-- are the protocol and the destination port of the packet.
pub record Evaluates (lib : Libraries) (step : Expr → Vm → Step) (sets : Bytes → Bytes → Bool)
    (l4proto dport : Bytes) : Type 0 where
  pub loads_mark :
      (vm : Vm)
      → step (meta key_mark false 1) vm ≡ next (record vm { register = lib.native_uint32 vm.mark })
  pub stores_mark :
      (vm : Vm) (m : ℕ)
      → m < word
      → vm.register ≡ lib.native_uint32 m
      → step (meta key_mark true 1) vm ≡ next (record vm { mark = m })
  pub combines :
      (vm : Vm) (m mask xor : ℕ)
      → m < word
      → mask < word
      → xor < word
      → vm.register ≡ lib.native_uint32 m
      → step (bitwise 1 1 4 (lib.native_uint32 mask) (lib.native_uint32 xor)) vm
        ≡ next (record vm { register = lib.native_uint32 (bit_xor (bit_and m mask) xor) })
  pub compares :
      (vm : Vm) (operand : Bytes)
      → step (cmp cmp_eq 1 operand) vm
        ≡ (if eq_bytes vm.register operand then next vm else no_match)
  pub counts : (vm : Vm) (b p : ℕ) → step (counter b p) vm ≡ next vm
  pub gives_verdict :
      (vm : Vm) (kind : VerdictKind) (target : Bytes)
      → step (verdict kind target) vm ≡ decides kind target
  pub loads_l4proto :
      (vm : Vm) → step (meta key_l4proto false 1) vm ≡ next (record vm { register = l4proto })
  pub loads_dport :
      (vm : Vm) → step (payload transport_header 1 2 2) vm ≡ next (record vm { register = dport })
  pub looks_up :
      (vm : Vm) (name : Bytes) (id : ℕ)
      → step (lookup name id 1) vm ≡ (if sets name vm.register then next vm else no_match)
  -- binaryutil.NativeEndian.PutUint32 gives different bytes for different numbers
  pub words_differ :
      (a b : ℕ) → a < word → b < word → lib.native_uint32 a ≡ lib.native_uint32 b → a ≡ b

-- A rule leaves its packet to the next rule, or decides; in both cases with a mark.
pub data RuleEnd : Type 0 where
  goes_on : ℕ → RuleEnd
  decided : VerdictKind → Bytes → ℕ → RuleEnd

module _ (step : Expr → Vm → Step) where
  abbrev pub run_exprs : List Expr → Vm → RuleEnd
  run_exprs [] vm = goes_on vm.mark
  run_exprs (e ∷ es) vm = elim (step e vm) [
    | next vm' ↦ run_exprs es vm'
    | no_match ↦ goes_on vm.mark
    | decides kind target ↦ decided kind target vm.mark
  ]

  -- a rule, for a packet with a mark
  abbrev pub run_rule : List Expr → ℕ → RuleEnd
  run_rule es mark = run_exprs es (record { register = []; mark = mark })
