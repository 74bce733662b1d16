-- ===== src/Cri.antt =====
-- The connection to the container runtime: GetCriRuntimeClientWithContext of pkg/controllers/pod.go,
-- with RuntimeKind, the value of the option that names the runtime.
pub mod Waiting
mod Samples
use multi_networkpolicy_nfta.Base.{
  leb, ◌==◌, if◌then◌else◌, Bytes, codes, eq_bytes, invalid_runtime, not_ready, Result, ok, err, ℕ,
  zero, suc, ◌+◌, Bool, true, false, not, ◌&&◌, Option, none, some, List, [], ◌∷◌, ◌++◌,
}

-- connectivity.State
pub data ConnState : Type 0 where
  idle connecting ready transient_failure shut_down : ConnState

-- GetAddressAndDialer of k8s.io/cri-client, grpc.NewClient, and what each round of the loop sees of
-- a connection: GetState, and whether WaitForStateChange returned true. Connections are numbered.
pub record Grpc : Type 0 where
  pub get_address : Bytes → Result Bytes
  pub new_client : Bytes → Result ℕ
  pub get_state : ℕ → ℕ → ConnState
  pub state_changes : ℕ → ℕ → Bool

abbrev is_ready : ConnState → Bool
is_ready ready = true
is_ready _ = false

module _ ⦃g : Grpc⦄ where
  -- The loop from a round on: whether the connection became ready. No value where the rounds of
  -- `fuel` have passed; the context ends after 30 seconds, so that a wait is refused.
  unfoldable pub wait_ready : ℕ → ℕ → ℕ → Option Bool
  wait_ready zero round conn = none
  wait_ready (suc fuel) round conn =
      let later = wait_ready fuel (suc round) conn in
      if is_ready (g.get_state conn round)
      then some true
      else if not (g.state_changes conn round)
      then some false
      else later

  -- the result, and the connections that were closed again
  after_wait : ℕ → Option Bool → Option (Result ℕ × List ℕ)
  after_wait conn none = none
  after_wait conn (some true) = some (ok conn, [])
  after_wait conn (some false) = some (err not_ready, conn ∷ [])

  unfoldable pub get_cri_runtime_client : ℕ → Bytes → Bytes → Option (Result ℕ × List ℕ)
  unfolding after_wait
  get_cri_runtime_client fuel runtime_endpoint host_prefix =
      elim (g.get_address (codes "unix://" ++ (host_prefix ++ runtime_endpoint))) [
        | err e ↦ some (err e, [])
        | ok addr ↦ elim (g.new_client (codes "passthrough:///" ++ addr)) [
          | err e ↦ some (err e, [])
          | ok conn ↦ after_wait conn (wait_ready fuel 0 conn)
        ]
      ]

abbrev pub cri_kind : Bytes
cri_kind = codes "cri"

-- strings.ToLower as far as its result can be a text in ASCII without k: the capital letters, and
-- the capital I with a dot, which is the bytes c4 b0
to_lower_text : Bytes → Bytes
to_lower_text [] = []
to_lower_text (a ∷ []) = (if leb b'A' a && leb a b'Z' then a + 32 else a) ∷ []
to_lower_text (a ∷ b ∷ s) =
    let rest = to_lower_text (b ∷ s) in
    let after_both = to_lower_text s in
    if a == 196 && b == 176
    then b'i' ∷ after_both
    else (if leb b'A' a && leb a b'Z' then a + 32 else a) ∷ rest

-- (*RuntimeKind).Set: the new value
unfoldable pub set_runtime_kind : Bytes → Result Bytes
unfolding to_lower_text
set_runtime_kind s =
    let runtime = to_lower_text s in
    if eq_bytes runtime cri_kind then ok runtime else err invalid_runtime
