-- ===== src/Cri/Samples.antt =====
-- A connection that is ready in its third round, and one whose wait is refused in the second.
use multi_networkpolicy_nfta.Cri.{
  idle, connecting, ready, Grpc, wait_ready, get_cri_runtime_client, cri_kind, set_runtime_kind,
}
use multi_networkpolicy_nfta.Cri.Waiting.{Seen, get_cri_runtime_client-ends}
use multi_networkpolicy_nfta.Base.{
  ◌==◌, if◌then◌else◌, codes, not_ready, ok, err, ◌≡◌, refl, inl, Bool, true, not, some, [], ◌∷◌,
}

abbrev slow : Grpc
slow = record {
  get_address = λ endpoint. ok endpoint;
  new_client = λ target. ok 5;
  get_state = λ conn round. if round == 2 then ready else connecting;
  state_changes = λ conn round. true;
}

abbrev dead : Grpc
dead = record slow {
  state_changes = λ conn round. not (round == 1);
  get_state = λ conn round. idle;
}

dead_connection :
    get_cri_runtime_client ⦃g = dead⦄ 9 (codes "/run/cri.sock") [] ≡ some (err not_ready, 5 ∷ [])
unfolding get_cri_runtime_client wait_ready
dead_connection = refl

capital_dotted_i : set_runtime_kind (b'C' ∷ b'r' ∷ 196 ∷ 176 ∷ []) ≡ ok cri_kind
unfolding set_runtime_kind
capital_dotted_i = refl

get_cri_runtime_client-ends_example :
    (b : Bool) × Seen ⦃g = slow⦄ 5 b
    × (get_cri_runtime_client ⦃g = slow⦄ 3 (codes "/run/cri.sock") (codes "/host")
        ≡ some (if b then (ok 5, []) else (err not_ready, 5 ∷ [])))
get_cri_runtime_client-ends_example =
    get_cri_runtime_client-ends ⦃g = slow⦄ 2 5 (codes "/run/cri.sock") (codes "/host")
      (codes "unix:///host/run/cri.sock") refl refl (inl refl)
