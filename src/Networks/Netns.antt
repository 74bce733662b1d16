-- ===== src/Networks/Netns.antt =====
-- The network namespace of a pod: GetPodNetNSPathWithContext and selectContainerID of
-- pkg/controllers/netns.go, with CheckNodeNameIdentical of pkg/utils/node.go.
use multi_networkpolicy_nfta.Networks.{
  Json, json_number, json_object, Members, no_members, member, PodLibraries,
}
use multi_networkpolicy_nfta.Cluster.{ContainerStatus, Pod}
use multi_networkpolicy_nfta.Base.{
  leb, ltb, ◌==◌, ℤ, pos, negsuc, ℕ, suc, true, ◌+◌, ◌*◌, ◌-◌, ◌/◌, ◌%◌, ◌^◌, bad_status_info,
  not_an_object, if◌then◌else◌, drop_first, is_empty, Bytes, codes, eq_bytes, has_prefix,
  split_byte, decimal, not_running, no_container_status, no_container_id, bad_container_id, Result,
  ok, err, Bool, not, ◌&&◌, Option, none, some, List, [], ◌∷◌, ◌++◌,
}

abbrev first_part : List Bytes → Bytes
first_part [] = []
first_part (w ∷ _) = w

unfoldable pub check_node_name_identical : Bytes → Bytes → Bool
check_node_name_identical s1 s2 =
    eq_bytes (first_part (split_byte b'.' s1)) (first_part (split_byte b'.' s2))

-- the two loops
unfoldable pub running_id : List ContainerStatus → Option Bytes
running_id [] = none
running_id (s ∷ rest) =
    if not (is_empty s.container_id) && s.running then some s.container_id else running_id rest

any_id : List ContainerStatus → Bytes
any_id [] = []
any_id (s ∷ rest) = if not (is_empty s.container_id) then s.container_id else any_id rest

unfoldable pub select_container_id : List ContainerStatus → Bytes
unfolding running_id any_id
select_container_id statuses = elim (running_id statuses) [ some id ↦ id | none ↦ any_id statuses ]

-- the part behind the first "://", where there is one
after_scheme : Bytes → Option Bytes
after_scheme [] = none
after_scheme (c ∷ s) =
    if has_prefix (c ∷ s) (codes "://") then some (drop_first 3 (c ∷ s)) else after_scheme s

-- the value of a key in a map, where a later one has replaced an earlier one
member_at : Bytes → Members → Option Json
member_at key no_members = none
member_at key (member k v ms) = elim (member_at key ms) [
  | some w ↦ some w
  | none ↦ if eq_bytes k key then some v else none
]

-- `int(f)` for a float64: the number without its fraction. Outside of the 64 bits the result is the
-- one of amd64.
abbrev float_magnitude : ℕ → ℕ
float_magnitude bits =
    let e = bits / 2 ^ 52 % 2048 in
    let m = 2 ^ 52 + bits % 2 ^ 52 in
    if ltb e 1023 then 0 else if ltb 1075 e then m * 2 ^ (e - 1075) else m / 2 ^ (1075 - e)

abbrev signed : Bool → ℕ → ℤ
signed true (suc n) = negsuc n
signed _ n = pos n

float_to_int : ℕ → ℤ
float_to_int bits =
    let n = float_magnitude bits in
    if leb (2 ^ 63) n then negsuc (2 ^ 63 - 1) else signed (bits / 2 ^ 63 % 2 == 1) n

-- `%d`
abbrev decimal_int : ℤ → Bytes
decimal_int (pos n) = decimal n
decimal_int (negsuc n) = b'-' ∷ decimal (suc n)

-- `infop.(map[string]interface{})["pid"].(float64)`: the first assertion panics where the text is no
-- object, the second reports that there is no number
pid_of : Json → Result ℤ
unfolding member_at float_to_int
pid_of (json_object ms) = elim (member_at (codes "pid") ms) [
  | some (json_number bits) ↦ ok (float_to_int bits)
  | some _ ↦ err bad_status_info
  | none ↦ err bad_status_info
]
pid_of _ = err not_an_object

module _ ⦃pl : PodLibraries⦄ where
  container_path : Option Bytes → Result Bytes
  unfolding pid_of
  container_path none = err bad_container_id
  container_path (some id) =
      if is_empty id then err bad_container_id else elim (pl.container_status id) [
        | err e ↦ err e
        | ok info ↦ elim (pl.unmarshal info) [
          | err e ↦ err e
          | ok value ↦ elim (pid_of value) [
            | err e ↦ err e
            | ok pid ↦ ok (codes "/proc/" ++ (decimal_int pid ++ codes "/ns/net"))
          ]
        ]
      ]

  -- GetPodNetNSPathWithContext, with a CRI client
  unfoldable pub get_pod_net_ns_path : Pod → Result Bytes
  unfolding container_path after_scheme
  get_pod_net_ns_path pod =
      if not (eq_bytes pod.phase (codes "Running"))
      then err not_running
      else if is_empty pod.container_statuses
      then err no_container_status
      else (let id = select_container_id pod.container_statuses in
          if is_empty id then err no_container_id else container_path (after_scheme id))
