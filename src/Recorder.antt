-- ===== src/Recorder.antt =====
-- The recorder of netlink messages and the comparison of its records: pkg/nftest/nftest.go.
pub mod Compare
mod Samples
use Prim.Native.Nat.{bit_and}
use multi_networkpolicy_nfta.Base.{
  ltb, leb, ◌==◌, if◌then◌else◌, length, drop_first, Bytes, codes, eq_bytes, split_byte, decimal,
  hex_digits, Err, Result, ok, err, ℕ, suc, ◌+◌, ◌*◌, ◌%◌, ◌^◌, Bool, not, ◌&&◌, List, [], ◌∷◌,
  ◌++◌,
}

-- netlink.Message, with the fields of its header
pub record Message : Type 0 where
  pub msg_length : ℕ
  pub kind : ℕ
  pub flags : ℕ
  pub sequence : ℕ
  pub pid : ℕ
  pub payload : Bytes

-- mdlayher/netlink, google/nftables/binaryutil, and the text of an error
pub record Netlink : Type 0 where
  pub marshal_attribute : ℕ → Bytes → Bytes
  pub big_uint64 : ℕ → Bytes
  pub marshal_message : Message → Result Bytes
  pub error_text : Err → Bytes

pub record Recorder : Type 0 where
  pub requests : List Message
  pub next_handle : ℕ

unfoldable pub new_recorder : Recorder
new_recorder = record { requests = []; next_handle = 1 }

abbrev flag_acknowledge : ℕ
flag_acknowledge = 4

abbrev flag_echo : ℕ
flag_echo = 8

-- unix.NFNL_SUBSYS_NFTABLES << 8 | unix.NFT_MSG_NEWRULE
abbrev new_rule_type : ℕ
new_rule_type = 10 * 256 + 6

abbrev rule_handle_attribute : ℕ
rule_handle_attribute = 3

abbrev error_type : ℕ
error_type = 2

abbrev has_flag : ℕ → Message → Bool
has_flag flag msg = not (bit_and msg.flags flag == 0)

module _ ⦃n : Netlink⦄ where
  -- one reply, and the handle that is next
  reply_to : Message → ℕ → Message × ℕ
  reply_to msg next =
      if msg.kind == new_rule_type
      then (
        record msg {
          payload = msg.payload ++ n.marshal_attribute rule_handle_attribute (n.big_uint64 next);
        },
        suc next % 2 ^ 64,
      )
      else (msg, next)

  -- the first loop
  replies : List Message → ℕ → List Message × ℕ
  unfolding reply_to
  replies [] next = ([], next)
  replies (msg ∷ rest) next =
      let (reply, after_reply) = reply_to msg next in
      let (some_, end_) = replies rest after_reply in
      let skipped = replies rest next in
      if has_flag flag_echo msg then (reply ∷ some_, end_) else skipped

  -- the second loop
  acknowledgements : List Message → List Message
  acknowledgements [] = []
  acknowledgements (msg ∷ rest) =
      let others = acknowledgements rest in
      if has_flag flag_acknowledge msg
      then record {
        msg_length = 4;
        kind = error_type;
        flags = 0;
        sequence = msg.sequence;
        pid = msg.pid;
        payload = 0 ∷ 0 ∷ 0 ∷ 0 ∷ [];
      }
        ∷ others
      else others

  -- the function that Conn dials with
  unfoldable pub record_requests : List Message → Recorder → List Message × Recorder
  unfolding replies acknowledgements
  record_requests req r =
      let (answers, next) = replies req r.next_handle in
      (answers ++ acknowledgements req, record { requests = r.requests ++ req; next_handle = next })

-- `%02x` of a byte
abbrev hex_byte : ℕ → Bytes
hex_byte b = hex_digits 2 b

abbrev printable : ℕ → ℕ
printable b = if leb 32 b && ltb b 127 then b else b'.'

trailing_bytes : Bytes → Bytes
trailing_bytes [] = []
trailing_bytes (b ∷ s) = hex_byte b ++ (32 ∷ trailing_bytes s)

-- four bytes of a line, then what is left over
unfoldable pub nfdump : Bytes → Bytes
unfolding trailing_bytes
nfdump (a ∷ b ∷ c ∷ d ∷ s) =
    hex_byte a
    ++ (32
        ∷ (hex_byte b
            ++ (32
                ∷ (hex_byte c
                    ++ (32
                        ∷ (hex_byte d
                            ++ (32
                                ∷ 32
                                ∷ printable a
                                ∷ printable b
                                ∷ printable c
                                ∷ printable d
                                ∷ 10
                                ∷ nfdump s)))))))
nfdump s = trailing_bytes s

-- the loop over the lines of both
diff_lines : List Bytes → List Bytes → Bytes
diff_lines [] lines = []
diff_lines (a ∷ as_) [] = []
diff_lines (a ∷ as_) (b ∷ bs) =
    (if eq_bytes a b then codes "  " else codes "! ")
    ++ (a ++ (codes " -- " ++ (b ++ (10 ∷ diff_lines as_ bs))))

unfoldable pub linediff : Bytes → Bytes → Bytes
unfolding diff_lines
linediff a b = codes "got -- want" ++ (10 ∷ diff_lines (split_byte 10 a) (split_byte 10 b))

abbrev hex_text : Bytes → Bytes
hex_text [] = []
hex_text (b ∷ s) = hex_byte b ++ hex_text s

module _ ⦃n : Netlink⦄ where
  abbrev no_want : ℕ → Bytes → Bytes
  no_want idx b = codes "no want entry for message " ++ (decimal idx ++ (codes ": " ++ hex_text b))

  abbrev mismatch : ℕ → Bytes → Bytes → Bytes
  mismatch idx got want =
      codes "message " ++ (decimal idx ++ (codes ": " ++ linediff (nfdump got) (nfdump want)))

  -- the loop, from an index on; a message of less than 16 bytes is passed over
  diff_from : ℕ → List Message → List Bytes → Bytes
  diff_from idx [] want = []
  diff_from idx (msg ∷ got) [] =
      let skipped = diff_from (suc idx) got [] in
      elim (n.marshal_message msg) [
        | err e ↦ codes "msg.MarshalBinary: " ++ n.error_text e
        | ok b ↦ if ltb (length b) 16 then skipped else no_want idx (drop_first 16 b)
      ]
  diff_from idx (msg ∷ got) (w ∷ want) =
      let skipped = diff_from (suc idx) got (w ∷ want) in
      let next = diff_from (suc idx) got want in
      elim (n.marshal_message msg) [
        | err e ↦ codes "msg.MarshalBinary: " ++ n.error_text e
        | ok b ↦
            if ltb (length b) 16
            then skipped
            else if not (eq_bytes (drop_first 16 b) w)
            then mismatch idx (drop_first 16 b) w
            else next
      ]

  unfoldable pub diff : List Message → List Bytes → Bytes
  unfolding diff_from
  diff got want = diff_from 0 got want
