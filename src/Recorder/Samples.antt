-- ===== src/Recorder/Samples.antt =====
-- Two recorded messages, of which the first is too short for a header.
use multi_networkpolicy_nfta.Recorder.{
  Message, Netlink, new_recorder, record_requests, nfdump, diff,
}
use multi_networkpolicy_nfta.Recorder.Compare.{Begins, diff_iff}
use multi_networkpolicy_nfta.Base.{
  replicate, Bytes, codes, hex_digits, big_endian, ok, ℕ, ◌≡◌, refl, ◌↔◌, List, [], ◌∷◌, ◌++◌,
}

abbrev plain_netlink : Netlink
plain_netlink = record {
  marshal_attribute = λ kind value. kind ∷ value;
  big_uint64 = λ x. big_endian 8 x;
  marshal_message = λ msg. ok msg.payload;
  error_text = λ e. [];
}

abbrev message : ℕ → Bytes → Message
message flags payload = record {
  msg_length = 0;
  kind = 2566;
  flags = flags;
  sequence = 1;
  pid = 2;
  payload = payload;
}

abbrev sent_messages : List Message
sent_messages = message 4 [] ∷ message 12 (replicate 16 0 ++ (1 ∷ 2 ∷ [])) ∷ []

-- the second message has both flags: a reply with the handle 1 comes before the two acknowledgements
handles_count_up :
    (record_requests ⦃n = plain_netlink⦄ sent_messages new_recorder).1.next_handle ≡ 2
unfolding record_requests new_recorder
handles_count_up = refl

dump : nfdump (b'a' ∷ 0 ∷ 127 ∷ b'z' ∷ 255 ∷ []) ≡ codes "61 00 7f 7a  a..z\nff "
unfolding nfdump hex_digits
dump = refl

diff_iff_example :
    (diff ⦃n = plain_netlink⦄ sent_messages ((1 ∷ 2 ∷ []) ∷ (7 ∷ []) ∷ []) ≡ [])
    ↔ Begins ⦃n = plain_netlink⦄ sent_messages ((1 ∷ 2 ∷ []) ∷ (7 ∷ []) ∷ [])
diff_iff_example = diff_iff ⦃n = plain_netlink⦄ sent_messages ((1 ∷ 2 ∷ []) ∷ (7 ∷ []) ∷ [])
