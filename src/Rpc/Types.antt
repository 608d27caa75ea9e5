-- ===== src/Rpc/Types.antt =====
-- msg_type.hxx: the numbers of the message types.
use cornerstone.Common.{ℕ, ◌≡◌, refl, arith, IsByte, List, [], ◌∷◌, get_elem?, none, some}
use cornerstone.Raft.Types.{MsgType}

unfoldable pub type_byte : MsgType → ℕ
type_byte MsgType.request_vote_request = 1
type_byte MsgType.request_vote_response = 2
type_byte MsgType.append_entries_request = 3
type_byte MsgType.append_entries_response = 4
type_byte MsgType.client_request = 5
type_byte MsgType.add_server_request = 6
type_byte MsgType.add_server_response = 7
type_byte MsgType.remove_server_request = 8
type_byte MsgType.remove_server_response = 9
type_byte MsgType.sync_log_request = 10
type_byte MsgType.sync_log_response = 11
type_byte MsgType.join_cluster_request = 12
type_byte MsgType.join_cluster_response = 13
type_byte MsgType.leave_cluster_request = 14
type_byte MsgType.leave_cluster_response = 15
type_byte MsgType.install_snapshot_request = 16
type_byte MsgType.install_snapshot_response = 17
type_byte (MsgType.unnamed b) = b

-- The types by their numbers; the enum begins at 1.
abbrev type_table : List MsgType
type_table =
    MsgType.unnamed 0
    ∷ MsgType.request_vote_request
    ∷ MsgType.request_vote_response
    ∷ MsgType.append_entries_request
    ∷ MsgType.append_entries_response
    ∷ MsgType.client_request
    ∷ MsgType.add_server_request
    ∷ MsgType.add_server_response
    ∷ MsgType.remove_server_request
    ∷ MsgType.remove_server_response
    ∷ MsgType.sync_log_request
    ∷ MsgType.sync_log_response
    ∷ MsgType.join_cluster_request
    ∷ MsgType.join_cluster_response
    ∷ MsgType.leave_cluster_request
    ∷ MsgType.leave_cluster_response
    ∷ MsgType.install_snapshot_request
    ∷ MsgType.install_snapshot_response
    ∷ []

unfoldable pub msg_type_of : ℕ → MsgType
msg_type_of b = elim (get_elem? type_table b) [ none ↦ MsgType.unnamed b | some t ↦ t ]

-- A message type that the code names.
abbrev pub IsNamed : MsgType → Type 0
IsNamed (MsgType.unnamed b) = ⊥
IsNamed _ = Unit

pub msg_type_of-type_byte : (t : MsgType) → IsNamed t → msg_type_of (type_byte t) ≡ t
unfolding msg_type_of type_byte
msg_type_of-type_byte (MsgType.unnamed b) h = absurd h
msg_type_of-type_byte _ h = refl

pub type_byte-IsByte : (t : MsgType) → IsNamed t → IsByte (type_byte t)
unfolding type_byte
type_byte-IsByte (MsgType.unnamed b) h = absurd h
type_byte-IsByte _ h = omega arith
