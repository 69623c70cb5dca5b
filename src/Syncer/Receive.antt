-- ===== src/Syncer/Receive.antt =====
-- syncer/receiver.go: the handlers of the messages that bring hashes and blocks, which handler a
-- message goes to, and the handlers that others register. A handler takes the message that the JSON
-- text holds; one is a number here, its `Id()`.
use naive_vite.Base.{ℕ, List, [], ◌∷◌, ◌==◌, if◌then◌else◌, Table, insert, remove}
use naive_vite.Base.Int.{ℤ}
use naive_vite.Types.{Hash, Address, HashHeight, AccountStateBlock, SnapshotBlock}
use naive_vite.Syncer.{Net, Sent}
use naive_vite.Syncer.Retry.{DefaultRetryPolicy}
use naive_vite.Syncer.Fetch.{fetch_snapshot_block_by_hash, fetch_account_block_by_hash, fetch_done}

-- `common.NetMsgType`
pub data NetMsgType : Type 0 where
  peer_connected peer_closed state : NetMsgType
  request_account_hash request_snapshot_hash request_account_blocks request_snapshot_blocks :
      NetMsgType
  account_hashes snapshot_hashes account_blocks snapshot_blocks : NetMsgType

abbrev pub number : NetMsgType → ℕ
number peer_connected = 1
number peer_closed = 2
number state = 101
number request_account_hash = 102
number request_snapshot_hash = 103
number request_account_blocks = 104
number request_snapshot_blocks = 105
number account_hashes = 121
number snapshot_hashes = 122
number account_blocks = 123
number snapshot_blocks = 124

-- `face.PoolWriter`, over the states `S` of the pools. The handlers drop the errors.
pub record PoolWriter (S : Type 0) : Type 0 where
  pub add_snapshot_block : S → SnapshotBlock → S
  pub add_account_block : S → Address → AccountStateBlock → S

module _ (net : Net) (join : Hash → ℤ → Hash) (now : ℕ) where
  unfoldable pub handle_snapshot_hashes :
      List HashHeight → DefaultRetryPolicy → Sent × DefaultRetryPolicy
  unfolding fetch_snapshot_block_by_hash
  handle_snapshot_hashes hashes p = fetch_snapshot_block_by_hash net join now hashes p

  unfoldable pub handle_account_hashes :
      Address → List HashHeight → DefaultRetryPolicy → Sent × DefaultRetryPolicy
  unfolding fetch_account_block_by_hash
  handle_account_hashes address hashes p = fetch_account_block_by_hash net join now address hashes p

  module _ {S : Type 0} (writer : PoolWriter S) where
    unfoldable pub handle_snapshot_blocks :
        List SnapshotBlock → S × DefaultRetryPolicy → S × DefaultRetryPolicy
    unfolding fetch_done
    handle_snapshot_blocks [] (s, p) = (s, p)
    handle_snapshot_blocks (b ∷ bs) (s, p) =
        handle_snapshot_blocks bs
          (writer.add_snapshot_block s b, fetch_done net join now b.hash b.height p)

    unfoldable pub handle_account_blocks :
        List AccountStateBlock → S × DefaultRetryPolicy → S × DefaultRetryPolicy
    unfolding fetch_done
    handle_account_blocks [] (s, p) = (s, p)
    handle_account_blocks (b ∷ bs) (s, p) =
        handle_account_blocks bs
          (writer.add_account_block s b.signer b, fetch_done net join now b.hash b.height p)

-- The handlers that `newReceiver` puts in, with their types.
pub data InnerHandler : Type 0 where
  account_hash_handler snapshot_hash_handler snapshot_blocks_handler account_blocks_handler :
      InnerHandler
  state_handler req_account_hash_handler req_snapshot_hash_handler : InnerHandler
  req_account_blocks_handler req_snapshot_blocks_handler : InnerHandler

-- The inner handlers of a type: each type has one.
unfoldable pub inner_handler : NetMsgType → InnerHandler
inner_handler peer_connected = state_handler
inner_handler peer_closed = state_handler
inner_handler state = state_handler
inner_handler request_account_hash = req_account_hash_handler
inner_handler request_snapshot_hash = req_snapshot_hash_handler
inner_handler request_account_blocks = req_account_blocks_handler
inner_handler request_snapshot_blocks = req_snapshot_blocks_handler
inner_handler account_hashes = account_hash_handler
inner_handler snapshot_hashes = snapshot_hash_handler
inner_handler account_blocks = account_blocks_handler
inner_handler snapshot_blocks = snapshot_blocks_handler

-- A registered handler: its types, and what stands for the rest of it.
pub record MsgHandler (H : Type 0) : Type 0 where
  pub id : ℕ
  pub types : List NetMsgType
  pub handler : H

abbrev pub Handlers : Type 0 → Type 0
Handlers H = NetMsgType → Table (MsgHandler H)

module _ {H : Type 0} where
  -- `append` for these types of the handler.
  unfoldable pub append_types : List NetMsgType → MsgHandler H → Handlers H → Handlers H
  append_types [] h hs = hs
  append_types (t ∷ ts) h hs =
      append_types ts h (λ u. if number u == number t then insert h.id h (hs u) else hs u)

  unfoldable pub register_handler : MsgHandler H → Handlers H → Handlers H
  unfolding append_types
  register_handler h hs = append_types h.types h hs

  unfoldable pub delete_types : List NetMsgType → MsgHandler H → Handlers H → Handlers H
  delete_types [] h hs = hs
  delete_types (t ∷ ts) h hs =
      delete_types ts h (λ u. if number u == number t then remove h.id (hs u) else hs u)

  unfoldable pub un_register_handler : MsgHandler H → Handlers H → Handlers H
  unfolding delete_types
  un_register_handler h hs = delete_types h.types h hs
