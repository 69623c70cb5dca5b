-- ===== src/Types.antt =====
-- common/types.go: the blocks of the two kinds of chain and what refers to them, and
-- common/face: the requests and events that pass between the components.
-- A Go string that the code only compares (a hash, an address) is a number, the empty string 0;
-- `nil` is `none`; a time is a number of nanoseconds since the epoch.
use naive_vite.Base.{ℕ, Bool, true, false, Option, none, some, List, ◌&&◌, ◌==◌}
use naive_vite.Base.Int.{ℤ, pos, ◌+ℤ◌, ◌==ℤ◌}

abbrev pub Hash : Type 0
Hash = ℕ

abbrev pub Address : Type 0
Address = ℕ

-- The string "".
abbrev pub empty_str : ℕ
empty_str = 0

pub record HashHeight : Type 0 where
  pub hash : Hash
  pub height : ℤ

pub record AccountHashH : Type 0 where
  pub hash : Hash
  pub height : ℤ
  pub addr : Address

unfoldable pub new_account_hash_h : Address → Hash → ℤ → AccountHashH
new_account_hash_h address hash height = record { hash = hash; height = height; addr = address }

pub record SnapshotPoint : Type 0 where
  pub snapshot_height : ℤ
  pub snapshot_hash : Hash
  pub account_height : ℤ
  pub account_hash : Hash

-- `self.Equals(peer)`, with `peer` not nil.
unfoldable pub equals : SnapshotPoint → SnapshotPoint → Bool
equals self peer =
    self.snapshot_hash == peer.snapshot_hash
    && self.snapshot_height ==ℤ peer.snapshot_height
    && self.account_height ==ℤ peer.account_height
    && self.account_hash == peer.account_hash

-- The Go type is an `int`: `unknown` stands for a value that is none of the three constants.
pub data BlockType : Type 0 where
  genesis send received : BlockType
  unknown : ℤ → BlockType

abbrev pub is_genesis : BlockType → Bool
is_genesis genesis = true
is_genesis _ = false

abbrev pub is_send : BlockType → Bool
is_send send = true
is_send _ = false

abbrev pub is_received : BlockType → Bool
is_received received = true
is_received _ = false

pub record AccountStateBlock : Type 0 where
  pub height : ℤ
  pub hash : Hash
  pub pre_hash : Hash
  pub signer : Address
  pub timestamp : ℤ
  pub amount : ℤ
  pub modified_amount : ℤ
  pub snapshot_height : ℤ
  pub snapshot_hash : Hash
  pub block_type : BlockType
  pub from : Address
  pub to : Address
  pub source_hash : Hash
  pub source_height : ℤ

pub record SnapshotBlock : Type 0 where
  pub height : ℤ
  pub hash : Hash
  pub pre_hash : Hash
  pub signer : Address
  pub timestamp : ℤ
  pub accounts : List AccountHashH

-- The block that follows `account_block` on its account's chain; its hash is set later.
unfoldable pub new_account_block_from :
    Option AccountStateBlock
    → Address
    → ℤ
    → ℤ
    → SnapshotBlock
    → BlockType
    → Address
    → Address
    → Hash
    → ℤ
    → AccountStateBlock
new_account_block_from last signer timestamp modified snapshot type from to source source_height =
    record {
      height = elim last [ none ↦ pos 1 | some b ↦ b.height +ℤ pos 1 ];
      hash = empty_str;
      pre_hash = elim last [ none ↦ empty_str | some b ↦ b.hash ];
      signer = signer;
      timestamp = timestamp;
      amount = elim last [ none ↦ modified | some b ↦ b.amount +ℤ modified ];
      modified_amount = modified;
      snapshot_height = snapshot.height;
      snapshot_hash = snapshot.hash;
      block_type = type;
      from = from;
      to = to;
      source_hash = source;
      source_height = source_height;
    }

pub record FetchRequest : Type 0 where
  pub chain : Address
  pub height : ℤ
  pub hash : Hash
  pub prev_cnt : ℤ

-- The calls that a chain makes on its `ChainListener`.
pub data ChainEvent : Type 0 where
  account_insert account_remove : Address → AccountStateBlock → ChainEvent
