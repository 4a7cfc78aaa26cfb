-- ===== src/Node/TransferState.antt =====
-- core/src/files.rs: the state of file transfers. A decision that is sent to a waiter is an
-- effect of the node, so a waiter keeps nothing; a file being written is its path and the bytes
-- written through the handle, and a hasher is the bytes fed to it. Progress is due at `next_emit`,
-- the source's `last_emit` and 150 ms. Keys are the 16 bytes of a transfer id.
use mesh_chat.Prelude.{ℕ, Text, Bytes, []}
use mesh_chat.Prelude.Assoc.{Assoc}

pub data Decision : Type 0 where
  accept : Decision
  decline : Text → Decision

pub record PendingOffer : Type 0 where
  pub peer_id : Text
  pub peer_name : Text
  pub name : Text
  pub size : ℕ
  pub sha256 : Text

pub record ActiveIn : Type 0 where
  pub path : Text
  pub written : Bytes
  pub name : Text
  pub size : ℕ
  pub got : ℕ
  pub next_seq : ℕ
  pub hashed : Bytes
  pub expect_sha : Text
  pub peer_id : Text
  pub peer_name : Text
  pub next_emit : ℕ

pub record Transfers : Type 0 where
  pub waiters : Assoc (Unit {0})
  pub out_peer : Assoc Text
  pub offers : Assoc PendingOffer
  pub active : Assoc ActiveIn

abbrev pub no_transfers : Transfers
no_transfers = record { waiters = []; out_peer = []; offers = []; active = [] }
