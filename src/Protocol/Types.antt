-- ===== src/Protocol/Types.antt =====
-- The names of src/protocol/crypto/mod.rs and src/utils/mod.rs. A `Hash` is a U256 and a `NodeId`
-- a u64, each a number; a key or a signature is its bytes.
use cbox.Base.{ℕ, List}

abbrev pub Hash : Type 0
Hash = ℕ

abbrev pub NodeId : Type 0
NodeId = ℕ

abbrev pub PubKey : Type 0
PubKey = List ℕ

abbrev pub Signature : Type 0
Signature = List ℕ
