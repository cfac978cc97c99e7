-- ===== src/Tests/Protocols.antt =====
-- A small protocol for the tests: digests are the bytes themselves, every signature of 64 bytes is
-- valid, and each kind of object has the few encodings that the tests use.
use enbu.Prelude.{ℕ, Bytes, bytes, ◌==◌, true, none, some, [], ◌∷◌, ◌++◌, if◌then◌else◌}
use enbu.Outcome.{ok, err, not_found}
use enbu.Storage.{Store}
use enbu.Signing.{Crypto, PublicKey, ed25519}
use enbu.Wsp.{Principal, Control, State, Codec, Protocol}

abbrev pub eight : Bytes → Bytes
eight x = x ++ x ++ x ++ x ++ x ++ x ++ x ++ x

abbrev pub id : Bytes
id = eight (bytes "abcdef01")

abbrev pub key : PublicKey
key = record { alg = ed25519; key = bytes "abcdefghijklmnopqrstuvwxyz012345" }

abbrev pub sig : Bytes
sig = eight (bytes "00000000")

abbrev pub crypto : Crypto
crypto = record {
  sha256_hex = λ b. id;
  on_curve = λ b. true;
  ed25519_verify = λ k m s. true;
  ecdsa_verify = λ k m r s. true;
  curve_order = 10;
}

abbrev pub founder : Principal
founder = record { id = id; signing = key; recipient = bytes "age1"; admin = true }

abbrev pub root_blob : Bytes
root_blob = bytes "g"

abbrev pub child_blob : Bytes
child_blob = bytes "h"

abbrev pub root : Control
root = record {
  workspace = bytes "w";
  parents = [];
  height = 0;
  principals = founder ∷ [];
  author = id;
}

abbrev pub next : Control
next = record {
  workspace = bytes "w";
  parents = root_blob ∷ [];
  height = 1;
  principals = founder ∷ [];
  author = id;
}

abbrev pub state_blob : Bytes
state_blob = bytes "s"

abbrev pub state : State
state = record {
  workspace = bytes "w";
  resource = bytes "secrets/prod";
  parents = [];
  control = root_blob;
  ciphertext = bytes "c";
  author = id;
  created_at = 0;
}

abbrev pub no_codec : {A : Type 0} → Codec A
no_codec = record { marshal = λ a. none; unmarshal = λ b. none }

abbrev pub toy : Protocol
toy = record {
  crypto = crypto;
  digest_of = λ b. b;
  digest_valid = λ d. true;
  recipient_valid = λ r. true;
  signed_codec = record {
    marshal = λ s. some s.body;
    unmarshal = λ b. some (record { body = b; signature = sig });
  };
  control_codec = record {
    marshal = λ c. some (elim c.height [ ℕ.zero ↦ root_blob | ℕ.suc n ↦ child_blob ]);
    unmarshal =
        λ b. if b == root_blob then some root else if b == child_blob then some next else none;
  };
  state_codec = record {
    marshal = λ s. some state_blob;
    unmarshal = λ b. if b == state_blob then some state else none;
  };
  join_codec = no_codec;
  compaction_codec = no_codec;
}

-- The genesis and one successor.
abbrev pub store : Store
store = record {
  discover = λ kind scope. ok (root_blob ∷ child_blob ∷ []);
  fetch_head = λ kind scope rev.
      if rev == root_blob
      then ok root_blob
      else if rev == child_blob
      then ok child_blob
      else err not_found;
  open_blob = λ kind scope rev. err not_found;
}
