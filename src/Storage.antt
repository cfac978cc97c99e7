-- ===== src/Storage.antt =====
-- pkg/storage/storage.go: what the protocol sees of a storage location. Storage is untrusted, and a
-- backend is not modelled: `Store` gives any answers to the reads of one load, `publish` any outcome.
pub mod Naming
pub mod Framing
use enbu.Prelude.{ℕ, Bytes, List, not, ltb, length}
use enbu.Outcome.{Result, ok, failed, guard, ◌>>=◌, ◌>>◌}
use enbu.Graph.{Digest}

pub data Kind : Type 0 where
  state control request compaction : Kind
  -- Any other text; Go's `Kind` is a string.
  unknown : Bytes → Kind

pub record Object : Type 0 where
  pub kind : Kind
  pub scope : Bytes
  pub rev : Digest
  pub head : Bytes
  pub blobs : List Bytes

-- The answers that a load gets. A load asks once for a listing and at most once for a revision, so
-- a function says all that storage can answer, a listing and heads that do not fit one another too.
pub record Store : Type 0 where
  pub discover : Kind → Bytes → Result (List Digest)
  pub fetch_head : Kind → Bytes → Digest → Result Bytes
  pub open_blob : Kind → Bytes → Digest → Result Bytes

abbrev pub max_payload_bytes : ℕ
max_payload_bytes = 10485760

-- `ReadBlob(ctx, s, kind, scope, rev, 0, limit)`, of the first blob of an object.
unfoldable pub read_blob : Store → Kind → Bytes → Digest → ℕ → Result Bytes
read_blob s kind scope rev limit = do
  content ← s.open_blob kind scope rev
  guard (not (ltb limit (length content))) failed
  ok content
