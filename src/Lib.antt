-- ===== src/Lib.antt =====
-- The workspace protocol of enbu: who is trusted, which revisions of a resource count, and how the
-- revisions that several devices wrote at once become one content.
--
-- A workspace is a chain of Controls, signed lists of principals that begin at a trusted genesis. The
-- content of a resource is a graph of signed States, each naming the Control that its author saw and
-- the States it merged. All lie in a storage location that is not trusted: it may withhold, repeat or
-- invent objects. A device loads and verifies the Controls, loads the States against them, merges the
-- heads, and remembers on its disk what it accepted, so that storage cannot later show it less.
--
-- Prelude: numbers, byte strings, lists, maps and sorting, and Prelude.Walk, the worklist loop that
--   the graph and the membership check share, with the fuel that always suffices for it.
-- Outcome: Go's `(value, error)` results with the errors that callers tell apart.
-- Merge: pkg/merge/merge.go, the merge of secret maps.
-- Graph: pkg/wsp/dag.go, the graph of revisions.
-- Signing: pkg/signing/signing.go, keys, device ids and the check of a signature.
-- Storage: pkg/storage/storage.go, the answers that a load gets from a location; its children are
--   Naming, the names of objects and what a listing says, and Framing, the text of an object that a
--   single-file backend stores.
-- Masking: cli/mask.go, the output of a command with the secret values replaced.
-- Wsp: pkg/wsp/codec.go and the signed objects; its children are Members (control.go), Chain and
--   Membership (chain.go: LoadControl and MembershipUnbroken), Publishing (chain.go: new Controls),
--   Compacting (compaction.go), Revisions (state.go), Checkpoint (checkpoint.go), Trust (trust.go)
--   and Joining (join.go).
-- App: what a device decides on top of the protocol; its children are Reading (app/workspace.go:
--   loadResource), Heads (app/workspace.go: trustedHeads), Writing
--   (app/workspace.go: controlUnchanged and writeState), Accepting (app/workspace.go: acceptView and
--   acceptPublished), Merging (app/workspace.go: decrypt and mergeResource), Members (app/members.go:
--   pending requests, approving, removing, the admin flag, resolving a fork) and Compacting
--   (app/compact.go).
-- Tests: concrete runs.
--
-- A function keeps its name, spelled in lower case with underscores: `VerifyChild` is `verify_child`.
-- Digests and device ids are byte strings. What the program calls of other libraries (CBOR, JSON,
-- hashes, elliptic curves, the recipients' format) is the record `Protocol`, a `Codec` or `Crypto`,
-- and any values of these are allowed unless a theorem names what it relies on. Go's maps are
-- association lists; where Go ranges over a map in any order, the model takes the order of the list.
--
-- The loops over queues of revisions run on fuel: `walk` has one round for the first entry and one
-- for every parent edge, the passes over pending Controls and over compaction records have one round
-- more than there are entries, and LoadControl's and LoadStates' queues are bounded by the source's
-- own limits on what they try.
--
-- The masker's loop takes a value off the text in each round, so a round for each byte and one more
-- are enough. The queue of trustedHeads has a round for every head and every parent once, that of
-- keptRevisions for the floor and every edge once, and publishCompaction one for each revision.
-- loadResource and acceptPublished end within the source's own limit on their attempts;
-- storage and the checkpoint's file may answer otherwise in each of them.
--
-- Not modelled: of the operations of app, re-encryption after a change of the members, and the
-- history; the storage backends, file locks and atomic renames, key storage and hardware keys, login,
-- configuration, the rest of the command line and the desktop app, which are input and output or
-- bindings; and the memo table of MembershipUnbroken, which only saves work.
pub mod Prelude
pub mod Merge
pub mod Graph
pub mod Outcome
pub mod Signing
pub mod Storage
pub mod Wsp
pub mod Masking
pub mod App
pub mod Tests
