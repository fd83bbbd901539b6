-- ===== src/Lib.antt =====
-- SecGit: models and proofs of the core logic of the confidential git host. The host keeps every
-- repository encrypted under a data key of its own, which is wrapped under a key that the key
-- broker releases to an attested machine only; it keeps accounts, roles and sessions, gates merges
-- by branch protection, and records what matters for security in a transparency log over a Merkle
-- tree.
--
-- The parts, and the files that model them:
--
-- * Audit (crates/secgit-audit): Audit/Event has the events, the entries and the hash of an
--   entry of lib.rs, Audit/Log the log on disk: encode_record, decode_record, append (up to the
--   write, prepare; from there, commit), load (load_from, line by line) and open_inner; Record and
--   Reload prove what is read back. Audit/Merkle has merkle.rs: leaf_hash, node_hash,
--   largest_pow2_lt, root, inclusion_proof and verify_inclusion, whose two loops are fold_inner
--   and fold_border. Split and Inclusion relate the bits of an index to the recursion of the tree,
--   Completeness and Soundness prove the verifier.
--
-- * Crypto (crates/secgit-crypto): Crypto/Error has ids.rs and error.rs, Crypto/Envelope the
--   header of envelope.rs, Crypto/Framing its Writer and Reader (Writer::bytes, u8 and lp32 are
--   put_bytes, put_u8 and put_lp32, Reader::take is read), Crypto/Aead seal, open (here
--   open_sealed), wrap_key and unwrap_key of aead.rs, Crypto/Primitives hkdf_sha384 and ct_eq of
--   primitives.rs, Crypto/Signature the hybrid signatures of sig.rs and mldsa.rs, Crypto/Kem the
--   hybrid key encapsulation of kem.rs (open is open_wrapped).
--
-- * Store (crates/secgit-store/src/lib.rs): EncryptedStore over a disk that maps the name of a
--   repository's directory to its wrapped key and its objects. An operation takes the disk and
--   returns its result with the disk that it leaves, also where it fails. The store uses
--   Crypto/Aead as the source does.
--
-- * Identity (crates/secgit-identity): Identity/Model has model.rs, Identity/Directory the
--   tables and the access-control resolver of lib.rs, Identity/Session the session table of
--   session.rs; Directory/Roles states the rules that grant a role apart from the code.
--
-- * Keybroker (crates/secgit-keybroker): Keybroker/Replay has ReplayGuard of replay.rs with its
--   table, its file and the write that may fail. Keybroker/Broker has lib.rs: the release request
--   and its binding, LocalKeyBroker::release, which verifies evidence (Attest), asks the guard and
--   seals the key (Crypto/Kem), and attest_and_unwrap, the guest's side, over any broker.
--
-- * Attest (crates/secgit-attest): Attest has the evidence, claims and policy of lib.rs and the
--   TDX back end that refuses, Attest/Mock the software back end of mock.rs, Attest/Snp the
--   reports and the verifier of snp.rs, Attest/Vcek the certificate chain of vcek.rs: Pem reads a
--   file of certificates, Cache is the offline cache, Resolve the resolution with revocation,
--   steps on the cache that may fail.
--
-- * Forge (crates/secgit-forge/src/lib.rs): Forge has the seal manifest, the listing of refs
--   and, as interfaces, what the code calls in git and in the store; Forge/Seal has seal_to_store
--   with write_base_segment and append_delta_segment, Forge/Restore restore_from_store,
--   restore_legacy and sealed_size. Tips proves the listing, Seal/Manifest the manifest that a
--   seal writes. Nothing is assumed of git or of the store.
--
-- * Review (crates/secgit-review): Review/Model has the records of model.rs that the gate reads,
--   Review/Gate has merge_status and direct_push_allowed of lib.rs, over what the store returned,
--   Review/Issue the records of issues and threads, and Review/Reviews the operations of Reviews
--   over the encrypted store and JSON as interfaces: Stored fills the first with the store of
--   Store, Pulls has the pull requests, Threads the rest, Index what put, get and index_add keep,
--   Pulls/Numbers the numbering.
--
-- * Server (bins/secgit-server/src/ratelimit.rs): Server/Semaphore has the counting semaphore as
--   a relation between states, each step one critical section; its condition variable may also
--   wake a thread for no reason. Server/RateLimiter has the token buckets: check sweeps, makes
--   room for a new key or refuses it, and spends a token; the arithmetic of f64 is an interface.
--
-- * Prelude (shared by all): names of the libraries, tests on numbers, lists, bytes, bits,
--   little-endian words, and maps with text keys as association lists without repeated keys.
--
-- What stands outside is a parameter: the hash function (with 32-byte digests where a theorem
-- needs their size), the ciphers with the law that what was sealed opens again, signatures and key
-- agreement with the laws that the two sides of one key fit, the parsers of certificates and their
-- signature check, the hexadecimal name of a nonce, JSON and hexadecimal text with the law that
-- what was written reads back, the names of directories and objects, the clock, the random draws
-- and floating-point arithmetic. No theorem assumes that a hash function has no collision: where
-- it matters, the result is a collision at hand, or the hypothesis says that the few names at hand
-- differ.
--
-- Bounds: the loop of hkdf_sha384 recurses on how often its counter can still be advanced, 254
-- times from 1. A bit shift by a word's size wraps, as in a release build, and the theorems on
-- proofs are for at most 2 ^ 63 leaves, below which no shift reaches that size. Sums that saturate
-- are cut at 2 ^ 64 - 1, the number of a pull request modulo 2 ^ 64, the index of a seal segment
-- without a bound (the source has 32 bits, and a limit of 32 bits keeps it within them), a count
-- of approvals modulo 2 ^ 32, and a length prefix modulo 2 ^ 32. The recursions over a tree run on
-- fuel: the number of leaves for root and inclusion_proof, since each half is shorter, and the
-- size itself for the doublings of largest_pow2_lt, since each makes the power larger. The digits
-- of a number run on the number itself, since a tenth of it is less.
--
-- Not modelled: consistency proofs and checkpoints, the accounts and the directory on disk, the
-- Trustee adapter and the guest's reading of configfs-tsm, single sign-on, search, the forge's
-- views of a repository and its working directory, and the rest of the server. The file system's
-- own errors are left out of the store, and a write that stops inside a line is left out of the
-- log. What a sealed repository restores to is not proved, since it rests on git. Trimming a line
-- of the log takes off ASCII white space only.
pub mod Prelude
pub mod Attest
pub mod Audit
pub mod Crypto
pub mod Store
pub mod Forge
pub mod Identity
pub mod Keybroker
pub mod Review
pub mod Server
