-- ===== src/Lib.antt =====
-- AES-256-GCM, AES-256-GCM-SIV and the AES-CTR generator over x86_64 instructions: a model of
-- src/aes_gcm and src/random and theorems about it.
--
-- The program. src/aes_gcm/aes.rs expands keys and encrypts blocks, one at a time or in eight
-- interleaved chains. src/aes_gcm/ghash.rs multiplies in the field of GHASH and POLYVAL, absorbs
-- sections in batches of eight, four and one block, and stitches counter mode and GHASH into one
-- loop. src/aes_gcm/mod.rs puts both together: `KeyState` seals and opens messages, and the
-- handles around it draw nonces from src/aes_gcm/nonce.rs, which watches for forks through
-- src/aes_gcm/fork.rs. src/aes_gcm/siv.rs is GCM-SIV over the same backends. src/random is apart
-- from these: mod.rs buffers the counter mode blocks of aes_ctr.rs, which has its own key
-- schedule, watches for forks through fork.rs, and reseeds from the CPU's generator, screened by
-- entropy.rs and blended with the old state, or else from the OS.
--
-- The files.
--   Prelude        lists, tests, bytes and the integers that they spell, xor
--   Cpu            the instructions and the answers of feature detection
--   Poly           polynomials over two elements: Sum is addition with a decision for sums, Product
--                  and Degree are multiplication, Montgomery is residues modulo the polynomial of
--                  POLYVAL; the reference for src/aes_gcm/ghash.rs
--   Aes            src/aes_gcm/aes.rs, x86_64
--   Ghash          src/aes_gcm/ghash.rs, x86_64: Backend is `imp`, Key is `GHashKey`, Hasher is
--                  `Ghasher`, Polyval is `Polyval`, Bulk is the stitched loops; the children of
--                  Backend follow `clmul_wide`, `reduce` and the updates to the field, those of
--                  Hasher the batching to one block after another
--   Gcm            src/aes_gcm/mod.rs: Counter is `j0` and `increment_counter`; Error is `Error`
--                  and the checks of lengths; Seal is `seal`, `seal_in_place`, `open` (here
--                  `open_message`) and `open_in_place`; KeyState has the calls of `KeyState`;
--                  Nonce is src/aes_gcm/nonce.rs and src/aes_gcm/fork.rs; Handle is
--                  `HardwareAes256Gcm`; Wipe is `volatile_wipe`
--   Siv            src/aes_gcm/siv.rs: Message is the message level, KeyState is `SivKeyState`,
--                  Handle is `HardwareAes256GcmSiv`
--   Random         src/random: Backend and Wipe are aes_ctr.rs, Entropy is entropy.rs, Fork is
--                  fork.rs and `ForkGuard`; Generator has the calls of `AesCtrKeyGenerator` in
--                  mod.rs that neither check nor reseed, Lifecycle those that do
--   Examples       a processor, a key state and messages, and the theorems at them
--
-- The correspondence. A byte is a number below 256, a slice or an array is a list of bytes, a
-- register is its 128-bit value with lane 0 lowest, and `usize` has 64 bits. A function that
-- writes through `&mut` returns what it leaves there; a call that may fail and also writes a
-- buffer maps the buffer to the buffer it leaves and a result (`Writes`). A loop over
-- `chunks_exact` is a fold over the runs of a list, so it needs no fuel; what one round of a
-- stitched loop leaves to the next, the batch that waits to be hashed and the flag that there is
-- one, are fields of the loop's state. The loop of `fill_checked`, where `none` stands for a lack
-- of fuel, and the loops of wide stores in the two wipes run on fuel, and are given the length of
-- what they work on: a round advances by a byte at least, so no loop stops for lack of fuel.
--
-- Parameters. The AES round instructions and the key generation assist are functions of the
-- record `Cpu`; the other instructions are written out. The crates `subtle` and `zeroize` are the
-- record `Crates`, and `Documented` holds what their documentation says. The process id, the fork
-- generation and the OS entropy are arguments of the calls that read them, and Gcm/Nonce/Fork
-- derives the first two from the statics that the fork handler counts in; the calls of the
-- generator are given a `World`, which holds these, the answers of RDSEED still to come and what
-- `pthread_atfork` answers.
--
-- Not modelled: the aarch64 backends, the storage of key states by the caller, a build without
-- the feature `cpu-rng-reseed`, the entry points for other verifiers, formatting. That writes are
-- volatile, that comparisons take constant time, and which copies of a secret the compiler makes
-- are outside of the model: a vector that a failing call drops is gone, wiped or not.
pub mod Prelude
pub mod Cpu
pub mod Aes
pub mod Ghash
pub mod Gcm
pub mod Siv
pub mod Poly
pub mod Random
pub mod Examples
