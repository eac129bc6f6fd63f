-- ===== src/Lib.antt =====
-- fscrypt manages the encryption of directories on Linux: policies, whose keys encrypt directories,
-- and protectors, whose keys wrap the keys of policies. This library models its Go packages.
--
-- Parts, and the files that model them (paths of the code are from the repository's root):
-- - Metadata: metadata/checks.go, metadata/policy.go, metadata/metadata.proto. Types has the
--   messages as records, where a pointer is an Option and an int64 an integer; Checks and
--   Checks/Whole the CheckValidity methods; Flags, Ioctl and Setting the policy flags, GetPolicy,
--   SetPolicy and CheckSupport. The kernel is a record of system calls over a state. Checks/Costs,
--   Checks/Valid and Checks/PolicyForm say what is accepted; Setting/Safety and Setting/RoundTrip
--   are about SetPolicy.
-- - Crypto: crypto/key.go, crypto/crypto.go and crypto/rand.go. Key has the buffers (NewBlankKey,
--   resize, Clone), Reader NewKeyFromReader, Recovery the recovery codes over Base32, Wrap the
--   functions Wrap and Unwrap, Derive the descriptors and the passphrase hash, Random the random
--   keys. AES, SHA, HKDF, Argon2, mmap and the random source are parameters, with the lengths of
--   their outputs as hypotheses.
-- - Filesystem: filesystem/mountpoint.go, filesystem/filesystem.go. Escape has the octal escapes of
--   mountinfo, MountInfo one of its lines, Link the links between filesystems (getMountFromLink,
--   makeLink), FindMount the walk up the directories, MainMount the choice of a filesystem's main
--   mount and the tables of main mounts. The device names are parameters, and the order of Go's
--   maps is that of a list. Clean is filepath.Join, Split has functions of package strings. Store
--   has the files and the system calls that fail: writeData, overwriteDataNonAtomic and
--   readMetadataFileSafe; Setup the directories and CheckSetup; Records addMetadata, getMetadata
--   and removeMetadata for any kind of metadata; Layout what an operation on a mount needs.
--   Policies and Protectors have the operations on policies, protectors and links, which fill the
--   interface Storage, and Listing the lists of them; protobuf is a parameter.
-- - Keyring: keyring/fs_keyring.go, keyring/keyring.go, security/privileges.go. Privs has the UIDs
--   that are dropped and restored, Spec the key specifiers, Fs the three ioctls with the handling
--   of their results, Dispatch the choice between the filesystem's and the user's keyring.
-- - Actions: actions/policy.go, actions/protector.go, actions/context.go and actions/callback.go.
--   Types has the structures and the interface Storage, the methods of filesystem.Mount by which
--   the actions write; Context has Retrieval, those by which they read, checkContext and the
--   options of protectors; Callback the loop that asks a callback for keys until one fits. Policy
--   has AddProtector and RemoveProtector, Policy/Unlock the operations on the policy's key,
--   Policy/Create CreatePolicy and GetPolicy, Policy/Select the unlocking by callbacks, Policy/Path
--   GetPolicyFromPath and Apply, Policy/Provision the key in the keyrings and PurgeAllPolicies;
--   Protector has Rewrap and Unlock, and Protector/Create CreateProtector. An operation takes the
--   state of the filesystems, of the keyrings or of the callback and returns it beside its result;
--   Policy/Reach has the sequences of operations.
-- - Util: util/util.go. Hex and Common are the parts of Go's library and the lemmas that these use.
-- - Tests: concrete inputs.
--
-- An operation of the actions reaches the metadata through Storage, wraps keys with Crypto, and
-- hands policy keys to Keyring under the descriptor that Crypto/Derive computes and Metadata/Checks
-- accepts.
--
-- Bounds: numbers are natural numbers or integers, and the conversions to uint8 and uint32 are
-- taken modulo 2 ^ 8 and 2 ^ 32. Loops that have no structural bound run on fuel: NewKeyFromReader
-- on one round more than the pieces and bytes that the reader delivers, FindMount on one step more
-- than the path has bytes, and both are shown to end within it; the loops of findMainMount on the
-- bytes of a path and of the longest path, with a theorem that more fuel changes nothing;
-- unwrapProtectorKey on any number of rounds, with a theorem that one round more than the callback
-- has keys is enough.
--
-- Not modelled: logging and the texts of errors, memory locking, the creation of the metadata
-- directories, the user keyring, the configuration file and its hashing costs, recovery
-- passphrases, GetMount and AllFilesystems, the command line tool and the PAM module. Text is a
-- list of bytes; the wiping of keys has no effect on a value.
pub mod Common
pub mod Util
pub mod Hex
pub mod Metadata
pub mod Filesystem
pub mod Crypto
pub mod Actions
pub mod Keyring
pub mod Tests
