-- ===== src/Tests/Disk.antt =====
-- A disk with two filesystems for the tests.
use fscrypt.Common.{
  pos, replicate, ◌==◌, true, false, [], ◌∷◌, none, some, Bytes, codes, if◌then◌else◌,
}
use fscrypt.Actions.Types.{Mount}
use fscrypt.Filesystem.MountInfo as MountInfo
use fscrypt.Filesystem.Link.{Lookups}
use fscrypt.Filesystem.Setup.{Info, Tree}
use fscrypt.Filesystem.Store.{File, Files, System}
use fscrypt.Filesystem.Layout.{Layout}
use fscrypt.Metadata.Types.{ProtectorData}
use fscrypt.Metadata.Source
use fscrypt.Tests.Samples.{names, policy_data, protector_data, wrapped_key, costs}

abbrev pub path : Bytes
path = codes "/mnt/.fscrypt/policies/a"

abbrev pub old_file : File
old_file = record { is_regular = true; uid = 1000; mode = 384; content = codes "old" }

abbrev pub files : Files
files = (path, old_file) ∷ []

-- A system in which no call fails.
abbrev pub system : System
system = record { fails = λ call p. none; written_part = λ b. []; euid = 0; has_user = λ uid. true }

-- Every directory exists and belongs to root.
abbrev pub directory : Info
directory = record { is_symlink = false; is_dir = true; is_sticky = true; perm = 511; uid = 0 }

abbrev pub tree : Tree
tree = record { lstat = λ p. some directory; stat = λ p. some directory; readlink = λ p. none }

-- Mount 2 is the root filesystem, and the others are at /mnt.
abbrev pub mounted : Mount → MountInfo.Mount
mounted m = record {
  path = if m == 2 then codes "/" else codes "/mnt";
  filesystem_type = codes "ext4";
  device = codes "/dev/sda1";
  device_number = m;
  subtree = codes "/";
  read_only = false;
}

abbrev pub lookups : Lookups Mount
lookups = record {
  uuid_to_device_number = λ uuid. some 2;
  mounts_by_device = λ n. some (some 2);
  get_mount = λ path. none;
}

-- A login protector of user 1000.
abbrev pub login_protector : ProtectorData
login_protector = record protector_data {
  source = Source.pam_passphrase;
  costs = some costs;
  salt = replicate 16 4;
  uid = pos 1000;
  wrapped_key = some (record wrapped_key { encrypted_key = replicate 32 2 });
}

abbrev pub layout : Layout
layout = record {
  tree = tree;
  mount_of = mounted;
  lookups = lookups;
  uuid_of = λ m. some (codes "1a2b");
  names = names;
  marshal_policy = λ p. some p.key_descriptor;
  unmarshal_policy = λ c. some policy_data;
  marshal_protector = λ p. some p.protector_descriptor;
  unmarshal_protector = λ c. some login_protector;
}
