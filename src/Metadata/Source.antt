-- ===== src/Metadata/Source.antt =====
-- The values of metadata.SourceType.
use fscrypt.Common.{pos}
use fscrypt.Metadata.Types.{SourceType}

abbrev pub default : SourceType
default = pos 0

abbrev pub pam_passphrase : SourceType
pam_passphrase = pos 1

abbrev pub custom_passphrase : SourceType
custom_passphrase = pos 2

abbrev pub raw_key : SourceType
raw_key = pos 3
