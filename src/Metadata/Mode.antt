-- ===== src/Metadata/Mode.antt =====
-- The values of metadata.EncryptionOptions_Mode that the code names.
use fscrypt.Common.{pos}
use fscrypt.Metadata.Types.{Mode}

abbrev pub default : Mode
default = pos 0

abbrev pub adiantum : Mode
adiantum = pos 9
