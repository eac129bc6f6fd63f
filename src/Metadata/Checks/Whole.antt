-- ===== src/Metadata/Checks/Whole.antt =====
-- metadata/checks.go: PolicyData.CheckValidity and Config.CheckValidity.
use fscrypt.Common.{
  eq_ℤ, pos, ◌||◌, Option, none, some, Bytes, length, if◌then◌else◌, ok, err, ◌>>◌,
}
use fscrypt.Metadata.Types.{
  EncryptionOptions, PolicyData, Config, policy_descriptor_len_v1, policy_descriptor_len_v2,
}
use fscrypt.Metadata.Source
use fscrypt.Metadata.Checks.{
  Check, EnumNames, not_initialized, bad_version, wrap, check_valid_length, check_hashing_costs,
  check_source, check_slots, check_options,
}

-- The `switch` on the policy version, and the length of the descriptor.
unfoldable pub check_descriptor : EncryptionOptions → Bytes → Check
unfolding check_valid_length
check_descriptor e descriptor =
    if eq_ℤ e.policy_version (pos 1)
    then wrap "policy key descriptor"
        (check_valid_length policy_descriptor_len_v1 (length descriptor))
    else if eq_ℤ e.policy_version (pos 2)
    then wrap "policy key descriptor"
        (check_valid_length policy_descriptor_len_v2 (length descriptor))
    else err (bad_version e.policy_version)

-- The check of the options leaves them with a version, which the descriptor's length is held to.
abbrev pub finish_policy : PolicyData → EncryptionOptions × Check → PolicyData × Check
finish_policy p (e, err x) = (record p { options = some e }, wrap "policy options" (err x))
finish_policy p (e, ok u) = (record p { options = some e }, check_descriptor e p.key_descriptor)

abbrev pub policy_options : EnumNames → PolicyData → Option EncryptionOptions → PolicyData × Check
policy_options names p none = (p, wrap "policy options" (err not_initialized))
policy_options names p (some e) = finish_policy p (check_options names e)

abbrev pub after_slots : EnumNames → PolicyData → Check → PolicyData × Check
after_slots names p (err x) = (p, err x)
after_slots names p (ok u) = policy_options names p p.options

unfoldable pub check_policy : EnumNames → PolicyData → PolicyData × Check
unfolding check_slots check_options check_descriptor
check_policy names p = after_slots names p (check_slots 0 p.wrapped_policy_keys)

unfoldable pub check_config_costs : Config → Check
unfolding check_hashing_costs
check_config_costs c =
    if eq_ℤ c.source Source.pam_passphrase || eq_ℤ c.source Source.custom_passphrase
    then wrap "config hashing costs" (check_hashing_costs c.hash_costs)
    else ok tt

abbrev pub finish_config : Config → EncryptionOptions × Check → Config × Check
finish_config c (e, r) = (record c { options = some e }, wrap "config options" r)

abbrev pub config_options : EnumNames → Config → Option EncryptionOptions → Config × Check
config_options names c none = (c, wrap "config options" (err not_initialized))
config_options names c (some e) = finish_config c (check_options names e)

abbrev pub after_costs : EnumNames → Config → Check → Config × Check
after_costs names c (err x) = (c, err x)
after_costs names c (ok u) = config_options names c c.options

unfoldable pub check_config : EnumNames → Config → Config × Check
unfolding check_source check_config_costs check_options
check_config names c =
    after_costs names c
      (wrap "default config source" (check_source names c.source) >> check_config_costs c)
