-- ===== src/Actions/Context/Good.antt =====
-- What a context that checkContext accepts has.
use fscrypt.Common.{◌≡◌, refl, List, Option, none, some, Result, ok, err, ◌>>◌, arith}
use fscrypt.Metadata.Types.{Config, EncryptionOptions, SourceType}
use fscrypt.Metadata.Checks.{EnumNames, Check, wrap, check_source, check_options}
use fscrypt.Metadata.Checks.Whole.{
  check_config, check_config_costs, config_options, finish_config, after_costs,
}
use fscrypt.Actions.Types.{Context}
use fscrypt.Actions.Context.{
  Retrieval, OpError, ProtectorOption, checked, check_context, options_checked, protector_options,
}

-- The source is `x`, which is known, and it has valid costs if it needs them.
pub record IsGood (names : EnumNames) (x : SourceType) (c : Config) : Type 0 where
  pub same : c.source ≡ x
  pub source : check_source names c.source ≡ ok tt
  pub costs : check_config_costs c ≡ ok tt

module _ (names : EnumNames) where
  finish-IsGood :
      (x : SourceType) (c : Config) (r : EncryptionOptions × Check)
      → IsGood names x c
      → IsGood names x (finish_config c r).0
  unfolding check_config_costs
  finish-IsGood x c (e, y) g = record { same = g.same; source = g.source; costs = g.costs }

  options-IsGood :
      (x : SourceType) (c : Config) (o : Option EncryptionOptions)
      → IsGood names x c
      → IsGood names x (config_options names c o).0
  options-IsGood x c none g = g
  options-IsGood x c (some e) g = finish-IsGood x c (check_options names e) g

  costs-IsGood :
      (x : SourceType) (c : Config) (r : Check)
      → (r ≡ ok tt → IsGood names x c)
      → (after_costs names c r).1 ≡ ok tt
      → IsGood names x (after_costs names c r).0
  costs-IsGood x c (err y) g h = absurd (ground (arith, h))
  costs-IsGood x c (ok u) g h = options-IsGood x c c.options (g refl)

  both_ok :
      (a b : Check) → (wrap "default config source" a >> b) ≡ ok tt → (a ≡ ok tt) × (b ≡ ok tt)
  both_ok (ok u) b h = (refl, h)
  both_ok (err x) b h = absurd (ground (arith, h))

  pub check_config-IsGood :
      (c : Config)
      → (check_config names c).1 ≡ ok tt
      → IsGood names c.source (check_config names c).0
  unfolding check_config
  check_config-IsGood c h =
      let source = check_source names c.source in
      let costs = check_config_costs c in
      costs-IsGood c.source c (wrap "default config source" source >> costs)
        (λ e.
          let (fine, cheap) = both_ok source costs e in
          record { same = refl; source = fine; costs = cheap })
        h

module _ {W E : Type 0} (names : EnumNames) (ret : Retrieval W E) where
  checked-IsGood :
      {K : Type 0} (x : SourceType) (ctx : Context) (w : W) (r : Config × Check)
      → (r.1 ≡ ok tt → IsGood names x r.0)
      → (checked names ret {K = K} ctx w r).1 ≡ ok tt
      → IsGood names x (checked names ret {K = K} ctx w r).0.config
  checked-IsGood x ctx w (c, err y) g h = absurd (ground (arith, h))
  checked-IsGood x ctx w (c, ok u) g h = g refl

  pub check_context-IsGood :
      {K : Type 0} (ctx : Context) (w : W)
      → (check_context names ret {K = K} ctx w).1 ≡ ok tt
      → IsGood names ctx.config.source (check_context names ret {K = K} ctx w).0.config
  unfolding check_context
  check_context-IsGood ctx w h =
      checked-IsGood ctx.config.source ctx w (check_config names ctx.config)
        (check_config-IsGood names ctx.config) h

  options_checked-IsGood :
      {K : Type 0} (x : SourceType) (w : W) (r : Context × Result (OpError E K) (Unit {0}))
      (os : List (ProtectorOption E))
      → (r.1 ≡ ok tt → IsGood names x r.0.config)
      → (options_checked names ret w r).1 ≡ ok os
      → IsGood names x (options_checked names ret w r).0.config
  options_checked-IsGood x w (ctx, err e) os g h = absurd (ground (arith, h))
  options_checked-IsGood x w (ctx, ok u) os g h = g refl

  pub protector_options-IsGood :
      {K : Type 0} (ctx : Context) (w : W) (os : List (ProtectorOption E))
      → (protector_options names ret {K = K} ctx w).1 ≡ ok os
      → IsGood names ctx.config.source (protector_options names ret {K = K} ctx w).0.config
  unfolding protector_options
  protector_options-IsGood {K} ctx w os h =
      options_checked-IsGood {K = K} ctx.config.source w (check_context names ret ctx w) os
        (check_context-IsGood {K = K} ctx w) h
