-- ===== src/Actions/Protector/Create/Stages.antt =====
-- CreateProtector up to its call of Rewrap.
use mathlib.Core.Path.{subst}
use fscrypt.Common.{
  ℤ, [], ◌||◌, ◌≡◌, refl, ◌⊎◌, inl, inr, pos, eq_ℤ, lt_ℤ, Bool, true, false, List, Option, none,
  some, Bytes, bytes_eq, if◌then◌else◌, Result, ok, err, arith,
}
use fscrypt.Metadata.Types.{ProtectorData, SourceType}
use fscrypt.Metadata.Source
use fscrypt.Metadata.Checks.{EnumNames, check_source, check_for_source}
use fscrypt.Crypto.Wrap.{buffer_or_error}
use fscrypt.Crypto.Wrap.RoundTrip as Wrapping
use fscrypt.Actions.Types.{Context, Process}
use fscrypt.Actions.Context.{Retrieval, OpError, ProtectorOption, protector_options}
use fscrypt.Actions.Context.Good.{IsGood, protector_options-IsGood}
use fscrypt.Actions.Context.{login_protector_exists, protector_name_exists}
use fscrypt.Actions.Protector.{
  has_name, has_login, refuse_if, check_for_protector_with_name, check_if_user_has_login_protector,
}
use fscrypt.Actions.Protector.Create.{check_name, salted, login_checked, extra_data}
use fscrypt.Actions.Protector.Create.Sources.{
  ltb_zero, good_costs, passphrase_ok, for_source_ok, raw_ok,
}

-- The data that the switch on the source returns: what the source asks for is there.
pub record IsExtended (names : EnumNames) (fields fields' : ProtectorData) : Type 0 where
  pub source : check_source names fields'.source ≡ ok tt
  pub passphrase : check_for_source fields' ≡ ok tt
  pub same_name : fields'.name ≡ fields.name

module _ {W E K : Type 0} (process : Process) (names : EnumNames) (ret : Retrieval W E) where
  refuse-IsGood :
      (x : SourceType) (e : OpError E K) (test : List (ProtectorOption E) → Bool)
      (r : Context × Result (OpError E K) (List (ProtectorOption E)))
      → ((os : List (ProtectorOption E)) → r.1 ≡ ok os → IsGood names x r.0.config)
      → (refuse_if e test r).1 ≡ ok tt
      → IsGood names x (refuse_if e test r).0.config
  refuse-IsGood x e test (ctx, err y) g h = absurd (ground (arith, h))
  refuse-IsGood x e test (ctx, ok os) g h = g os refl

  name-IsGood :
      (ctx : Context) (w : W) (name : Bytes)
      → (check_for_protector_with_name {K = K} names ret ctx w name).1 ≡ ok tt
      → IsGood names ctx.config.source
          (check_for_protector_with_name {K = K} names ret ctx w name).0.config
  unfolding check_for_protector_with_name
  name-IsGood ctx w name h =
      refuse-IsGood ctx.config.source (protector_name_exists name) (λ os. has_name name os)
        (protector_options names ret ctx w)
        (λ os e. protector_options-IsGood names ret {K = K} ctx w os e) h

  login-IsGood :
      (ctx : Context) (w : W) (uid : ℤ)
      → (check_if_user_has_login_protector {K = K} names ret ctx w uid).1 ≡ ok tt
      → IsGood names ctx.config.source
          (check_if_user_has_login_protector {K = K} names ret ctx w uid).0.config
  unfolding check_if_user_has_login_protector
  login-IsGood ctx w uid h =
      refuse-IsGood ctx.config.source (login_protector_exists ctx.target_user)
        (λ os. has_login uid os) (protector_options names ret ctx w)
        (λ os e. protector_options-IsGood names ret {K = K} ctx w os e) h

  branches-IsGood :
      (s : SourceType) (a b : Bool) (x y z : Context × Result (OpError E K) (Unit {0}))
      → IsGood names s x.0.config
      → IsGood names s y.0.config
      → (z.1 ≡ ok tt → IsGood names s z.0.config)
      → (if a then x else if b then y else z).1 ≡ ok tt
      → IsGood names s (if a then x else if b then y else z).0.config
  branches-IsGood s true b x y z gx gy gz h = gx
  branches-IsGood s false true x y z gx gy gz h = gy
  branches-IsGood s false false x y z gx gy gz h = gz h

  -- The checks of the name leave the context good.
  pub check_name-IsGood :
      (x : SourceType) (ctx : Context) (w : W) (name : Bytes)
      → IsGood names x ctx.config
      → (check_name {K = K} process names ret ctx w name).1 ≡ ok tt
      → IsGood names x (check_name {K = K} process names ret ctx w name).0.config
  unfolding check_name
  check_name-IsGood x ctx w name g h =
      branches-IsGood x (eq_ℤ ctx.config.source Source.pam_passphrase) (bytes_eq name []) _ _
        (check_for_protector_with_name names ret ctx w name) g g
        (λ e.
          subst
            (λ (y : SourceType).
              IsGood names y (check_for_protector_with_name {K = K} names ret ctx w name).0.config)
            g.same (name-IsGood ctx w name e))
        h

  module _ (wrapping : Wrapping.AreLawful process.primitives) where
    salted-IsExtended :
        (ctx : Context) (fields fields' : ProtectorData) (o : Option Bytes)
        → process.primitives.random 16 ≡ o
        → IsGood names fields.source ctx.config
        → (eq_ℤ fields.source Source.pam_passphrase || eq_ℤ fields.source Source.custom_passphrase)
          ≡ true
        → (lt_ℤ fields.uid (pos 0) ≡ false) ⊎ (eq_ℤ fields.source Source.pam_passphrase ≡ false)
        → (salted {K = K} process names ret ctx fields (buffer_or_error o)).1 ≡ ok fields'
        → IsExtended names fields fields'
    salted-IsExtended ctx fields fields' none e g needs fine h = absurd (ground (arith, h))
    salted-IsExtended ctx fields fields' (some salt) e g needs fine h =
        let made = record fields { salt = salt; costs = ctx.config.hash_costs } in
        let same : made ≡ fields' = ground (arith, h) in
        subst (λ (x : ProtectorData). IsExtended names fields x) same
          (record {
            source = subst (λ (x : SourceType). check_source names x ≡ ok tt) g.same g.source;
            passphrase =
                for_source_ok made
                  (passphrase_ok made (good_costs names fields.source ctx.config g needs)
                    (wrapping.random_length 16 salt e))
                  fine;
            same_name = refl;
          })

    login-IsExtended :
        (fields fields' : ProtectorData) (r : Context × Result (OpError E K) (Unit {0}))
        → (r.1 ≡ ok tt → IsGood names fields.source r.0.config)
        → (eq_ℤ fields.source Source.pam_passphrase || eq_ℤ fields.source Source.custom_passphrase)
          ≡ true
        → lt_ℤ fields.uid (pos 0) ≡ false
        → (login_checked {K = K} process names ret fields r).1 ≡ ok fields'
        → IsExtended names fields fields'
    login-IsExtended fields fields' (ctx, err e) g needs fine h = absurd (ground (arith, h))
    login-IsExtended fields fields' (ctx, ok u) g needs fine h =
        salted-IsExtended ctx fields fields' (process.primitives.random 16) refl (g refl) needs
          (inl fine) h

    in_branch :
        (P : Type 0) (fields' : ProtectorData) (a b : Bool)
        (x y z : Context × Result (OpError E K) ProtectorData)
        → (a ≡ true → x.1 ≡ ok fields' → P)
        → (a ≡ false → b ≡ true → y.1 ≡ ok fields' → P)
        → (a ≡ false → b ≡ false → z.1 ≡ ok fields' → P)
        → (if a then x else if b then y else z).1 ≡ ok fields'
        → P
    in_branch P fields' true b x y z f g h e = f refl e
    in_branch P fields' false true x y z f g h e = g refl refl e
    in_branch P fields' false false x y z f g h e = h refl refl e

    -- What the switch returns without an error.
    pub extra_data-IsExtended :
        (ctx : Context) (w : W) (fields fields' : ProtectorData)
        → IsGood names fields.source ctx.config
        → (extra_data {K = K} process names ret ctx w fields).1 ≡ ok fields'
        → IsExtended names fields fields'
    unfolding extra_data
    extra_data-IsExtended ctx w fields fields' g h =
        let uid = pos ctx.target_user in
        in_branch (IsExtended names fields fields') fields'
          (eq_ℤ fields.source Source.pam_passphrase) (eq_ℤ fields.source Source.custom_passphrase) _
          _ _
          (λ login e.
            let made =
              login-IsExtended (record fields { uid = uid }) fields'
                (check_if_user_has_login_protector {K = K} names ret ctx w uid)
                (λ q.
                  subst
                    (λ (y : SourceType).
                      IsGood names y
                        (check_if_user_has_login_protector {K = K} names ret ctx w uid).0.config)
                    g.same (login-IsGood ctx w uid q))
                (rw login refl) (ltb_zero ctx.target_user) e in
            record {
              source = made.source;
              passphrase = made.passphrase;
              same_name = made.same_name;
            })
          (λ other custom e.
            salted-IsExtended ctx fields fields' (process.primitives.random 16) refl g
              (rw (other, custom) refl) (inr other) e)
          (λ other raw e.
            let same : fields ≡ fields' = ground (arith, e) in
            subst (λ (x : ProtectorData). IsExtended names fields x) same
              (record {
                source = subst (λ (y : SourceType). check_source names y ≡ ok tt) g.same g.source;
                passphrase = raw_ok fields other raw;
                same_name = refl;
              }))
          h
