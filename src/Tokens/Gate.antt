-- ===== src/Tokens/Gate.antt =====
-- When the token gate lets a mint pass.
use agent_trading.Base.{
  ℕ, ◌+◌, ◌*◌, ◌≤◌, ◌≡◌, ◌≢◌, ◌↔◌, refl, ap, ◌∙◌, Bool, true, false, Option, none, some, List, [],
  ◌∷◌, ◌++◌, String, arith, not, ◌&&◌, any, All, Bool-cases, inl, inr, ◌⊎◌,
}
use agent_trading.Base.Text.{str_in, str_eq_iff}
use agent_trading.Decimal.{DecimalOps, lt_d}
use agent_trading.Guard.Mint.{MintAccount, check_mint}
use agent_trading.Tokens.{
  AuditInfo, TokenInfo, TokenGateCfg, GateReason, shield_blocking_warnings, hour, when_so, is_us,
  is_false, is_true, is_empty, shield_reasons, mint_reasons, list_reasons, age_reasons,
  organic_reasons, holder_reasons, audit_reasons, liquidity_reasons, info_reasons, GateLists,
  evaluate_token_gate,
}

-- A value that is there and satisfies a predicate.
abbrev pub Known : {A : Type 0} → Option A → (A → Type 0) → Type 0
Known none P = ⊥
Known (some a) P = P a

is_empty-append : (xs ys : List GateReason) → is_empty (xs ++ ys) ≡ (is_empty xs && is_empty ys)
is_empty-append [] ys = refl
is_empty-append (x ∷ xs) ys = refl

is_empty_four :
    (ws bs cs ds : List GateReason)
    → is_empty (ws ++ bs ++ cs ++ ds) ≡ (is_empty ws && is_empty bs && is_empty cs && is_empty ds)
is_empty_four ws bs cs ds =
    is_empty-append (ws ++ bs ++ cs) ds
    ∙ ap (λ x. x && is_empty ds)
        (is_empty-append (ws ++ bs) cs ∙ ap (λ x. x && is_empty cs) (is_empty-append ws bs))
    ∙ ground arith

is_empty_five :
    (ws bs cs ds es : List GateReason)
    → is_empty (ws ++ bs ++ cs ++ ds ++ es)
      ≡ (is_empty ws && is_empty bs && is_empty cs && is_empty ds && is_empty es)
is_empty_five ws bs cs ds es =
    is_empty-append (ws ++ bs ++ cs ++ ds) es
    ∙ ap (λ x. x && is_empty es) (is_empty_four ws bs cs ds)
    ∙ ground arith

is_empty-when_so : (b : Bool) (r : GateReason) → is_empty (when_so b r) ≡ not b
is_empty-when_so true r = refl
is_empty-when_so false r = refl

any-All : (p : String → Bool) (xs : List String) → (any p xs ≡ false) ↔ All (λ x. p x ≡ false) xs
any-All p [] = (λ _. tt, λ _. refl)
any-All p (x ∷ xs) =
    let (f, g) = any-All p xs in
    ((λ h. (ground (arith, h), f (ground (arith, h)))), (λ h. ground (arith, h.0, g h.1)))

abbrev pub Unwarned : Option (List String) → Type 0
Unwarned warnings = Known warnings (λ ws. All (λ w. str_in w shield_blocking_warnings ≡ false) ws)

shield_reasons_iff : (w : Option (List String)) → (is_empty (shield_reasons w) ≡ true) ↔ Unwarned w
unfolding shield_reasons
shield_reasons_iff none = (λ h. ground (arith, h), λ k. absurd k)
shield_reasons_iff (some ws) =
    let blocks : String → Bool = λ w. str_in w shield_blocking_warnings in
    let (f, g) = any-All blocks ws in
    ((λ h. f (ground (arith, h, is_empty-when_so (any blocks ws)))), (λ k. ground (arith, g k)))

abbrev pub Old : ℕ → ℕ → Option ℕ → Type 0
Old now hours created = Known created (λ t. t + hours * hour ≤ now)

age_reasons_iff :
    (now hours : ℕ) (o : Option ℕ) → (is_empty (age_reasons now hours o) ≡ true) ↔ Old now hours o
unfolding age_reasons
age_reasons_iff now hours none = (λ h. ground (arith, h), λ k. absurd k)
age_reasons_iff now hours (some t) = (λ h. ground (arith, h), λ k. ground (arith, k))

is_us_iff : (our : String) (o : Option String) → (is_us our o ≡ false) ↔ (o ≢ some our)
is_us_iff our none = ((λ _ h. cc), (λ _. refl))
is_us_iff our (some d) = ground (arith, str_eq_iff d our, str_eq_iff our d)

is_true_iff : (o : Option Bool) → (is_true o ≡ false) ↔ (o ≢ some true)
is_true_iff none = ((λ _ h. cc), (λ _. refl))
is_true_iff (some b) = ground arith

is_false_iff : (o : Option Bool) → (is_false o ≡ false) ↔ (o ≢ some false)
is_false_iff none = ((λ _ h. cc), (λ _. refl))
is_false_iff (some b) = ground arith

module _ {F : Type 0} (lt_f : F → F → Bool) where
  abbrev pub AtLeast : F → Option F → Type 0
  AtLeast bound o = Known o (λ s. lt_f s bound ≡ false)

  abbrev pub AtMost : F → Option F → Type 0
  AtMost bound o = Known o (λ s. lt_f bound s ≡ false)

  abbrev pub Audited : F → Option (AuditInfo F) → Type 0
  Audited bound o = Known o (λ a.
      AtMost bound a.top_holders_pct
      × (a.is_sus ≢ some true)
      × (a.mint_authority_disabled ≢ some false)
      × (a.freeze_authority_disabled ≢ some false))

  organic_reasons_iff :
      (bound : F) (o : Option F)
      → (is_empty (organic_reasons lt_f bound o) ≡ true) ↔ AtLeast bound o
  unfolding organic_reasons
  organic_reasons_iff bound none = (λ h. ground (arith, h), λ k. absurd k)
  organic_reasons_iff bound (some s) = (λ h. ground (arith, h), λ k. ground (arith, k))

  holder_reasons_iff :
      (bound : F) (o : Option F) → (is_empty (holder_reasons lt_f bound o) ≡ true) ↔ AtMost bound o
  holder_reasons_iff bound none = (λ h. ground (arith, h), λ k. absurd k)
  holder_reasons_iff bound (some s) = (λ h. ground (arith, h), λ k. ground (arith, k))

  audit_reasons_iff :
      (bound : F) (o : Option (AuditInfo F))
      → (is_empty (audit_reasons lt_f bound o) ≡ true) ↔ Audited bound o
  unfolding audit_reasons
  audit_reasons_iff bound none = (λ h. ground (arith, h), λ k. absurd k)
  audit_reasons_iff bound (some a) =
      let (f, g) = holder_reasons_iff bound a.top_holders_pct in
      let s = is_true_iff a.is_sus in
      let m = is_false_iff a.mint_authority_disabled in
      let z = is_false_iff a.freeze_authority_disabled in
      let parts =
        is_empty_four (holder_reasons lt_f bound a.top_holders_pct)
          (when_so (is_true a.is_sus) GateReason.sus)
          (when_so (is_false a.mint_authority_disabled) GateReason.mint_authority)
          (when_so (is_false a.freeze_authority_disabled) GateReason.freeze_authority) in
      (
        (λ h. (
          f (ground (arith, h, parts)),
          s.0 (ground (arith, h, parts)),
          m.0 (ground (arith, h, parts)),
          z.0 (ground (arith, h, parts)),
        )),
        (λ k. ground (arith, g k.0, s.1 k.1, m.1 k.2, z.1 k.3, parts)),
      )

module _ (D : DecimalOps) {F : Type 0} (lt_f : F → F → Bool) where
  open D use {Num}

  abbrev pub Liquid : Num → Option Num → Type 0
  Liquid bound o = Known o (λ l. lt_d D l bound ≡ false)

  -- What the token's information has to show.
  abbrev pub Informed : String → ℕ → TokenGateCfg Num F → Option (TokenInfo Num F) → Type 0
  Informed our_wallet now cfg info = Known info (λ i.
      (i.dev ≢ some our_wallet)
      × AtLeast lt_f cfg.min_organic i.organic_score
      × Liquid cfg.min_liquidity_usd i.liquidity_usd
      × Old now cfg.min_age_h i.first_pool_created_at
      × Audited lt_f cfg.max_top_holders_pct i.audit)

  liquidity_reasons_iff :
      (bound : Num) (o : Option Num)
      → (is_empty (liquidity_reasons D lt_f bound o) ≡ true) ↔ Liquid bound o
  unfolding liquidity_reasons
  liquidity_reasons_iff bound none = (λ h. ground (arith, h), λ k. absurd k)
  liquidity_reasons_iff bound (some l) = (λ h. ground (arith, h), λ k. ground (arith, k))

  info_reasons_iff :
      (our_wallet : String) (now : ℕ) (cfg : TokenGateCfg Num F) (info : Option (TokenInfo Num F))
      → (is_empty (info_reasons D lt_f our_wallet now cfg info) ≡ true)
        ↔ Informed our_wallet now cfg info
  unfolding info_reasons
  info_reasons_iff our_wallet now cfg none = (λ h. ground (arith, h), λ k. absurd k)
  info_reasons_iff our_wallet now cfg (some i) =
      let organic = organic_reasons lt_f cfg.min_organic i.organic_score in
      let liquid = liquidity_reasons D lt_f cfg.min_liquidity_usd i.liquidity_usd in
      let aged = age_reasons now cfg.min_age_h i.first_pool_created_at in
      let audited = audit_reasons lt_f cfg.max_top_holders_pct i.audit in
      let (f1, g1) = organic_reasons_iff lt_f cfg.min_organic i.organic_score in
      let (f2, g2) = liquidity_reasons_iff cfg.min_liquidity_usd i.liquidity_usd in
      let (f3, g3) = age_reasons_iff now cfg.min_age_h i.first_pool_created_at in
      let (f4, g4) = audit_reasons_iff lt_f cfg.max_top_holders_pct i.audit in
      let split =
        is_empty_five (when_so (is_us our_wallet i.dev) GateReason.dev_is_us) organic liquid aged
          audited in
      let us = is_us_iff our_wallet i.dev in
      let flag = is_empty-when_so (is_us our_wallet i.dev) GateReason.dev_is_us in
      (
        (λ h. (
          us.0 (ground (arith, h, split, flag)),
          f1 (ground (arith, h, split)),
          f2 (ground (arith, h, split)),
          f3 (ground (arith, h, split)),
          f4 (ground (arith, h, split)),
        )),
        (λ k. ground (arith, split, flag, us.1 k.0, g1 k.1, g2 k.2, g3 k.3, g4 k.4)),
      )

-- The gate passes a mint exactly when the mint is on the allowlist, or it is neither on the blocklist nor
-- one of our own tokens, its account passes the check of mints, the shield answers without a warning
-- that blocks, and its information is there, with enough organic score, liquidity and age and an audit
-- of few enough top holders, all of these known; the information does not name us as developer, nor does
-- the audit call the mint suspicious or say that an authority is enabled, while a missing developer,
-- suspicion or authority passes.
pub evaluate_token_gate_iff :
    (D : DecimalOps) {F : Type 0} (lt_f : F → F → Bool) (pubkey_b58 : List ℕ → String)
    (mint : String) (info : Option (TokenInfo D.Num F)) (warnings : Option (List String))
    (account : Option MintAccount) (cfg : TokenGateCfg D.Num F) (l : GateLists D lt_f)
    → ((evaluate_token_gate D lt_f pubkey_b58 mint info warnings account cfg l).ok ≡ true) ↔ (
        (str_in mint l.allowlist ≡ true)
        ⊎ ((str_in mint l.blocklist ≡ false)
            × (str_in mint l.own_token_mints ≡ false)
            × (check_mint pubkey_b58 account ≡ none)
            × Informed D lt_f l.our_wallet l.now cfg info
            × Unwarned warnings))
unfolding evaluate_token_gate list_reasons mint_reasons
evaluate_token_gate_iff D lt_f pubkey_b58 mint info warnings account cfg l =
    let known = info_reasons D lt_f l.our_wallet l.now cfg info in
    let shield = shield_reasons warnings in
    let lists = list_reasons mint l.own_token_mints l.blocklist in
    let minted = mint_reasons pubkey_b58 account in
    let (f1, g1) = info_reasons_iff D lt_f l.our_wallet l.now cfg info in
    let (f2, g2) = shield_reasons_iff warnings in
    let split = is_empty_four lists minted known shield in
    let listed =
      is_empty-append (when_so (str_in mint l.blocklist) GateReason.blocklisted)
        (when_so (str_in mint l.own_token_mints) GateReason.own_mint) in
    elim (Bool-cases (str_in mint l.allowlist)) [
      | inl e ↦ (λ _. inl e, λ _. ground (arith, e))
      | inr e ↦ (
        (λ h. inr (
          ground (arith, h, e, split, listed),
          ground (arith, h, e, split, listed),
          ground (arith, h, e, split),
          f1 (ground (arith, h, e, split)),
          f2 (ground (arith, h, e, split)),
        )),
        (λ k. elim k [
          | inl a ↦ absurd (ground (arith, a, e))
          | inr (b, o, c, i, w) ↦ ground (arith, e, split, listed, b, o, c, g1 i, g2 w)
        ]),
      )
    ]
