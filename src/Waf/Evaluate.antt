-- ===== src/Waf/Evaluate.antt =====
-- internal/waf/engine.go: which rule decides, and what a decision can be.
use mathlib.Core.Path.{subst}
use open_flare.Prelude.{
  ℕ, ◌≡◌, ◌≢◌, ◌⊎◌, inl, inr, refl, sym, true, false, List, [], ◌∷◌, Option, none, some, arith, map,
  filter, All, Bool-cases, Option-cases, ⊎-cases,
}
use open_flare.Text.{Bytes, codes}
use open_flare.Text.Laws.{str_eq_iff}
use open_flare.Http.{Request}
use open_flare.Config.{WafRule}
use open_flare.Regexp.{RegexpEngine}
use open_flare.Net.{NetPackage}
use open_flare.Waf.{
  Decision, CompiledRule, Engine, compile_rules, compile_conditions, match_conditions, decide,
  evaluate_rules, evaluate, extract_ip,
}

-- The kinds of action that end the evaluation.
abbrev pub IsKnown : Bytes → Type 0
IsKnown kind =
    (kind ≡ codes "allow")
    ⊎ (kind ≡ codes "block")
    ⊎ (kind ≡ codes "log")
    ⊎ (kind ≡ codes "bypass_cache")

-- The action of a decision, from the mode and the kind of the rule's action.
abbrev pub IsOutcome : Bytes → Bytes → Bytes → Type 0
IsOutcome mode kind action =
    ((kind ≡ codes "block") × (mode ≡ codes "enforce") × (action ≡ codes "block"))
    ⊎ ((kind ≡ codes "block") × (mode ≢ codes "enforce") × (action ≡ codes "log"))
    ⊎ ((kind ≢ codes "block") × (action ≡ kind))

outcome_of_shadow :
    (mode kind action : Bytes)
    → mode ≢ codes "enforce"
    → IsOutcome mode kind action
    → action ≢ codes "block"
outcome_of_shadow mode kind action h o = ground arith

decide-some :
    (mode : Bytes) (rule : WafRule) (detail : Bytes) (d : Decision)
    → decide mode rule detail ≡ some d
    → IsKnown rule.action.kind
      × IsOutcome mode rule.action.kind d.action
      × (d.rule_id ≡ rule.id)
      × (d.matched ≡ true)
      × (d.detail ≡ detail)
unfolding decide
decide-some mode rule detail d h = ground (
  arith,
  str_eq_iff rule.action.kind (codes "allow"),
  str_eq_iff rule.action.kind (codes "block"),
  str_eq_iff rule.action.kind (codes "log"),
  str_eq_iff rule.action.kind (codes "bypass_cache"),
  str_eq_iff mode (codes "enforce"),
)

decide-none :
    (mode : Bytes) (rule : WafRule) (detail : Bytes)
    → decide mode rule detail ≡ none
    → ¬ IsKnown rule.action.kind
unfolding decide
decide-none mode rule detail h = ground (
  arith,
  str_eq_iff rule.action.kind (codes "allow"),
  str_eq_iff rule.action.kind (codes "block"),
  str_eq_iff rule.action.kind (codes "log"),
  str_eq_iff rule.action.kind (codes "bypass_cache"),
)

module _ (rx : RegexpEngine) (net : NetPackage) where
  -- The rules of a new engine are the enabled ones, in the order of the configuration.
  compile_rules-enabled :
      (rs : List WafRule) (crs : List (CompiledRule rx net))
      → compile_rules rx net rs ≡ inr crs
      → map (λ c. c.config) crs ≡ filter (λ r. r.enabled) rs
  unfolding compile_rules filter
  compile_rules-enabled [] crs h = ground arith
  compile_rules-enabled (r ∷ rs) crs h = elim (⊎-cases (compile_rules rx net rs)) [
    | inl (e, failed) ↦ elim (⊎-cases (compile_conditions rx net r.match_any)) [
      | inl (e', p) ↦ absurd (ground arith)
      | inr (cs, p) ↦ absurd (ground arith)
    ]
    | inr (rest, later) ↦ elim (⊎-cases (compile_conditions rx net r.match_any)) [
      | inl (e', p) ↦ ground (arith, compile_rules-enabled rs rest later)
      | inr (cs, p) ↦ ground (arith, compile_rules-enabled rs rest later)
    ]
  ]

  module _ (mode : Bytes) (limit : ℕ) (r : Request) (body : Bytes) (ip : Option net.Ip) where
    -- A rule that leaves the request to the later ones: none of its conditions matches, or its
    -- action is of no known kind.
    abbrev pub IsPassed : CompiledRule rx net → Type 0
    IsPassed rule =
        ((match_conditions rx net limit rule.conditions r body ip).0 ≡ false)
        ⊎ (¬ IsKnown rule.config.action.kind)

    -- The first rule that does not, in a list.
    pub data First : List (CompiledRule rx net) → CompiledRule rx net → Type 0 where
      this :
          {rule : CompiledRule rx net} {rules : List (CompiledRule rx net)}
          → (match_conditions rx net limit rule.conditions r body ip).0 ≡ true
          → IsKnown rule.config.action.kind
          → First (rule ∷ rules) rule
      later :
          {x rule : CompiledRule rx net} {rules : List (CompiledRule rx net)}
          → IsPassed x
          → First rules rule
          → First (x ∷ rules) rule

    pub record IsDecided (rules : List (CompiledRule rx net)) (d : Decision) : Type 0 where
      pub rule : CompiledRule rx net
      pub first : First rules rule
      pub outcome : IsOutcome mode rule.config.action.kind d.action
      pub named : d.rule_id ≡ rule.config.id
      pub matched : d.matched ≡ true
      pub detail : d.detail ≡ (match_conditions rx net limit rule.conditions r body ip).1

    abbrev pub IsDecision : List (CompiledRule rx net) → Decision → Type 0
    IsDecision rules d =
        IsDecided rules d ⊎ (All IsPassed rules × (d.matched ≡ false) × (d.action ≡ codes "allow"))

    decided_here :
        (rule : CompiledRule rx net) (rules : List (CompiledRule rx net)) (d : Decision)
        → (match_conditions rx net limit rule.conditions r body ip).0 ≡ true
        → decide mode rule.config (match_conditions rx net limit rule.conditions r body ip).1
          ≡ some d
        → IsDecision (rule ∷ rules) d
    decided_here rule rules d m e =
        let (known, outcome, named, matched, detail) = decide-some mode rule.config _ d e in
        inl (record {
          rule = rule;
          first = this m known;
          outcome = outcome;
          named = named;
          matched = matched;
          detail = detail;
        })

    decided_later :
        (x : CompiledRule rx net) (rules : List (CompiledRule rx net)) (d : Decision)
        → IsPassed x
        → IsDecision rules d
        → IsDecision (x ∷ rules) d
    decided_later x rules d p (inl c) = inl (record {
      rule = c.rule;
      first = later p c.first;
      outcome = c.outcome;
      named = c.named;
      matched = c.matched;
      detail = c.detail;
    })
    decided_later x rules d p (inr (all, matched, action)) = inr ((p, all), matched, action)

    skip :
        (x : CompiledRule rx net) (rules : List (CompiledRule rx net))
        → (match_conditions rx net limit x.conditions r body ip).0 ≡ false
        → evaluate_rules rx net mode limit (x ∷ rules) r body ip
          ≡ evaluate_rules rx net mode limit rules r body ip
    unfolding evaluate_rules
    skip x rules h = ground arith

    ignore :
        (x : CompiledRule rx net) (rules : List (CompiledRule rx net))
        → decide mode x.config (match_conditions rx net limit x.conditions r body ip).1 ≡ none
        → evaluate_rules rx net mode limit (x ∷ rules) r body ip
          ≡ evaluate_rules rx net mode limit rules r body ip
    unfolding evaluate_rules
    ignore x rules h = ground arith

    take_it :
        (x : CompiledRule rx net) (rules : List (CompiledRule rx net)) (d : Decision)
        → (match_conditions rx net limit x.conditions r body ip).0 ≡ true
        → decide mode x.config (match_conditions rx net limit x.conditions r body ip).1 ≡ some d
        → evaluate_rules rx net mode limit (x ∷ rules) r body ip ≡ d
    unfolding evaluate_rules
    take_it x rules d m h = ground arith

    evaluate_rules-IsDecision :
        (rules : List (CompiledRule rx net))
        → IsDecision rules (evaluate_rules rx net mode limit rules r body ip)
    unfolding evaluate_rules
    evaluate_rules-IsDecision [] = inr (tt, refl, refl)
    evaluate_rules-IsDecision (x ∷ rules) =
        let rest = evaluate_rules-IsDecision rules in
        let m = match_conditions rx net limit x.conditions r body ip in
        elim (Bool-cases m.0) [
          | inr missed ↦
              subst (IsDecision (x ∷ rules)) (sym (skip x rules missed))
                (decided_later x rules _ (inl missed) rest)
          | inl hit ↦ elim (Option-cases (decide mode x.config m.1)) [
            | inl e ↦
                subst (IsDecision (x ∷ rules)) (sym (ignore x rules e))
                  (decided_later x rules _ (inr (decide-none mode x.config m.1 e)) rest)
            | inr (d, e) ↦
                subst (IsDecision (x ∷ rules)) (sym (take_it x rules d hit e))
                  (decided_here x rules d hit e)
          ]
        ]

  -- The decision is that of the first rule that has a matching condition and an action of a known
  -- kind: its id, its detail and its action, where a block is only logged unless the mode is enforce.
  -- Without such a rule the request is allowed.
  pub evaluate-IsDecision :
      (e : Engine rx net) (r : Request) (body : Bytes)
      → IsDecision e.mode e.max_body_inspect r body
          (extract_ip rx net r.remote_addr)
          e.rules
          (evaluate rx net e r body)
  unfolding evaluate
  evaluate-IsDecision e r body =
      evaluate_rules-IsDecision e.mode e.max_body_inspect r body (extract_ip rx net r.remote_addr)
        e.rules

  -- Unless the mode is enforce, no request is blocked, whatever the rules.
  pub evaluate-shadow :
      (e : Engine rx net) (r : Request) (body : Bytes)
      → e.mode ≢ codes "enforce"
      → (evaluate rx net e r body).action ≢ codes "block"
  evaluate-shadow e r body h =
      not_blocked e.mode _ (evaluate rx net e r body) h (evaluate-IsDecision e r body)
    where
      not_blocked :
          (mode : Bytes) (rules : List (CompiledRule rx net)) (d : Decision)
          → mode ≢ codes "enforce"
          → IsDecision mode e.max_body_inspect r body (extract_ip rx net r.remote_addr) rules d
          → d.action ≢ codes "block"
      not_blocked mode rules d h (inl c) = outcome_of_shadow mode _ d.action h c.outcome
      not_blocked mode rules d h (inr (all, matched, action)) = ground arith
