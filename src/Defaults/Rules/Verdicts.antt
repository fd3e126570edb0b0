-- ===== src/Defaults/Rules/Verdicts.antt =====
-- What becomes of a packet that no rule of a built-in chain decides: the last rule that the tail
-- appends to the chain and the policy that its creation sets, read together.
use firewall.Common.{
  ℕ, Bool, true, false, ◌&&◌, List, [], ◌∷◌, ◌++◌, ◌≡◌, refl, ap, arith, ◌==◌, if◌then◌else◌,
  append-nil, ◌∙◌, keep, map, Option, none, some,
}
use firewall.Common.CString.{CString, codes, streq, streq_refl}
use firewall.Options.Family
use firewall.Options.Flag
use firewall.Options.Table
use firewall.Options.Types.{Defaults}
use firewall.Iptables.{Handle, Trace, set_policy, target, append, create_chain}
use firewall.Iptables.Chains.{selected}
use firewall.Options.Types.{ChainSpec}
use firewall.Defaults.Chains.{
  print_default_chains, default_chains, policy, set_policies, mark_features,
}
use firewall.Defaults.Check.{IsPolicy}
use firewall.Defaults.Rules.{print_default_tail_rules, tail_rule}

-- The policy that a list of calls leaves a chain with.
abbrev pub policy_of : CString → Trace → Option ℕ
policy_of chain [] = none
policy_of chain (set_policy c t ∷ rest) = elim (policy_of chain rest) [
  | some later ↦ some later
  | none ↦ if streq chain c then some t else none
]
policy_of chain (_ ∷ rest) = policy_of chain rest

-- A list of calls appends a rule that is an unconditional jump to `reject` to the chain.
abbrev pub rejects : CString → Trace → Bool
rejects chain [] = false
rejects chain (append (target t ∷ []) c ∷ rest) =
    (if streq chain c && streq t (codes "reject") then true else rejects chain rest)
rejects chain (_ ∷ rest) = rejects chain rest

policy_of-created :
    (chain : CString) (reload : Bool) (cs : List ChainSpec)
    → policy_of chain (map (λ (c : ChainSpec). create_chain reload c.format) cs) ≡ none
policy_of-created chain reload [] = refl
policy_of-created chain reload (c ∷ cs) = policy_of-created chain reload cs

-- A built-in chain with its verdict: the policy that is set, and whether the tail rejects.
abbrev pub Decides : Trace → Trace → CString → ℕ → Type 0
Decides head tail chain verdict =
    (policy_of chain head ≡ some (if verdict == Flag.accept then Flag.accept else Flag.drop))
    × (rejects chain tail ≡ (verdict == Flag.reject))

policies_set :
    (f : ℕ) (input output forward : ℕ) (rest : Trace)
    → ((chain : CString) → policy_of chain rest ≡ none)
    → (policy_of
          (codes "INPUT")
          (set_policies (record { family = f; table = Table.filter }) input output forward ++ rest)
        ≡ some input)
      × (policy_of (codes "OUTPUT") (
            set_policies (record { family = f; table = Table.filter }) input output forward ++ rest)
          ≡ some output)
      × (policy_of (codes "FORWARD") (
            set_policies (record { family = f; table = Table.filter }) input output forward ++ rest)
          ≡ some forward)
unfolding set_policies streq
policies_set f input output forward rest h =
    (rw (h (codes "INPUT")) refl, rw (h (codes "OUTPUT")) refl, rw (h (codes "FORWARD")) refl)

-- The calls of `fw3_print_default_chains` on the filter table, once the features are marked.
chains_calls :
    (f : ℕ) (reload : Bool) (d : Defaults)
    → (f == Family.v6 && d.disable_ipv6) ≡ false
    → (cs : List ChainSpec) × ((print_default_chains
          (record { family = f; table = Table.filter })
          reload
          d).1
        ≡ set_policies
            (record { family = f; table = Table.filter })
            (policy d.policy_input)
            (policy d.policy_output)
            (policy d.policy_forward)
          ++ map (λ (c : ChainSpec). create_chain reload c.format) cs)
unfolding print_default_chains
chains_calls f reload d h =
    let h' : Handle = record { family = f; table = Table.filter } in
    (keep (selected h' (mark_features h' d).flags) default_chains, rw h refl)

tail_rule_own :
    (chain : CString) (p : ℕ) (rest : Trace)
    → rejects chain rest ≡ false
    → rejects chain (tail_rule p chain ++ rest) ≡ (p == Flag.reject)
unfolding tail_rule
tail_rule_own chain p rest h = ground (arith, streq_refl chain, streq_refl (codes "reject"))

tail_rule_other :
    (chain other : CString) (p : ℕ) (rest : Trace)
    → streq chain other ≡ false
    → rejects chain (tail_rule p other ++ rest) ≡ rejects chain rest
unfolding tail_rule
tail_rule_other chain other p rest h = ground arith

tail_rules :
    (h : Handle) (d : Defaults)
    → h.table ≡ Table.filter
    → print_default_tail_rules h d
      ≡ tail_rule d.policy_input (codes "INPUT")
        ++ (tail_rule d.policy_output (codes "OUTPUT")
            ++ (tail_rule d.policy_forward (codes "FORWARD") ++ []))
unfolding print_default_tail_rules
tail_rules h d e = rw (e, append-nil) refl

-- The tail rejects in a chain exactly where the chain's own policy is REJECT.
tail_rejects :
    (h : Handle) (d : Defaults)
    → h.table ≡ Table.filter
    → (rejects (codes "INPUT") (print_default_tail_rules h d) ≡ (d.policy_input == Flag.reject))
      × (rejects (codes "OUTPUT") (print_default_tail_rules h d) ≡ (d.policy_output == Flag.reject))
      × (rejects (codes "FORWARD") (print_default_tail_rules h d)
          ≡ (d.policy_forward == Flag.reject))
unfolding streq
tail_rejects h d e =
    let input = codes "INPUT" in
    let output = codes "OUTPUT" in
    let forward = codes "FORWARD" in
    let last = tail_rule d.policy_forward forward ++ [] in
    let rest = tail_rule d.policy_output output ++ last in
    let no_last : (chain : CString) → streq chain forward ≡ false → rejects chain last ≡ false =
      λ chain ne. tail_rule_other chain forward d.policy_forward [] ne in
    let no_rest : rejects input rest ≡ false =
      tail_rule_other input output d.policy_output last refl ∙ no_last input refl in
    rw (tail_rules h d e) (
      tail_rule_own input d.policy_input rest no_rest,
      tail_rule_other output input d.policy_input rest refl
          ∙ tail_rule_own output d.policy_output last (no_last output refl),
      tail_rule_other forward input d.policy_input rest refl
          ∙ tail_rule_other forward output d.policy_output last refl
          ∙ tail_rule_own forward d.policy_forward [] refl,
    )

policy_verdict :
    (t : ℕ) → IsPolicy t → policy t ≡ (if t == Flag.accept then Flag.accept else Flag.drop)
unfolding policy
policy_verdict t h = ground arith

-- For the filter table of a family that is not disabled, and policies among ACCEPT, REJECT and DROP:
-- each built-in chain gets the policy ACCEPT where its own is ACCEPT and DROP otherwise, and its tail
-- jumps to `reject` exactly where its own is REJECT.
pub defaults-Decides :
    (f : ℕ) (reload : Bool) (d : Defaults)
    → (f == Family.v6 && d.disable_ipv6) ≡ false
    → IsPolicy d.policy_input
    → IsPolicy d.policy_output
    → IsPolicy d.policy_forward
    → Decides
        (print_default_chains (record { family = f; table = Table.filter }) reload d).1
        (print_default_tail_rules (record { family = f; table = Table.filter }) d)
        (codes "INPUT")
        d.policy_input
      × Decides
          (print_default_chains (record { family = f; table = Table.filter }) reload d).1
          (print_default_tail_rules (record { family = f; table = Table.filter }) d)
          (codes "OUTPUT")
          d.policy_output
      × Decides
          (print_default_chains (record { family = f; table = Table.filter }) reload d).1
          (print_default_tail_rules (record { family = f; table = Table.filter }) d)
          (codes "FORWARD")
          d.policy_forward
defaults-Decides f reload d on pi po pf =
    let (cs, calls) = chains_calls f reload d on in
    let (si, so, sf) =
      policies_set f (policy d.policy_input) (policy d.policy_output) (policy d.policy_forward)
        (map (λ (c : ChainSpec). create_chain reload c.format) cs)
        (λ chain. policy_of-created chain reload cs) in
    let (ri, ro, rf) = tail_rejects (record { family = f; table = Table.filter }) d refl in
    (
      (ap (policy_of (codes "INPUT")) calls ∙ si ∙ ap some (policy_verdict d.policy_input pi), ri),
      (
        ap (policy_of (codes "OUTPUT")) calls ∙ so ∙ ap some (policy_verdict d.policy_output po),
        ro,
      ),
      (
        ap (policy_of (codes "FORWARD")) calls ∙ sf ∙ ap some (policy_verdict d.policy_forward pf),
        rf,
      ),
    )
