-- ===== src/Main/Tables/Nat.antt =====
-- The rules of redirects create no chain.
use firewall.Common.{
  ℕ, suc, Bool, not, ◌&&◌, ◌||◌, List, [], ◌∷◌, Option, refl, arith, ◌==◌, if◌then◌else◌, is_some,
}
use firewall.Options.Family
use firewall.Options.Table
use firewall.Options.Types.{Address, Mac, Protocol, Zone}
use firewall.Options.Types.Config.{Ipset, Redirect, State}
use firewall.Iptables.{Handle, Trace}
use firewall.Iptables.Silent.{Silent, Silent-nil, Silent-append, Silent-if, Silent-concat_map}
use firewall.Rules.Expand.{mark_ipset}
use firewall.Snats.Print.{InetNtop}
use firewall.Redirects.Print.{print_redirect, print_raw}
use firewall.Redirects.Expand.{
  Turn, print_reflection, is_reflected, reflection_rules, is_printed, expand_redirect,
  expand_redirects, print_redirects,
}
use firewall.Main.Tables.Rules.{Quiet, Quiet-stay, Quiet-if, Quiet-then, Quiet-marked}

Silent-print_raw :
    (s : State) (r : Redirect) (n : ℕ) (p : Protocol) (m : Option Mac)
    → Silent (print_raw s r n p m)
unfolding print_raw
Silent-print_raw s r n p m = record { nothing = ground arith }

Silent-print_redirect :
    (ntop : InetNtop) (h : Handle) (s : State) (r : Redirect) (n : ℕ) (p : Protocol)
    (m : Option Mac)
    → Silent (print_redirect ntop h s r n p m)
unfolding print_redirect
Silent-print_redirect ntop h s r n p m =
    Silent-if (h.table == Table.nat) _ _ (record { nothing = refl })
      (Silent-if (h.table == Table.raw) _ _ (Silent-print_raw s r n p m) Silent-nil)

Silent-print_reflection :
    (ntop : InetNtop) (h : Handle) (r : Redirect) (n : ℕ) (t : Turn)
    → Silent (print_reflection ntop h r n t)
unfolding print_reflection
Silent-print_reflection ntop h r n t =
    Silent-if (h.table == Table.nat) _ _ (record { nothing = refl }) Silent-nil

Silent-reflection_rules :
    (ntop : InetNtop) (addrs : Zone → List Address) (h : Handle) (s : State) (r : Redirect) (n : ℕ)
    → Silent (reflection_rules ntop addrs h s r n)
unfolding reflection_rules
Silent-reflection_rules ntop addrs h s r n =
    Silent-if (is_reflected s.zones r) _ _
      (Silent-concat_map _ _
        (λ e. Silent-concat_map _ _ (λ t. Silent-print_reflection ntop h r n t)))
      Silent-nil

module _ (ntop : InetNtop) (addrs : Zone → List Address) (exists : Ipset → Bool) (h : Handle) where
  Quiet-expand_redirect :
      (s : State) (r : Redirect) (n : ℕ) → Quiet s (expand_redirect ntop addrs exists h s r n)
  unfolding expand_redirect
  Quiet-expand_redirect s r n =
      let marked : State = record s { ipsets = mark_ipset h.family r.ipset.ptr s.ipsets } in
      Quiet-if s (not (is_printed exists h s r)) _ _ (Quiet-stay s) (
        Quiet-marked s _ _ (
          Silent-append _ _
            (Silent-concat_map _ _
              (λ p. Silent-concat_map _ _ (λ m. Silent-print_redirect ntop h marked r n p m)))
            (Silent-reflection_rules ntop addrs h marked r n)))

  -- One turn of the loop.
  abbrev turn : State → Redirect → ℕ → State × Trace
  turn s r n =
      if h.table == Table.raw && not (is_some r.helper.ptr)
      then (s, [])
      else expand_redirect ntop addrs exists h s r n

  Quiet-turn : (s : State) (r : Redirect) (n : ℕ) → Quiet s (turn s r n)
  Quiet-turn s r n =
      Quiet-if s (h.table == Table.raw && not (is_some r.helper.ptr)) _ _ (Quiet-stay s)
        (Quiet-expand_redirect s r n)

  Quiet-expand_redirects :
      (s : State) (rs : List Redirect) (n : ℕ)
      → Quiet s (expand_redirects ntop addrs exists h s rs n)
  unfolding expand_redirects
  Quiet-expand_redirects s [] n = Quiet-stay s
  Quiet-expand_redirects s (r ∷ rs) n =
      let skipped = h.table == Table.raw && not (is_some r.helper.ptr) in
      Quiet-then s _ _ (Quiet-turn s r n)
        (Quiet-expand_redirects (turn s r n).0 rs (if skipped then n else suc n))

  pub Quiet-redirects : (s : State) → Quiet s (print_redirects ntop addrs exists h s)
  unfolding print_redirects
  Quiet-redirects s =
      Quiet-if s
        (h.family == Family.v6
          || not (h.table == Table.filter || h.table == Table.nat || h.table == Table.raw))
        _ _ (Quiet-stay s) (Quiet-expand_redirects s s.redirects 0)
