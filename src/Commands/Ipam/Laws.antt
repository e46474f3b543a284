-- ===== src/Commands/Ipam/Laws.antt =====
-- `ipam release`: what a client was asked when it returns.
use operations_calico_contai.Base.{String, ◌≡◌, ◌∙◌, some, List, [], ◌∷◌, arith}
use operations_calico_contai.Base.Result.{Result, ok, err}
use operations_calico_contai.Base.Outcome.{returned}
use operations_calico_contai.Base.Proc.{World, Proc, call, ◌>>=◌}
use operations_calico_contai.Base.Proc.Bind.{bind-returned}
use operations_calico_contai.Args.{Args, must_string}
use operations_calico_contai.Args.Validate.{Parsers, validate_ip}
use operations_calico_contai.Platform.{Platform}
use operations_calico_contai.Commands.Ipam.{
  IpamInterface, connect, passed_ip, report_release, release_ip,
}

pair_of :
    {A S : Type 0} (f : S → A × S) (s t u : S) (a : A)
    → s ≡ t
    → (f s).0 ≡ a
    → u ≡ (f s).1
    → f t ≡ (a, u)
pair_of f s t u a same value next = rw⁻¹ same (ground arith)

module _ (p : Platform) (n : Parsers) (ipam : p.Client → IpamInterface p.Store n) where
  connect-keeps : (args : Args) (w : World p.Store) → (connect p n ipam args w).1.system ≡ w.system
  unfolding connect must_string
  connect-keeps args w = ground arith

  passed_ip-value :
      (args : Args) (w : World p.Store) {ip : n.Ip}
      → (passed_ip p n ipam args w).0 ≡ returned ip
      → (text : String) × (must_string args "--ip" ≡ returned text)
        × (n.parse_ip text ≡ some ip)
        × ((passed_ip p n ipam args w).1.system ≡ w.system)
  unfolding passed_ip validate_ip must_string
  passed_ip-value args w h = ground arith

  report_release-returned :
      (ip : n.Ip) (r : Result (List n.Ip)) (w : World p.Store) {w' : World p.Store}
      → report_release p n ipam ip r w ≡ (returned tt, w')
      → (r ≡ ok []) × (w'.system ≡ w.system)
  unfolding report_release
  report_release-returned ip (ok []) w h = ground arith
  report_release-returned ip (ok (a ∷ more)) w h = ground arith
  report_release-returned ip (err e) w h = ground arith

  with_ip : p.Client → n.Ip → Proc p.Store (Unit {0})
  with_ip client ip = call ((ipam client).release_ips (ip ∷ [])) >>= report_release p n ipam ip

  with_client : Args → p.Client → Proc p.Store (Unit {0})
  unfolding with_ip
  with_client args client = passed_ip p n ipam args >>= with_ip client

  -- When a release returns, the argument --ip is the text of an IP address, and a client has
  -- released it: it returned neither an error nor an address that was not assigned, and
  -- nothing else was changed.
  pub release_ip-returned :
      (args : Args) (w w' : World p.Store)
      → release_ip p n ipam args w ≡ (returned tt, w')
      → (client : p.Client) × (text : String) × (ip : n.Ip) × (must_string args "--ip"
          ≡ returned text)
        × (n.parse_ip text ≡ some ip)
        × ((ipam client).release_ips (ip ∷ []) w.system ≡ (ok [], w'.system))
  unfolding release_ip with_client with_ip
  release_ip-returned args w w' h =
      let (client, _, ran) = bind-returned (connect p n ipam args) (with_client args) w h in
      let (ip, passed, ran) = bind-returned (passed_ip p n ipam args) (with_ip client) _ ran in
      let (text, has_text, is_ip, same) = passed_ip-value args (connect p n ipam args w).1 passed in
      let (clean, last) = report_release-returned ip _ _ ran in
      (
        client,
        text,
        ip,
        has_text,
        is_ip,
        pair_of ((ipam client).release_ips (ip ∷ [])) _ w.system w'.system _
            (same ∙ connect-keeps args w) clean last,
      )
