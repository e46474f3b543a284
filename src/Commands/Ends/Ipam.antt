-- ===== src/Commands/Ends/Ipam.antt =====
-- The commands on addresses.
use operations_calico_contai.Base.{refl, arith}
use operations_calico_contai.Base.Dict.{lookup}
use operations_calico_contai.Base.Proc.Ends.{Ends, EndsWell, bind-EndsWell}
use operations_calico_contai.Args.{Args, must_string}
use operations_calico_contai.Args.Reads.{must_string-Ends}
use operations_calico_contai.Args.Validate.{Parsers}
use operations_calico_contai.Platform.{Platform}
use operations_calico_contai.Commands.Ipam.{
  IpamInterface, connect, passed_ip, report_release, release_ip, report_attributes, show_ip,
}
use operations_calico_contai.Commands.Usage.Texts.Intro.{datastore_intro}
use operations_calico_contai.Commands.Usage.Texts.Ipam.{release_lines, show_lines}
use operations_calico_contai.Commands.Usage.Declared.{declared}
use operations_calico_contai.Commands.Usage.Pattern.{pattern_of}
use operations_calico_contai.Commands.Usage.Follows.{Follows, has_kind, has_text}

module _ (p : Platform) (n : Parsers) (ipam : p.Client → IpamInterface p.Store n)
    (args : Args) where
  module _ (config : Ends (must_string args "--config")) (ip : Ends (must_string args "--ip")) where
    connect-EndsWell : EndsWell (connect p n ipam args)
    unfolding connect
    connect-EndsWell w = ground (arith, config)

    passed_ip-EndsWell : EndsWell (passed_ip p n ipam args)
    unfolding passed_ip
    passed_ip-EndsWell w = ground (arith, ip)

    release_ip-EndsWell : EndsWell (release_ip p n ipam args)
    unfolding release_ip report_release
    release_ip-EndsWell =
        bind-EndsWell (connect p n ipam args) _ connect-EndsWell λ client.
          bind-EndsWell (passed_ip p n ipam args) _ passed_ip-EndsWell λ ip w. ground arith

    show_ip-EndsWell : EndsWell (show_ip p n ipam args)
    unfolding show_ip report_attributes
    show_ip-EndsWell =
        bind-EndsWell (connect p n ipam args) _ connect-EndsWell λ client.
          bind-EndsWell (passed_ip p n ipam args) _ passed_ip-EndsWell λ ip w. ground arith

  -- With the arguments that docopt gives for their usage texts.
  pub release_ip-EndsWell_for : Follows args release_lines → EndsWell (release_ip p n ipam args)
  unfolding declared lookup pattern_of release_lines datastore_intro
  release_ip-EndsWell_for f =
      release_ip-EndsWell (must_string-Ends args "--config" (has_kind f "--config" refl))
        (must_string-Ends args "--ip" (has_text f "--ip" refl f.matches))

  pub show_ip-EndsWell_for : Follows args show_lines → EndsWell (show_ip p n ipam args)
  unfolding declared lookup pattern_of show_lines datastore_intro
  show_ip-EndsWell_for f =
      show_ip-EndsWell (must_string-Ends args "--config" (has_kind f "--config" refl))
        (must_string-Ends args "--ip" (has_text f "--ip" refl f.matches))
