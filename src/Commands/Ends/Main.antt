-- ===== src/Commands/Ends/Main.antt =====
-- main, with every command that it dispatches to.
use operations_calico_contai.Base.Proc.{Proc}
use operations_calico_contai.Base.Proc.Ends.{Ends}
use operations_calico_contai.Args.{Args}
use operations_calico_contai.Platform.{Platform}
use operations_calico_contai.Commands.Usage.Texts.{Usage}
use operations_calico_contai.Commands.Usage.Follows.{Follows}
