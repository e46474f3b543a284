-- ===== src/Lib.antt =====
-- calicoctl, the command line tool of Calico, as a library of definitions that follow its Go code, and
-- of what they guarantee.
--
-- The program. `calicoctl` (calicoctl/calicoctl.go) picks a command by its name. The commands apply,
-- create, replace, delete and get read resources from a file, or name one in their arguments, connect
-- to the datastore, and run one action on each resource (calicoctl/commands/resources.go) through the
-- resource manager (calicoctl/resourcemgr), which maps the type metadata of a resource to the typed
-- methods of the client. The commands config, ipam and node have their own files.
--
-- The files.
--   Base, and the modules below it: what the code takes from Go. `Outcome` is how a piece of code ends
--     (it returns, exits or panics), `Proc` is a process on a system that also prints, `Result` is a
--     pair of a value and an error, `Dict` is a map with texts for keys.
--   Args: calicoctl/commands/argutils. The map that docopt has parsed is a function from names.
--   Platform: what the code calls and does not implement, the API structs, the client and the
--     datastore of libcalico-go, the YAML decoder, the validator and the files. It is a parameter.
--   Manager, Registrations, Tables and Files: calicoctl/resourcemgr. `register_resource`,
--     `get_resource_manager`, `get_table_template` and `create_resources_from_file` are the functions
--     of these names in camel case, and `init_node` and its like are the `init` of each file.
--   ClientManager: calicoctl/commands/clientmgr/client.go.
--   Resources, Convert, Arguments and Execute: calicoctl/commands/resources.go.
--     `execute_config_command` is executeConfigCommand, whose early returns are the constructor
--     `return` of `Step`; its results are the record `CommandResults`.
--   Commands.Usage: the first lines of every command. `Texts` has the usage text of each command, as
--     lines. docopt is a parameter, a function from a usage text and the words of a command line.
--     What it documents of its answers is the record `Follows`: `Declared` and `Pattern` compute, from
--     a usage text, the names that it declares with the kinds of their values, and the patterns that
--     the arguments match. `Given` has what these give for the commands on resources.
--   Commands.Manage: calicoctl/commands/{apply,create,replace,delete}.go, which differ in their words.
--   Commands.Config, Commands.Get, Commands.Ipam and Commands.Dispatch: config.go, get.go with
--     printer.go, ipam/release.go with ipam/show.go, and calicoctl.go with node.go, ipam.go and
--     version.go.
--   Commands.Node.Run with Commands.Node.Docker, Checksystem, Status and Diags:
--     calicoctl/commands/node/{run,checksystem,status,diags}.go, on a host that is the parameter `Host`
--     of Commands.Node.Host, which also has permissions.go.
--   Commands.Dispatch.calicoctl is the whole program on the words of a command line.
--   Commands.Ends: how the commands end under `Promises`, which lists what they rely on in the code
--     that they call. `Ends` of Base.Proc is a process that returns or exits with the status 1.
--   Tests: a platform and a host in memory, and each property at concrete arguments.
--
-- Conventions. Every loop is a recursion on the list that it ranges over, and every definition is
-- total; only the digits of a number take fuel, one more than the number. A resource is an interface
-- that holds a struct or a pointer to one, since the typed methods assert a struct and panic at a
-- pointer. A nil resource, function or error is `none`. The order in which Go ranges over a map is a
-- parameter. Output is a list of printed texts, without what docopt itself prints. Logs are left out,
-- except for the encoding that the debug log can fail at.
--
-- Not modelled: docopt itself, the engines of text/template and tabwriter, and everything that is not
-- Go: the container image of the node, its configuration templates, the system tests and the build.
pub mod Base
pub mod Args
pub mod Platform
pub mod Manager
pub mod ClientManager
pub mod Resources
pub mod Commands
mod Tests
