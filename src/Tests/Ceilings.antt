-- ===== src/Tests/Ceilings.antt =====
-- executor.go: a request beyond the operator's limits.
use remote_cli.Common.{[]}
use remote_cli.Execute.{Config}

abbrev config : Config
config = record { default_shell = []; max_timeout = 600; max_output = 1000 }
