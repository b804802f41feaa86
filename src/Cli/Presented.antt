-- ===== src/Cli/Presented.antt =====
-- The sign-in and the commands of src/cimd_proxy/pat_cli.py: where the access token goes.
use cimd_proxy.Prelude.Dict.{Dict}
use cimd_proxy.Errors.{Result, err}
use cimd_proxy.Errors
use cimd_proxy.Platform.{Platform}
use cimd_proxy.Cli.Confined.{Confined}
